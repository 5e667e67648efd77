-- ===== src/TrafficDirector/Ports.antt =====
-- The search for a free port, framework/infrastructure/traffic_director.py.
use psm_interop.Common.{
  String, Option, none, some, List, [], ◌∷◌, if◌then◌else◌, is_some, ◌≡◌, ℕ, zero, suc, ◌<◌, sym,
  ap, subst, ◌∙◌, Bool, true, false, arith, inl, inr,
}
use psm_interop.Common.Effects.{
  lift, bind-returned, raised, returned-injective, raised-ne-returned, Outcome, returned,
  Outcome-cases,
}
use psm_interop.Common.Decimal.{decimal}
use psm_interop.Errors.{Exception, value_error}
use psm_interop.Retryers.Tenacity.{Tenacity}
use Prim.Native.String.{◌++◌}
use psm_interop.Gcp.Compute.{
  ComputeApi, ListResponse, ResourceResponse, is_non_empty, exists_in, exists_resource, retried,
  in_region, region_arg, forwarding_rules, global_forwarding_rules,
}
use psm_interop.Gcp.Compute.Methods.{exists_forwarding_rule}
use psm_interop.TrafficDirector.{State}
use psm_interop.TrafficDirector.Forwarding.{find_unused_forwarding_rule_port}

abbrev HasNone : {A : Type 0} → Option (List A) → Type 0
HasNone none = Unit
HasNone (some []) = Unit
HasNone (some (x ∷ xs)) = ⊥

-- A list response without items.
abbrev pub IsEmptyList : ListResponse → Type 0
IsEmptyList response = HasNone response.items

exists_in-false :
    (response : ListResponse) → exists_in response ≡ returned false → IsEmptyList response
exists_in-false response h = split response.kind response.items h
  where
    split :
        (kind : Option String) (items : Option (List ResourceResponse))
        → (if is_some kind then returned (is_non_empty items) else raised value_error)
          ≡ returned false
        → HasNone items
    split none items q = absurd (cc)
    split (some kind) none q = tt
    split (some kind) (some []) q = tt
    split (some kind) (some (x ∷ xs)) q = absurd (cc)

module _ {W : Type 0} (tenacity : Tenacity) (api : ComputeApi W) (draw : ℕ → ℕ) where
  abbrev asks : ℕ → State W → Outcome Exception Bool × W
  asks i s =
      exists_forwarding_rule tenacity api (decimal (draw i)) s.manager.settings.region s.world

  -- The last listing of the forwarding rules whose port range is the port alone has no item.
  abbrev pub NoneListed : (port : ℕ) → (region : Option String) → (w w' : W) → Type 0
  NoneListed port region w w' =
      (response : ListResponse) × (retried tenacity api
          (api.list (in_region region forwarding_rules global_forwarding_rules) (region_arg region)
            (some (
              "(portRange eq \""
              ++ decimal port
              ++ "-"
              ++ decimal port
              ++ "\") (IPAddress eq \"0.0.0.0\")(loadBalancingScheme eq \"INTERNAL_SELF_MANAGED\")")))
          w
        ≡ (returned response, w'))
      × IsEmptyList response

  exists_forwarding_rule-NoneListed :
      (port : ℕ) (region : Option String) (w w' : W)
      → exists_forwarding_rule tenacity api (decimal port) region w ≡ (returned false, w')
      → NoneListed port region w w'
  unfolding exists_forwarding_rule exists_resource
  exists_forwarding_rule-NoneListed port region w w' h =
      let (response, u, listed, empty) =
        bind-returned
          (retried tenacity api (
            api.list (in_region region forwarding_rules global_forwarding_rules) (region_arg region)
              (some (
                "(portRange eq \""
                ++ decimal port
                ++ "-"
                ++ decimal port
                ++ "\") (IPAddress eq \"0.0.0.0\")(loadBalancingScheme eq \"INTERNAL_SELF_MANAGED\")"))))
          (λ response. lift (exists_in response)) w w' false h in
      (
        response,
        cc (listed, ap (λ end. end.1) empty),
        exists_in-false response (ap (λ end. end.0) empty),
      )

  -- A port that was drawn, and for which no forwarding rule was listed at the last question.
  abbrev pub Unused : (attempts : ℕ) → (port : ℕ) → (s s' : State W) → Type 0
  Unused attempts port s s' =
      (i : ℕ) × (w : W) × (i < attempts)
      × (port ≡ draw i)
      × NoneListed port s.manager.settings.region w s'.world
      × (s'.manager ≡ s.manager)

  -- A port that the search returns is one of those drawn; the last listing, of the forwarding rules that have
  -- this port alone as their range, the address 0.0.0.0 and the scheme INTERNAL_SELF_MANAGED, had no item; and
  -- the manager is as it was. Rules with a range of several ports are not asked for.
  pub find_unused_forwarding_rule_port-Unused :
      (attempts port : ℕ) (s s' : State W)
      → find_unused_forwarding_rule_port tenacity api draw attempts s ≡ (returned port, s')
      → Unused attempts port s s'
  unfolding find_unused_forwarding_rule_port
  find_unused_forwarding_rule_port-Unused zero port s s' h = cc
  find_unused_forwarding_rule_port-Unused (suc n) port s s' h =
      let t : State W = record s { world = (asks n s).1 } in
      elim (Outcome-cases (asks n s).0) [
        | inl (true, e) ↦
            let (i, w, lt, drawn, free, kept) =
              find_unused_forwarding_rule_port-Unused n port t s' (rw e at h) in
            (i, w, omega arith, drawn, free, kept)
        | inl (false, e) ↦
            let h' = rw e at h in
            let p = returned-injective (ap (λ end. end.0) h') in
            let st = ap (λ end. end.1) h' in
            let free : asks n s ≡ (returned false, s'.world) =
              ap (λ o. (o, (asks n s).1)) e ∙ ap (λ u. (returned false, u.world)) st in
            (
              n,
              s.world,
              omega arith,
              sym p,
              exists_forwarding_rule-NoneListed port s.manager.settings.region s.world s'.world (
                  subst
                    (λ q.
                      exists_forwarding_rule tenacity api (decimal q) s.manager.settings.region
                        s.world
                      ≡ (returned false, s'.world))
                    p free),
              sym (ap (λ u. u.manager) st),
            )
        | inr (x, e) ↦ absurd (raised-ne-returned (rw e at h))
      ]
