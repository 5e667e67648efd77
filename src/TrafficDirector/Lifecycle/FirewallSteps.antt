-- ===== src/TrafficDirector/Lifecycle/FirewallSteps.antt =====
-- The requests that `TrafficDirectorManager` makes to delete the firewall rules, and what it does to its
-- fields.
use psm_interop.Common.{
  ◌≡◌, refl, ap, inl, inr, String, Bool, true, false, Option, none, some, List, [], ◌++◌,
  if◌then◌else◌,
}
use psm_interop.Common.Effects.{Outcome, returned, raised, pure, handle, Outcome-cases}
use psm_interop.Errors.{Exception, http_error}
use psm_interop.Retryers.Tenacity.{Tenacity}
use psm_interop.Gcp.Compute.{GcpResource, firewalls, ComputeApi, delete_resource, not_deleted}
use psm_interop.Gcp.Compute.Methods
use psm_interop.TrafficDirector.{Settings, Manager, State, update}
use psm_interop.TrafficDirector.Firewall.{
  delete_one, name_of, delete_if_named, delete_firewall_rule, delete_firewall_rule_ipv6,
  delete_firewall_rules, delete_both,
}
use psm_interop.TrafficDirector.Lifecycle.Deletions.{
  Deletion, named, forget_if, perform, Ends, Does, then-Does,
}

-- An exception that passes the handler of `_delete_resource` passes the same handler again.
passes_again :
    {W : Type 0} (end : Outcome Exception Bool × W) (x : Exception) (u : W)
    → (handle end.0 not_deleted end.1).0 ≡ raised x
    → not_deleted x u ≡ (raised x, u)
passes_again (returned a, w) x u h = cc
passes_again (raised (http_error r), w) x u h = cc
passes_again (raised _, w) (http_error r) u h = cc
passes_again (raised _, w) _ u h = refl

module _ {W : Type 0} (tenacity : Tenacity) (api : ComputeApi W) where
  delete_resource-passes :
      (name : String) (w : W) (x : Exception) (u : W)
      → (delete_resource tenacity api firewalls name none w).0 ≡ raised x
      → not_deleted x u ≡ (raised x, u)
  unfolding delete_resource
  delete_resource-passes name w x u h = passes_again _ x u h

  delete_if_named-Ends :
      (n : Option String) (forget : Manager → Manager) (after : Manager) (s : State W)
      → forget_if n forget s.manager ≡ after
      → Ends tenacity api (delete_if_named tenacity api n forget s) s (named firewalls none n) after
  unfolding delete_one perform Methods.delete_firewall_rule
  delete_if_named-Ends none forget after s e = record { ran = refl; manager = λ h. e }
  delete_if_named-Ends (some name) forget after s e =
      let answer = delete_resource tenacity api firewalls name none s.world in
      elim (Outcome-cases answer.0) [
        | inl (ok, h) ↦ rw h (record { ran = rw h refl; manager = λ q. e })
        | inr (x, h) ↦ rw h (
            rw (delete_resource-passes name s.world x answer.1 h)
              (record { ran = rw h refl; manager = λ q. cc }))
      ]

-- What a firewall rule is after the deletions: they are skipped unless the manager has made one.
abbrev pub firewall_left : Bool → Option GcpResource → Option GcpResource
firewall_left true rule = none
firewall_left false rule = rule

abbrev rule_requests : (force made : Bool) → Manager → List Deletion
rule_requests force true m =
    named firewalls none (name_of force m.settings "allow-health-checks" m.firewall_rule)
    ++ (named firewalls none
          (name_of force m.settings "allow-health-checks-ipv6" m.firewall_rule_ipv6)
        ++ [])
rule_requests force false m = []

abbrev pub firewall_requests : (force : Bool) → Manager → List Deletion
firewall_requests force m = rule_requests force m.ensure_firewall m

forget_rule :
    (force : Bool) (settings : Settings) (name : String) (set : Option GcpResource → Manager)
    (forget : Manager → Manager) (r : Option GcpResource)
    → ((x : Option GcpResource) → forget (set x) ≡ set none)
    → forget_if (name_of force settings name r) forget (set r) ≡ set none
forget_rule force settings name set forget (some r) same = same (some r)
forget_rule true settings name set forget none same = same none
forget_rule false settings name set forget none same = refl

module _ {W : Type 0} (tenacity : Tenacity) (api : ComputeApi W) (force : Bool) where
  update-Does : (f : Manager → Manager) → Does tenacity api (update f) (λ _. []) f
  unfolding perform
  update-Does f s = record { ran = refl; manager = λ h. refl }

  delete_firewall_rule-Does :
      Does tenacity api
        (delete_firewall_rule tenacity api force)
        (λ m. named firewalls none (name_of force m.settings "allow-health-checks" m.firewall_rule))
        (λ m. record m { firewall_rule = none })
  unfolding delete_firewall_rule
  delete_firewall_rule-Does s =
      let m = s.manager in
      delete_if_named-Ends tenacity api
        (name_of force m.settings "allow-health-checks" m.firewall_rule)
        (λ m'. record m' { firewall_rule = none }) _ s
        (forget_rule force m.settings "allow-health-checks" (λ v. record m { firewall_rule = v })
          (λ m'. record m' { firewall_rule = none }) m.firewall_rule (λ _. refl))

  delete_firewall_rule_ipv6-Does :
      Does tenacity api
        (delete_firewall_rule_ipv6 tenacity api force)
        (λ m.
          named firewalls none
            (name_of force m.settings "allow-health-checks-ipv6" m.firewall_rule_ipv6))
        (λ m. record m { firewall_rule_ipv6 = none })
  unfolding delete_firewall_rule_ipv6
  delete_firewall_rule_ipv6-Does s =
      let m = s.manager in
      delete_if_named-Ends tenacity api
        (name_of force m.settings "allow-health-checks-ipv6" m.firewall_rule_ipv6)
        (λ m'. record m' { firewall_rule_ipv6 = none }) _ s
        (forget_rule force m.settings "allow-health-checks-ipv6"
          (λ v. record m { firewall_rule_ipv6 = v }) (λ m'. record m' { firewall_rule_ipv6 = none })
          m.firewall_rule_ipv6 (λ _. refl))

  delete_both-Does :
      Does tenacity api
        (delete_both tenacity api force)
        (rule_requests force true)
        (λ m. record m { firewall_rule = none; firewall_rule_ipv6 = none; ensure_firewall = false })
  delete_both-Does = then-Does tenacity api _ _ _ _ _ _ delete_firewall_rule-Does (
      then-Does tenacity api _ _ _ _ _ _ delete_firewall_rule_ipv6-Does
        (update-Does (λ m. record m { ensure_firewall = false })))

  abbrev rules_left : Bool → Manager → Manager
  rules_left made m = record m {
    firewall_rule = firewall_left made m.firewall_rule;
    firewall_rule_ipv6 = firewall_left made m.firewall_rule_ipv6;
    ensure_firewall = false;
  }

  rules-Does :
      (made : Bool) (s : State W)
      → s.manager.ensure_firewall ≡ made
      → Ends tenacity api
          ((if made then delete_both tenacity api force else pure tt) s)
          s
          (rule_requests force made s.manager)
          (rules_left made s.manager)
  unfolding perform
  rules-Does true s e = delete_both-Does s
  rules-Does false s e = record {
    ran = refl;
    manager = λ h. ap (λ b. record s.manager { ensure_firewall = b }) e;
  }

  pub delete_firewall_rules-Does :
      Does tenacity api (delete_firewall_rules tenacity api force) (firewall_requests force) (λ m.
        record m {
          firewall_rule = firewall_left m.ensure_firewall m.firewall_rule;
          firewall_rule_ipv6 = firewall_left m.ensure_firewall m.firewall_rule_ipv6;
          ensure_firewall = false;
        })
  unfolding delete_firewall_rules
  delete_firewall_rules-Does s = rules-Does s.manager.ensure_firewall s refl
