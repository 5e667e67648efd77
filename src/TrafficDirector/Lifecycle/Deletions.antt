-- ===== src/TrafficDirector/Lifecycle/Deletions.antt =====
-- What `TrafficDirectorManager.cleanup` has to delete, and the parts of the proof that it does.
use psm_interop.Common.{
  ◌≡◌, refl, ap, subst, ◌∙◌, inl, inr, String, Option, none, some, List, [], ◌∷◌, ◌++◌,
}
use psm_interop.Common.Effects.{
  Outcome, returned, raised, Effect, pure, continue, Outcome-cases, ◌>>◌,
}
use psm_interop.Errors.{Exception}
use psm_interop.Retryers.Tenacity.{Tenacity}
use psm_interop.Gcp.Compute.{Collection, ComputeApi, delete_resource}
use psm_interop.TrafficDirector.{Manager, State, Method, delete_named}

-- A request to delete a resource.
pub record Deletion : Type 0 where
  pub collection : Collection
  pub name : String
  pub region : Option String

abbrev pub named : Collection → (region : Option String) → Option String → List Deletion
named collection region none = []
named collection region (some name) =
    record { collection = collection; name = name; region = region } ∷ []

abbrev pub forget_if : Option String → (Manager → Manager) → Manager → Manager
forget_if none forget m = m
forget_if (some name) forget m = forget m

module _ {W : Type 0} (tenacity : Tenacity) (api : ComputeApi W) where
  -- The requests in turn; the first that raises ends them.
  unfoldable pub perform : List Deletion → Effect W Exception (Unit {0})
  perform [] = pure tt
  perform (d ∷ ds) = do delete_resource tenacity api d.collection d.name d.region; perform ds

  perform-append :
      (ds es : List Deletion) (w : W) → perform (ds ++ es) w ≡ (perform ds >> perform es) w
  unfolding perform
  perform-append [] es w = refl
  perform-append (d ∷ ds) es w =
      let answer = delete_resource tenacity api d.collection d.name d.region w in
      elim (Outcome-cases answer.0) [
        | inl (ok, e) ↦ rw e (perform-append ds es answer.1)
        | inr (x, e) ↦ rw e refl
      ]

  -- A method that makes these requests and, when it returns, leaves the manager as `after` says.
  pub record Ends (end : Outcome Exception (Unit {0}) × State W) (s : State W) (ds : List Deletion)
      (after : Manager) : Type 0 where
    pub ran : perform ds s.world ≡ (end.0, end.1.world)
    pub manager : end.0 ≡ returned tt → end.1.manager ≡ after

  abbrev pub Does : Method W (Unit {0}) → (Manager → List Deletion) → (Manager → Manager) → Type 0
  Does m ds f = (s : State W) → Ends (m s) s (ds s.manager) (f s.manager)

  perform-one :
      (c : Collection) (name : String) (r : Option String) (w : W)
      → perform (record { collection = c; name = name; region = r } ∷ []) w
        ≡ (do delete_resource tenacity api c name r; pure tt) w
  unfolding perform
  perform-one c name r w = refl

  append-after :
      (ds es : List Deletion) (w u : W) (o : Outcome Exception (Unit {0}))
      → perform ds w ≡ (o, u)
      → perform (ds ++ es) w ≡ continue o (λ _. perform es) u
  append-after ds es w u o e =
      perform-append ds es w ∙ ap (λ end. continue end.0 (λ _. perform es) end.1) e

  then-Ends :
      (end : Outcome Exception (Unit {0}) × State W) (k : Method W (Unit {0})) (s : State W)
      (ds es : List Deletion) (middle after : Manager)
      → Ends end s ds middle
      → (end.1.manager ≡ middle → Ends (k end.1) end.1 es after)
      → Ends (continue end.0 (λ _. k) end.1) s (ds ++ es) after
  then-Ends (returned tt, t) k s ds es middle after h q =
      let next = q (h.manager refl) in
      record {
        ran = append-after ds es s.world t.world (returned tt) h.ran ∙ next.ran;
        manager = next.manager;
      }
  then-Ends (raised x, t) k s ds es middle after h q = record {
    ran = append-after ds es s.world t.world (raised x) h.ran;
    manager = λ e. cc;
  }

  -- The requests of two methods in a row.
  pub then-Does :
      (m k : Method W (Unit {0})) (ds es : Manager → List Deletion) (f g : Manager → Manager)
      → Does m ds f
      → Does k es g
      → Does (m >> k) (λ x. ds x ++ es (f x)) (λ x. g (f x))
  then-Does m k ds es f g does next s =
      then-Ends (m s) k s (ds s.manager) (es (f s.manager)) (f s.manager) (g (f s.manager)) (does s)
        (λ e. subst (λ x. Ends (k (m s).1) (m s).1 (es x) (g x)) e (next (m s).1))

  -- A method that deletes the resource of a name, if there is one.
  pub delete_named-Ends :
      (n : Option String) (c : Collection) (r : Option String) (forget : Manager → Manager)
      (after : Manager) (s : State W)
      → forget_if n forget s.manager ≡ after
      → Ends
          (delete_named n (λ name. do delete_resource tenacity api c name r; pure tt) forget s)
          s
          (named c r n)
          after
  unfolding delete_named perform
  delete_named-Ends none c r forget after s e = record { ran = refl; manager = λ h. e }
  delete_named-Ends (some name) c r forget after s e =
      let answer = delete_resource tenacity api c name r s.world in
      elim (Outcome-cases answer.0) [
        | inl (ok, h) ↦ rw h (record { ran = rw h refl; manager = λ q. e })
        | inr (x, h) ↦ rw h (record { ran = rw h refl; manager = λ q. cc })
      ]
