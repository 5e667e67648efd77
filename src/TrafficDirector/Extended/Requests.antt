-- ===== src/TrafficDirector/Extended/Requests.antt =====
-- The requests that a method makes, and the manager that it leaves: for the cleanups of the managers that
-- extend TrafficDirectorManager.
use psm_interop.Objects.{itself, inherited, ObjectMethod, Object}
use psm_interop.TrafficDirector.Lifecycle.Cleanup.{cleanup-Does, cleared, deletions}
use psm_interop.TrafficDirector.Lifecycle.Deletions.{perform}
use psm_interop.TrafficDirector.Lifecycle.{cleanup}
use psm_interop.Gcp.Compute.{ComputeApi}
use psm_interop.Retryers.Tenacity.{Tenacity}
use psm_interop.Errors.{Exception}
use psm_interop.Common.{
  sym, true, false, Bool, String, ◌≡◌, refl, ap, ◌∙◌, subst, inl, inr, Option, none, some,
}
use psm_interop.Common.Effects.{
  Outcome, returned, raised, Effect, pure, continue, Outcome-cases, ◌>>=◌, ◌>>◌,
}
use psm_interop.TrafficDirector.Extended.{own_name, chosen_name, Settings, plain, delete_chosen}

abbrev Request : Type 0 → Type 0
Request W = Effect W Exception (Unit {0})

abbrev pub if_named : {W A : Type 0} → Option String → (String → Effect W Exception A) → Request W
if_named none delete = pure tt
if_named (some name) delete = do delete name; pure tt

abbrev pub forgotten : {M : Type 0} → Option String → (M → M) → M → M
forgotten none forget m = m
forgotten (some name) forget m = forget m

module _ {M : Type 0} where
  -- What a method that has returned leaves.
  abbrev pub Leaves : Outcome Exception (Unit {0}) → (left after : M) → Type 0
  Leaves (returned x) left after = left ≡ after
  Leaves (raised e) left after = Unit

  leaves :
      (o : Outcome Exception (Unit {0})) (left after : M)
      → (o ≡ returned tt → left ≡ after)
      → Leaves o left after
  leaves (returned x) left after h = h refl
  leaves (raised e) left after h = tt

module _ {M W : Type 0} where
  -- From `s`, the request `r` has been made, and a return leaves the manager `after`.
  pub record Requested (end : Outcome Exception (Unit {0}) × Object M W) (s : Object M W)
      (r : Request W) (after : M) : Type 0 where
    pub made : r s.world ≡ (end.0, end.1.world)
    pub manager : end.0 ≡ returned tt → end.1.manager ≡ after

  -- From `s`, the method does to the world what the request does, and leaves `after` if it returns.
  abbrev pub Fulfils : ObjectMethod M W (Unit {0}) → Object M W → Request W → (after : M) → Type 0
  Fulfils method s r after =
      (r s.world ≡ ((method s).0, (method s).1.world))
      × Leaves (method s).0 (method s).1.manager after

  abbrev pub Requests : ObjectMethod M W (Unit {0}) → (M → Request W) → (M → M) → Type 0
  Requests method r f = (s : Object M W) → Requested (method s) s (r s.manager) (f s.manager)

  pub Requests-Fulfils :
      (method : ObjectMethod M W (Unit {0})) (r : M → Request W) (f : M → M)
      → Requests method r f
      → (s : Object M W) → Fulfils method s (r s.manager) (f s.manager)
  Requests-Fulfils method r f does s =
      ((does s).made, leaves (method s).0 (method s).1.manager (f s.manager) (does s).manager)

  then-Requested :
      (end : Outcome Exception (Unit {0}) × Object M W) (k : ObjectMethod M W (Unit {0}))
      (s : Object M W) (r q : Request W) (middle after : M)
      → Requested end s r middle
      → (end.1.manager ≡ middle → Requested (k end.1) end.1 q after)
      → Requested (continue end.0 (λ _. k) end.1) s (r >> q) after
  then-Requested (returned tt, t) k s r q middle after h next =
      let n = next (h.manager refl) in
      record {
        made = ap (λ end. continue end.0 (λ _. q) end.1) h.made ∙ n.made;
        manager = n.manager;
      }
  then-Requested (raised x, t) k s r q middle after h next = record {
    made = ap (λ end. continue end.0 (λ _. q) end.1) h.made;
    manager = λ e. cc;
  }

  pub then-Requests :
      (m k : ObjectMethod M W (Unit {0})) (r q : M → Request W) (f g : M → M)
      → Requests m r f
      → Requests k q g
      → Requests (m >> k) (λ x. r x >> q (f x)) (λ x. g (f x))
  then-Requests m k r q f g first next s =
      then-Requested (m s) k s (r s.manager) (q (f s.manager)) (f s.manager) (g (f s.manager))
        (first s) (λ e. subst (λ x. Requested (k (m s).1) (m s).1 (q x) (g x)) e (next (m s).1))

  pub delete_chosen-Requested :
      {A : Type 0} (n : Option String) (delete : String → Effect W Exception A) (forget : M → M)
      (s : Object M W)
      → Requested
          (delete_chosen n delete forget s)
          s
          (if_named n delete)
          (forgotten n forget s.manager)
  unfolding delete_chosen
  delete_chosen-Requested none delete forget s = record { made = refl; manager = λ h. refl }
  delete_chosen-Requested (some name) delete forget s =
      elim (Outcome-cases (delete name s.world).0) [
        | inl (a, h) ↦ rw h (record { made = rw h refl; manager = λ q. refl })
        | inr (x, h) ↦ rw h (record { made = rw h refl; manager = λ q. cc })
      ]

module _ {M R : Type 0} (set : Option R → M) (forget : M → M)
    (same : (x : Option R) → forget (set x) ≡ set none) where
  -- A field after its deletion, whether there was a resource or not.
  forgotten-set :
      (force : Bool) (settings : Settings) (name : String) (name_of : R → String) (r : Option R)
      → forgotten (chosen_name force settings name (own_name name_of r)) forget (set r) ≡ set none
  forgotten-set true settings name name_of r = same r
  forgotten-set false settings name name_of none = refl
  forgotten-set false settings name name_of (some r) = same (some r)

module _ {M R W A : Type 0} (set : M → Option R → M) (own : M → Option R) (settings : M → Settings)
    (name_of : R → String) (kept : (m : M) → set m (own m) ≡ m)
    (same : (m : M) (x : Option R) → set (set m x) none ≡ set m none) where
  -- A `delete_*` method asks for its resource by the name that is chosen, and the field is none after.
  pub delete_chosen-Requests :
      (force : Bool) (name : String) (delete : M → String → Effect W Exception A)
      → Requests
          (do
            m ← itself
            delete_chosen
                (chosen_name force (settings m) name (own_name name_of (own m)))
                (delete m)
                (λ m'. set m' none))
          (λ m.
            if_named (chosen_name force (settings m) name (own_name name_of (own m))) (delete m))
          (λ m. set m none)
  delete_chosen-Requests force name delete s =
      let m = s.manager in
      let n = chosen_name force (settings m) name (own_name name_of (own m)) in
      let d = delete_chosen-Requested n (delete m) (λ m'. set m' none) s in
      record {
        made = d.made;
        manager = λ e.
            d.manager e
            ∙ ap (forgotten n (λ m'. set m' none)) (sym (kept m))
            ∙ forgotten-set (set m) (λ m'. set m' none) (same m) force (settings m) name name_of
                (own m);
      }

module _ {M B W : Type 0} (base : M → B) (with_base : M → B → M) where
  pub inherited-Requests :
      (method : ObjectMethod B W (Unit {0})) (r : B → Request W) (f : B → B)
      → Requests method r f
      → Requests (inherited base with_base method) (λ x. r (base x)) (λ x. with_base x (f (base x)))
  unfolding inherited
  inherited-Requests method r f does s =
      let d = does (record { manager = base s.manager; world = s.world }) in
      record { made = d.made; manager = λ e. ap (λ x. with_base s.manager x) (d.manager e) }

module _ {W : Type 0} (tenacity : Tenacity) (api : ComputeApi W) where
  pub cleanup-Requests :
      (force : Bool)
      → Requests
          (plain (cleanup tenacity api force))
          (λ m. perform tenacity api (deletions force m))
          (cleared force)
  unfolding plain
  cleanup-Requests force s =
      let d = cleanup-Does tenacity api force (record { manager = s.manager; world = s.world }) in
      record { made = d.ran; manager = d.manager }
