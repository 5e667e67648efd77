-- ===== src/Gcp/Compute/Health/Wait.antt =====
-- What `wait_for_backends_healthy_status`, framework/infrastructure/gcp/compute.py, has seen when it
-- returns.
use psm_interop.Gcp.Compute.Health.Seen.{retry_backends_health-Seen, start-Seen, Seen}
use psm_interop.Common.{
  ◌⊎◌, ◌∷◌, ℕ, ◌≡◌, ◌≢◌, refl, ap, subst, String, Bool, true, Option, none, some, List, [], ◌||◌,
  ◌==◌, arith, leb, length, Bool-cases, inl, inr,
}
use psm_interop.Common.Effects.{
  Outcome, returned, raised, Effect, catch, pure, throw, continue, bind-returned,
}
use psm_interop.Errors.{Exception, retry_error, retry_error_of_result}
use psm_interop.Retryers.{Retrying, constant_retryer}
use psm_interop.Retryers.Tenacity.{run-keeps, Tenacity, run-returned}
use psm_interop.Retryers.Policies.{constant_retryer-IsAccepted, constant-stop}
use psm_interop.Gcp.Compute.{GcpResource, Neg, ComputeApi}
use psm_interop.Gcp.Compute.Health.{
  Checks, is_empty_set, retry_backends_health, on_retry_error, run_policy,
  wait_for_backends_healthy_status, collect,
}
use psm_interop.Gcp.Compute.Health.Rounds.{retry_backends_health-returned}

throw_after-ne :
    {S A B : Type 0} (end : Outcome Exception A × S) (x : Exception) (b : B) (s' : S)
    → continue end.0 (λ _. throw x) end.1 ≢ (returned b, s')
throw_after-ne (returned a, s) x b s' h = cc
throw_after-ne (raised e, s) x b s' h = cc

empty_or : (l : List Neg) (b : Bool) → (is_empty_set l || b) ≡ true → (l ≡ []) ⊎ (b ≡ true)
empty_or [] b h = inl refl
empty_or (x ∷ l) b h = inr h

module _ {W : Type 0} (api : ComputeApi W) (service : GcpResource) (region : Option String) where
  abbrev noted : Checks W → Outcome Exception (Unit {0}) × Checks W
  noted s = catch (collect api service region s.pending) (λ _. pure tt) s

  -- The handler raises the error again, whatever becomes of the note.
  on_retry_error-raises :
      (e : Exception) (s s' : Checks W) (b : Bool)
      → on_retry_error api service region e s ≢ (returned b, s')
  on_retry_error-raises (retry_error e) s s' b h = throw_after-ne (noted s) (retry_error e) b s' h
  on_retry_error-raises retry_error_of_result s s' b h =
      throw_after-ne (noted s) retry_error_of_result b s' h
  on_retry_error-raises _ s s' b h = cc

  caught-returned :
      (m : Effect (Checks W) Exception Bool) (s s' : Checks W) (b : Bool)
      → catch m (on_retry_error api service region) s ≡ (returned b, s')
      → m s ≡ (returned b, s')
  caught-returned m s s' b h = split (m s) refl
    where
      split : (end : Outcome Exception Bool × Checks W) → m s ≡ end → end ≡ (returned b, s')
      split (returned a, u) e = rw e at h
      split (raised x, u) e = absurd (on_retry_error-raises x u s' b (rw e at h))

  module _ (tenacity : Tenacity) (timeout_sec wait_sec replica_count : ℕ) where
    abbrev policy : Outcome Exception (Retrying Bool)
    policy = constant_retryer wait_sec 0 (some timeout_sec) none (some (λ b. returned b))

    abbrev Satisfied : (backends : List Neg) → Checks W → Type 0
    Satisfied backends t =
        Seen api service region backends t.pending t.healthy
        × ((t.pending ≡ []) ⊎ (leb replica_count (length t.healthy) ≡ true))

    run_policy-returned :
        (backends : List Neg) (built : Outcome Exception (Retrying Bool)) (s s' : Checks W)
        (b : Bool)
        → policy ≡ built
        → run_policy api service region tenacity replica_count built s ≡ (returned b, s')
        → Seen api service region backends s.pending s.healthy
        → Satisfied backends s'
    run_policy-returned backends (raised e) s s' b p h start = absurd (cc)
    run_policy-returned backends (returned r) s s' b p h start =
        let stops = constant-stop wait_sec 0 (some timeout_sec) (some (λ b. returned b)) r p in
        let ran =
          caught-returned
            (Tenacity.run tenacity (Checks W) Bool r
              (retry_backends_health api service region replica_count))
            s s' b h in
        let kept =
          run-keeps tenacity (λ t. Seen api service region backends t.pending t.healthy) r
            (retry_backends_health api service region replica_count) s stops
            (λ u k. retry_backends_health-Seen api service region backends replica_count u k)
            start in
        let (u, last) =
          run-returned tenacity r (retry_backends_health api service region replica_count) b s s'
            stops ran in
        let accepted =
          constant_retryer-IsAccepted tenacity (λ b. returned b) wait_sec 0 (some timeout_sec) r
            (retry_backends_health api service region replica_count) s p in
        let seen = retry_backends_health-returned api service region replica_count u s' b last in
        let passed : (is_empty_set s'.pending || leb replica_count (length s'.healthy)) ≡ true =
          ground (arith, seen, rw ran at accepted) in
        (
          subst (λ end. Seen api service region backends end.1.pending end.1.healthy) ran kept,
          empty_or s'.pending (leb replica_count (length s'.healthy)) passed,
        )

    -- When the wait returns, each of the backends is in one of its two sets, nothing else is, each of those in
    -- the set of the healthy ones has been asked for and had only healthy instances in the answer, none is
    -- there twice, and no backend is pending or `replica_count` of them are in the set of the healthy ones.
    pub wait-healthy :
        (backends : List Neg) (s s' : Checks W)
        → wait_for_backends_healthy_status api service region tenacity backends timeout_sec wait_sec
            replica_count s
          ≡ (returned tt, s')
        → Seen api service region backends s'.pending s'.healthy
          × ((s'.pending ≡ []) ⊎ (leb replica_count (length s'.healthy) ≡ true))
    unfolding wait_for_backends_healthy_status
    wait-healthy backends s s' h = elim (Bool-cases (is_empty_set backends || replica_count == 0)) [
      | inl refused ↦ absurd (ground arith)
      | inr taken ↦
          let (b, u, ran, rest) =
            bind-returned (run_policy api service region tenacity replica_count policy)
              (λ _. pure tt) (record s { pending = backends; healthy = [] }) s' tt
              (rw taken at h) in
          run_policy-returned backends policy (record s { pending = backends; healthy = [] }) s' b
            refl
            (subst
              (λ t.
                run_policy api service region tenacity replica_count policy
                  (record s { pending = backends; healthy = [] })
                ≡ (returned b, t))
              (ap (λ end. end.1) rest) ran)
            (start-Seen api service region backends)
    ]
