-- ===== src/Gcp/Throttled/Repeats.antt =====
-- What the workaround for throttled operations does to a change of a resource: framework/infrastructure/
-- gcp/network_services.py and network_security.py.
use psm_interop.Errors.{operation_error, Exception}
use psm_interop.Common.Effects.{Outcome, returned, raised, Effect}
use psm_interop.Common.{ap, false, [], ==→≡, ℕ, suc, String, ◌≡◌, ◌≢◌, true, arith}
use psm_interop.Retryers.Tenacity.{
  Tenacity, Attempts, done, broke, stopped, again, wants_retry, asks,
}
use psm_interop.Retryers.{Retrying}
use psm_interop.Gcp.Standard.{LongOperation, StandardApi}
use psm_interop.Gcp.Standard
use psm_interop.Gcp.Throttled.{operation_internal_error, internal_retryer, execute}

-- An OperationError with the code 13, INTERNAL.
abbrev pub IsInternal : Outcome Exception (Unit {0}) → Type 0
IsInternal o = o ≡ raised (operation_error 13)

-- From the world `w` to `u`, the call has been made `k` times, each time with an internal error.
pub data Repeats {W : Type 0} (m : Effect W Exception (Unit {0})) (u : W) : ℕ → W → Type 0 where
  last : Repeats m u 0 u
  more : {k : ℕ} {w : W} → IsInternal (m w).0 → Repeats m u k (m w).1 → Repeats m u (suc k) w

-- A run of a policy that no stop condition has ended.
unfoldable pub InTime :
    {W A : Type 0} {r : Retrying A} {m : Effect W Exception A} {out : Outcome Exception A × W}
    {n : ℕ} {w : W}
    → Attempts r m out n w
    → Type 0
InTime (done q e) = Unit
InTime (broke x q e) = Unit
InTime (stopped q s e) = ⊥
InTime (again q s t) = InTime t

IsInternal-code : (e : Exception) → operation_internal_error e ≡ true → IsInternal (raised e)
unfolding operation_internal_error
IsInternal-code (operation_error code) h = ap (λ c. raised (operation_error c)) (==→≡ code 13 h)
IsInternal-code _ h = absurd (cc)

wants_retry-IsInternal :
    (o : Outcome Exception (Unit {0}))
    → wants_retry (internal_retryer {A = Unit {0}}).retry o ≡ returned true
    → IsInternal o
unfolding internal_retryer wants_retry asks
wants_retry-IsInternal (returned a) h = ground arith
wants_retry-IsInternal (raised e) h = IsInternal-code e (ground arith)

-- An outcome that is not tried again is no internal error.
settled-ne-IsInternal :
    (o : Outcome Exception (Unit {0}))
    → wants_retry (internal_retryer {A = Unit {0}}).retry o ≡ returned false
    → ¬ IsInternal o
unfolding internal_retryer wants_retry asks operation_internal_error
settled-ne-IsInternal o h e = absurd (ground arith)

wants_retry-ne-raised :
    (o : Outcome Exception (Unit {0})) (x : Exception)
    → wants_retry (internal_retryer {A = Unit {0}}).retry o ≢ raised x
unfolding internal_retryer wants_retry asks
wants_retry-ne-raised (returned a) x h = ground arith
wants_retry-ne-raised (raised e) x h = ground arith

pub internal_retryer-stop : (internal_retryer {A = Unit {0}}).stop ≢ []
unfolding internal_retryer
internal_retryer-stop e = cc

module _ {W : Type 0} (m : Effect W Exception (Unit {0}))
    (out : Outcome Exception (Unit {0}) × W) where
  Attempts-Repeats :
      (n : ℕ) (w : W) (t : Attempts internal_retryer m out n w)
      → InTime t
      → (k : ℕ) × (u : W) × Repeats m u k w × (¬ IsInternal (m u).0) × (out ≡ m u)
  unfolding InTime
  Attempts-Repeats n w (done q e) i = (0, w, last, settled-ne-IsInternal (m w).0 q, e)
  Attempts-Repeats n w (broke x q e) i = absurd (wants_retry-ne-raised (m w).0 x q)
  Attempts-Repeats n w (stopped q s e) i = absurd i
  Attempts-Repeats n w (again q s t) i =
      let (k, u, r, settled, e) = Attempts-Repeats (suc n) (m w).1 t i in
      (suc k, u, more (wants_retry-IsInternal (m w).0 q) r, settled, e)

module _ {W Resource : Type 0} (tenacity : Tenacity) (api : StandardApi W Resource)
    (project : String) where
  -- The run that the library makes of a change of a resource.
  abbrev pub the_run :
      (request : Effect W Exception LongOperation) (w : W)
      → Attempts internal_retryer
          (Standard.execute tenacity api project request)
          (execute tenacity api project request w)
          1
          w
  unfolding execute
  the_run request w =
      tenacity.runs W (Unit {0}) internal_retryer (Standard.execute tenacity api project request) w
        internal_retryer-stop

  -- Where no time limit ends the attempts, a change of a resource ends as the first attempt does that does
  -- not raise an OperationError with the code INTERNAL, without a wrapper around the error; every attempt
  -- before it raised one.
  pub execute-Repeats :
      (request : Effect W Exception LongOperation) (w : W)
      → InTime (the_run request w)
      → (k : ℕ) × (u : W) × Repeats (Standard.execute tenacity api project request) u k w
        × (¬ IsInternal (Standard.execute tenacity api project request u).0)
        × (execute tenacity api project request w ≡ Standard.execute tenacity api project request u)
  execute-Repeats request w in_time =
      Attempts-Repeats (Standard.execute tenacity api project request)
        (execute tenacity api project request w) 1 w (the_run request w) in_time
