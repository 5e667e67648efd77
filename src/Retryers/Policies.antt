-- ===== src/Retryers/Policies.antt =====
-- What tenacity makes of the policies of framework/helpers/retryers.py.
use psm_interop.Common.{
  ℕ, zero, suc, ◌+◌, ◌≡◌, ◌≢◌, refl, Bool, true, false, Option, none, some, List, [], arith,
  if◌then◌else◌,
}
use psm_interop.Common.Effects.{Outcome, returned, raised, Effect}
use psm_interop.Errors.{Exception, is_retry_error}
use psm_interop.Retryers.{
  RetryBase, CheckResultFn, Retrying, build_retry_conditions, exponential_retryer_with_attempts,
  constant_retryer, safe_check_result, error_handler, exhausted,
}
use psm_interop.Retryers.Tenacity.{
  Tenacity, Attempts, done, broke, stopped, again, wants_retry, may_stop, must_stop,
}

abbrev pub fails_with : {A : Type 0} → (Exception → Bool) → Outcome Exception A → Bool
fails_with p (returned a) = false
fails_with p (raised e) = p e

-- A call that is made again, `k` times at most, while it raises what `p` accepts.
unfoldable pub tries :
    {W A : Type 0} → (Exception → Bool) → ℕ → Effect W Exception A → Effect W Exception A
tries p zero m w = if fails_with p (m w).0 then (raised (error_handler (m w).0), (m w).1) else m w
tries p (suc k) m w = elim (fails_with p (m w).0) [ true ↦ tries p k m (m w).1 | false ↦ m w ]

module _ {A : Type 0} (p : Exception → Bool) (wait_min wait_max : ℕ) where
  abbrev policy : ℕ → Retrying A
  policy attempts = exponential_retryer_with_attempts wait_min wait_max attempts none (some p)

  policy-wants_retry :
      (attempts : ℕ) (o : Outcome Exception A)
      → wants_retry (policy attempts).retry o ≡ returned (fails_with p o)
  unfolding exponential_retryer_with_attempts wants_retry
  policy-wants_retry attempts (returned a) = refl
  policy-wants_retry attempts (raised e) = ground arith

module _ {W A : Type 0} (p : Exception → Bool) (wait_min wait_max : ℕ) where
  Attempts-tries :
      (m : Effect W Exception A) (out : Outcome Exception A × W) (attempts k n : ℕ) (w : W)
      → n + k ≡ attempts
      → Attempts (policy p wait_min wait_max attempts) m out n w
      → out ≡ tries p k m w
  unfolding tries exponential_retryer_with_attempts may_stop must_stop exhausted
  Attempts-tries m out attempts zero n w h (done q e) =
      ground (arith, policy-wants_retry p wait_min wait_max attempts (m w).0)
  Attempts-tries m out attempts (suc k) n w h (done q e) =
      ground (arith, policy-wants_retry p wait_min wait_max attempts (m w).0)
  Attempts-tries m out attempts k n w h (broke x q e) =
      ground (arith, policy-wants_retry p wait_min wait_max attempts (m w).0)
  Attempts-tries m out attempts zero n w h (stopped q s e) =
      ground (arith, policy-wants_retry p wait_min wait_max attempts (m w).0)
  Attempts-tries m out attempts (suc k) n w h (stopped q s e) = absurd (grind arith)
  Attempts-tries m out attempts zero n w h (again q s r) = ground arith
  Attempts-tries m out attempts (suc k) n w h (again q s r) = ground (
    arith,
    policy-wants_retry p wait_min wait_max attempts (m w).0,
    Attempts-tries m out attempts k (suc n) (m w).1 (omega arith) r,
  )

-- With `attempts = k + 1` and a predicate, `exponential_retryer_with_attempts` makes the call and up
-- to `k` further ones while they raise what the predicate accepts: the first other outcome is the
-- result, and the error that exhausts the attempts comes back inside a RetryError.
pub run-eq-tries :
    (tenacity : Tenacity) {W A : Type 0} (p : Exception → Bool) (wait_min wait_max k : ℕ)
    (m : Effect W Exception A) (w : W)
    → Tenacity.run tenacity W A
        (exponential_retryer_with_attempts wait_min wait_max (suc k) none (some p))
        m
        w
      ≡ tries p k m w
unfolding exponential_retryer_with_attempts
run-eq-tries tenacity {W} {A} p wait_min wait_max k m w =
    Attempts-tries p wait_min wait_max m _ (suc k) k 1 w (omega arith)
      (tenacity.runs W A (policy p wait_min wait_max (suc k)) m w (λ e. ground arith))

-- A result that the check accepts, or a RetryError.
abbrev pub IsAccepted : {A : Type 0} → CheckResultFn A → Outcome Exception A → Type 0
IsAccepted check (returned a) = check a ≡ returned true
IsAccepted check (raised e) = is_retry_error e ≡ true

module _ {A : Type 0} (check : CheckResultFn A) where
  abbrev conditions : List (RetryBase A)
  conditions = build_retry_conditions none (some check)

  wants_retry-accepts :
      (o : Outcome Exception A) → wants_retry conditions o ≡ returned false → IsAccepted check o
  unfolding build_retry_conditions safe_check_result wants_retry
  wants_retry-accepts (returned a) q = ground arith
  wants_retry-accepts (raised e) q = ground arith

  wants_retry-ne-raised :
      (o : Outcome Exception A) (x : Exception) → wants_retry conditions o ≢ raised x
  unfolding build_retry_conditions safe_check_result wants_retry
  wants_retry-ne-raised (returned a) x q = ground arith
  wants_retry-ne-raised (raised e) x q = ground arith

  error_handler-IsAccepted : (o : Outcome Exception A) → IsAccepted check (raised (error_handler o))
  unfolding error_handler
  error_handler-IsAccepted (returned a) = refl
  error_handler-IsAccepted (raised e) = refl

module _ {A : Type 0} (fixed attempts : ℕ) (timeout : Option ℕ) (check : Option (CheckResultFn A))
    (r : Retrying A) (built : constant_retryer fixed attempts timeout none check ≡ returned r) where
  constant-retry : r.retry ≡ build_retry_conditions none check
  unfolding constant_retryer
  constant-retry = ground arith

  constant-reraise : r.reraise ≡ false
  unfolding constant_retryer
  constant-reraise = ground arith

  pub constant-stop : r.stop ≢ []
  unfolding constant_retryer
  constant-stop e = ground arith

module _ {W A : Type 0} (check : CheckResultFn A) where
  Attempts-IsAccepted :
      (r : Retrying A) (m : Effect W Exception A) (out : Outcome Exception A × W) (n : ℕ) (w : W)
      → r.retry ≡ conditions check
      → r.reraise ≡ false
      → Attempts r m out n w
      → IsAccepted check out.0
  Attempts-IsAccepted r m out n w c k (done q e) =
      rw e (wants_retry-accepts check (m w).0 (rw c at q))
  Attempts-IsAccepted r m out n w c k (broke x q e) =
      absurd (wants_retry-ne-raised check (m w).0 x (rw c at q))
  Attempts-IsAccepted r m out n w c k (stopped q s e) =
      rw e (rw k (unfold exhausted in error_handler-IsAccepted check (m w).0))
  Attempts-IsAccepted r m out n w c k (again q s t) =
      Attempts-IsAccepted r m out (suc n) (m w).1 c k t

-- A `constant_retryer` over all exceptions, with a result check, ends with a result that the check
-- accepts or with a RetryError, whatever the call and the check raise.
pub constant_retryer-IsAccepted :
    (tenacity : Tenacity) {W A : Type 0} (check : CheckResultFn A) (fixed attempts : ℕ)
    (timeout : Option ℕ) (r : Retrying A) (m : Effect W Exception A) (w : W)
    → constant_retryer fixed attempts timeout none (some check) ≡ returned r
    → IsAccepted check (Tenacity.run tenacity W A r m w).0
constant_retryer-IsAccepted tenacity {W} {A} check fixed attempts timeout r m w h =
    Attempts-IsAccepted check r m _ 1 w (constant-retry fixed attempts timeout (some check) r h)
      (constant-reraise fixed attempts timeout (some check) r h)
      (tenacity.runs W A r m w (constant-stop fixed attempts timeout (some check) r h))
