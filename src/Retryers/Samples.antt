-- ===== src/Retryers/Samples.antt =====
-- Policies of framework/helpers/retryers.py on concrete calls.
use psm_interop.Common.{
  ℕ, ◌+◌, ◌≡◌, refl, Bool, true, false, [], ◌∷◌, none, some, ltb, if◌then◌else◌,
}
use psm_interop.Common.Effects.{returned, raised, Effect}
use psm_interop.Errors.{Exception, any_exception, httplib2_error, value_error, retry_error}
use psm_interop.Retryers.{
  CheckResultFn, Retrying, retry_if_exception_type, retry_if_not_result, wait_fixed,
  stop_after_attempt, safe_check_result, build_retry_conditions, constant_retryer,
  exponential_retryer_with_attempts, error_handler,
}
use psm_interop.Retryers.Tenacity.{Tenacity, wants_retry}
use psm_interop.Retryers.Loop.{loop}
use psm_interop.Retryers.Policies.{tries, run-eq-tries, IsAccepted, constant_retryer-IsAccepted}

-- A call that fails until its world, a count of calls, reaches two.
abbrev flaky : Effect ℕ Exception ℕ
flaky n = if ltb n 2 then (raised httplib2_error, n + 1) else (returned n, n + 1)

abbrev on_httplib2 : Exception → Bool
on_httplib2 httplib2_error = true
on_httplib2 _ = false

run-eq-tries_example :
    Tenacity.run loop ℕ ℕ (exponential_retryer_with_attempts 1 10 3 none (some on_httplib2)) flaky 0
    ≡ tries on_httplib2 2 flaky 0
run-eq-tries_example = run-eq-tries loop on_httplib2 1 10 2 flaky 0

tries-flaky : tries on_httplib2 2 flaky 0 ≡ (returned 2, 3)
unfolding tries
tries-flaky = refl

tries_exhausted : tries on_httplib2 1 flaky 0 ≡ (raised (retry_error httplib2_error), 2)
unfolding tries error_handler
tries_exhausted = refl

-- A check that wants three and fails on one.
abbrev wants_three : CheckResultFn ℕ
wants_three n = if ltb n 2 then raised value_error else returned (ltb 2 n)

abbrev counting : Effect ℕ Exception ℕ
counting n = (returned n, n + 1)

abbrev policy : Retrying ℕ
policy = record {
  retry =
      retry_if_exception_type (any_exception ∷ [])
      ∷ retry_if_not_result (safe_check_result wants_three (any_exception ∷ []))
      ∷ [];
  wait = wait_fixed 1;
  stop = stop_after_attempt 5 ∷ [];
  on_error = record { timeout = none; attempts = 5; checks_result = true };
  reraise = false;
}

policy-built : constant_retryer 1 5 none none (some wants_three) ≡ returned policy
unfolding constant_retryer build_retry_conditions
policy-built = refl

constant_retryer-IsAccepted_example :
    IsAccepted wants_three (Tenacity.run loop ℕ ℕ policy counting 0).0
constant_retryer-IsAccepted_example =
    constant_retryer-IsAccepted loop wants_three 1 5 none policy counting 0 policy-built

counting_to_three : Tenacity.run loop ℕ ℕ policy counting 0 ≡ (returned 3, 4)
unfolding loop wants_retry safe_check_result error_handler
counting_to_three = refl
