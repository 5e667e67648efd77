-- ===== src/Gcp/Api/Samples.antt =====
-- Requests to the clients of framework/infrastructure/gcp/api.py, on concrete services.
use psm_interop.Common.{ℕ, ◌+◌, ◌≡◌, refl, true, false, some, arith, ltb, if◌then◌else◌}
use psm_interop.Common.Effects.{raised, Effect}
use psm_interop.Errors.{Exception, Response, http_error, response_error}
use psm_interop.Retryers.Loop.{loop}
use psm_interop.Retryers.Tenacity.{wants_retry}
use psm_interop.Retryers.{exponential_retryer_with_attempts}
use psm_interop.Gcp.Api.{is_retryable_api_error, execute, translate_error, get_api_retryer}
use psm_interop.Gcp.Api.Execute.{
  is_low_level, execute-ne-low_level, execute-after, FailsFor, translated,
}

abbrev status : ℕ → Response
status n = record { status = n; truthy = true }

-- Two answers 503, then 404. The world counts the requests.
abbrev busy_then_absent : Effect ℕ Exception ℕ
busy_then_absent n = (raised (http_error (status (if ltb n 2 then 503 else 404))), n + 1)

busy_twice : FailsFor 2 busy_then_absent 0
unfolding is_retryable_api_error
busy_twice = (refl, (refl, tt))

execute-after_example : execute loop (some 10) busy_then_absent 0 ≡ translated (busy_then_absent 2)
execute-after_example =
    execute-after loop 10 2 busy_then_absent 0 (omega arith) busy_twice
      (unfold is_retryable_api_error in refl)

absent : execute loop (some 10) busy_then_absent 0 ≡ (raised (response_error (some 404)), 3)
unfolding execute translate_error get_api_retryer exponential_retryer_with_attempts loop wants_retry
    is_retryable_api_error
absent = refl

execute-ne-low_level_example : is_low_level (response_error (some 404)) ≡ false
unfolding execute translate_error get_api_retryer exponential_retryer_with_attempts loop wants_retry
    is_retryable_api_error
execute-ne-low_level_example =
    execute-ne-low_level loop (some 10) busy_then_absent 0 (response_error (some 404)) refl
