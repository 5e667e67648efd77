-- ===== src/Gcp/Throttled/Samples.antt =====
-- A change whose operation fails once with the code INTERNAL.
use psm_interop.Common.Json.{end, obj}
use psm_interop.Errors.{http_error}
use psm_interop.Common.Effects.{returned, raised}
use psm_interop.Common.{
  ℕ, suc, String, ◌≡◌, refl, true, false, Option, none, some, ◌==◌, if◌then◌else◌,
}
use psm_interop.Retryers.{
  exponential_retryer_with_attempts, build_retry_conditions, error_handler, exhausted,
}
use psm_interop.Retryers.Tenacity.{wants_retry, asks}
use psm_interop.Retryers.Loop.{loop}
use psm_interop.Gcp.Api.{get_api_retryer}
use psm_interop.Gcp.Compute.{operation_retryer}
use psm_interop.Gcp.Standard.{LongOperation, StandardApi, operation_status_done, wait}
use psm_interop.Gcp.Standard
use psm_interop.Gcp.Throttled.{
  execute, internal, internal_retryer, operation_internal_error, create_resource, delete_resource,
}
use psm_interop.Gcp.Throttled.Repeats.{Repeats, InTime, IsInternal, execute-Repeats}

abbrev over : Option ℕ → LongOperation
over code = record { name = some "op"; done = some true; error = code }

-- The world counts the questions for an operation; a deletion in the world 5 finds nothing.
abbrev api : StandardApi ℕ String
api = record {
  create = λ _ _ _ w. (returned (over none), w);
  get = λ name w. (returned name, w);
  delete = λ _ w.
      if w == 5
      then (raised (http_error (record { status = 404; truthy = true })), w)
      else (returned (over none), w);
  get_operation = λ _ w. (returned (over (if w == 0 then some internal else none)), suc w);
}

created_again : create_resource loop api "p" "n" (obj end) none 0 ≡ (returned tt, 2)
unfolding create_resource execute internal_retryer operation_internal_error Standard.execute wait
    operation_retryer operation_status_done get_api_retryer exponential_retryer_with_attempts
    build_retry_conditions loop wants_retry asks error_handler exhausted
created_again = refl

deleted : delete_resource loop api "p" "n" 1 ≡ (returned true, 2)
unfolding delete_resource execute internal_retryer operation_internal_error Standard.execute wait
    operation_retryer operation_status_done get_api_retryer exponential_retryer_with_attempts
    build_retry_conditions loop wants_retry asks error_handler exhausted
deleted = refl

not_there : delete_resource loop api "p" "n" 5 ≡ (returned false, 5)
unfolding delete_resource execute internal_retryer operation_internal_error Standard.execute wait
    operation_retryer operation_status_done get_api_retryer exponential_retryer_with_attempts
    build_retry_conditions loop wants_retry asks error_handler exhausted
    psm_interop.Gcp.Api.is_retryable_api_error
not_there = refl

execute-Repeats_example :
    (k : ℕ) × (u : ℕ) × Repeats (Standard.execute loop api "p" (api.create "" "n" (obj end))) u k 0
    × (¬ IsInternal (Standard.execute loop api "p" (api.create "" "n" (obj end)) u).0)
    × (execute loop api "p" (api.create "" "n" (obj end)) 0
        ≡ Standard.execute loop api "p" (api.create "" "n" (obj end)) u)
unfolding InTime loop execute internal_retryer operation_internal_error Standard.execute wait
    operation_retryer operation_status_done get_api_retryer exponential_retryer_with_attempts
    build_retry_conditions wants_retry asks error_handler exhausted
execute-Repeats_example = execute-Repeats loop api "p" (api.create "" "n" (obj end)) 0 tt
