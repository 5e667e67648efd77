-- ===== src/Gcp/Compute/Samples.antt =====
-- Changes of resources on a concrete API.
use psm_interop.Common.{◌==◌, if◌then◌else◌, ◌≡◌, ℕ, suc, refl, String, true, false, none, some}
use psm_interop.Common.Effects.{returned, raised}
use psm_interop.Common.Json.{Json, str, obj, field, end}
use psm_interop.Errors.{key_error, http_error}
use psm_interop.Retryers.{exponential_retryer_with_attempts, build_retry_conditions, error_handler}
use psm_interop.Retryers.Tenacity.{wants_retry, asks}
use psm_interop.Retryers.Loop.{loop}
use psm_interop.Gcp.Api.{get_api_retryer, is_retryable_api_error}
use psm_interop.Gcp.Compute.{
  url_maps, GcpResource, Operation, ComputeApi, region_arg, execute, wait, operation_retryer,
  operation_status_done, delete_resource,
}
use psm_interop.Gcp.Compute.Completion.{IsCompleted, delete_resource-IsCompleted}

abbrev operation : String → Operation
operation status = record {
  name = some "op";
  status = some status;
  error = none;
  target_link = some "url";
}

-- The first question for an operation is answered that it runs, the second that it is over; a deletion
-- in the world 7 finds nothing.
abbrev api : ComputeApi ℕ
api = record {
  insert = λ _ _ _ w. (returned (operation "RUNNING"), 0);
  patch = λ _ _ _ _ w. (returned (operation "RUNNING"), 0);
  delete = λ _ _ _ w. (
    if w == 7
        then raised (http_error (record { status = 404; truthy = true }))
        else returned (operation "RUNNING"),
    0,
  );
  get = λ _ _ _ w. (raised key_error, w);
  list = λ _ _ _ w. (raised key_error, w);
  get_operation = λ _ _ w. (returned (operation (if w == 0 then "RUNNING" else "DONE")), suc w);
  get_health = λ _ _ _ _ w. (raised key_error, w);
  get_neg = λ _ _ w. (raised key_error, w);
}

abbrev body : Json
body = obj (field "name" (str "map") end)

abbrev made : GcpResource
made = record { name = "map"; url = "url" }

deleted : delete_resource loop api url_maps "map" none 5 ≡ (returned true, 2)
unfolding delete_resource execute wait operation_retryer operation_status_done get_api_retryer
    exponential_retryer_with_attempts build_retry_conditions region_arg loop wants_retry asks
    error_handler
deleted = refl

-- What is not there is not deleted, and that is no error.
not_found_false : delete_resource loop api url_maps "map" none 7 ≡ (returned false, 0)
unfolding delete_resource execute wait operation_retryer operation_status_done get_api_retryer
    exponential_retryer_with_attempts build_retry_conditions region_arg loop wants_retry asks
    error_handler is_retryable_api_error
not_found_false = refl

delete_resource-IsCompleted_example :
    (o : Operation) × IsCompleted o
    × (execute loop api (api.delete url_maps (region_arg none) "map") none 5 ≡ (returned o, 2))
delete_resource-IsCompleted_example =
    delete_resource-IsCompleted loop api url_maps "map" none 5 2 deleted
