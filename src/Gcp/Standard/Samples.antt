-- ===== src/Gcp/Standard/Samples.antt =====
-- A creation on a concrete API whose operation runs once and then is over.
use psm_interop.Common.{◌≡◌, ℕ, suc, refl, String, Bool, false, none, some, ◌==◌}
use psm_interop.Common.Effects.{returned}
use psm_interop.Common.Json.{obj, end}
use psm_interop.Retryers.{exponential_retryer_with_attempts, build_retry_conditions, error_handler}
use psm_interop.Retryers.Tenacity.{wants_retry, asks}
use psm_interop.Retryers.Loop.{loop}
use psm_interop.Gcp.Api.{get_api_retryer}
use psm_interop.Gcp.Compute.{operation_retryer}
use psm_interop.Gcp.Standard.{
  LongOperation, StandardApi, parent, resource_full_name, operation_status_done, wait, execute,
  create_resource,
}
use psm_interop.Gcp.Standard.Completion.{CompletesAt, create_resource-CompletesAt}

abbrev running : Bool → LongOperation
running b = record { name = some "op"; done = some b; error = none }

abbrev api : StandardApi ℕ String
api = record {
  create = λ _ _ _ w. (returned (running false), 0);
  get = λ name w. (returned name, w);
  delete = λ _ w. (returned (running false), 0);
  get_operation = λ _ w. (returned (running (w == 1)), suc w);
}

full_name : resource_full_name "p" "n" "meshes" none ≡ "projects/p/locations/global/meshes/n"
unfolding resource_full_name
full_name = refl

created : create_resource loop api "p" "n" (obj end) none 7 ≡ (returned tt, 2)
unfolding create_resource execute wait operation_retryer operation_status_done get_api_retryer
    exponential_retryer_with_attempts build_retry_conditions loop wants_retry asks error_handler
created = refl

create_resource-CompletesAt_example :
    (started : LongOperation) × (v v' : ℕ) × (name : String) × (u : ℕ) × (api.create
        (parent "p" none)
        "n"
        (obj end)
        v
      ≡ (returned started, v'))
    × (started.name ≡ some name)
    × CompletesAt loop api "p" name u 2
create_resource-CompletesAt_example =
    create_resource-CompletesAt loop api "p" "n" (obj end) none 7 2 created
