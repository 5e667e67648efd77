-- ===== src/Gcp/Throttled.antt =====
-- The `_execute` of _NetworkServicesBase, framework/infrastructure/gcp/network_services.py, which
-- _NetworkSecurityBase of network_security.py repeats, and the changes of resources over it.
mod Repeats
mod Samples
use psm_interop.Common.Json.{Json}
use psm_interop.Retryers.Tenacity.{Tenacity}
use psm_interop.Errors.{Exception, operation_error}
use psm_interop.Common.{String, Bool, true, false, Option, none, [], ◌∷◌, ◌==◌}
use Prim.Native.Nat.{ℕ}
use psm_interop.Common.Effects.{Effect}
use psm_interop.Retryers.{Retrying, retry_if_exception, wait_fixed, stop_after_delay}
use psm_interop.Gcp.Standard.{LongOperation, StandardApi, create_by, delete_by}
use psm_interop.Gcp.Standard

-- code_pb2.INTERNAL
abbrev pub internal : ℕ
internal = 13

unfoldable pub operation_internal_error : Exception → Bool
operation_internal_error (operation_error code) = code == internal
operation_internal_error _ = false

unfoldable pub internal_retryer : {A : Type 0} → Retrying A
internal_retryer = record {
  retry = retry_if_exception operation_internal_error ∷ [];
  wait = wait_fixed 10;
  stop = stop_after_delay 300 ∷ [];
  on_error = record { timeout = none; attempts = 0; checks_result = false };
  reraise = true;
}

module _ {W Resource : Type 0} (tenacity : Tenacity) (api : StandardApi W Resource)
    (project : String) where
  unfoldable pub execute : Effect W Exception LongOperation → Effect W Exception (Unit {0})
  execute request =
      Tenacity.run tenacity W (Unit {0}) internal_retryer
        (Standard.execute tenacity api project request)

  unfoldable pub create_resource :
      (id : String) → Json → (location : Option String) → Effect W Exception (Unit {0})
  create_resource = create_by api project execute

  unfoldable pub delete_resource : (full_name : String) → Effect W Exception Bool
  delete_resource = delete_by api execute
