-- ===== src/Gcp/Standard.antt =====
-- framework/infrastructure/gcp/api.py: GcpStandardCloudApiResource, the base of the clients of network
-- services and network security. The requests of a collection are a parameter; a location is given as
-- its text, "global" by default.
mod Completion
mod Samples
use Prim.Native.String.{◌++◌}
use psm_interop.Common.{ℕ, String, Bool, true, false, Option, none, some, if◌then◌else◌}
use psm_interop.Common.Effects.{Outcome, returned, raised, Effect, pure, lift, catch, ◌>>=◌, ◌>>◌}
use psm_interop.Common.Json.{Json}
use psm_interop.Errors.{Exception, operation_error}
use psm_interop.Retryers.Tenacity.{Tenacity}
use psm_interop.Gcp.Api.{get_api_retryer}
use psm_interop.Gcp.Compute.{
  unless_error, required, operation_retryer, wait_for_operation_sec, not_deleted,
}

-- The keys of an operation that are read: without `done` it is not done.
pub record LongOperation : Type 0 where
  pub name : Option String
  pub done : Option Bool
  -- the code of `error`, if that key is there
  pub error : Option ℕ

pub record StandardApi (W Resource : Type 0) : Type 0 where
  pub create : (parent id : String) → Json → Effect W Exception LongOperation
  pub get : (full_name : String) → Effect W Exception Resource
  pub delete : (full_name : String) → Effect W Exception LongOperation
  pub get_operation : (name : String) → Effect W Exception LongOperation

unfoldable pub parent : (project : String) → (location : Option String) → String
parent project none = "projects/" ++ project ++ "/locations/global"
parent project (some location) = "projects/" ++ project ++ "/locations/" ++ location

unfoldable pub resource_full_name :
    (project : String) → (name collection_name : String) → (location : Option String) → String
unfolding parent
resource_full_name project name collection_name location =
    parent project location ++ "/" ++ collection_name ++ "/" ++ name

abbrev is_true : Option Bool → Bool
is_true none = false
is_true (some b) = b

unfoldable pub operation_status_done : LongOperation → Bool
operation_status_done operation = is_true operation.done

abbrev pub check : LongOperation → Outcome Exception (Unit {0})
check operation = unless_error operation.error tt

-- `_create_resource` and `_delete_resource` over the `_execute` of the class.
module _ {W Resource : Type 0} (api : StandardApi W Resource) where
  abbrev pub create_by :
      (project : String)
      → (execute : Effect W Exception LongOperation → Effect W Exception (Unit {0})) → (id : String)
      → Json
      → (location : Option String) → Effect W Exception (Unit {0})
  create_by project execute id body location =
      execute (api.create (parent project location) id body)

  abbrev pub delete_by :
      (execute : Effect W Exception LongOperation → Effect W Exception (Unit {0}))
      → (full_name : String) → Effect W Exception Bool
  delete_by execute full_name = catch (do execute (api.delete full_name); pure true) not_deleted

module _ {W Resource : Type 0} (tenacity : Tenacity) (api : StandardApi W Resource)
    (project : String) where
  unfoldable pub wait : (operation_id : String) → Effect W Exception (Unit {0})
  wait operation_id = do
    operation ←
        Tenacity.run tenacity W LongOperation
          (operation_retryer operation_status_done wait_for_operation_sec 2)
          (api.get_operation operation_id)
    lift (check operation)

  unfoldable pub execute : Effect W Exception LongOperation → Effect W Exception (Unit {0})
  execute request = do
    operation ← Tenacity.run tenacity W LongOperation (get_api_retryer none) request
    name ← lift (required operation.name)
    wait name

  unfoldable pub create_resource :
      (id : String) → Json → (location : Option String) → Effect W Exception (Unit {0})
  create_resource = create_by api project execute

  unfoldable pub get_resource : (full_name : String) → Effect W Exception Resource
  get_resource full_name =
      Tenacity.run tenacity W Resource (get_api_retryer none) (api.get full_name)

  unfoldable pub delete_resource : (full_name : String) → Effect W Exception Bool
  delete_resource = delete_by api execute
