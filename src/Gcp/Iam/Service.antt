-- ===== src/Gcp/Iam/Service.antt =====
-- framework/infrastructure/gcp/iam.py: the methods of IamV1. The service, googleapiclient's resource,
-- is a parameter: what another client does between two requests is in the worlds that it hands on.
pub mod Conflicts
pub mod Attestation
use Prim.Native.String.{◌++◌}
use psm_interop.Common.{
  ℕ, String, Bool, true, false, Option, none, some, List, [], ◌∷◌, ◌&&◌, ◌==◌, if◌then◌else◌,
}
use psm_interop.Common.Effects.{Effect, pure, throw, lift, catch, ◌>>=◌, ◌>>◌}
use psm_interop.Errors.{
  Exception, http_error, response_error, etag_conflict, is_etag_conflict, is_transport_error,
}
use psm_interop.Retryers.{Retrying, exponential_retryer_with_timeout}
use psm_interop.Retryers.Tenacity.{Tenacity}
use psm_interop.Gcp.Api.{execute, gcp_api_retries}
use psm_interop.Gcp.Iam.{Policy, policy_to_add, policy_to_remove}
use psm_interop.Gcp.Iam.Responses.{PolicyResponse, policy_from_response, policy_as_dict}

-- The requests of `projects().serviceAccounts()` and of `managedIdentities()`.
pub record IamApi (W Body : Type 0) : Type 0 where
  pub get_iam_policy : (resource : String) → (version : ℕ) → Effect W Exception PolicyResponse
  pub set_iam_policy : (resource : String) → PolicyResponse → Effect W Exception PolicyResponse
  pub add_attestation_rule : (resource : String) → Body → Effect W Exception (Unit {0})
  pub remove_attestation_rule : (resource : String) → Body → Effect W Exception (Unit {0})

abbrev pub policy_version : ℕ
policy_version = 3

unfoldable pub service_account_resource_name : String → String → String
service_account_resource_name project account =
    "projects/" ++ project ++ "/serviceAccounts/" ++ account

unfoldable pub managed_identity_resource_name : String → String → String → String → String
managed_identity_resource_name project pool namespace managed_identity =
    "projects/" ++ project ++ "/locations/global/workloadIdentityPools/" ++ pool ++ "/namespaces/"
    ++ namespace ++ "/managedIdentities/" ++ managed_identity

-- The policy of `handle_etag_conflict`.
unfoldable pub etag_retryer : {A : Type 0} → Retrying A
etag_retryer =
    exponential_retryer_with_timeout 1 10 120 (some (is_etag_conflict ∷ is_transport_error ∷ []))
      none

abbrev conflict_of_status : Option ℕ → Exception
conflict_of_status none = response_error none
conflict_of_status (some status) =
    if status == 409 then etag_conflict else response_error (some status)

-- The handler of `set_service_account_iam_policy`.
unfoldable pub as_etag_conflict : Exception → Exception
as_etag_conflict (response_error status) = conflict_of_status status
as_etag_conflict e = e

-- Both branches of the handler of `remove_attestation_rule` log, and False is returned below it.
abbrev not_removed : {W : Type 0} → Exception → Effect W Exception Bool
not_removed (http_error r) = pure false
not_removed e = throw e

module _ {W Body : Type 0} (tenacity : Tenacity) (api : IamApi W Body) (project : String) where
  abbrev execute_request : {A : Type 0} → Effect W Exception A → Effect W Exception A
  execute_request request = execute tenacity (some gcp_api_retries) request

  unfoldable pub handle_etag_conflict : {A : Type 0} → Effect W Exception A → Effect W Exception A
  handle_etag_conflict {A} func = Tenacity.run tenacity W A etag_retryer func

  unfoldable pub get_service_account_iam_policy : String → Effect W Exception Policy
  get_service_account_iam_policy account = do
    response ←
        execute_request
          (api.get_iam_policy (service_account_resource_name project account) policy_version)
    lift (policy_from_response response)

  unfoldable pub set_service_account_iam_policy : String → Policy → Effect W Exception Policy
  set_service_account_iam_policy account policy =
      catch
        (do
          response ← execute_request (
              api.set_iam_policy (service_account_resource_name project account)
                (policy_as_dict policy))
          lift (policy_from_response response))
        (λ e. throw (as_etag_conflict e))

  unfoldable pub add_attestation_rule :
      String → String → String → Body → Effect W Exception (Unit {0})
  add_attestation_rule pool namespace managed_identity body = execute_request (
      api.add_attestation_rule
        (managed_identity_resource_name project pool namespace managed_identity) body)

  unfoldable pub remove_attestation_rule : String → String → String → Body → Effect W Exception Bool
  remove_attestation_rule pool namespace managed_identity body =
      catch
        (do
          execute_request (
              api.remove_attestation_rule
                (managed_identity_resource_name project pool namespace managed_identity) body)
          pure true)
        not_removed

  -- The write of an updated policy, if there is one.
  unfoldable pub write_updated : String → Option Policy → Effect W Exception (Unit {0})
  write_updated account none = pure tt
  write_updated account (some updated) = do set_service_account_iam_policy account updated; pure tt

  -- One attempt of each decorated method.
  unfoldable pub try_add_binding : String → String → String → Effect W Exception (Unit {0})
  try_add_binding account role member = do
    policy ← get_service_account_iam_policy account
    write_updated account (policy_to_add policy role member)

  unfoldable pub try_remove_binding : String → String → String → Effect W Exception (Unit {0})
  try_remove_binding account role member = do
    policy ← get_service_account_iam_policy account
    write_updated account (policy_to_remove policy role member)

  unfoldable pub add_service_account_iam_policy_binding :
      String → String → String → Effect W Exception (Unit {0})
  add_service_account_iam_policy_binding account role member =
      handle_etag_conflict (try_add_binding account role member)

  unfoldable pub remove_service_account_iam_policy_binding :
      String → String → String → Effect W Exception (Unit {0})
  remove_service_account_iam_policy_binding account role member =
      handle_etag_conflict (try_remove_binding account role member)
