-- ===== src/Gcp/Compute/Groups.antt =====
-- framework/infrastructure/gcp/compute.py: the network endpoint groups of ComputeV1.
use psm_interop.Common.{is_some, String, Option, none, some}
use psm_interop.Common.Effects.{
  Outcome, returned, raised, and_then, lift, Effect, pure, throw, ◌>>=◌, ◌>>◌,
}
use psm_interop.Common.Json.{str, obj, end, field}
use psm_interop.Errors.{Exception}
use psm_interop.Retryers.{Retrying, constant_retryer}
use psm_interop.Retryers.Tenacity.{Tenacity}
use psm_interop.Gcp.Compute.{
  Neg, NegResponse, required, region_network_endpoint_groups, GcpResource, ComputeApi, get_resource,
  insert_resource, delete_resource,
}

module _ {W : Type 0} (tenacity : Tenacity) (api : ComputeApi W) where
  unfoldable pub get_neg_serverless :
      String → (region : Option String) → Effect W Exception GcpResource
  get_neg_serverless name region =
      get_resource tenacity api region_network_endpoint_groups region name

  unfoldable pub create_neg_serverless :
      String → (region : Option String) → (service_name : String) → Effect W Exception GcpResource
  create_neg_serverless name region service_name = do
    insert_resource tenacity api region_network_endpoint_groups
        (obj (
          field "name" (str name) (
            field "networkEndpointType" (str "SERVERLESS")
              (field "cloudRun" (obj (field "service" (str service_name) end)) end))))
        region
    get_neg_serverless name region

  unfoldable pub delete_neg_serverless :
      String → (region : Option String) → Effect W Exception (Unit {0})
  delete_neg_serverless name region = do
    delete_resource tenacity api region_network_endpoint_groups name region
    pure tt

-- The wait for a network endpoint group: its policy, and the resource that is made of the answer.
abbrev neg_policy : Outcome Exception (Retrying NegResponse)
neg_policy = constant_retryer 4 0 (some 600) none (some (λ neg. returned (is_some neg.size)))

abbrev or_empty : Option String → String
or_empty none = ""
or_empty (some s) = s

unfoldable pub neg_of_response : String → NegResponse → Outcome Exception Neg
neg_of_response zone response = and_then (required response.name) (λ name.
    and_then (required response.self_link) (λ url. and_then (required response.size) (λ size.
      returned (record {
        name = name;
        url = url;
        zone = zone;
        id = or_empty response.id;
        size = size;
        network_endpoint_type = or_empty response.network_endpoint_type;
        description = or_empty response.description;
      }))))

module _ {W : Type 0} (tenacity : Tenacity) (api : ComputeApi W) where
  -- `_retry_load_network_endpoint_group` logs and raises again; its log reads the key `name`.
  unfoldable pub retry_load_network_endpoint_group :
      String → (zone : String) → Effect W Exception NegResponse
  retry_load_network_endpoint_group name zone = do
    neg ← api.get_neg name zone
    lift (required neg.name)
    pure neg

  abbrev run_neg_policy :
      Outcome Exception (Retrying NegResponse)
      → Effect W Exception NegResponse
      → Effect W Exception NegResponse
  run_neg_policy (raised e) load = throw e
  run_neg_policy (returned r) load = Tenacity.run tenacity W NegResponse r load

  unfoldable pub wait_for_network_endpoint_group : String → (zone : String) → Effect W Exception Neg
  wait_for_network_endpoint_group name zone = do
    result ← run_neg_policy neg_policy (retry_load_network_endpoint_group name zone)
    lift (neg_of_response zone result)
