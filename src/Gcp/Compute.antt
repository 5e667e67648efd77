-- ===== src/Gcp/Compute.antt =====
-- framework/infrastructure/gcp/compute.py: ComputeV1. What googleapiclient sends for the project is a
-- parameter; the debug header and the logging change no request's outcome and are left out.
pub mod Bodies
pub mod Methods
pub mod Groups
pub mod Health
pub mod Completion
mod Samples
use psm_interop.Common.{
  ℕ, String, Bool, true, false, Option, none, some, List, [], ◌∷◌, not, str_eq, is_some,
  if◌then◌else◌,
}
use psm_interop.Common.Effects.{
  Outcome, returned, raised, Effect, pure, throw, lift, catch, ◌>>=◌, ◌>>◌,
}
use psm_interop.Common.Json.{Json, str, num, arr, obj, Fields, end, field, nil, get_field, one}
use psm_interop.Errors.{
  Exception, any_exception, Response, http_error, operation_error, key_error, value_error,
  type_error,
}
use psm_interop.Retryers.{
  Retrying, retry_if_not_result, retry_if_exception_type, wait_fixed, stop_after_delay,
}
use psm_interop.Retryers.Tenacity.{Tenacity}
use psm_interop.Gcp.Api.{get_api_retryer}

-- The resource collections of the API.
pub data Collection : Type 0 where
  health_checks firewalls : Collection
  backend_services region_backend_services : Collection
  url_maps region_url_maps : Collection
  target_grpc_proxies : Collection
  target_http_proxies region_target_http_proxies : Collection
  forwarding_rules global_forwarding_rules : Collection
  region_network_endpoint_groups : Collection

pub record GcpResource : Type 0 where
  pub name : String
  pub url : String

pub data HealthCheckProtocol : Type 0 where
  tcp grpc : HealthCheckProtocol

pub data BackendServiceProtocol : Type 0 where
  unset http2 grpc : BackendServiceProtocol

-- The keys of an operation that are read; a missing key is `none`.
pub record Operation : Type 0 where
  pub name : Option String
  pub status : Option String
  pub error : Option ℕ
  pub target_link : Option String

-- The keys of a resource and of a list of resources.
pub record ResourceResponse : Type 0 where
  pub name : Option String
  pub self_link : Option String

pub record ListResponse : Type 0 where
  pub kind : Option String
  pub items : Option (List ResourceResponse)

-- An instance of a health answer.
pub record Instance : Type 0 where
  pub ip_address : String
  pub port : ℕ
  pub health_state : String

-- NegGcpResource, and the keys of the answer that it is made from.
pub record Neg : Type 0 where
  pub name : String
  pub url : String
  pub zone : String
  pub id : String
  pub size : ℕ
  pub network_endpoint_type : String
  pub description : String

pub record NegResponse : Type 0 where
  pub id : Option String
  pub name : Option String
  pub self_link : Option String
  pub description : Option String
  pub size : Option ℕ
  pub network_endpoint_type : Option String

-- The requests of googleapiclient for the project, each with its region argument, if it has one.
pub record ComputeApi (W : Type 0) : Type 0 where
  pub insert : Collection → (region : Option String) → Json → Effect W Exception Operation
  pub patch : Collection → (region : Option String) → String → Json → Effect W Exception Operation
  pub delete : Collection → (region : Option String) → String → Effect W Exception Operation
  pub get : Collection → (region : Option String) → String → Effect W Exception ResourceResponse
  pub list :
      Collection
      → (region : Option String) → (filter : Option String) → Effect W Exception ListResponse
  -- `regionOperations().get` with a region, `globalOperations().get` without
  pub get_operation : (region : Option String) → String → Effect W Exception Operation
  -- the key `healthStatus` of the answer
  pub get_health :
      Collection
      → (region : Option String) → (service : String) → (group : String)
      → Effect W Exception (Option (List Instance))
  pub get_neg : String → (zone : String) → Effect W Exception NegResponse

-- `if region: kwargs["region"] = region`
unfoldable pub region_arg : Option String → Option String
region_arg none = none
region_arg (some r) = if str_eq r "" then none else some r

abbrev pub in_region : Option String → Collection → Collection → Collection
in_region region regional global = if is_some (region_arg region) then regional else global

abbrev pub required : {A : Type 0} → Option A → Outcome Exception A
required none = raised key_error
required (some a) = returned a

-- `"status" in operation and operation["status"] == "DONE"`
abbrev is_done : Option String → Bool
is_done none = false
is_done (some s) = str_eq s "DONE"

unfoldable pub operation_status_done : Operation → Bool
operation_status_done operation = is_done operation.status

-- The retry object of `GcpProjectApiResource.wait_for_operation` (api.py).
unfoldable pub operation_retryer :
    {A : Type 0} → (A → Bool) → (timeout_sec wait_sec : ℕ) → Retrying A
operation_retryer test_success timeout_sec wait_sec = record {
  retry =
      retry_if_not_result (λ a. returned (test_success a))
      ∷ retry_if_exception_type (any_exception ∷ [])
      ∷ [];
  wait = wait_fixed wait_sec;
  stop = stop_after_delay timeout_sec ∷ [];
  on_error = record { timeout = none; attempts = 0; checks_result = false };
  reraise = true;
}

abbrev pub wait_for_operation_sec : ℕ
wait_for_operation_sec = 600

-- `if "error" in operation: raise OperationError`, with the code that it parses from the operation.
abbrev pub unless_error : {A : Type 0} → (error : Option ℕ) → A → Outcome Exception A
unless_error none a = returned a
unless_error (some code) a = raised (operation_error code)

abbrev pub checked : Operation → Outcome Exception Operation
checked operation = unless_error operation.error operation

-- Both branches of the handler of `_delete_resource` log, and False is returned below it.
abbrev pub not_deleted : {W : Type 0} → Exception → Effect W Exception Bool
not_deleted (http_error r) = pure false
not_deleted e = throw e

-- `body["name"]`
abbrev name_text : Option Json → Outcome Exception String
name_text (some (str s)) = returned s
name_text (some _) = raised type_error
name_text none = raised key_error

abbrev pub body_name : Json → Outcome Exception String
body_name (obj fs) = name_text (get_field "name" fs)
body_name _ = raised type_error

abbrev pub is_non_empty : Option (List ResourceResponse) → Bool
is_non_empty none = false
is_non_empty (some []) = false
is_non_empty (some (x ∷ xs)) = true

abbrev pub exists_in : ListResponse → Outcome Exception Bool
exists_in response =
    if is_some response.kind then returned (is_non_empty response.items) else raised value_error

module _ {W : Type 0} (tenacity : Tenacity) (api : ComputeApi W) where
  abbrev pub retried : {A : Type 0} → Effect W Exception A → Effect W Exception A
  retried {A} request = Tenacity.run tenacity W A (get_api_retryer none) request

  unfoldable pub wait : String → Option String → Effect W Exception Operation
  wait operation_id region = do
    operation ←
        Tenacity.run tenacity W Operation
          (operation_retryer operation_status_done wait_for_operation_sec 2)
          (api.get_operation (region_arg region) operation_id)
    lift (checked operation)

  unfoldable pub execute :
      Effect W Exception Operation → Option String → Effect W Exception Operation
  execute request region = do
    operation ← retried request
    name ← lift (required operation.name)
    wait name region

  unfoldable pub get_resource : Collection → Option String → String → Effect W Exception GcpResource
  get_resource collection region name = do
    response ← retried (api.get collection (region_arg region) name)
    found ← lift (required response.name)
    url ← lift (required response.self_link)
    pure (record { name = found; url = url })

  unfoldable pub exists_resource : Collection → String → Option String → Effect W Exception Bool
  exists_resource collection filter region = do
    response ← retried (api.list collection (region_arg region) (some filter))
    lift (exists_in response)

  unfoldable pub insert_resource :
      Collection → Json → Option String → Effect W Exception GcpResource
  insert_resource collection body region = do
    operation ← execute (api.insert collection (region_arg region) body) region
    name ← lift (body_name body)
    url ← lift (required operation.target_link)
    pure (record { name = name; url = url })

  unfoldable pub patch_resource :
      Collection → String → Json → Option String → Effect W Exception (Unit {0})
  patch_resource collection name body region = do
    execute (api.patch collection (region_arg region) name body) region
    pure tt

  unfoldable pub list_resource : Collection → Effect W Exception ListResponse
  list_resource collection = retried (api.list collection none none)

  unfoldable pub delete_resource : Collection → String → Option String → Effect W Exception Bool
  delete_resource collection name region =
      catch (do execute (api.delete collection (region_arg region) name) region; pure true)
        not_deleted
