-- ===== src/K8s/Manager.antt =====
-- framework/infrastructure/k8s.py: KubernetesApiManager, which repeats the calls that failed for a while.
pub mod NotFound
use psm_interop.Retryers.Tenacity.{Tenacity}
use psm_interop.Errors.{
  fail_to_create_errors, max_retry_error_bare, new_connection_error, urllib3_error,
  resource_not_found_error, protocol_error, fail_to_create_error, not_implemented_error,
  max_retry_error, api_exception, ApiError, Exception, ExceptionClass, runtime_error, not_found,
}
use psm_interop.Common.{
  ℕ, String, Bool, true, false, not, ◌||◌, Option, none, some, List, [], ◌∷◌, ltb, ◌==◌,
  if◌then◌else◌, contains, occurs,
}
use Prim.Native.String.{◌++◌ as ◌<+>◌}
use psm_interop.Common.Effects.{Outcome, returned, Effect, pure, throw, catch, lift, ◌>>=◌, ◌>>◌}
use psm_interop.Retryers.{Retrying, exponential_retryer_with_timeout, constant_retryer}
use psm_interop.K8s.{DynApi, K8sApi}

-- `_RETRY_ON_EXCEPTIONS`, which NewConnectionError, MaxRetryError and ProtocolError are of too.
unfoldable pub retry_on_exceptions : ExceptionClass
retry_on_exceptions (api_exception r) = true
retry_on_exceptions (fail_to_create_error e) = true
retry_on_exceptions fail_to_create_errors = true
retry_on_exceptions (max_retry_error e) = true
retry_on_exceptions max_retry_error_bare = true
retry_on_exceptions new_connection_error = true
retry_on_exceptions urllib3_error = true
retry_on_exceptions (protocol_error message) = true
retry_on_exceptions _ = false

-- The three retryers that a handler chooses from.
pub data RetryPlan : Type 0 where
  server_restart too_many_requests quick_recovery : RetryPlan

unfoldable pub plan_retryer : {A : Type 0} → RetryPlan → Outcome Exception (Retrying A)
plan_retryer server_restart =
    returned (exponential_retryer_with_timeout 1 10 180 (some (retry_on_exceptions ∷ [])) none)
plan_retryer too_many_requests =
    returned (exponential_retryer_with_timeout 10 30 180 (some (retry_on_exceptions ∷ [])) none)
plan_retryer quick_recovery = constant_retryer 1 3 none (some (retry_on_exceptions ∷ [])) none

abbrev plan_for_500 : (body : String) → RetryPlan
plan_for_500 body =
    if occurs "connection refused" body
    then server_restart
    else if occurs "too many requests" body
        || (occurs "currently unable to handle the request" body || occurs "enhance_your_calm" body)
    then too_many_requests
    else quick_recovery

-- The statuses below those that are treated apart.
unfoldable pub plan_for_status : (status : ℕ) → (body : String) → Option RetryPlan
plan_for_status status body =
    if status == 409
    then some quick_recovery
    else if status == 429
    then some too_many_requests
    else if status == 500
    then some (plan_for_500 body)
    else if status == 504
    then some server_restart
    else none

module _ {W : Type 0} (api : K8sApi W) where
  unfoldable pub handle_api_exception : ApiError → Effect W Exception (Option RetryPlan)
  handle_api_exception err =
      if err.status == 401
      then (do api.reload; pure (some server_restart))
      else if err.status == 404
      then throw not_found
      else pure (plan_for_status err.status err.body)

  unfoldable pub handle_exception : Exception → Effect W Exception (Option RetryPlan)
  handle_exception (max_retry_error reason) = handle_exception reason
  handle_exception max_retry_error_bare = pure none
  handle_exception new_connection_error = pure (some server_restart)
  handle_exception (protocol_error message) =
      pure (some (if occurs "connection aborted" message then server_restart else quick_recovery))
  handle_exception (api_exception err) = handle_api_exception err
  handle_exception (fail_to_create_error e) = handle_exception e
  handle_exception _ = pure none

module _ {W A : Type 0} (api : K8sApi W) where
  -- `method_with_404_handler`: after the handler, which raises NotFound for a 404, the error goes on.
  abbrev pub reraised : Exception → Effect W Exception A
  reraised (api_exception err) =
      if err.status == 404
      then (do handle_api_exception api err; throw (api_exception err))
      else throw (api_exception err)
  reraised e = throw e

  unfoldable pub with_404_handler : Effect W Exception A → Effect W Exception A
  with_404_handler method = catch method reraised

module _ {W A : Type 0} (tenacity : Tenacity) (api : K8sApi W) where
  abbrev pub repeated : Effect W Exception A → Exception → Option RetryPlan → Effect W Exception A
  repeated method err none = throw err
  repeated method err (some plan) = do
    retryer ← lift (plan_retryer plan)
    Tenacity.run tenacity W A retryer (with_404_handler api method)

  abbrev pub recover : Effect W Exception A → Exception → Effect W Exception A
  recover method err =
      if retry_on_exceptions err
      then handle_exception api err >>= repeated method err
      else throw err

  unfoldable pub execute : Effect W Exception A → Effect W Exception A
  execute method = catch method (recover method)

module _ {W : Type 0} (tenacity : Tenacity) (api : K8sApi W) where
  abbrev undiscovered : Exception → Effect W Exception (DynApi W)
  undiscovered resource_not_found_error = throw runtime_error
  undiscovered e = throw e

  -- The set of the loaded APIs, which nothing reads, is not kept.
  unfoldable pub load_dynamic_api : (api_name version kind : String) → Effect W Exception (DynApi W)
  load_dynamic_api api_name version kind =
      catch (execute tenacity api (api.discover (api_name <+> "/" <+> version) kind)) undiscovered

  -- The shape of the six methods that load an API; their caches are not modelled.
  abbrev load_supported :
      (supported_versions : List String)
      → (api_name version kind : String) → Effect W Exception (DynApi W)
  load_supported supported_versions api_name version kind =
      if contains version supported_versions
      then load_dynamic_api api_name version kind
      else throw not_implemented_error

  unfoldable pub grpc_route : (version : String) → Effect W Exception (DynApi W)
  grpc_route version = load_supported ("v1" ∷ []) "gateway.networking.k8s.io" version "GRPCRoute"

  unfoldable pub http_route : (version : String) → Effect W Exception (DynApi W)
  http_route version =
      load_supported ("v1" ∷ "v1beta1" ∷ []) "gateway.networking.k8s.io" version "HTTPRoute"

  unfoldable pub gcp_session_affinity_filter : (version : String) → Effect W Exception (DynApi W)
  gcp_session_affinity_filter version =
      load_supported ("v1" ∷ []) "networking.gke.io" version "GCPSessionAffinityFilter"

  unfoldable pub gcp_session_affinity_policy : (version : String) → Effect W Exception (DynApi W)
  gcp_session_affinity_policy version =
      load_supported ("v1" ∷ []) "networking.gke.io" version "GCPSessionAffinityPolicy"

  unfoldable pub gcp_backend_policy : (version : String) → Effect W Exception (DynApi W)
  gcp_backend_policy version =
      load_supported ("v1" ∷ []) "networking.gke.io" version "GCPBackendPolicy"

  unfoldable pub pod_monitoring : (version : String) → Effect W Exception (DynApi W)
  pod_monitoring version =
      load_supported ("v1" ∷ []) "monitoring.googleapis.com" version "PodMonitoring"
