-- ===== src/K8s/Namespaces.antt =====
-- framework/infrastructure/k8s.py: KubernetesNamespace, its reads and deletions. Manifests that are created
-- from dicts, log collectors and port forwarders are not modelled.
pub mod Gone
use psm_interop.Retryers.Tenacity.{Tenacity}
use psm_interop.Errors.{Exception, attribute_error, not_implemented_error, not_found}
use psm_interop.Common.{
  ℕ, ◌+◌, String, Option, none, some, List, [], ◌∷◌, ltb, str_eq, if◌then◌else◌,
}
use Prim.Native.String.{find, len, slice, ◌++◌ as ◌<+>◌}
use psm_interop.Common.Effects.{Effect, Outcome, returned, raised, pure, throw, catch, ◌>>=◌, ◌>>◌}
use psm_interop.K8s.{
  Labels, Service, ServiceAccount, Deployment, Pod, Namespace, DynResource, DynApi, K8sApi,
}
use psm_interop.K8s.Manager.{
  execute, gcp_session_affinity_filter, gcp_session_affinity_policy, gcp_backend_policy, grpc_route,
  http_route, pod_monitoring,
}

pub data RouteKind : Type 0 where
  http grpc : RouteKind

unfoldable pub route_kind_from_str : String → Outcome Exception RouteKind
route_kind_from_str name =
    if str_eq "HTTPRoute" name
    then returned http
    else if str_eq "GRPCRoute" name
    then returned grpc
    else raised attribute_error

unfoldable pub label_dict_to_selector : Labels → String
label_dict_to_selector [] = ""
label_dict_to_selector ((k, v) ∷ []) = k <+> "==" <+> v
label_dict_to_selector ((k, v) ∷ l ∷ ls) =
    k <+> "==" <+> v <+> "," <+> label_dict_to_selector (l ∷ ls)

-- `api_version.partition("/")`: the parts before and behind the first slash.
abbrev group_of : (api_version : String) → String
group_of v = let at = find v "/" in if ltb (len v) at then v else slice v 0 at

abbrev version_of : (api_version : String) → String
version_of v = let at = find v "/" in if ltb (len v) at then "" else slice v (at + 1) (len v)

-- DELETE_GRACE_PERIOD_SEC
abbrev pub delete_grace_period_sec : ℕ
delete_grace_period_sec = 5

module _ {W : Type 0} (tenacity : Tenacity) (api : K8sApi W) where
  abbrev networking_api : (kind version : String) → Effect W Exception (DynApi W)
  networking_api kind version =
      if str_eq kind "GCPSessionAffinityFilter"
      then gcp_session_affinity_filter tenacity api version
      else if str_eq kind "GCPSessionAffinityPolicy"
      then gcp_session_affinity_policy tenacity api version
      else if str_eq kind "GCPBackendPolicy"
      then gcp_backend_policy tenacity api version
      else throw not_implemented_error

  abbrev gateway_api : (kind version : String) → Effect W Exception (DynApi W)
  gateway_api kind version =
      if str_eq kind "GRPCRoute"
      then grpc_route tenacity api version
      else if str_eq kind "HTTPRoute"
      then http_route tenacity api version
      else throw not_implemented_error

  abbrev monitoring_api : (kind version : String) → Effect W Exception (DynApi W)
  monitoring_api kind version =
      if str_eq kind "PodMonitoring"
      then pod_monitoring tenacity api version
      else throw not_implemented_error

  abbrev dynamic_api_of : (group kind version : String) → Effect W Exception (DynApi W)
  dynamic_api_of group kind version =
      if str_eq group "networking.gke.io"
      then networking_api kind version
      else if str_eq group "gateway.networking.k8s.io"
      then gateway_api kind version
      else if str_eq group "monitoring.googleapis.com"
      then monitoring_api kind version
      else throw not_implemented_error

  unfoldable pub get_dynamic_api : (api_version kind : String) → Effect W Exception (DynApi W)
  get_dynamic_api api_version kind =
      dynamic_api_of (group_of api_version) kind (version_of api_version)

  unfoldable pub api_gke_mesh : Effect W Exception (DynApi W)
  api_gke_mesh = get_dynamic_api "net.gke.io/v1alpha1" "TDMesh"

  unfoldable pub gamma_route_api : RouteKind → Effect W Exception (DynApi W)
  gamma_route_api http = get_dynamic_api "gateway.networking.k8s.io/v1beta1" "HTTPRoute"
  gamma_route_api grpc = get_dynamic_api "gateway.networking.k8s.io/v1" "GRPCRoute"

  unfoldable pub api_session_affinity_filter : Effect W Exception (DynApi W)
  api_session_affinity_filter = get_dynamic_api "networking.gke.io/v1" "GCPSessionAffinityFilter"

  unfoldable pub api_session_affinity_policy : Effect W Exception (DynApi W)
  api_session_affinity_policy = get_dynamic_api "networking.gke.io/v1" "GCPSessionAffinityPolicy"

  unfoldable pub api_pod_monitoring : Effect W Exception (DynApi W)
  api_pod_monitoring = get_dynamic_api "monitoring.googleapis.com/v1" "PodMonitoring"

  unfoldable pub api_backend_policy : Effect W Exception (DynApi W)
  api_backend_policy = get_dynamic_api "networking.gke.io/v1" "GCPBackendPolicy"

  abbrev pub none_if_not_found : {A : Type 0} → Exception → Effect W Exception (Option A)
  none_if_not_found not_found = pure none
  none_if_not_found e = throw e

  unfoldable pub get_resource : {A : Type 0} → Effect W Exception A → Effect W Exception (Option A)
  get_resource method =
      catch (do resource ← execute tenacity api method; pure (some resource)) none_if_not_found

  module _ (namespace : String) where
    -- dynamic_exc.NotFoundError, an ApiException with the status 404, has become NotFound before.
    unfoldable pub get_dyn_resource :
        Effect W Exception (DynApi W) → (name : String) → Effect W Exception (Option DynResource)
    get_dyn_resource dyn_api name = do found ← dyn_api; get_resource (found.get name namespace)

    unfoldable pub delete_dyn_resource :
        Effect W Exception (DynApi W)
        → (name : String) → (grace_period_seconds : ℕ) → Effect W Exception (Unit {0})
    delete_dyn_resource dyn_api name grace_period_seconds = do
      found ← dyn_api
      execute tenacity api (found.delete name namespace grace_period_seconds)

    unfoldable pub get_service : (name : String) → Effect W Exception (Option Service)
    get_service name = get_resource (api.read_service name namespace)

    unfoldable pub get_service_account :
        (name : String) → Effect W Exception (Option ServiceAccount)
    get_service_account name = get_resource (api.read_service_account name namespace)

    unfoldable pub get_deployment : (name : String) → Effect W Exception (Option Deployment)
    get_deployment name = get_resource (api.read_deployment name namespace)

    unfoldable pub get_pod : (name : String) → Effect W Exception (Option Pod)
    get_pod name = get_resource (api.read_pod name namespace)

    unfoldable pub get_namespace : Effect W Exception (Option Namespace)
    get_namespace = get_resource (api.read_namespace namespace)

    unfoldable pub get_gamma_mesh : (name : String) → Effect W Exception (Option DynResource)
    get_gamma_mesh name = get_dyn_resource api_gke_mesh name

    unfoldable pub get_gamma_route :
        (name : String) → RouteKind → Effect W Exception (Option DynResource)
    get_gamma_route name kind = get_dyn_resource (gamma_route_api kind) name

    unfoldable pub get_session_affinity_policy :
        (name : String) → Effect W Exception (Option DynResource)
    get_session_affinity_policy name = get_dyn_resource api_session_affinity_policy name

    unfoldable pub get_session_affinity_filter :
        (name : String) → Effect W Exception (Option DynResource)
    get_session_affinity_filter name = get_dyn_resource api_session_affinity_filter name

    unfoldable pub get_backend_policy : (name : String) → Effect W Exception (Option DynResource)
    get_backend_policy name = get_dyn_resource api_backend_policy name

    unfoldable pub delete_service :
        (name : String) → (grace_period_seconds : ℕ) → Effect W Exception (Unit {0})
    delete_service name grace = execute tenacity api (api.delete_service name namespace grace)

    unfoldable pub delete_service_account :
        (name : String) → (grace_period_seconds : ℕ) → Effect W Exception (Unit {0})
    delete_service_account name grace =
        execute tenacity api (api.delete_service_account name namespace grace)

    unfoldable pub delete_deployment :
        (name : String) → (grace_period_seconds : ℕ) → Effect W Exception (Unit {0})
    delete_deployment name grace = execute tenacity api (api.delete_deployment name namespace grace)

    unfoldable pub delete_pod :
        (name : String) → (grace_period : Option ℕ) → Effect W Exception (Unit {0})
    delete_pod name grace_period = execute tenacity api (api.delete_pod name namespace grace_period)

    unfoldable pub delete_namespace : (grace_period_seconds : ℕ) → Effect W Exception (Unit {0})
    delete_namespace grace = execute tenacity api (api.delete_namespace namespace grace)

    unfoldable pub delete_gamma_mesh :
        (name : String) → (grace_period_seconds : ℕ) → Effect W Exception (Unit {0})
    delete_gamma_mesh name grace = delete_dyn_resource api_gke_mesh name grace

    unfoldable pub delete_gamma_route :
        (name : String) → RouteKind → (grace_period_seconds : ℕ) → Effect W Exception (Unit {0})
    delete_gamma_route name kind grace = delete_dyn_resource (gamma_route_api kind) name grace

    unfoldable pub delete_session_affinity_policy :
        (name : String) → (grace_period_seconds : ℕ) → Effect W Exception (Unit {0})
    delete_session_affinity_policy name grace =
        delete_dyn_resource api_session_affinity_policy name grace

    unfoldable pub delete_session_affinity_filter :
        (name : String) → (grace_period_seconds : ℕ) → Effect W Exception (Unit {0})
    delete_session_affinity_filter name grace =
        delete_dyn_resource api_session_affinity_filter name grace

    unfoldable pub delete_pod_monitoring :
        (name : String) → (grace_period_seconds : ℕ) → Effect W Exception (Unit {0})
    delete_pod_monitoring name grace = delete_dyn_resource api_pod_monitoring name grace

    unfoldable pub delete_backend_policy :
        (name : String) → (grace_period_seconds : ℕ) → Effect W Exception (Unit {0})
    delete_backend_policy name grace = delete_dyn_resource api_backend_policy name grace

    unfoldable pub list_pods_with_labels : Labels → Effect W Exception (List Pod)
    list_pods_with_labels labels =
        execute tenacity api (api.list_pods namespace (label_dict_to_selector labels))

    unfoldable pub list_deployment_pods : Deployment → Effect W Exception (List Pod)
    list_deployment_pods deployment = list_pods_with_labels deployment.match_labels
