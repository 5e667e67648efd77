-- ===== src/Runners/Manifests.antt =====
-- framework/test_app/runners/k8s/k8s_base_runner.py: what the methods that create objects from manifests check.
-- Rendering a template and sending the manifest is a parameter.
use psm_interop.Common.Json.{Json}
use psm_interop.Errors.{Exception, runner_error}
use psm_interop.Common.{ℕ, String, List, str_eq, if◌then◌else◌}
use psm_interop.Common.Effects.{Outcome, returned, raised, Effect}
use psm_interop.K8s.{Service, ServiceAccount, Deployment, Namespace, DynResource}
use psm_interop.K8s.Namespaces.{RouteKind, route_kind_from_str}

-- An object that was created from a manifest, by its class; a custom resource has its kind.
pub data Created : Type 0 where
  created_namespace : Namespace → Created
  created_service : Service → Created
  created_service_account : ServiceAccount → Created
  created_deployment : Deployment → Created
  created_custom : (kind : String) → DynResource → Created

abbrev pub Vars : Type 0
Vars = List (String × String)

-- What the runners call: the creation of an object, one stop for port forwarders and log collectors, the
-- clock, a random text for the id of a deployment; and json.loads.
pub record Cluster (W : Type 0) : Type 0 where
  pub create : (template : String) → Vars → Effect W Exception Created
  pub stop_dependencies : Effect W Exception (Unit {0})
  pub now : W → ℕ
  pub rand_string : W → String
  pub loads : String → Outcome Exception Json

abbrev named_as : {A : Type 0} → (name own : String) → A → Outcome Exception A
named_as name own a = if str_eq own name then returned a else raised runner_error

unfoldable pub check_namespace : (name : String) → Created → Outcome Exception Namespace
check_namespace name (created_namespace n) = named_as name n.namespace_name n
check_namespace name _ = raised runner_error

unfoldable pub check_service_account : (name : String) → Created → Outcome Exception ServiceAccount
check_service_account name (created_service_account a) = named_as name a.account_name a
check_service_account name _ = raised runner_error

unfoldable pub check_deployment : (name : String) → Created → Outcome Exception Deployment
check_deployment name (created_deployment d) = named_as name d.deployment_name d
check_deployment name _ = raised runner_error

unfoldable pub check_service : (name : String) → Created → Outcome Exception Service
check_service name (created_service s) = named_as name s.service_name s
check_service name _ = raised runner_error

abbrev of_kind : (kind own : String) → DynResource → Outcome Exception DynResource
of_kind kind own r = if str_eq own kind then returned r else raised runner_error

unfoldable pub check_pod_monitoring : Created → Outcome Exception DynResource
check_pod_monitoring (created_custom kind r) = of_kind "PodMonitoring" kind r
check_pod_monitoring _ = raised runner_error

abbrev named_custom : (kind name own : String) → DynResource → Outcome Exception DynResource
named_custom kind name own r =
    if str_eq own kind then named_as name r.resource_name r else raised runner_error

unfoldable pub check_session_affinity_policy :
    (name : String) → Created → Outcome Exception DynResource
check_session_affinity_policy name (created_custom kind r) =
    named_custom "GCPSessionAffinityPolicy" name kind r
check_session_affinity_policy name _ = raised runner_error

unfoldable pub check_session_affinity_filter :
    (name : String) → Created → Outcome Exception DynResource
check_session_affinity_filter name (created_custom kind r) =
    named_custom "GCPSessionAffinityFilter" name kind r
check_session_affinity_filter name _ = raised runner_error

unfoldable pub check_backend_policy : (name : String) → Created → Outcome Exception DynResource
check_backend_policy name (created_custom kind r) = named_custom "GCPBackendPolicy" name kind r
check_backend_policy name _ = raised runner_error

abbrev routed :
    (name : String) → Outcome Exception RouteKind → DynResource → Outcome Exception DynResource
routed name (returned kind) r = named_as name r.resource_name r
routed name (raised e) r = raised runner_error

unfoldable pub check_gamma_route : (name : String) → Created → Outcome Exception DynResource
check_gamma_route name (created_custom kind r) = routed name (route_kind_from_str kind) r
check_gamma_route name _ = raised runner_error
