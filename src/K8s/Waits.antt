-- ===== src/K8s/Waits.antt =====
-- framework/infrastructure/k8s.py: the waits of KubernetesNamespace. What a wait adds to its error as a
-- note is not kept.
mod Ready
pub mod Samples
use psm_interop.Dicts.{subscript}
use psm_interop.Common.Decimal.{decimal}
use psm_interop.Common.Json.{obj, Json}
use psm_interop.Retryers.Tenacity.{Tenacity}
use psm_interop.Errors.{key_error, Exception, type_error, attribute_error}
use psm_interop.Common.{
  ℕ, String, Bool, true, false, not, ◌||◌, Option, none, some, [], ◌∷◌, leb, ◌==◌, str_eq,
  if◌then◌else◌, is_some, length,
}
use psm_interop.Common.Effects.{Outcome, returned, raised, Effect, pure, lift, ◌>>=◌, ◌>>◌}
use psm_interop.Retryers.{CheckResultFn, constant_retryer}
use psm_interop.K8s.{Labels, Service, Deployment, Pod, Namespace, DynResource, K8sApi}
use psm_interop.K8s.Namespaces.{
  RouteKind, get_service, get_service_account, get_deployment, get_pod, get_namespace,
  get_gamma_mesh, get_gamma_route, get_session_affinity_policy, get_session_affinity_filter,
  get_backend_policy, list_deployment_pods,
}

abbrev pub has_key : String → Labels → Bool
has_key key [] = false
has_key key ((k, v) ∷ ls) = str_eq k key || has_key key ls

-- `key in annotations`, which may be None.
abbrev annotated : String → Option Labels → Outcome Exception Bool
annotated key none = raised type_error
annotated key (some ls) = returned (has_key key ls)

unfoldable pub check_service_neg_status_annotation : CheckResultFn (Option Service)
check_service_neg_status_annotation none = returned false
check_service_neg_status_annotation (some service) =
    annotated "cloud.google.com/neg-status" service.annotations

-- `annotations[key]`
abbrev annotation : String → Option Labels → Outcome Exception String
annotation key none = raised type_error
annotation key (some []) = raised key_error
annotation key (some ((k, v) ∷ ls)) =
    let rest = annotation key (some ls) in if str_eq k key then returned v else rest

-- `value[key]` for a text as the key.
abbrev item : String → Json → Outcome Exception Json
item key (obj fields) = subscript key fields
item key _ = raised type_error

-- The annotation of the service, None being no service, which has no metadata.
abbrev neg_status : Option Service → Outcome Exception String
neg_status none = raised attribute_error
neg_status (some service) = annotation "cloud.google.com/neg-status" service.annotations

abbrev is_text : (text : String) → Option String → Bool
is_text text none = false
is_text text (some s) = str_eq s text

unfoldable pub pod_started : CheckResultFn (Option Pod)
pod_started none = returned false
pod_started (some pod) = returned (not (is_text "Pending" pod.phase || is_text "Unknown" pod.phase))

abbrev pub at_least : ℕ → Option ℕ → Bool
at_least count none = false
at_least count (some n) = leb count n

unfoldable pub replicas_available : (count : ℕ) → CheckResultFn (Option Deployment)
replicas_available count none = returned false
replicas_available count (some deployment) = returned (at_least count deployment.available_replicas)

unfoldable pub namespace_active : CheckResultFn (Option Namespace)
namespace_active none = returned false
namespace_active (some namespace) = returned (is_text "Active" namespace.phase)

abbrev meshed : Option (Option Labels) → Bool
meshed none = false
meshed (some none) = false
meshed (some (some ls)) = has_key "networking.gke.io/meshes" ls

-- None has no metadata to read.
unfoldable pub mesh_annotated : CheckResultFn (Option DynResource)
mesh_annotated none = raised attribute_error
mesh_annotated (some resource) = returned (meshed resource.annotations)

abbrev pub is_gone : {A : Type 0} → CheckResultFn (Option A)
is_gone none = returned true
is_gone (some a) = returned false

-- The class's settings for the deletion of a namespace.
pub record DeletionTimes : Type 0 where
  pub wait_for_namespace_deleted_timeout_sec : Option ℕ
  pub wait_for_namespace_deleted_sleep_sec : Option ℕ

abbrev or_else : Option ℕ → ℕ → ℕ
or_else none default = default
or_else (some n) default = n

unfoldable pub namespace_timeout : DeletionTimes → (timeout_sec : Option ℕ) → ℕ
namespace_timeout times none = or_else times.wait_for_namespace_deleted_timeout_sec 600
namespace_timeout times (some timeout_sec) = timeout_sec

abbrev seconds : Option ℕ → Outcome Exception ℕ
seconds none = raised type_error
seconds (some n) = returned n

-- Where the class has a pause, the source takes the time limit of the class in its place.
unfoldable pub namespace_wait : DeletionTimes → (wait_sec : Option ℕ) → Outcome Exception ℕ
namespace_wait times none =
    if is_some times.wait_for_namespace_deleted_sleep_sec
    then seconds times.wait_for_namespace_deleted_timeout_sec
    else returned 30
namespace_wait times (some wait_sec) = returned wait_sec

module _ {W : Type 0} (tenacity : Tenacity) where
  -- How every wait starts: a constant_retryer with a time limit, over the call and the check.
  unfoldable pub wait_until :
      {A : Type 0}
      → (timeout_sec wait_sec : ℕ) → CheckResultFn A
      → Effect W Exception A
      → Effect W Exception A
  wait_until {A} timeout_sec wait_sec check call = do
    retryer ← lift (constant_retryer wait_sec 0 (some timeout_sec) none (some check))
    Tenacity.run tenacity W A retryer call

  -- The waits for a deletion: until the read returns None.
  unfoldable pub wait_until_gone :
      {A : Type 0}
      → (timeout_sec wait_sec : ℕ) → Effect W Exception (Option A)
      → Effect W Exception (Unit {0})
  wait_until_gone timeout_sec wait_sec read = do
    wait_until timeout_sec wait_sec is_gone read
    pure tt

module _ {W : Type 0} (tenacity : Tenacity) (api : K8sApi W) (namespace : String)
    (timeout_sec wait_sec : ℕ) where
  abbrev gone : {A : Type 0} → Effect W Exception (Option A) → Effect W Exception (Unit {0})
  gone read = wait_until_gone tenacity timeout_sec wait_sec read

  unfoldable pub wait_for_pod_deleted : (name : String) → Effect W Exception (Unit {0})
  wait_for_pod_deleted name = gone (get_pod tenacity api namespace name)

  unfoldable pub wait_for_service_deleted : (name : String) → Effect W Exception (Unit {0})
  wait_for_service_deleted name = gone (get_service tenacity api namespace name)

  unfoldable pub wait_for_service_account_deleted : (name : String) → Effect W Exception (Unit {0})
  wait_for_service_account_deleted name = gone (get_service_account tenacity api namespace name)

  unfoldable pub wait_for_deployment_deleted : (name : String) → Effect W Exception (Unit {0})
  wait_for_deployment_deleted name = gone (get_deployment tenacity api namespace name)

  unfoldable pub wait_for_get_gamma_mesh_deleted : (name : String) → Effect W Exception (Unit {0})
  wait_for_get_gamma_mesh_deleted name = gone (get_gamma_mesh tenacity api namespace name)

  unfoldable pub wait_for_get_gamma_route_deleted :
      (name : String) → RouteKind → Effect W Exception (Unit {0})
  wait_for_get_gamma_route_deleted name kind =
      gone (get_gamma_route tenacity api namespace name kind)

  unfoldable pub wait_for_get_session_affinity_policy_deleted :
      (name : String) → Effect W Exception (Unit {0})
  wait_for_get_session_affinity_policy_deleted name =
      gone (get_session_affinity_policy tenacity api namespace name)

  unfoldable pub wait_for_get_session_affinity_filter_deleted :
      (name : String) → Effect W Exception (Unit {0})
  wait_for_get_session_affinity_filter_deleted name =
      gone (get_session_affinity_filter tenacity api namespace name)

  unfoldable pub wait_for_get_backend_policy_deleted :
      (name : String) → Effect W Exception (Unit {0})
  wait_for_get_backend_policy_deleted name = gone (get_backend_policy tenacity api namespace name)

  unfoldable pub wait_for_mesh_annotation_on_gamma_route :
      (name : String) → RouteKind → Effect W Exception (Unit {0})
  wait_for_mesh_annotation_on_gamma_route name kind = do
    wait_until tenacity timeout_sec wait_sec mesh_annotated
        (get_gamma_route tenacity api namespace name kind)
    pure tt

  unfoldable pub wait_for_service_neg_status_annotation :
      (name : String) → Effect W Exception (Unit {0})
  wait_for_service_neg_status_annotation name = do
    wait_until tenacity timeout_sec wait_sec check_service_neg_status_annotation
        (get_service tenacity api namespace name)
    pure tt

  unfoldable pub wait_for_deployment_available_replicas :
      (name : String) → (count : ℕ) → Effect W Exception (Option Deployment)
  wait_for_deployment_available_replicas name count =
      wait_until tenacity timeout_sec wait_sec (replicas_available count)
        (get_deployment tenacity api namespace name)

  unfoldable pub wait_for_deployment_replica_count :
      Deployment → (count : ℕ) → Effect W Exception (Unit {0})
  wait_for_deployment_replica_count deployment count = do
    wait_until tenacity timeout_sec wait_sec (λ pods. returned (length pods == count))
        (list_deployment_pods tenacity api namespace deployment)
    pure tt

  unfoldable pub wait_for_pod_started : (pod_name : String) → Effect W Exception (Unit {0})
  wait_for_pod_started pod_name = do
    wait_until tenacity timeout_sec wait_sec pod_started (get_pod tenacity api namespace pod_name)
    pure tt

  unfoldable pub wait_for_namespace_active : Effect W Exception (Unit {0})
  wait_for_namespace_active = do
    wait_until tenacity timeout_sec wait_sec namespace_active (get_namespace tenacity api namespace)
    pure tt

module _ {W : Type 0} (tenacity : Tenacity) (api : K8sApi W) (namespace : String) where
  -- The name of the NEG and its zones, as they stand in the annotation. `loads` is json.loads, which may
  -- raise.
  unfoldable pub parse_service_neg_status :
      (loads : String → Outcome Exception Json)
      → (service_name : String) → (service_port : ℕ) → Effect W Exception (Json × Json)
  parse_service_neg_status loads service_name service_port = do
    service ← get_service tenacity api namespace service_name
    text ← lift (neg_status service)
    neg_info ← lift (loads text)
    groups ← lift (item "network_endpoint_groups" neg_info)
    neg_name ← lift (item (decimal service_port) groups)
    neg_zones ← lift (item "zones" neg_info)
    pure (neg_name, neg_zones)

  unfoldable pub wait_for_namespace_deleted :
      DeletionTimes → (timeout_sec wait_sec : Option ℕ) → Effect W Exception (Unit {0})
  wait_for_namespace_deleted times timeout_sec wait_sec = do
    pause ← lift (namespace_wait times wait_sec)
    wait_until_gone tenacity (namespace_timeout times timeout_sec) pause
        (get_namespace tenacity api namespace)
