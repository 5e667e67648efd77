-- ===== src/Runners/Creations.antt =====
-- framework/test_app/runners/k8s/k8s_base_runner.py: the creations from templates, and the start of a run.
-- Rendering a template and sending the manifest is a parameter, and so are the variables that only the
-- templates read.
use psm_interop.Retryers.Tenacity.{Tenacity}
use psm_interop.Errors.{
  runtime_error, etag_conflict, Exception, ExceptionClass, operation_error, response_error,
  transport_error,
}
use psm_interop.Common.{
  Option, none, some, [], ◌∷◌, map, ℕ, String, true, false, List, str_eq, if◌then◌else◌,
}
use Prim.Native.String.{◌++◌ as ◌<+>◌}
use psm_interop.Common.Effects.{Outcome, pure, throw, catch, lift, ◌>>=◌, ◌>>◌}
use psm_interop.Objects.{itself, change, on_cloud, given}
use psm_interop.K8s.{K8sApi, Service, ServiceAccount, Deployment, Pod, Namespace}
use psm_interop.K8s.Namespaces.{get_namespace, get_pod, list_deployment_pods}
use psm_interop.K8s.Waits.{
  parse_service_neg_status, namespace_active, wait_for_namespace_active,
  wait_for_deployment_replica_count, wait_for_pod_started, wait_for_deployment_available_replicas,
  wait_for_service_neg_status_annotation,
}
use psm_interop.Gcp.Iam.Service.{
  IamApi, add_service_account_iam_policy_binding, remove_service_account_iam_policy_binding,
}
use psm_interop.Runners.{RunnerMethod, reset_state, may_run, read_clock, start_completed}
use psm_interop.Runners.Pods.{pod_started_logic}
use psm_interop.Runners.Manifests.{
  Created, Vars, Cluster, check_namespace, check_service_account, check_deployment, check_service,
  check_pod_monitoring,
}

unfoldable pub workload_identity_member_name :
    (project namespace_name service_account_name : String) → String
workload_identity_member_name project namespace_name service_account_name =
    "serviceAccount:" <+> project <+> ".svc.id.goog[" <+> namespace_name <+> "/"
    <+> service_account_name <+> "]"

-- gcp.api.Error and the classes that extend it
unfoldable pub is_gcp_error : ExceptionClass
is_gcp_error (response_error status) = true
is_gcp_error (transport_error e) = true
is_gcp_error (operation_error code) = true
is_gcp_error etag_conflict = true
is_gcp_error _ = false

unfoldable pub make_namespace_name : (resource_prefix resource_suffix name : String) → String
make_namespace_name resource_prefix resource_suffix name =
    if str_eq resource_suffix ""
    then resource_prefix <+> "-" <+> name
    else resource_prefix <+> "-" <+> name <+> "-" <+> resource_suffix

module _ {W Body : Type 0} (tenacity : Tenacity) (api : K8sApi W) (iam : IamApi W Body)
    (project : String) (cluster : Cluster W) where
  unfoldable pub grant_workload_identity_user : RunnerMethod W (Unit {0})
  grant_workload_identity_user = do
    m ← itself
    on_cloud (
        add_service_account_iam_policy_binding tenacity iam project m.config.gcp_service_account
          "roles/iam.workloadIdentityUser"
          (workload_identity_member_name project m.config.namespace_name
            m.config.service_account_name))

  unfoldable pub revoke_workload_identity_user : RunnerMethod W (Unit {0})
  revoke_workload_identity_user = do
    m ← itself
    on_cloud (
        catch
          (remove_service_account_iam_policy_binding tenacity iam project
            m.config.gcp_service_account "roles/iam.workloadIdentityUser"
            (workload_identity_member_name project m.config.namespace_name
              m.config.service_account_name))
          (λ e. if is_gcp_error e then pure tt else throw e))

  unfoldable pub make :
      {A : Type 0} → (template : String) → Vars → (Created → Outcome Exception A) → RunnerMethod W A
  make template vars check =
      on_cloud (do created ← cluster.create template vars; lift (check created))

  abbrev pub created_or_kept : Vars → Option Namespace → RunnerMethod W (Unit {0})
  created_or_kept vars (some namespace) = pure tt
  created_or_kept vars none = do
    m ← itself
    namespace ← make m.config.namespace_template vars (check_namespace m.config.namespace_name)
    change (λ m'. record m' { namespace = some namespace })
    active ← on_cloud (lift (namespace_active (some namespace)))
    if active
        then pure tt
        else on_cloud (wait_for_namespace_active tenacity api m.config.namespace_name 60 1)

  abbrev pub reused_namespace : RunnerMethod W (Unit {0})
  reused_namespace = do
    m ← itself
    namespace ← on_cloud (get_namespace tenacity api m.config.namespace_name)
    change (λ m'. record m' { namespace = namespace })

  unfoldable pub set_up_namespace : Vars → RunnerMethod W (Unit {0})
  set_up_namespace vars = do
    m ← itself
    if m.config.reuse_namespace then reused_namespace else pure tt
    m' ← itself
    created_or_kept vars m'.namespace

  abbrev pub started : Vars → RunnerMethod W (Unit {0})
  started vars = do
    change reset_state
    time ← read_clock cluster.now
    change (λ m. record m { time_start_requested = some time })
    set_up_namespace vars

  -- The `run` of the base class.
  unfoldable pub base_run : Vars → RunnerMethod W (Unit {0})
  base_run vars = do m ← itself; if may_run m then started vars else throw runtime_error

  unfoldable pub create_service_account : Vars → RunnerMethod W ServiceAccount
  create_service_account vars = do
    m ← itself
    make m.config.service_account_template vars
        (check_service_account m.config.service_account_name)

  unfoldable pub create_service :
      (template : String) → Vars → (service_name : String) → RunnerMethod W Service
  create_service template vars service_name = make template vars (check_service service_name)

  -- The id is that of the variables, if they have one.
  unfoldable pub create_deployment :
      (deployment_id : Option String) → Vars → RunnerMethod W Deployment
  create_deployment deployment_id vars = do
    m ← itself
    (λ s.
        change
          (λ m'. record m' {
            deployment_id =
                some (
                  id_or_random m.config.deployment_name (cluster.rand_string s.world)
                    deployment_id);
          })
          s)
    make m.config.deployment_template vars (check_deployment m.config.deployment_name)
    where
      id_or_random : (name random : String) → Option String → String
      id_or_random name random none = name <+> "-" <+> random
      id_or_random name random (some id) = id

  abbrev id_text : Option String → String
  id_text none = "None"
  id_text (some s) = s

  -- The part of both runners for CSM observability.
  unfoldable pub setup_csm_observability : Vars → RunnerMethod W (Unit {0})
  setup_csm_observability vars = do
    m ← itself
    if m.config.enable_csm_observability
        then (do
          let name = id_text m.deployment_id <+> "-gmp"
          change (λ m'. record m' { pod_monitoring_name = some name })
          monitoring ← make "csm/pod-monitoring.yaml" vars check_pod_monitoring
          change (λ m'. record m' { pod_monitoring = some monitoring }))
        else pure tt

  -- `workload_identity` of both runners.
  unfoldable pub setup_workload_identity : Vars → RunnerMethod W (Unit {0})
  setup_workload_identity vars = do
    m ← itself
    if m.config.enable_workload_identity
        then (do
          if m.config.workload_identity_iam_policy_binding
              then grant_workload_identity_user
              else pure tt
          account ← create_service_account vars
          change (λ m'. record m' { service_account = some account }))
        else pure tt

  abbrev pod_names : List Pod → List String
  pod_names pods = map (λ p. p.pod_name) pods

  unfoldable pub wait_deployment_pod_count : Deployment → (count : ℕ) → RunnerMethod W (List String)
  wait_deployment_pod_count deployment count = do
    m ← itself
    on_cloud (
        wait_for_deployment_replica_count tenacity api m.config.namespace_name 300 1 deployment
          count)
    pods ← on_cloud (list_deployment_pods tenacity api m.config.namespace_name deployment)
    pure (pod_names pods)

  unfoldable pub wait_pod_started : (name : String) → RunnerMethod W Pod
  wait_pod_started name = do
    m ← itself
    on_cloud (wait_for_pod_started tenacity api m.config.namespace_name 180 1 name)
    pod ← on_cloud (get_pod tenacity api m.config.namespace_name name)
    given pod

  unfoldable pub start_pods : List String → RunnerMethod W (Unit {0})
  start_pods [] = pure tt
  start_pods (name ∷ names) = do
    pod ← wait_pod_started name
    change (pod_started_logic pod)
    start_pods names

  unfoldable pub wait_deployment_with_available_replicas :
      (name : String) → (count : ℕ) → RunnerMethod W (Unit {0})
  wait_deployment_with_available_replicas name count = do
    m ← itself
    deployment ← on_cloud (
        wait_for_deployment_available_replicas tenacity api m.config.namespace_name 300 1 name
          count)
    given deployment
    pure tt

  unfoldable pub wait_service_neg_status_annotation :
      (service_name : String) → (service_port timeout_sec : ℕ) → RunnerMethod W (Unit {0})
  wait_service_neg_status_annotation service_name service_port timeout_sec = do
    m ← itself
    on_cloud (
        wait_for_service_neg_status_annotation tenacity api m.config.namespace_name timeout_sec 1
          service_name)
    on_cloud (
        parse_service_neg_status tenacity api m.config.namespace_name cluster.loads service_name
          service_port)
    pure tt

  -- The start of the pods of the deployment of this run, up to the point where the run is complete.
  unfoldable pub start_deployment_pods : (replica_count : ℕ) → RunnerMethod W (Unit {0})
  start_deployment_pods replica_count = do
    m ← itself
    deployment ← given m.deployment
    names ← wait_deployment_pod_count deployment replica_count
    start_pods names
    wait_deployment_with_available_replicas m.config.deployment_name replica_count
    start_completed cluster.now
