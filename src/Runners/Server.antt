-- ===== src/Runners/Server.antt =====
-- framework/test_app/runners/k8s/k8s_xds_server_runner.py: the run and the cleanup of
-- KubernetesServerRunner, without port forwarding and pre-stop hooks.
use psm_interop.Retryers.Tenacity.{Tenacity}
use psm_interop.Errors.{Exception, value_error}
use psm_interop.Common.{
  ℕ, String, Bool, true, false, not, ◌&&◌, ◌||◌, Option, none, some, List, map, ◌==◌, if◌then◌else◌,
  is_some,
}
use psm_interop.Common.Effects.{lift, Outcome, returned, raised, pure, finally, ◌>>=◌, ◌>>◌}
use psm_interop.Objects.{drop_if, itself, change, on_cloud}
use psm_interop.K8s.{K8sApi, Pod, Service}
use psm_interop.K8s.Namespaces.{get_service}
use psm_interop.K8s.Waits.{DeletionTimes}
use psm_interop.Gcp.Iam.Service.{IamApi}
use psm_interop.Runners.{RunnerMethod, stop}
use psm_interop.Runners.Deletions.{cleanup_namespace}
use psm_interop.Runners.Deletions
use psm_interop.Runners.Creations.{
  base_run, create_service, create_deployment, setup_workload_identity, setup_csm_observability,
  start_deployment_pods, wait_service_neg_status_annotation,
}
use psm_interop.Runners.Manifests.{Vars, Cluster}
use psm_interop.Runners.Client.{
  delete_own_namespace, delete_account, delete_monitoring, delete_own_deployment,
}

-- What is passed to XdsTestServer.
pub record XdsTestServer : Type 0 where
  pub ip : Option String
  pub rpc_port : ℕ
  pub hostname : String
  pub maintenance_port : ℕ
  pub secure_mode : Bool

unfoldable pub default_maintenance_port : (secure_mode : Bool) → ℕ
default_maintenance_port secure_mode = if secure_mode then 8081 else 8080

-- 0 and None are no port.
unfoldable pub maintenance_port_or_default : (secure_mode : Bool) → Option ℕ → ℕ
maintenance_port_or_default secure_mode none = default_maintenance_port secure_mode
maintenance_port_or_default secure_mode (some port) =
    if port == 0 then default_maintenance_port secure_mode else port

-- The checks of `run` on its arguments.
unfoldable pub check_ports :
    (secure_mode enable_workload_identity : Bool)
    → (test_port maintenance_port : ℕ) → Outcome Exception (Unit {0})
check_ports secure_mode enable_workload_identity test_port maintenance_port =
    if secure_mode && maintenance_port == test_port
    then raised value_error
    else if secure_mode && not enable_workload_identity
    then raised value_error
    else returned tt

unfoldable pub xds_test_server_for_pod :
    (test_port maintenance_port : ℕ) → (secure_mode : Bool) → Pod → XdsTestServer
xds_test_server_for_pod test_port maintenance_port secure_mode pod = record {
  ip = pod.pod_ip;
  rpc_port = test_port;
  hostname = pod.pod_name;
  maintenance_port = maintenance_port;
  secure_mode = secure_mode;
}

module _ {W Body : Type 0} (tenacity : Tenacity) (api : K8sApi W) (iam : IamApi W Body)
    (project : String) (cluster : Cluster W) where
  abbrev reuse_if : Bool → RunnerMethod W (Unit {0})
  reuse_if false = pure tt
  reuse_if true = do
    m ← itself
    service ← on_cloud (get_service tenacity api m.config.namespace_name m.config.service_name)
    change (λ m'. record m' { service = service })

  abbrev create_if : Vars → Option Service → RunnerMethod W (Unit {0})
  create_if vars (some service) = pure tt
  create_if vars none = do
    m ← itself
    service ←
        create_service tenacity api iam project cluster m.config.service_template vars
          m.config.service_name
    change (λ m'. record m' { service = some service })

  -- The service of the runner: an existing one if that is asked for and there is one.
  unfoldable pub setup_service : Vars → RunnerMethod W (Unit {0})
  setup_service vars = do
    m ← itself
    reuse_if m.config.reuse_service
    m' ← itself
    create_if vars m'.service

  unfoldable pub make_servers_for_deployment :
      (replica_count test_port maintenance_port : ℕ)
      → (secure_mode : Bool) → RunnerMethod W (List XdsTestServer)
  make_servers_for_deployment replica_count test_port maintenance_port secure_mode = do
    start_deployment_pods tenacity api iam project cluster replica_count
    change (λ m. record m { replica_count = replica_count })
    m ← itself
    pure (
        map (λ entry. xds_test_server_for_pod test_port maintenance_port secure_mode entry.1)
          m.pods_started)

  -- What `run` does after its checks.
  unfoldable pub checked_run :
      Vars
      → (test_port maintenance_port : ℕ) → (secure_mode : Bool) → (replica_count : ℕ)
      → RunnerMethod W (List XdsTestServer)
  checked_run vars test_port maintenance_port secure_mode replica_count = do
    base_run tenacity api iam project cluster vars
    setup_service vars
    m ← itself
    wait_service_neg_status_annotation tenacity api iam project cluster m.config.service_name
        test_port 60
    setup_workload_identity tenacity api iam project cluster vars
    deployment ← create_deployment tenacity api iam project cluster none vars
    change (λ m'. record m' { deployment = some deployment })
    setup_csm_observability tenacity api iam project cluster vars
    make_servers_for_deployment replica_count test_port maintenance_port secure_mode

  unfoldable pub run :
      Vars
      → (test_port : ℕ) → (maintenance_port : Option ℕ) → (secure_mode : Bool) → (replica_count : ℕ)
      → RunnerMethod W (List XdsTestServer)
  run vars test_port maintenance_port secure_mode replica_count = do
    m ← itself
    let port = maintenance_port_or_default secure_mode maintenance_port
    on_cloud (lift (check_ports secure_mode m.config.enable_workload_identity test_port port))
    checked_run vars test_port port secure_mode replica_count

  unfoldable pub delete_own_service : (force : Bool) → RunnerMethod W (Unit {0})
  delete_own_service force = do
    m ← itself
    drop_if ((is_some m.service && not m.config.reuse_service) || force)
        (Deletions.delete_service tenacity api m.config.namespace_name m.config.service_name)
        (λ m'. record m' { service = none })

  unfoldable pub server_cleanup :
      DeletionTimes → (force force_namespace : Bool) → RunnerMethod W (Unit {0})
  server_cleanup times force force_namespace =
      finally
        (do
          delete_own_deployment tenacity api iam project cluster force
          delete_own_service force
          delete_account tenacity api iam project cluster force
          delete_monitoring tenacity api iam project cluster force
          delete_own_namespace tenacity api iam project cluster times (force_namespace && force))
        (stop cluster.now)
