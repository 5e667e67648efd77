-- ===== src/Runners/Client.antt =====
-- framework/test_app/runners/k8s/k8s_xds_client_runner.py: the run and the cleanup of KubernetesClientRunner,
-- without port forwarding.
use psm_interop.Retryers.Tenacity.{Tenacity}
use psm_interop.Errors.{index_error}
use psm_interop.Common.{
  true, false, ℕ, String, Bool, ◌&&◌, ◌||◌, Option, none, some, List, [], ◌∷◌, map, if◌then◌else◌,
  is_some,
}
use psm_interop.Common.Effects.{pure, throw, finally, ◌>>=◌, ◌>>◌}
use psm_interop.Objects.{drop_if, itself, change}
use psm_interop.K8s.{K8sApi, Pod}
use psm_interop.K8s.Waits.{DeletionTimes}
use psm_interop.Gcp.Iam.Service.{IamApi}
use psm_interop.Runners.{Runner, RunnerMethod, stop}
use psm_interop.Runners.Deletions.{
  delete_deployment, delete_service_account, delete_pod_monitoring, cleanup_namespace,
}
use psm_interop.Runners.Creations.{
  base_run, create_deployment, setup_workload_identity, setup_csm_observability,
  start_deployment_pods, revoke_workload_identity_user,
}
use psm_interop.Runners.Manifests.{Vars, Cluster}

-- What is passed to XdsTestClient.
pub record XdsTestClient : Type 0 where
  pub ip : Option String
  pub rpc_port : ℕ
  pub server_target : String
  pub hostname : String
  pub monitoring_port : Option ℕ

unfoldable pub xds_test_client_for_pod : Runner → (server_target : String) → Pod → XdsTestClient
xds_test_client_for_pod m server_target pod = record {
  ip = pod.pod_ip;
  rpc_port = m.config.stats_port;
  server_target = server_target;
  hostname = pod.pod_name;
  monitoring_port = if m.config.enable_csm_observability then some 9464 else none;
}

abbrev pub first : {W A : Type 0} → List A → RunnerMethod W A
first [] = throw index_error
first (a ∷ rest) = pure a

module _ {W Body : Type 0} (tenacity : Tenacity) (api : K8sApi W) (iam : IamApi W Body)
    (project : String) (cluster : Cluster W) where
  unfoldable pub make_clients_for_deployment :
      (replica_count : ℕ) → (server_target : String) → RunnerMethod W (List XdsTestClient)
  make_clients_for_deployment replica_count server_target = do
    start_deployment_pods tenacity api iam project cluster replica_count
    m ← itself
    pure (map (λ entry. xds_test_client_for_pod m server_target entry.1) m.pods_started)

  unfoldable pub run : Vars → (server_target : String) → RunnerMethod W XdsTestClient
  run vars server_target = do
    base_run tenacity api iam project cluster vars
    setup_workload_identity tenacity api iam project cluster vars
    deployment ← create_deployment tenacity api iam project cluster none vars
    change (λ m. record m { deployment = some deployment })
    setup_csm_observability tenacity api iam project cluster vars
    clients ← make_clients_for_deployment 1 server_target
    first clients

  -- The deletions that the runners share. `held` is whether there is an account, or force.
  unfoldable pub revoke_if : Bool → RunnerMethod W (Unit {0})
  revoke_if false = pure tt
  revoke_if true = revoke_workload_identity_user tenacity api iam project cluster

  unfoldable pub delete_account : (force : Bool) → RunnerMethod W (Unit {0})
  delete_account force = do
    m ← itself
    let held = m.config.enable_workload_identity && (is_some m.service_account || force)
    revoke_if (held && m.config.workload_identity_iam_policy_binding)
    drop_if held
        (delete_service_account tenacity api m.config.namespace_name m.config.service_account_name)
        (λ m'. record m' { service_account = none })

  abbrev name_or_empty : Option String → String
  name_or_empty none = ""
  name_or_empty (some name) = name

  unfoldable pub delete_monitoring : (force : Bool) → RunnerMethod W (Unit {0})
  delete_monitoring force = do
    m ← itself
    drop_if (is_some m.pod_monitoring_name && (is_some m.pod_monitoring || force))
        (delete_pod_monitoring tenacity api m.config.namespace_name
          (name_or_empty m.pod_monitoring_name))
        (λ m'. record m' { pod_monitoring = none; pod_monitoring_name = none })

  unfoldable pub delete_own_deployment : (force : Bool) → RunnerMethod W (Unit {0})
  delete_own_deployment force = do
    m ← itself
    drop_if (is_some m.deployment || force)
        (delete_deployment tenacity api m.config.namespace_name cluster.stop_dependencies
          m.config.deployment_name)
        (λ m'. record m' { deployment = none })

  unfoldable pub delete_own_namespace : DeletionTimes → (force : Bool) → RunnerMethod W (Unit {0})
  delete_own_namespace times force = do
    m ← itself
    cleanup_namespace tenacity api m.config.namespace_name times force

  unfoldable pub client_cleanup :
      DeletionTimes → (force force_namespace : Bool) → RunnerMethod W (Unit {0})
  client_cleanup times force force_namespace =
      finally
        (do
          delete_own_deployment force
          delete_account force
          delete_monitoring force
          delete_own_namespace times (force_namespace && force))
        (stop cluster.now)
