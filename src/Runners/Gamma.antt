-- ===== src/Runners/Gamma.antt =====
-- framework/test_app/runners/k8s/gamma_server_runner.py: the run and the cleanup of GammaServerRunner.
use psm_interop.Errors.{value_error}
use psm_interop.Retryers.Tenacity.{Tenacity}
use psm_interop.Common.{
  true, false, if◌then◌else◌, not, ℕ, String, Bool, ◌&&◌, ◌||◌, Option, none, some, List, is_some,
}
use psm_interop.Common.Effects.{throw, pure, finally, ◌>>=◌, ◌>>◌}
use psm_interop.Objects.{drop_if, ObjectMethod, itself, change, on_cloud, inherited}
use psm_interop.K8s.{K8sApi, Service, DynResource}
use psm_interop.K8s.Namespaces.{RouteKind}
use psm_interop.K8s.Waits.{has_key, DeletionTimes, wait_for_mesh_annotation_on_gamma_route}
use psm_interop.Gcp.Iam.Service.{IamApi}
use psm_interop.Runners.{Runner, RunnerMethod, stop}
use psm_interop.Runners.Deletions.{cleanup_namespace}
use psm_interop.Runners.Deletions
use psm_interop.Runners.Creations.{
  make, base_run, create_service, create_deployment, setup_workload_identity,
  setup_csm_observability, wait_service_neg_status_annotation,
}
use psm_interop.Runners.Manifests.{
  Vars, Cluster, check_gamma_route, check_session_affinity_policy, check_session_affinity_filter,
  check_backend_policy,
}
use psm_interop.Runners.Client.{
  delete_own_namespace, delete_account, delete_monitoring, delete_own_deployment,
}
use psm_interop.Runners.Server.{
  XdsTestServer, maintenance_port_or_default, setup_service, make_servers_for_deployment,
  delete_own_service,
}

pub record GammaRunner : Type 0 where
  pub base : Runner
  pub route_kind : RouteKind
  pub route_name : String
  pub frontend_service_name : String
  pub route : Option DynResource
  pub frontend_service : Option Service
  pub session_affinity_filter : Option DynResource
  pub session_affinity_policy : Option DynResource
  pub backend_policy : Option DynResource

-- `a == b` for two tests
abbrev same_test : Bool → Bool → Bool
same_test true b = b
same_test false b = not b

abbrev pub gamma_with_base : GammaRunner → Runner → GammaRunner
gamma_with_base m b = record m { base = b }

module _ {W Body : Type 0} (tenacity : Tenacity) (api : K8sApi W) (iam : IamApi W Body)
    (project : String) (cluster : Cluster W) where
  abbrev GammaMethod : Type 0 → Type 0
  GammaMethod A = ObjectMethod GammaRunner W A

  abbrev pub as_runner : {A : Type 0} → RunnerMethod W A → GammaMethod A
  as_runner method = inherited (λ m. m.base) gamma_with_base method

  -- The mesh annotation is waited for on an HTTP route, of whatever kind the route is.
  unfoldable pub gamma_run :
      (route_template : String)
      → Vars
      → (test_port : ℕ) → (maintenance_port : Option ℕ) → (secure_mode : Bool) → (replica_count : ℕ)
      → GammaMethod (List XdsTestServer)
  gamma_run route_template vars test_port maintenance_port secure_mode replica_count = do
    m ← itself
    let port = maintenance_port_or_default secure_mode maintenance_port
    as_runner (base_run tenacity api iam project cluster vars)
    as_runner (setup_service tenacity api iam project cluster vars)
    frontend ← as_runner (
        create_service tenacity api iam project cluster "gamma/frontend_service.yaml" vars
          m.frontend_service_name)
    change (λ m'. record m' { frontend_service = some frontend })
    route ←
        as_runner (
          make tenacity api iam project cluster route_template vars
            (check_gamma_route m.route_name))
    change (λ m'. record m' { route = some route })
    as_runner (setup_workload_identity tenacity api iam project cluster vars)
    deployment ← as_runner (create_deployment tenacity api iam project cluster none vars)
    change (λ m'. record m' { base = record m'.base { deployment = some deployment } })
    as_runner (setup_csm_observability tenacity api iam project cluster vars)
    servers ← as_runner (
        make_servers_for_deployment tenacity api iam project cluster replica_count test_port port
          secure_mode)
    as_runner (
        wait_service_neg_status_annotation tenacity api iam project cluster
          m.base.config.service_name test_port 240)
    on_cloud (
        wait_for_mesh_annotation_on_gamma_route tenacity api m.base.config.namespace_name 60 1
          m.route_name RouteKind.http)
    pure servers

  -- `_create_session_affinity_policy` of the base class, for which one of the two names has to be given.
  unfoldable pub checked_session_affinity_policy :
      (template : String) → Vars → GammaMethod DynResource
  checked_session_affinity_policy template vars = do
    if same_test (has_key "route_name" vars) (has_key "service_name" vars)
        then throw value_error
        else pure tt
    as_runner (
        make tenacity api iam project cluster template vars
          (check_session_affinity_policy "ssa-policy"))

  unfoldable pub create_session_affinity_policy :
      (template : String) → Vars → GammaMethod (Unit {0})
  create_session_affinity_policy template vars = do
    policy ← checked_session_affinity_policy template vars
    change (λ m. record m { session_affinity_policy = some policy })

  unfoldable pub create_session_affinity_filter : Vars → GammaMethod (Unit {0})
  create_session_affinity_filter vars = do
    filter ← as_runner (
        make tenacity api iam project cluster "gamma/session_affinity_filter.yaml" vars
          (check_session_affinity_filter "ssa-filter"))
    change (λ m. record m { session_affinity_filter = some filter })

  unfoldable pub create_backend_policy : Vars → GammaMethod (Unit {0})
  create_backend_policy vars = do
    policy ← as_runner (
        make tenacity api iam project cluster "gamma/backend_policy.yaml" vars
          (check_backend_policy "backend-policy"))
    change (λ m. record m { backend_policy = some policy })

  unfoldable pub delete_gamma_resources : (force : Bool) → GammaMethod (Unit {0})
  delete_gamma_resources force = do
    m ← itself
    let namespace = m.base.config.namespace_name
    drop_if (is_some m.session_affinity_policy || force)
        (Deletions.delete_session_affinity_policy tenacity api namespace "ssa-policy")
        (λ m'. record m' { session_affinity_policy = none })
    drop_if (is_some m.session_affinity_filter || force)
        (Deletions.delete_session_affinity_filter tenacity api namespace "ssa-filter")
        (λ m'. record m' { session_affinity_filter = none })
    drop_if (is_some m.backend_policy || force)
        (Deletions.delete_backend_policy tenacity api namespace "backend-policy")
        (λ m'. record m' { backend_policy = none })
    drop_if (is_some m.route || force)
        (Deletions.delete_gamma_route tenacity api namespace m.route_name m.route_kind)
        (λ m'. record m' { route = none })
    drop_if (is_some m.frontend_service || force)
        (Deletions.delete_service tenacity api namespace m.frontend_service_name)
        (λ m'. record m' { frontend_service = none })

  unfoldable pub gamma_cleanup :
      DeletionTimes → (force force_namespace : Bool) → GammaMethod (Unit {0})
  gamma_cleanup times force force_namespace =
      finally
        (do
          delete_gamma_resources force
          as_runner (delete_own_service tenacity api iam project cluster force)
          as_runner (delete_own_deployment tenacity api iam project cluster force)
          as_runner (delete_account tenacity api iam project cluster force)
          as_runner (delete_monitoring tenacity api iam project cluster force)
          as_runner (
              delete_own_namespace tenacity api iam project cluster times
                (force_namespace && force)))
        (as_runner (stop cluster.now))
