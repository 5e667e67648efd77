-- ===== src/Runners/Again.antt =====
-- When a runner may run, and what a cleanup leaves: framework/test_app/runners/k8s.
pub mod Gammas
use psm_interop.Retryers.Tenacity.{Tenacity}
use psm_interop.Common.{
  false, ℕ, String, ◌≡◌, refl, ap, Bool, true, not, ◌&&◌, ◌||◌, Option, none, some, List, ◌++◌,
  is_some,
}
use psm_interop.Common.Effects.{finally, pure, ◌>>=◌, ◌>>◌}
use psm_interop.Objects.{drop_if, Object, change, on_cloud, itself}
use psm_interop.Objects.Keeps.{Keeps, drop_if-Keeps, bind-Keeps, if-Keeps}
use psm_interop.K8s.{K8sApi}
use psm_interop.K8s.Waits.{DeletionTimes}
use psm_interop.Gcp.Iam.Service.{IamApi}
use psm_interop.Runners.{
  completed_run, Runner, RunnerMethod, RunHistory, may_run, stop, history_entry,
}
use psm_interop.Runners.Deletions.{delete_service_account, cleanup_namespace}
use psm_interop.Runners.Creations.{revoke_workload_identity_user}
use psm_interop.Runners.Manifests.{Cluster}
use psm_interop.Runners.Client.{
  revoke_if, delete_own_namespace, delete_account, delete_monitoring, delete_own_deployment,
  client_cleanup,
}
use psm_interop.Runners.Server.{delete_own_service, server_cleanup}

-- What a stop looks at.
abbrev pub run_part : Runner → List RunHistory × Option String × Option ℕ × Option ℕ
run_part m = (m.run_history, m.deployment_id, m.time_start_requested, m.time_start_completed)

-- What a cleanup leaves: the runner may run, and its history has the entry of the run that it ended.
pub record Ended (s t : Runner) : Type 0 where
  pub again : may_run t ≡ true
  pub history :
      (stopped : ℕ) × (t.time_stopped ≡ some stopped)
      × (t.run_history ≡ s.run_history ++ history_entry s stopped)

module _ {W Body : Type 0} (tenacity : Tenacity) (api : K8sApi W) (iam : IamApi W Body)
    (project : String) (cluster : Cluster W) where
  pub delete_own_deployment-Keeps :
      (force : Bool) → Keeps run_part (delete_own_deployment tenacity api iam project cluster force)
  unfolding delete_own_deployment Keeps
  delete_own_deployment-Keeps force s = drop_if-Keeps run_part _ _ _ (λ m. refl) s

  revoke_if-Keeps : (b : Bool) → Keeps run_part (revoke_if tenacity api iam project cluster b)
  unfolding revoke_if revoke_workload_identity_user Keeps
  revoke_if-Keeps false s = refl
  revoke_if-Keeps true s = refl

  pub delete_account-Keeps :
      (force : Bool) → Keeps run_part (delete_account tenacity api iam project cluster force)
  unfolding delete_account Keeps
  delete_account-Keeps force s =
      let held =
        s.manager.config.enable_workload_identity && (is_some s.manager.service_account || force) in
      bind-Keeps run_part
        (revoke_if tenacity api iam project cluster
          (held && s.manager.config.workload_identity_iam_policy_binding))
        (λ _.
          drop_if held
            (delete_service_account tenacity api s.manager.config.namespace_name
              s.manager.config.service_account_name)
            (λ m. record m { service_account = none }))
        (revoke_if-Keeps _) (λ a. drop_if-Keeps run_part _ _ _ (λ m. refl)) s

  pub delete_monitoring-Keeps :
      (force : Bool) → Keeps run_part (delete_monitoring tenacity api iam project cluster force)
  unfolding delete_monitoring Keeps
  delete_monitoring-Keeps force s = drop_if-Keeps run_part _ _ _ (λ m. refl) s

  pub delete_own_namespace-Keeps :
      (times : DeletionTimes) (force : Bool)
      → Keeps run_part (delete_own_namespace tenacity api iam project cluster times force)
  unfolding delete_own_namespace cleanup_namespace Keeps
  delete_own_namespace-Keeps times force s = drop_if-Keeps run_part _ _ _ (λ m. refl) s

  pub delete_own_service-Keeps :
      (force : Bool) → Keeps run_part (delete_own_service tenacity api iam project cluster force)
  unfolding delete_own_service Keeps
  delete_own_service-Keeps force s = drop_if-Keeps run_part _ _ _ (λ m. refl) s

  stop-Ended :
      (body : RunnerMethod W (Unit {0})) (s : Object Runner W)
      → Keeps run_part body
      → Ended s.manager (finally body (stop cluster.now) s).1.manager
  unfolding stop may_run history_entry Keeps
  stop-Ended body s k = record {
    again = refl;
    history = (
      cluster.now (body s).1.world,
      refl,
      ap (λ p. p.0 ++ completed_run p.1 p.2 p.3 (cluster.now (body s).1.world)) (k s),
    );
  }

  -- However a cleanup of a client runner ends, the runner may run after it, and its history has grown by
  -- the entry, if there is one, of the run that it ended.
  pub client_cleanup-Ended :
      (times : DeletionTimes) (force force_namespace : Bool) (s : Object Runner W)
      → Ended s.manager
          (client_cleanup tenacity api iam project cluster times force force_namespace s).1.manager
  unfolding client_cleanup
  client_cleanup-Ended times force force_namespace s = stop-Ended _ s (
      bind-Keeps run_part _ _ (delete_own_deployment-Keeps force) (λ a.
        bind-Keeps run_part _ _ (delete_account-Keeps force) (λ b.
          bind-Keeps run_part _ _ (delete_monitoring-Keeps force)
            (λ c. delete_own_namespace-Keeps times (force_namespace && force)))))

  -- However a cleanup of a server runner ends, the runner may run after it, and its history has grown by
  -- the entry, if there is one, of the run that it ended.
  pub server_cleanup-Ended :
      (times : DeletionTimes) (force force_namespace : Bool) (s : Object Runner W)
      → Ended s.manager
          (server_cleanup tenacity api iam project cluster times force force_namespace s).1.manager
  unfolding server_cleanup
  server_cleanup-Ended times force force_namespace s = stop-Ended _ s (
      bind-Keeps run_part _ _ (delete_own_deployment-Keeps force) (λ a.
        bind-Keeps run_part _ _ (delete_own_service-Keeps force) (λ b.
          bind-Keeps run_part _ _ (delete_account-Keeps force) (λ c.
            bind-Keeps run_part _ _ (delete_monitoring-Keeps force)
              (λ d. delete_own_namespace-Keeps times (force_namespace && force))))))
