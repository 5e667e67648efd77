-- ===== src/Runners/Again/Gammas.antt =====
-- What a cleanup of a GAMMA runner leaves: framework/test_app/runners/k8s/gamma_server_runner.py.
use psm_interop.Retryers.Tenacity.{Tenacity}
use psm_interop.Common.{ℕ, String, refl, ap, Bool, ◌&&◌, Option, List, ◌++◌}
use psm_interop.Common.Effects.{finally}
use psm_interop.Objects.{Object, ObjectMethod, inherited}
use psm_interop.Objects.Keeps.{Keeps, bind-Keeps, drop_if-Keeps, read-Keeps, inherited-Keeps}
use psm_interop.K8s.{K8sApi}
use psm_interop.K8s.Waits.{DeletionTimes}
use psm_interop.Gcp.Iam.Service.{IamApi}
use psm_interop.Runners.{RunnerMethod, RunHistory, stop, may_run, history_entry, completed_run}
use psm_interop.Runners.Manifests.{Cluster}
use psm_interop.Runners.Gamma.{GammaRunner, gamma_with_base, delete_gamma_resources, gamma_cleanup}
use psm_interop.Runners.Again.{
  run_part, Ended, delete_own_service-Keeps, delete_own_deployment-Keeps, delete_account-Keeps,
  delete_monitoring-Keeps, delete_own_namespace-Keeps,
}

abbrev gamma_part : GammaRunner → List RunHistory × Option String × Option ℕ × Option ℕ
gamma_part m = run_part m.base

base-Keeps :
    {W A : Type 0} (method : RunnerMethod W A)
    → Keeps run_part method
    → Keeps gamma_part (inherited (λ m. m.base) gamma_with_base method)
base-Keeps method k = inherited-Keeps (λ m. m.base) gamma_with_base run_part method (λ m b. refl) k

module _ {W Body : Type 0} (tenacity : Tenacity) (api : K8sApi W) (iam : IamApi W Body)
    (project : String) (cluster : Cluster W) where
  delete_gamma_resources-Keeps :
      (force : Bool)
      → Keeps gamma_part (delete_gamma_resources tenacity api iam project cluster force)
  unfolding delete_gamma_resources
  delete_gamma_resources-Keeps force = read-Keeps gamma_part _ (λ m.
      bind-Keeps gamma_part _ _ (drop_if-Keeps gamma_part _ _ _ (λ m'. refl)) (λ _.
        bind-Keeps gamma_part _ _ (drop_if-Keeps gamma_part _ _ _ (λ m'. refl)) (λ _.
          bind-Keeps gamma_part _ _ (drop_if-Keeps gamma_part _ _ _ (λ m'. refl)) (λ _.
            bind-Keeps gamma_part _ _ (drop_if-Keeps gamma_part _ _ _ (λ m'. refl))
              (λ _. drop_if-Keeps gamma_part _ _ _ (λ m'. refl))))))

  gamma_stop-Ended :
      (body : ObjectMethod GammaRunner W (Unit {0})) (s : Object GammaRunner W)
      → Keeps gamma_part body
      → Ended s.manager.base
          (finally body
            (inherited (λ m. m.base) gamma_with_base (stop cluster.now))
            s).1.manager.base
  unfolding stop may_run history_entry Keeps inherited
  gamma_stop-Ended body s k = record {
    again = refl;
    history = (
      cluster.now (body s).1.world,
      refl,
      ap (λ p. p.0 ++ completed_run p.1 p.2 p.3 (cluster.now (body s).1.world)) (k s),
    );
  }

  -- However a cleanup of a GAMMA runner ends, the runner may run after it, and its history has grown by
  -- the entry, if there is one, of the run that it ended.
  pub gamma_cleanup-Ended :
      (times : DeletionTimes) (force force_namespace : Bool) (s : Object GammaRunner W)
      → Ended s.manager.base
          (gamma_cleanup tenacity api iam project cluster times force force_namespace
            s).1.manager.base
  unfolding gamma_cleanup
  gamma_cleanup-Ended times force force_namespace s = gamma_stop-Ended _ s (
      bind-Keeps gamma_part _ _ (delete_gamma_resources-Keeps force) (λ _.
        bind-Keeps gamma_part _ _
          (base-Keeps _ (delete_own_service-Keeps tenacity api iam project cluster force))
          (λ _.
            bind-Keeps gamma_part _ _
              (base-Keeps _ (delete_own_deployment-Keeps tenacity api iam project cluster force))
              (λ _.
                bind-Keeps gamma_part _ _
                  (base-Keeps _ (delete_account-Keeps tenacity api iam project cluster force))
                  (λ _.
                    bind-Keeps gamma_part _ _
                      (base-Keeps _
                        (delete_monitoring-Keeps tenacity api iam project cluster force))
                      (λ _. base-Keeps _ (
                        delete_own_namespace-Keeps tenacity api iam project cluster times
                          (force_namespace && force))))))))
