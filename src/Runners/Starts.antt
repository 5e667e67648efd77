-- ===== src/Runners/Starts.antt =====
-- What the start of a run leaves, on every path: framework/test_app/runners/k8s.
pub mod Steps
pub mod Runs
use psm_interop.Retryers.Tenacity.{Tenacity}
use psm_interop.Errors.{Exception, runtime_error}
use psm_interop.K8s.Waits.{namespace_active, wait_for_namespace_active}
use psm_interop.Common.{
  ℕ, String, ◌≡◌, refl, ap, ◌∙◌, Bool, not, ◌&&◌, if◌then◌else◌, is_some, arith, true, false,
  Option, none, some,
}
use psm_interop.Common.Effects.{
  continue, Outcome, returned, raised, Effect, throw, pure, lift, ◌>>=◌, ◌>>◌,
}
use psm_interop.Objects.{Object, change, on_cloud, itself}
use psm_interop.Objects.Keeps.{
  Keeps, bind-Keeps, continue-Keeps, if-Keeps, itself-Keeps, on_cloud-Keeps, change-Keeps,
  pure-Keeps,
}
use psm_interop.K8s.Namespaces.{get_namespace}
use psm_interop.K8s.{K8sApi, Namespace}
use psm_interop.Gcp.Iam.Service.{IamApi}
use psm_interop.Runners.{Runner, RunnerMethod, may_run, reset_state}
use psm_interop.Runners.Creations.{
  base_run, started, reused_namespace, set_up_namespace, created_or_kept, make,
}
use psm_interop.Runners.Manifests.{Vars, Cluster, Created}

-- What decides whether a runner may run.
abbrev pub pending : Runner → Option ℕ × Option ℕ
pending m = (m.time_stopped, m.time_start_requested)

-- How a run may end, by the times that the runner has of its stop and of the request of its start: where a
-- start is requested and no stop is recorded, RuntimeError is raised and nothing changes; where not, the new
-- start has been requested and no stop is recorded, so that another run is refused.
abbrev pub RunEnds :
    {W A : Type 0}
    → (now : W → ℕ) → (time_stopped time_start_requested : Option ℕ) → Object Runner W
    → Outcome Exception A × Object Runner W
    → Type 0
RunEnds now none (some requested) s end = end ≡ (raised runtime_error, s)
RunEnds now none none s end = pending end.1.manager ≡ (none, some (now s.world))
RunEnds now (some stopped) requested s end = pending end.1.manager ≡ (none, some (now s.world))

unfoldable pub Starts : {W A : Type 0} → (now : W → ℕ) → RunnerMethod W A → Type 0
Starts {W} now method =
    (s : Object Runner W)
    → RunEnds now s.manager.time_stopped s.manager.time_start_requested s (method s)

pub bind-Starts :
    {W A B : Type 0} (now : W → ℕ) (m : RunnerMethod W A) (f : A → RunnerMethod W B)
    → Starts now m
    → ((a : A) → Keeps pending (f a))
    → Starts now (m >>= f)
unfolding Keeps Starts
bind-Starts {W} now m f h k s = split s.manager.time_stopped s.manager.time_start_requested (h s)
  where
    split :
        (stopped requested : Option ℕ)
        → RunEnds now stopped requested s (m s)
        → RunEnds now stopped requested s ((m >>= f) s)
    split none (some requested) e = ap (λ end. continue end.0 f end.1) e
    split none none e = continue-Keeps pending (m s).0 f (m s).1 k ∙ e
    split (some stopped) requested e = continue-Keeps pending (m s).0 f (m s).1 k ∙ e

module _ {W Body : Type 0} (tenacity : Tenacity) (api : K8sApi W) (iam : IamApi W Body)
    (project : String) (cluster : Cluster W) where
  -- What follows the request of a start.
  set_up_namespace-Keeps :
      (vars : Vars) → Keeps pending (set_up_namespace tenacity api iam project cluster vars)
  unfolding set_up_namespace make Keeps
  set_up_namespace-Keeps vars s = ground arith

  started-started :
      (vars : Vars) (s : Object Runner W)
      → pending (started tenacity api iam project cluster vars s).1.manager
        ≡ (none, some (cluster.now s.world))
  unfolding Keeps reset_state
  started-started vars s =
      let m = record (reset_state s.manager) {
        time_start_requested = some (cluster.now s.world);
      } in
      set_up_namespace-Keeps vars (record s { manager = m })

  pub base_run-Starts :
      (vars : Vars) → Starts cluster.now (base_run tenacity api iam project cluster vars)
  unfolding base_run may_run Starts
  base_run-Starts vars s = split s.manager.time_stopped s.manager.time_start_requested
    where
      split :
          (stopped requested : Option ℕ)
          → RunEnds cluster.now stopped requested s (
              (if not (not (is_some stopped) && is_some requested)
                  then started tenacity api iam project cluster vars
                  else throw runtime_error)
                s)
      split none (some requested) = refl
      split none none = started-started vars s
      split (some stopped) requested = started-started vars s
