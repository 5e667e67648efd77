-- ===== src/Runners.antt =====
-- framework/test_app/runners/k8s: KubernetesBaseRunner, its state and the start and the end of a run. The
-- fields of the client and the server runner stand in the same record. A point in time is a number.
pub mod Pods
pub mod Deletions
pub mod Manifests
pub mod Creations
pub mod Client
pub mod Server
pub mod Gamma
pub mod Again
pub mod Starts
mod Samples
use psm_interop.Common.{
  ℕ, String, Bool, not, ◌&&◌, Option, none, some, List, str_eq, if◌then◌else◌, [], ◌∷◌, ◌++◌,
  is_some,
}
use psm_interop.Common.Effects.{returned, pure, throw, ◌>>=◌, ◌>>◌}
use psm_interop.Objects.{ObjectMethod, itself, change}
use psm_interop.K8s.{Namespace, Deployment, ServiceAccount, Service, Pod, DynResource}

-- A dict of pods by their names, in the order of insertion.
abbrev pub PodDict : Type 0
PodDict = List (String × Pod)

pub record RunHistory : Type 0 where
  pub deployment_id : String
  pub time_start_requested : ℕ
  pub time_start_completed : Option ℕ
  pub time_stopped : ℕ

pub record RunnerConfig : Type 0 where
  pub namespace_name : String
  pub deployment_name : String
  pub namespace_template : String
  pub deployment_template : String
  pub service_account_template : String
  pub service_template : String
  pub reuse_namespace : Bool
  pub reuse_service : Bool
  pub service_name : String
  pub gcp_service_account : String
  pub service_account_name : String
  pub enable_workload_identity : Bool
  pub workload_identity_iam_policy_binding : Bool
  pub enable_csm_observability : Bool
  pub stats_port : ℕ

pub record Runner : Type 0 where
  pub config : RunnerConfig
  pub run_history : List RunHistory
  pub namespace : Option Namespace
  pub deployment : Option Deployment
  pub deployment_id : Option String
  pub service_account : Option ServiceAccount
  pub pods_started : PodDict
  pub pods_stopping : PodDict
  pub pods_stopped : PodDict
  pub time_start_requested : Option ℕ
  pub time_start_completed : Option ℕ
  pub time_stopped : Option ℕ
  pub pod_monitoring : Option DynResource
  pub pod_monitoring_name : Option String
  -- of the server runner
  pub service : Option Service
  pub replica_count : ℕ

-- The lists of port forwarders and log collectors, which are reset too, are not modelled.
unfoldable pub reset_state : Runner → Runner
reset_state m = record m {
  namespace = none;
  deployment = none;
  deployment_id = none;
  service_account = none;
  time_start_requested = none;
  time_start_completed = none;
  time_stopped = none;
  pods_started = [];
  pods_stopping = [];
  pods_stopped = [];
  service = none;
  replica_count = 0;
}

-- `run` goes on only then.
unfoldable pub may_run : Runner → Bool
may_run m = not (not (is_some m.time_stopped) && is_some m.time_start_requested)

abbrev pub completed_run :
    Option String → (requested completed : Option ℕ) → (stopped : ℕ) → List RunHistory
completed_run (some deployment_id) (some requested) completed stopped =
    if str_eq deployment_id ""
    then []
    else record {
      deployment_id = deployment_id;
      time_start_requested = requested;
      time_start_completed = completed;
      time_stopped = stopped;
    }
      ∷ []
completed_run id requested completed stopped = []

-- The entry of the history that a stop at that time adds, if there was a deployment.
unfoldable pub history_entry : Runner → (stopped : ℕ) → List RunHistory
history_entry m stopped =
    completed_run m.deployment_id m.time_start_requested m.time_start_completed stopped

abbrev pub RunnerMethod : Type 0 → Type 0 → Type 0
RunnerMethod W A = ObjectMethod Runner W A

-- `now` reads the clock of the world.
module _ {W : Type 0} (now : W → ℕ) where
  abbrev pub read_clock : RunnerMethod W ℕ
  read_clock s = (returned (now s.world), s)

  unfoldable pub start_completed : RunnerMethod W (Unit {0})
  start_completed = do
    time ← read_clock
    change (λ m. record m { time_start_completed = some time })

  unfoldable pub stop : RunnerMethod W (Unit {0})
  stop = do
    time ← read_clock
    change (λ m. record m {
      time_stopped = some time;
      run_history = m.run_history ++ history_entry m time;
    })
