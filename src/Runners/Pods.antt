-- ===== src/Runners/Pods.antt =====
-- framework/test_app/runners/k8s/k8s_base_runner.py: which pods a runner has started, is stopping, and has
-- stopped.
pub mod Moves
use psm_interop.Common.{
  String, Bool, true, false, Option, none, some, [], ◌∷◌, str_eq, if◌then◌else◌,
}
use psm_interop.K8s.{Pod}
use psm_interop.Runners.{PodDict, Runner}

unfoldable pub lookup : String → PodDict → Option Pod
lookup name [] = none
lookup name ((k, pod) ∷ pods) =
    let rest = lookup name pods in if str_eq k name then some pod else rest

-- `pods.pop(name)`, the dict that is left
unfoldable pub without : String → PodDict → PodDict
without name [] = []
without name ((k, pod) ∷ pods) =
    let rest = without name pods in if str_eq k name then rest else (k, pod) ∷ rest

-- `pods[name] = pod`
unfoldable pub put : String → Pod → PodDict → PodDict
put name pod [] = (name, pod) ∷ []
put name pod ((k, old) ∷ pods) =
    let rest = put name pod pods in if str_eq k name then (k, pod) ∷ pods else (k, old) ∷ rest

-- The collection of logs, which follows, is not modelled.
unfoldable pub pod_started_logic : Pod → Runner → Runner
pod_started_logic pod m = record m { pods_started = put pod.pod_name pod m.pods_started }

abbrev to_stopping : String → Option Pod → Runner → Runner × Bool
to_stopping name none m = (m, false)
to_stopping name (some pod) m = (
  record m {
    pods_started = without name m.pods_started;
    pods_stopping = put name pod m.pods_stopping;
  },
  true,
)

unfoldable pub pod_stopping_logic : (name : String) → Runner → Runner × Bool
pod_stopping_logic name m = to_stopping name (lookup name m.pods_started) m

abbrev to_stopped : String → (started stopping : Option Pod) → Runner → Runner × Bool
to_stopped name (some pod) stopping m = (
  record m {
    pods_started = without name m.pods_started;
    pods_stopped = put name pod m.pods_stopped;
  },
  true,
)
to_stopped name none (some pod) m = (
  record m {
    pods_stopping = without name m.pods_stopping;
    pods_stopped = put name pod m.pods_stopped;
  },
  true,
)
to_stopped name none none m = (m, false)

unfoldable pub pod_stopped_logic : (name : String) → Runner → Runner × Bool
pod_stopped_logic name m =
    to_stopped name (lookup name m.pods_started) (lookup name m.pods_stopping) m
