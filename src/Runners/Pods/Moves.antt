-- ===== src/Runners/Pods/Moves.antt =====
-- The moves of a pod between the dicts of a runner: framework/test_app/runners/k8s/k8s_base_runner.py.
use psm_interop.Common.{String, ◌≡◌, refl, Option, none, some, [], ◌∷◌, arith}
use psm_interop.K8s.{Pod}
use psm_interop.Runners.{PodDict, Runner}
use psm_interop.Runners.Pods.{
  lookup, without, to_stopping, to_stopped, pod_stopping_logic, pod_stopped_logic,
}

pub lookup-without : (name : String) (pods : PodDict) → lookup name (without name pods) ≡ none
unfolding lookup without
lookup-without name [] = refl
lookup-without name ((k, pod) ∷ pods) = let h = lookup-without name pods in ground (arith, h)

abbrev pub IsNotStarted : String → Runner → Type 0
IsNotStarted name m = lookup name m.pods_started ≡ none

pub pod_stopping_logic-IsNotStarted :
    (name : String) (m : Runner) → IsNotStarted name (pod_stopping_logic name m).0
unfolding pod_stopping_logic
pod_stopping_logic-IsNotStarted name m = split (lookup name m.pods_started) refl
  where
    split :
        (found : Option Pod)
        → lookup name m.pods_started ≡ found
        → IsNotStarted name (to_stopping name found m).0
    split none e = e
    split (some pod) e = lookup-without name m.pods_started

pub pod_stopped_logic-IsNotStarted :
    (name : String) (m : Runner)
    → IsNotStarted name m
    → IsNotStarted name (pod_stopped_logic name m).0
unfolding pod_stopped_logic
pod_stopped_logic-IsNotStarted name m h =
    split (lookup name m.pods_started) (lookup name m.pods_stopping)
  where
    split :
        (started stopping : Option Pod) → IsNotStarted name (to_stopped name started stopping m).0
    split (some pod) stopping = lookup-without name m.pods_started
    split none (some pod) = h
    split none none = h
