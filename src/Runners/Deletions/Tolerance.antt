-- ===== src/Runners/Deletions/Tolerance.antt =====
-- The deletion of a pod, on every path: framework/test_app/runners/k8s/k8s_base_runner.py.
use psm_interop.Retryers.Tenacity.{Tenacity}
use psm_interop.Errors.{Exception}
use psm_interop.Common.{ℕ, ◌+◌, String, Bool, true, false, Option}
use psm_interop.Common.Effects.{Outcome, returned, raised, pure, continue, catch, ◌>>◌}
use psm_interop.Objects.{Object, change, on_cloud}
use psm_interop.K8s.{K8sApi}
use psm_interop.K8s.Waits
use psm_interop.K8s.Namespaces
use psm_interop.Runners.{Runner}
use psm_interop.Runners.Pods.{pod_stopping_logic, pod_stopped_logic}
use psm_interop.Runners.Pods.Moves.{
  IsNotStarted, pod_stopping_logic-IsNotStarted, pod_stopped_logic-IsNotStarted,
}
use psm_interop.Runners.Deletions.{delete_pod, await_pod, or_zero, pod_not_deleted}

module _ {W : Type 0} (tenacity : Tenacity) (api : K8sApi W) (namespace name : String) where
  await_pod-IsNotStarted :
      (grace_period : Option ℕ) (wait_for_deletion deleted : Bool) (s : Object Runner W)
      → IsNotStarted name s.manager
      → IsNotStarted name
          (await_pod tenacity api namespace name grace_period wait_for_deletion deleted s).1.manager
  await_pod-IsNotStarted grace_period wait_for_deletion false s h = h
  await_pod-IsNotStarted grace_period false true s h = h
  await_pod-IsNotStarted grace_period true true s h =
      after (
        Waits.wait_for_pod_deleted tenacity api namespace (60 + or_zero grace_period) 1 name
          s.world)
    where
      after :
          (end : Outcome Exception (Unit {0}) × W)
          → IsNotStarted name
              (continue end.0
                (λ _. do change (λ m. (pod_stopped_logic name m).0); pure true)
                (record s { world = end.1 })).1.manager
      after (returned a, u) = pod_stopped_logic-IsNotStarted name s.manager h
      after (raised e, u) = h

  -- However a deletion of a pod ends, the pod is not among those that the runner has started.
  pub delete_pod-IsNotStarted :
      (grace_period : Option ℕ) (ignore_errors wait_for_deletion : Bool) (s : Object Runner W)
      → IsNotStarted name
          (delete_pod tenacity api namespace name grace_period ignore_errors wait_for_deletion
            s).1.manager
  unfolding delete_pod
  delete_pod-IsNotStarted grace_period ignore_errors wait_for_deletion s = after (
      catch
        (do on_cloud (Namespaces.delete_pod tenacity api namespace name grace_period); pure true)
        (pod_not_deleted ignore_errors) s)
    where
      after :
          (end : Outcome Exception Bool × Object Runner W)
          → IsNotStarted name
              (continue end.0
                (λ deleted.
                  await_pod tenacity api namespace name grace_period wait_for_deletion deleted)
                (record end.1 { manager = (pod_stopping_logic name end.1.manager).0 })).1.manager
      after (returned deleted, t) =
          await_pod-IsNotStarted grace_period wait_for_deletion deleted
            (record t { manager = (pod_stopping_logic name t.manager).0 })
            (pod_stopping_logic-IsNotStarted name t.manager)
      after (raised e, t) = pod_stopping_logic-IsNotStarted name t.manager
