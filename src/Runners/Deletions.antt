-- ===== src/Runners/Deletions.antt =====
-- framework/test_app/runners/k8s/k8s_base_runner.py: the deletions, which go on where a resource does not
-- exist or its deletion has been tried for too long.
pub mod Tolerance
use psm_interop.Retryers.Tenacity.{Tenacity}
use psm_interop.Errors.{Exception, ExceptionClass, not_found, retry_error, retry_error_of_result}
use psm_interop.Common.{
  ℕ, ◌+◌, String, Bool, true, false, not, ◌&&◌, ◌||◌, Option, none, some, if◌then◌else◌, is_some,
}
use psm_interop.Common.Effects.{Effect, pure, throw, catch, finally, ◌>>=◌, ◌>>◌}
use psm_interop.Objects.{drop_if, itself, change, on_cloud}
use psm_interop.K8s.{K8sApi}
use psm_interop.K8s.Namespaces.{RouteKind, delete_grace_period_sec}
use psm_interop.K8s.Namespaces
use psm_interop.K8s.Waits.{DeletionTimes}
use psm_interop.K8s.Waits
use psm_interop.Runners.{Runner, RunnerMethod}
use psm_interop.Runners.Pods.{pod_stopping_logic, pod_stopped_logic}

-- `except k8s.NotFound` and `except retryers.RetryError`
unfoldable pub is_tolerated : ExceptionClass
is_tolerated not_found = true
is_tolerated (retry_error e) = true
is_tolerated retry_error_of_result = true
is_tolerated _ = false

module _ {W : Type 0} where
  abbrev pub tolerate : Exception → Effect W Exception Bool
  tolerate e = if is_tolerated e then pure false else throw e

  -- The shape of the `_delete_*` methods: after a deletion that was accepted, the wait.
  unfoldable pub delete_quietly :
      (delete wait : Effect W Exception (Unit {0})) → Effect W Exception (Unit {0})
  delete_quietly delete wait = do
    deleted ← catch (do delete; pure true) tolerate
    if deleted then wait else pure tt

  -- The handlers of `delete_pod`.
  abbrev pub pod_not_deleted : (ignore_errors : Bool) → Exception → RunnerMethod W Bool
  pod_not_deleted ignore_errors e = if is_tolerated e && ignore_errors then pure false else throw e

abbrev or_zero : Option ℕ → ℕ
or_zero none = 0
or_zero (some n) = n

module _ {W : Type 0} (tenacity : Tenacity) (api : K8sApi W) (namespace : String) where
  -- Waits of a minute with a second between the questions, and of five minutes with ten seconds.
  unfoldable pub delete_service : (name : String) → Effect W Exception (Unit {0})
  delete_service name =
      delete_quietly (Namespaces.delete_service tenacity api namespace name delete_grace_period_sec)
        (Waits.wait_for_service_deleted tenacity api namespace 60 1 name)

  unfoldable pub delete_service_account : (name : String) → Effect W Exception (Unit {0})
  delete_service_account name =
      delete_quietly
        (Namespaces.delete_service_account tenacity api namespace name delete_grace_period_sec)
        (Waits.wait_for_service_account_deleted tenacity api namespace 60 1 name)

  unfoldable pub delete_gamma_route : (name : String) → RouteKind → Effect W Exception (Unit {0})
  delete_gamma_route name kind =
      delete_quietly
        (Namespaces.delete_gamma_route tenacity api namespace name kind delete_grace_period_sec)
        (Waits.wait_for_get_gamma_route_deleted tenacity api namespace 60 1 name kind)

  unfoldable pub delete_session_affinity_policy : (name : String) → Effect W Exception (Unit {0})
  delete_session_affinity_policy name =
      delete_quietly
        (Namespaces.delete_session_affinity_policy tenacity api namespace name
          delete_grace_period_sec)
        (Waits.wait_for_get_session_affinity_policy_deleted tenacity api namespace 300 10 name)

  unfoldable pub delete_session_affinity_filter : (name : String) → Effect W Exception (Unit {0})
  delete_session_affinity_filter name =
      delete_quietly
        (Namespaces.delete_session_affinity_filter tenacity api namespace name
          delete_grace_period_sec)
        (Waits.wait_for_get_session_affinity_filter_deleted tenacity api namespace 300 10 name)

  unfoldable pub delete_backend_policy : (name : String) → Effect W Exception (Unit {0})
  delete_backend_policy name =
      delete_quietly
        (Namespaces.delete_backend_policy tenacity api namespace name delete_grace_period_sec)
        (Waits.wait_for_get_backend_policy_deleted tenacity api namespace 300 10 name)

  unfoldable pub delete_pod_monitoring : (name : String) → Effect W Exception (Unit {0})
  delete_pod_monitoring name =
      delete_quietly
        (Namespaces.delete_pod_monitoring tenacity api namespace name delete_grace_period_sec)
        (pure tt)

  -- `stop_dependencies` closes the port forwarders and flushes the logs of the pods.
  unfoldable pub delete_deployment :
      (stop_dependencies : Effect W Exception (Unit {0}))
      → (name : String) → Effect W Exception (Unit {0})
  delete_deployment stop_dependencies name = do
    stop_dependencies
    delete_quietly
        (Namespaces.delete_deployment tenacity api namespace name delete_grace_period_sec)
        (Waits.wait_for_deployment_deleted tenacity api namespace 300 10 name)

  unfoldable pub delete_namespace : DeletionTimes → Effect W Exception (Unit {0})
  delete_namespace times =
      delete_quietly (Namespaces.delete_namespace tenacity api namespace delete_grace_period_sec)
        (Waits.wait_for_namespace_deleted tenacity api namespace times none none)

  abbrev pub await_pod :
      (name : String)
      → (grace_period : Option ℕ) → (wait_for_deletion deleted : Bool) → RunnerMethod W Bool
  await_pod name grace_period wait_for_deletion false = pure false
  await_pod name grace_period false true = pure true
  await_pod name grace_period true true = do
    on_cloud (Waits.wait_for_pod_deleted tenacity api namespace (60 + or_zero grace_period) 1 name)
    change (λ m. (pod_stopped_logic name m).0)
    pure true

  -- However the request ends, the pod is not a started one after it.
  unfoldable pub delete_pod :
      (name : String)
      → (grace_period : Option ℕ) → (ignore_errors wait_for_deletion : Bool) → RunnerMethod W Bool
  delete_pod name grace_period ignore_errors wait_for_deletion = do
    deleted ←
        finally
          (catch
            (do
              on_cloud (Namespaces.delete_pod tenacity api namespace name grace_period)
              pure true)
            (pod_not_deleted ignore_errors))
          (change (λ m. (pod_stopping_logic name m).0))
    await_pod name grace_period wait_for_deletion deleted

  unfoldable pub cleanup_namespace : DeletionTimes → (force : Bool) → RunnerMethod W (Unit {0})
  cleanup_namespace times force = do
    m ← itself
    drop_if ((is_some m.namespace && not m.config.reuse_namespace) || force)
        (delete_namespace times) (λ m'. record m' { namespace = none })
