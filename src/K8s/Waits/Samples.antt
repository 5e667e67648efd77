-- ===== src/K8s/Waits/Samples.antt =====
-- Reads and waits on a concrete cluster.
use psm_interop.Errors.{Exception, not_implemented_error, api_exception, resource_not_found_error}
use psm_interop.Common.{ℕ, suc, ◌≤◌, ◌≡◌, refl, Option, none, some, [], ◌∷◌, ◌==◌, if◌then◌else◌}
use psm_interop.Common.Effects.{Outcome, returned, raised}
use psm_interop.Retryers.Loop.{loop}
use psm_interop.K8s.{K8sApi, Pod, Deployment, Namespace}
use psm_interop.K8s.Manager.{execute}
use psm_interop.K8s.Manager.NotFound.{ReloadFinds, AnswersNotFound}
use psm_interop.K8s.Namespaces.{
  get_resource, get_deployment, get_gamma_mesh, label_dict_to_selector,
}
use psm_interop.K8s.Waits.{
  DeletionTimes, namespace_wait, wait_until_gone, wait_for_deployment_available_replicas,
}
use psm_interop.K8s.Waits.Ready.{wait_until_gone-AnswersNotFound, wait_for_replicas-available}

abbrev status : ℕ → Exception
status code = api_exception (record { status = code; body = "" })

-- The world counts the requests: the first one fails with a conflict, the pod is gone at the third, and the
-- deployment has as many replicas as requests were made.
abbrev answer_pod : ℕ → Outcome Exception Pod
answer_pod w =
    if w == 0
    then raised (status 409)
    else if w == 1
    then returned (record { pod_name = "pod"; phase = some "Running"; pod_ip = none })
    else raised (status 404)

abbrev pub api : K8sApi ℕ
api = record {
  read_service = λ _ _ w. (raised (status 404), suc w);
  read_service_account = λ _ _ w. (raised (status 404), suc w);
  read_deployment = λ name _ w. (
    returned (record { deployment_name = name; match_labels = []; available_replicas = some w }),
    suc w,
  );
  read_pod = λ _ _ w. (answer_pod w, suc w);
  read_namespace =
      λ name w. (returned (record { namespace_name = name; phase = some "Active" }), suc w);
  list_pods = λ _ _ w. (returned [], suc w);
  delete_service = λ _ _ _ w. (returned tt, suc w);
  delete_service_account = λ _ _ _ w. (returned tt, suc w);
  delete_deployment = λ _ _ _ w. (returned tt, suc w);
  delete_pod = λ _ _ _ w. (returned tt, suc w);
  delete_namespace = λ _ _ w. (returned tt, suc w);
  discover = λ _ _ w. (raised resource_not_found_error, suc w);
  reload = λ w. (returned tt, w);
}

finds : ReloadFinds api
finds w h = cc

selector : label_dict_to_selector (("a", "b") ∷ ("c", "d") ∷ []) ≡ "a==b,c==d"
unfolding label_dict_to_selector
selector = refl

pod_is_gone : get_resource loop api (api.read_pod "pod" "ns") 5 ≡ (returned none, 6)
unfolding get_resource execute psm_interop.K8s.Manager.retry_on_exceptions
    psm_interop.K8s.Manager.handle_exception psm_interop.K8s.Manager.handle_api_exception
pod_is_gone = refl

waited :
    wait_until_gone loop 60 1 (get_resource loop api (api.read_pod "pod" "ns")) 0 ≡ (returned tt, 3)
unfolding wait_until_gone get_resource execute psm_interop.K8s.Waits.wait_until
    psm_interop.Retryers.constant_retryer loop psm_interop.Retryers.Tenacity.wants_retry
    psm_interop.Retryers.build_retry_conditions psm_interop.K8s.Manager.retry_on_exceptions
    psm_interop.K8s.Manager.handle_exception psm_interop.K8s.Manager.handle_api_exception
    psm_interop.K8s.Manager.plan_for_status psm_interop.K8s.Manager.plan_retryer
    psm_interop.K8s.Manager.with_404_handler psm_interop.Retryers.safe_check_result
waited = refl

wait_until_gone-AnswersNotFound_example : AnswersNotFound loop api finds (api.read_pod "pod" "ns") 3
wait_until_gone-AnswersNotFound_example =
    wait_until_gone-AnswersNotFound loop api finds (api.read_pod "pod" "ns") 60 1 0 3 waited

abbrev deployed : ℕ → Option Deployment
deployed n = some (record { deployment_name = "d"; match_labels = []; available_replicas = some n })

available :
    wait_for_deployment_available_replicas loop api "ns" 300 1 "d" 2 0 ≡ (returned (deployed 2), 3)
unfolding wait_for_deployment_available_replicas get_deployment get_resource execute
    psm_interop.K8s.Waits.wait_until psm_interop.Retryers.constant_retryer loop
    psm_interop.Retryers.Tenacity.wants_retry psm_interop.Retryers.build_retry_conditions
    psm_interop.Retryers.safe_check_result psm_interop.K8s.Waits.replicas_available
available = refl

wait_for_replicas-available_example :
    (u : ℕ) × (deployment : Deployment) × (n : ℕ) × (deployed 2 ≡ some deployment)
    × (get_deployment loop api "ns" "d" u ≡ (returned (deployed 2), 3))
    × (deployment.available_replicas ≡ some n)
    × (2 ≤ n)
wait_for_replicas-available_example =
    wait_for_replicas-available loop api "ns" 300 1 "d" 2 (deployed 2) 0 3 available

-- No mesh can be read: its API is not implemented.
no_mesh : get_gamma_mesh loop api "ns" "mesh" 0 ≡ (raised not_implemented_error, 0)
unfolding get_gamma_mesh psm_interop.K8s.Namespaces.get_dyn_resource
    psm_interop.K8s.Namespaces.api_gke_mesh psm_interop.K8s.Namespaces.get_dynamic_api
no_mesh = refl

abbrev pub times : DeletionTimes
times = record {
  wait_for_namespace_deleted_timeout_sec = some 900;
  wait_for_namespace_deleted_sleep_sec = some 5;
}

-- The pause between the questions is the time limit, so the second question comes too late.
sleeps_too_long : namespace_wait times none ≡ returned 900
unfolding namespace_wait
sleeps_too_long = refl
