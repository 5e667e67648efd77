-- ===== src/K8s/Waits/Ready.antt =====
-- What has become of a Kubernetes resource when a wait for it returns: framework/infrastructure/k8s.py.
use psm_interop.Errors.{Exception}
use psm_interop.Common.{String, ℕ, ◌≤◌, ◌≡◌, refl, ap, subst, true, Option, none, some, arith}
use psm_interop.Common.Effects.{returned, Effect, bind-returned, lift, pure}
use psm_interop.Retryers.{CheckResultFn, constant_retryer}
use psm_interop.Retryers.Tenacity.{Tenacity, run-returned}
use psm_interop.Retryers.Policies.{IsAccepted, constant_retryer-IsAccepted, constant-stop}
use psm_interop.K8s.{K8sApi, Deployment}
use psm_interop.K8s.Namespaces.{get_resource, get_deployment}
use psm_interop.K8s.Manager.NotFound.{ReloadFinds, AnswersNotFound}
use psm_interop.K8s.Namespaces.Gone.{get_resource-AnswersNotFound}
use psm_interop.K8s.Waits.{
  is_gone, wait_until, wait_until_gone, replicas_available, wait_for_deployment_available_replicas,
}

module _ {W A : Type 0} (tenacity : Tenacity) (timeout_sec wait_sec : ℕ) (check : CheckResultFn A)
    (call : Effect W Exception A) where
  -- A wait that returns has made a call that returned the same, and the check accepts it.
  pub wait_until-accepted :
      (a : A) (w w' : W)
      → wait_until tenacity timeout_sec wait_sec check call w ≡ (returned a, w')
      → (u : W) × (call u ≡ (returned a, w')) × (check a ≡ returned true)
  unfolding wait_until
  wait_until-accepted a w w' h =
      let policy = constant_retryer wait_sec 0 (some timeout_sec) none (some check) in
      let (r, v, built, ran) =
        bind-returned (lift policy) (λ r. Tenacity.run tenacity W A r call) w w' a h in
      let from = ap (λ end. end.0) built in
      let (u, returns) =
        run-returned tenacity r call a v w'
          (constant-stop wait_sec 0 (some timeout_sec) (some check) r from) ran in
      (
        u,
        returns,
        subst (IsAccepted check) (ap (λ end. end.0) ran) (
            constant_retryer-IsAccepted tenacity check wait_sec 0 (some timeout_sec) r call v from),
      )

is_gone-none : {A : Type 0} (a : Option A) → is_gone a ≡ returned true → a ≡ none
is_gone-none none h = refl
is_gone-none (some a) h = absurd (cc)

module _ {W A : Type 0} (tenacity : Tenacity) (api : K8sApi W) (finds : ReloadFinds api)
    (m : Effect W Exception A) where
  -- Where renewing the authorization does not raise NotFound, a wait for the deletion of a resource that
  -- returns has been answered, in its last call, that there is no such resource.
  pub wait_until_gone-AnswersNotFound :
      (timeout_sec wait_sec : ℕ) (w w' : W)
      → wait_until_gone tenacity timeout_sec wait_sec (get_resource tenacity api m) w
        ≡ (returned tt, w')
      → AnswersNotFound tenacity api finds m w'
  unfolding wait_until_gone
  wait_until_gone-AnswersNotFound timeout_sec wait_sec w w' h =
      let (a, v, waited, rest) =
        bind-returned
          (wait_until tenacity timeout_sec wait_sec is_gone (get_resource tenacity api m))
          (λ _. pure tt) w w' tt h in
      let (u, read, accepted) =
        wait_until-accepted tenacity timeout_sec wait_sec is_gone (get_resource tenacity api m) a w
          v waited in
      get_resource-AnswersNotFound tenacity api finds m u w'
        (cc (read, is_gone-none a accepted, ap (λ end. end.1) rest))

available :
    (count : ℕ) (d : Option Deployment)
    → replicas_available count d ≡ returned true
    → (deployment : Deployment) × (n : ℕ) × (d ≡ some deployment)
      × (deployment.available_replicas ≡ some n)
      × (count ≤ n)
unfolding replicas_available
available count none h = absurd (cc)
available count (some d) h = from d.available_replicas refl
  where
    from :
        (n : Option ℕ)
        → d.available_replicas ≡ n
        → (deployment : Deployment) × (k : ℕ) × (some d ≡ some deployment)
          × (deployment.available_replicas ≡ some k)
          × (count ≤ k)
    from none e = absurd (ground (arith, h, e))
    from (some n) e = (d, n, refl, e, ground (arith, h, e))

module _ {W : Type 0} (tenacity : Tenacity) (api : K8sApi W) (namespace : String)
    (timeout_sec wait_sec : ℕ) where
  -- A wait for the replicas of a deployment that returns has read the deployment that it returns, and that
  -- one has at least `count` available replicas.
  pub wait_for_replicas-available :
      (name : String) (count : ℕ) (d : Option Deployment) (w w' : W)
      → wait_for_deployment_available_replicas tenacity api namespace timeout_sec wait_sec name
          count w
        ≡ (returned d, w')
      → (u : W) × (deployment : Deployment) × (n : ℕ) × (d ≡ some deployment)
        × (get_deployment tenacity api namespace name u ≡ (returned d, w'))
        × (deployment.available_replicas ≡ some n)
        × (count ≤ n)
  unfolding wait_for_deployment_available_replicas
  wait_for_replicas-available name count d w w' h =
      let (u, read, accepted) =
        wait_until-accepted tenacity timeout_sec wait_sec (replicas_available count)
          (get_deployment tenacity api namespace name) d w w' h in
      let (deployment, n, same, has, enough) = available count d accepted in
      (u, deployment, n, same, read, has, enough)
