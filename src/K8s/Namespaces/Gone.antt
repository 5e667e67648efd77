-- ===== src/K8s/Namespaces/Gone.antt =====
-- What it takes for a read of KubernetesNamespace to return None: framework/infrastructure/k8s.py.
use psm_interop.Retryers.Tenacity.{Tenacity}
use psm_interop.Errors.{Exception, not_found}
use psm_interop.Common.{◌≡◌, refl, ap, none, some}
use psm_interop.Common.Effects.{Outcome, returned, raised, Effect, pure, handle, continue}
use psm_interop.K8s.{K8sApi}
use psm_interop.K8s.Manager.{execute}
use psm_interop.K8s.Manager.NotFound.{ReloadFinds, AnswersNotFound, execute-AnswersNotFound}
use psm_interop.K8s.Namespaces.{get_resource, none_if_not_found}

module _ {W A : Type 0} (tenacity : Tenacity) (api : K8sApi W) where
  none_if_not_found-none :
      (e : Exception) (w w' : W)
      → none_if_not_found tenacity api {A = A} e w ≡ (returned none, w')
      → (e ≡ not_found) × (w ≡ w')
  none_if_not_found-none not_found w w' h = (refl, ap (λ end. end.1) h)
  none_if_not_found-none _ w w' h = absurd (cc)

  none-not_found :
      (end : Outcome Exception A × W) (w' : W)
      → handle
          (continue end.0 (λ a. pure (some a)) end.1).0
          (none_if_not_found tenacity api {A = A})
          (continue end.0 (λ a. pure (some a)) end.1).1
        ≡ (returned none, w')
      → end ≡ (raised not_found, w')
  none-not_found (returned a, u) w' h = absurd (cc)
  none-not_found (raised x, u) w' h =
      let (same, v) = none_if_not_found-none x u w' h in cc (same, v)

module _ {W A : Type 0} (tenacity : Tenacity) (api : K8sApi W) (finds : ReloadFinds api)
    (m : Effect W Exception A) where
  -- Where renewing the authorization does not raise NotFound, a read returns None only if its last call was
  -- answered that there is no such thing: with the status 404, or inside an error that is unwrapped.
  pub get_resource-AnswersNotFound :
      (w w' : W)
      → get_resource tenacity api m w ≡ (returned none, w')
      → AnswersNotFound tenacity api finds m w'
  unfolding get_resource
  get_resource-AnswersNotFound w w' h =
      execute-AnswersNotFound tenacity api finds m w w'
        (none-not_found tenacity api (execute tenacity api m w) w' h)
