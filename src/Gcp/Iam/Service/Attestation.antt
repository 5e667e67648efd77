-- ===== src/Gcp/Iam/Service/Attestation.antt =====
-- The removal of an attestation rule, framework/infrastructure/gcp/iam.py.
use psm_interop.Common.{◌≡◌, ◌≢◌, refl, String, true, false, some}
use psm_interop.Common.Effects.{Outcome, returned, raised, handle, continue, pure}
use psm_interop.Errors.{Exception, http_error}
use psm_interop.Retryers.Tenacity.{Tenacity}
use psm_interop.Gcp.Api.{gcp_api_retries}
use psm_interop.Gcp.Api.Execute.{execute-ne-low_level, is_low_level}
use psm_interop.Gcp.Iam.Service.{
  IamApi, managed_identity_resource_name, remove_attestation_rule, not_removed,
}

module _ {W : Type 0} where
  -- The handler for HttpError has nothing to catch.
  removed_or_raised :
      (end : Outcome Exception (Unit {0}) × W)
      → ((e : Exception) → end.0 ≡ raised e → is_low_level e ≡ false)
      → (handle
          (continue end.0 (λ _. pure true) end.1).0
          not_removed
          (continue end.0 (λ _. pure true) end.1).1).0
        ≢ returned false
  removed_or_raised (returned a, w) high e = cc
  removed_or_raised (raised (http_error r), w) high e = cc (high (http_error r) refl)
  removed_or_raised (raised _, w) high e = cc

module _ {W Body : Type 0} (tenacity : Tenacity) (api : IamApi W Body) (project : String) where
  -- `remove_attestation_rule` never returns False: its handler is for HttpError, and `_execute` raises
  -- ResponseError or TransportError in its place, so a rule that does not exist is an exception.
  pub remove_attestation_rule-ne-false :
      (pool namespace managed_identity : String) (body : Body) (w : W)
      → (remove_attestation_rule tenacity api project pool namespace managed_identity body w).0
        ≢ returned false
  unfolding remove_attestation_rule
  remove_attestation_rule-ne-false pool namespace managed_identity body w =
      removed_or_raised _ (λ e.
        execute-ne-low_level tenacity (some gcp_api_retries)
          (api.remove_attestation_rule
            (managed_identity_resource_name project pool namespace managed_identity) body)
          w e)
