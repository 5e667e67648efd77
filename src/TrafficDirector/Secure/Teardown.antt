-- ===== src/TrafficDirector/Secure/Teardown.antt =====
-- What `TrafficDirectorSecureManager.cleanup` asks for, in its order, and what it leaves.
use psm_interop.Objects.{Object}
use psm_interop.Retryers.Tenacity.{Tenacity}
use psm_interop.Errors.{Exception}
use psm_interop.Common.{String, refl, Bool, Option, none}
use psm_interop.Common.Effects.{Effect, ◌>>◌}
use psm_interop.Gcp.Compute.{ComputeApi}
use psm_interop.Gcp.NetworkServices.{NetworkServicesApi}
use psm_interop.Gcp.NetworkServices
use psm_interop.Gcp.NetworkSecurity.{NetworkSecurityApi}
use psm_interop.Gcp.NetworkSecurity
use psm_interop.TrafficDirector.Extended.{own_name, chosen_name}
use psm_interop.TrafficDirector.Extended.Requests.{
  Requests-Fulfils, Fulfils, Requests, if_named, then-Requests, inherited-Requests,
  delete_chosen-Requests, cleanup-Requests,
}
use psm_interop.TrafficDirector.Lifecycle.Deletions.{perform}
use psm_interop.TrafficDirector.Lifecycle.Cleanup.{deletions, cleared}
use psm_interop.TrafficDirector.Secure.{
  SecureManager, with_base, delete_endpoint_policy, delete_server_tls_policy,
  delete_client_tls_policy, delete_authz_policy, secure_cleanup,
}

abbrev name_for :
    {R : Type 0} → (force : Bool) → SecureManager → String → (R → String) → Option R → Option String
name_for force m name name_of r = chosen_name force m.base.settings name (own_name name_of r)

module _ {W : Type 0} (tenacity : Tenacity) (compute : ComputeApi W) (netsec : NetworkSecurityApi W)
    (netsvc : NetworkServicesApi W) (project : String) (force : Bool) where
  -- The requests for the policies, in order.
  unfoldable pub policy_requests : SecureManager → Effect W Exception (Unit {0})
  policy_requests m = do
    if_named (name_for force m "endpoint-policy" (λ p. p.name) m.endpoint_policy)
        (NetworkServices.delete_endpoint_policy tenacity netsvc project)
    if_named (name_for force m "server-tls-policy" (λ p. p.name) m.server_tls_policy)
        (NetworkSecurity.delete_server_tls_policy tenacity netsec project)
    if_named (name_for force m "client-tls-policy" (λ p. p.name) m.client_tls_policy)
        (NetworkSecurity.delete_client_tls_policy tenacity netsec project)
    if_named (name_for force m "authz-policy" (λ p. p.name) m.authz_policy)
        (NetworkSecurity.delete_authz_policy tenacity netsec project)

  -- Everything that is to be deleted: what the base class deletes, and then the policies.
  unfoldable pub secure_requests : SecureManager → Effect W Exception (Unit {0})
  secure_requests m = do perform tenacity compute (deletions force m.base); policy_requests m

  abbrev pub without_policies : SecureManager → SecureManager
  without_policies m = record m {
    endpoint_policy = none;
    server_tls_policy = none;
    client_tls_policy = none;
    authz_policy = none;
  }

  pub secure_cleanup-Requests :
      Requests
        (secure_cleanup tenacity compute netsec netsvc project force)
        secure_requests
        (λ m. without_policies (record m { base = cleared force m.base }))
  unfolding secure_cleanup secure_requests policy_requests delete_endpoint_policy
      delete_server_tls_policy delete_client_tls_policy delete_authz_policy
  secure_cleanup-Requests =
      then-Requests _ _ _ _ _ _
        (inherited-Requests (λ m. m.base) with_base _ _ _ (cleanup-Requests tenacity compute force))
        (then-Requests _ _ _ _ _ _
          (delete_chosen-Requests (λ m x. record m { endpoint_policy = x }) (λ m. m.endpoint_policy)
            (λ m. m.base.settings) (λ p. p.name) (λ m. refl) (λ m x. refl) force "endpoint-policy"
            (λ m. NetworkServices.delete_endpoint_policy tenacity netsvc project))
          (then-Requests _ _ _ _ _ _
            (delete_chosen-Requests (λ m x. record m { server_tls_policy = x })
              (λ m. m.server_tls_policy) (λ m. m.base.settings) (λ p. p.name) (λ m. refl)
              (λ m x. refl) force "server-tls-policy"
              (λ m. NetworkSecurity.delete_server_tls_policy tenacity netsec project))
            (then-Requests _ _ _ _ _ _
              (delete_chosen-Requests (λ m x. record m { client_tls_policy = x })
                (λ m. m.client_tls_policy) (λ m. m.base.settings) (λ p. p.name) (λ m. refl)
                (λ m x. refl) force "client-tls-policy"
                (λ m. NetworkSecurity.delete_client_tls_policy tenacity netsec project))
              (delete_chosen-Requests (λ m x. record m { authz_policy = x }) (λ m. m.authz_policy)
                (λ m. m.base.settings) (λ p. p.name) (λ m. refl) (λ m x. refl) force "authz-policy"
                (λ m. NetworkSecurity.delete_authz_policy tenacity netsec project)))))

  -- A cleanup of a secure manager asks for what `secure_requests` says, in its order: the resources of the
  -- base class first, then the endpoint policy before the TLS policies; it ends as they end, at the first
  -- that raises. When it returns, the manager has no policy, and the rest is as a cleanup of the base
  -- class leaves it.
  pub secure_cleanup-Fulfils :
      (s : Object SecureManager W)
      → Fulfils
          (secure_cleanup tenacity compute netsec netsvc project force)
          s
          (secure_requests s.manager)
          (without_policies (record s.manager { base = cleared force s.manager.base }))
  secure_cleanup-Fulfils = Requests-Fulfils _ _ _ secure_cleanup-Requests
