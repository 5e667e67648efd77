-- ===== src/Gcp/NetworkSecurity.antt =====
-- framework/infrastructure/gcp/network_security.py: the client of the network security API. Its `_execute`
-- is the one of Gcp.Throttled; `get_authz_policy` reads a ClientTlsPolicy, as the source does.
pub mod Policies
use psm_interop.Retryers.Tenacity.{Tenacity}
use psm_interop.Errors.{Exception}
use psm_interop.Common.{String, Bool, none}
use psm_interop.Common.Effects.{Effect, lift, ◌>>=◌}
use psm_interop.Common.Json.{Json, Fields}
use psm_interop.Gcp.Standard.{StandardApi, get_resource, resource_full_name}
use psm_interop.Gcp.Throttled.{create_resource, delete_resource}
use Policies.{ServerTlsPolicy, ClientTlsPolicy, server_tls_policy, client_tls_policy}

pub record NetworkSecurityApi (W : Type 0) : Type 0 where
  pub server_tls_policies : StandardApi W Fields
  pub client_tls_policies : StandardApi W Fields
  pub authorization_policies : StandardApi W Fields

module _ {W : Type 0} (tenacity : Tenacity) (api : NetworkSecurityApi W) (project : String) where
  unfoldable pub create_server_tls_policy : (name : String) → Json → Effect W Exception (Unit {0})
  create_server_tls_policy name body =
      create_resource tenacity api.server_tls_policies project name body none

  unfoldable pub get_server_tls_policy : (name : String) → Effect W Exception ServerTlsPolicy
  get_server_tls_policy name = do
    response ←
        get_resource tenacity api.server_tls_policies project
          (resource_full_name project name "serverTlsPolicies" none)
    lift (server_tls_policy name response)

  unfoldable pub delete_server_tls_policy : (name : String) → Effect W Exception Bool
  delete_server_tls_policy name =
      delete_resource tenacity api.server_tls_policies project
        (resource_full_name project name "serverTlsPolicies" none)

  unfoldable pub create_client_tls_policy : (name : String) → Json → Effect W Exception (Unit {0})
  create_client_tls_policy name body =
      create_resource tenacity api.client_tls_policies project name body none

  unfoldable pub get_client_tls_policy : (name : String) → Effect W Exception ClientTlsPolicy
  get_client_tls_policy name = do
    response ←
        get_resource tenacity api.client_tls_policies project
          (resource_full_name project name "clientTlsPolicies" none)
    lift (client_tls_policy name response)

  unfoldable pub delete_client_tls_policy : (name : String) → Effect W Exception Bool
  delete_client_tls_policy name =
      delete_resource tenacity api.client_tls_policies project
        (resource_full_name project name "clientTlsPolicies" none)

  unfoldable pub create_authz_policy : (name : String) → Json → Effect W Exception (Unit {0})
  create_authz_policy name body =
      create_resource tenacity api.authorization_policies project name body none

  unfoldable pub get_authz_policy : (name : String) → Effect W Exception ClientTlsPolicy
  get_authz_policy name = do
    response ←
        get_resource tenacity api.authorization_policies project
          (resource_full_name project name "authorizationPolicies" none)
    lift (client_tls_policy name response)

  unfoldable pub delete_authz_policy : (name : String) → Effect W Exception Bool
  delete_authz_policy name =
      delete_resource tenacity api.authorization_policies project
        (resource_full_name project name "authorizationPolicies" none)
