-- ===== src/TrafficDirector/Secure.antt =====
-- framework/infrastructure/traffic_director.py: TrafficDirectorSecureManager. The clients of the network
-- security and network services APIs share the world of the compute client.
pub mod Teardown
pub mod Attachment
use psm_interop.Objects.{change, on_cloud, given, itself, inherited, ObjectMethod}
use psm_interop.Retryers.Tenacity.{Tenacity}
use psm_interop.Errors.{attribute_error}
use psm_interop.Common.{ℕ, String, Bool, not, ◌&&◌, Option, none, some, if◌then◌else◌}
use Prim.Native.String.{◌++◌ as ◌<+>◌}
use psm_interop.Common.Effects.{throw, pure, ◌>>=◌, ◌>>◌}
use psm_interop.Common.Decimal.{decimal}
use psm_interop.Common.Json.{arr, Json, Fields, field, end, field_if, str, obj, one, Items}
use psm_interop.Gcp.Compute.{ComputeApi, GcpResource}
use psm_interop.Gcp.Compute.Methods
use psm_interop.Gcp.NetworkServices.{NetworkServicesApi}
use psm_interop.Gcp.NetworkServices
use psm_interop.Gcp.NetworkServices.Resources.{EndpointPolicy}
use psm_interop.Gcp.NetworkSecurity.{NetworkSecurityApi}
use psm_interop.Gcp.NetworkSecurity
use psm_interop.Gcp.NetworkSecurity.Policies.{ServerTlsPolicy, ClientTlsPolicy}
use psm_interop.TrafficDirector.{self, cloud, Settings, Manager, new_manager, make_resource_name}
use psm_interop.TrafficDirector.Extended.{own_name, chosen_name, delete_chosen, plain}
use psm_interop.TrafficDirector.Lifecycle.{cleanup}

pub record SecureManager : Type 0 where
  pub base : Manager
  pub server_tls_policy : Option ServerTlsPolicy
  pub client_tls_policy : Option ClientTlsPolicy
  pub authz_policy : Option ClientTlsPolicy
  pub endpoint_policy : Option EndpointPolicy

abbrev pub with_base : SecureManager → Manager → SecureManager
with_base m b = record m { base = b }

-- `__init__`, which passes no region on.
unfoldable pub new_secure_manager : Settings → SecureManager
new_secure_manager settings = record {
  base = new_manager (record settings { region = none });
  server_tls_policy = none;
  client_tls_policy = none;
  authz_policy = none;
  endpoint_policy = none;
}

unfoldable pub certificate_provider : Json
certificate_provider = obj (
    field "certificateProviderInstance"
      (obj (field "pluginInstance" (str "google_cloud_private_spiffe") end)) end)

unfoldable pub server_policy : (tls mtls : Bool) → Fields
server_policy tls mtls = field_if tls "serverCertificate" certificate_provider (
    field_if mtls "mtlsPolicy" (obj (field "clientValidationCa" (one certificate_provider) end))
      end)

unfoldable pub client_policy : (tls mtls : Bool) → Fields
client_policy tls mtls =
    field_if tls "serverValidationCa" (one certificate_provider)
      (field_if mtls "clientCertificate" certificate_provider end)

abbrev name_if : String → Option String → Fields → Fields
name_if key none fs = fs
name_if key (some name) fs = field key (str name) fs

-- The `config` of `create_endpoint_policy`, with the names of the policies that there are.
unfoldable pub endpoint_config :
    (server_namespace server_name : String)
    → (server_port : ℕ) → (server_tls authz : Option String) → Fields
endpoint_config server_namespace server_name server_port server_tls authz =
    let labels = one (
      obj (
        field "labelName" (str "app")
          (field "labelValue" (str (server_namespace <+> "-" <+> server_name)) end))) in
    field "type" (str "GRPC_SERVER") (
      field "trafficPortSelector" (obj (field "ports" (one (str (decimal server_port))) end)) (
        field "endpointMatcher"
          (obj (
            field "metadataLabelMatcher"
              (obj (
                field "metadataLabelMatchCriteria" (str "MATCH_ALL")
                  (field "metadataLabels" labels end)))
              end))
          (name_if "serverTlsPolicy" server_tls (name_if "authorizationPolicy" authz end))))

module _ {W : Type 0} (tenacity : Tenacity) (compute : ComputeApi W) (netsec : NetworkSecurityApi W)
    (netsvc : NetworkServicesApi W) (project : String) where
  abbrev Method : Type 0 → Type 0
  Method A = ObjectMethod SecureManager W A

  abbrev pub make_server_policy : (tls mtls : Bool) → Settings → Method (Unit {0})
  make_server_policy tls mtls settings = do
    let name = make_resource_name settings "server-tls-policy"
    on_cloud (
        NetworkSecurity.create_server_tls_policy tenacity netsec project name
          (obj (server_policy tls mtls)))
    policy ← on_cloud (NetworkSecurity.get_server_tls_policy tenacity netsec project name)
    change (λ m. record m { server_tls_policy = some policy })

  unfoldable pub create_server_tls_policy : (tls mtls : Bool) → Method (Unit {0})
  create_server_tls_policy tls mtls = do
    m ← itself
    if not tls && not mtls then pure tt else make_server_policy tls mtls m.base.settings

  unfoldable pub delete_server_tls_policy : (force : Bool) → Method (Unit {0})
  delete_server_tls_policy force = do
    m ← itself
    delete_chosen
        (chosen_name force m.base.settings "server-tls-policy"
          (own_name (λ p. p.name) m.server_tls_policy))
        (λ name. NetworkSecurity.delete_server_tls_policy tenacity netsec project name)
        (λ m'. record m' { server_tls_policy = none })

  unfoldable pub create_authz_policy : (action : String) → (rules : Items) → Method (Unit {0})
  create_authz_policy action rules = do
    m ← itself
    let name = make_resource_name m.base.settings "authz-policy"
    on_cloud (
        NetworkSecurity.create_authz_policy tenacity netsec project name
          (obj (field "action" (str action) (field "rules" (arr rules) end))))
    policy ← on_cloud (NetworkSecurity.get_authz_policy tenacity netsec project name)
    change (λ m'. record m' { authz_policy = some policy })

  unfoldable pub delete_authz_policy : (force : Bool) → Method (Unit {0})
  delete_authz_policy force = do
    m ← itself
    delete_chosen
        (chosen_name force m.base.settings "authz-policy" (own_name (λ p. p.name) m.authz_policy))
        (λ name. NetworkSecurity.delete_authz_policy tenacity netsec project name)
        (λ m'. record m' { authz_policy = none })

  unfoldable pub create_endpoint_policy :
      (server_namespace server_name : String) → (server_port : ℕ) → Method (Unit {0})
  create_endpoint_policy server_namespace server_name server_port = do
    m ← itself
    let name = make_resource_name m.base.settings "endpoint-policy"
    on_cloud (
        NetworkServices.create_endpoint_policy tenacity netsvc project name (
          obj (
            endpoint_config server_namespace server_name server_port
              (own_name (λ p. p.name) m.server_tls_policy)
              (own_name (λ p. p.name) m.authz_policy))))
    policy ← on_cloud (NetworkServices.get_endpoint_policy tenacity netsvc project name)
    change (λ m'. record m' { endpoint_policy = some policy })

  unfoldable pub delete_endpoint_policy : (force : Bool) → Method (Unit {0})
  delete_endpoint_policy force = do
    m ← itself
    delete_chosen
        (chosen_name force m.base.settings "endpoint-policy"
          (own_name (λ p. p.name) m.endpoint_policy))
        (λ name. NetworkServices.delete_endpoint_policy tenacity netsvc project name)
        (λ m'. record m' { endpoint_policy = none })

  abbrev make_client_policy : (tls mtls : Bool) → Settings → Method (Unit {0})
  make_client_policy tls mtls settings = do
    let name = make_resource_name settings "client-tls-policy"
    on_cloud (
        NetworkSecurity.create_client_tls_policy tenacity netsec project name
          (obj (client_policy tls mtls)))
    policy ← on_cloud (NetworkSecurity.get_client_tls_policy tenacity netsec project name)
    change (λ m. record m { client_tls_policy = some policy })

  unfoldable pub create_client_tls_policy : (tls mtls : Bool) → Method (Unit {0})
  create_client_tls_policy tls mtls = do
    m ← itself
    if not tls && not mtls then pure tt else make_client_policy tls mtls m.base.settings

  unfoldable pub delete_client_tls_policy : (force : Bool) → Method (Unit {0})
  delete_client_tls_policy force = do
    m ← itself
    delete_chosen
        (chosen_name force m.base.settings "client-tls-policy"
          (own_name (λ p. p.name) m.client_tls_policy))
        (λ name. NetworkSecurity.delete_client_tls_policy tenacity netsec project name)
        (λ m'. record m' { client_tls_policy = none })

  abbrev apply_policy : Option ClientTlsPolicy → (spiffe : String) → GcpResource → Method (Unit {0})
  apply_policy none spiffe service = pure tt
  apply_policy (some policy) spiffe service = on_cloud (
      Methods.patch_backend_service tenacity compute service
        (obj (
          field "securitySettings"
            (obj
              (field "clientTlsPolicy" policy.url (field "subjectAltNames" (one (str spiffe)) end)))
            end))
        none)

  -- With no policy, too, the name of the backend service is read, for the log.
  unfoldable pub backend_service_apply_client_mtls_policy :
      (server_namespace server_name : String) → Method (Unit {0})
  backend_service_apply_client_mtls_policy server_namespace server_name = do
    m ← itself
    service ← given m.base.backend_service
    apply_policy m.client_tls_policy
        ("spiffe://" <+> project <+> ".svc.id.goog/ns/" <+> server_namespace <+> "/sa/"
          <+> server_name)
        service

  unfoldable pub setup_server_security :
      (server_namespace server_name : String)
      → (server_port : ℕ) → (tls mtls : Bool) → Method (Unit {0})
  setup_server_security server_namespace server_name server_port tls mtls = do
    create_server_tls_policy tls mtls
    create_endpoint_policy server_namespace server_name server_port

  unfoldable pub setup_client_security :
      (server_namespace server_name : String) → (tls mtls : Bool) → Method (Unit {0})
  setup_client_security server_namespace server_name tls mtls = do
    create_client_tls_policy tls mtls
    backend_service_apply_client_mtls_policy server_namespace server_name

  unfoldable pub secure_cleanup : (force : Bool) → Method (Unit {0})
  secure_cleanup force = do
    inherited (λ m. m.base) with_base (plain (cleanup tenacity compute force))
    delete_endpoint_policy force
    delete_server_tls_policy force
    delete_client_tls_policy force
    delete_authz_policy force
