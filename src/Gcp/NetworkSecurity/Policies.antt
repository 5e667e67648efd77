-- ===== src/Gcp/NetworkSecurity/Policies.antt =====
-- framework/infrastructure/gcp/network_security.py: the policies, as a response gives them.
use psm_interop.Errors.{Exception}
use psm_interop.Common.Effects.{Outcome, returned}
use Prim.Native.String.{String}
use psm_interop.Dicts.{◌>>=◌, subscript, get_or}
use psm_interop.Common.Json.{Json, arr, nil, obj, end, Fields}

pub record ServerTlsPolicy : Type 0 where
  pub url : Json
  pub name : String
  pub server_certificate : Json
  pub mtls_policy : Json
  pub update_time : Json
  pub create_time : Json

unfoldable pub server_tls_policy : (name : String) → Fields → Outcome Exception ServerTlsPolicy
server_tls_policy name response = do
  url ← subscript "name" response
  create_time ← subscript "createTime" response
  update_time ← subscript "updateTime" response
  returned (record {
    url = url;
    name = name;
    server_certificate = get_or "serverCertificate" (obj end) response;
    mtls_policy = get_or "mtlsPolicy" (obj end) response;
    update_time = update_time;
    create_time = create_time;
  })

pub record ClientTlsPolicy : Type 0 where
  pub url : Json
  pub name : String
  pub client_certificate : Json
  pub server_validation_ca : Json
  pub update_time : Json
  pub create_time : Json

unfoldable pub client_tls_policy : (name : String) → Fields → Outcome Exception ClientTlsPolicy
client_tls_policy name response = do
  url ← subscript "name" response
  create_time ← subscript "createTime" response
  update_time ← subscript "updateTime" response
  returned (record {
    url = url;
    name = name;
    client_certificate = get_or "clientCertificate" (obj end) response;
    server_validation_ca = get_or "serverValidationCa" (arr nil) response;
    update_time = update_time;
    create_time = create_time;
  })

pub record AuthorizationPolicy : Type 0 where
  pub url : Json
  pub name : String
  pub update_time : Json
  pub create_time : Json
  pub action : Json
  pub rules : Json

unfoldable pub authorization_policy :
    (name : String) → Fields → Outcome Exception AuthorizationPolicy
authorization_policy name response = do
  url ← subscript "name" response
  create_time ← subscript "createTime" response
  update_time ← subscript "updateTime" response
  action ← subscript "action" response
  returned (record {
    url = url;
    name = name;
    update_time = update_time;
    create_time = create_time;
    action = action;
    rules = get_or "rules" (arr nil) response;
  })
