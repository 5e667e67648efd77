-- ===== src/Gcp/NetworkServices/Resources.antt =====
-- framework/infrastructure/gcp/network_services.py: EndpointPolicy and Mesh, as a response gives them.
use psm_interop.Errors.{Exception}
use psm_interop.Common.Effects.{Outcome, returned}
use psm_interop.Common.{Option, none, List}
use Prim.Native.String.{String}
use psm_interop.Dicts.{◌>>=◌, subscript}
use psm_interop.Common.Json.{Json, Fields, get_field}
use psm_interop.Gcp.NetworkServices.HttpRoutes.{read_or, some_list}

pub record EndpointPolicy : Type 0 where
  pub url : Json
  pub name : String
  pub type : Json
  pub traffic_port_selector : Json
  pub endpoint_matcher : Json
  pub update_time : Json
  pub create_time : Json
  pub http_filters : Option Json
  pub server_tls_policy : Option Json

unfoldable pub endpoint_policy : (name : String) → Fields → Outcome Exception EndpointPolicy
endpoint_policy name response = do
  url ← subscript "name" response
  type ← subscript "type" response
  traffic_port_selector ← subscript "trafficPortSelector" response
  endpoint_matcher ← subscript "endpointMatcher" response
  update_time ← subscript "updateTime" response
  create_time ← subscript "createTime" response
  returned (record {
    url = url;
    name = name;
    type = type;
    traffic_port_selector = traffic_port_selector;
    endpoint_matcher = endpoint_matcher;
    update_time = update_time;
    create_time = create_time;
    http_filters = get_field "httpFilters" response;
    server_tls_policy = get_field "serverTlsPolicy" response;
  })

pub record Mesh : Type 0 where
  pub name : String
  pub url : Json
  pub routes : Option (List Json)

unfoldable pub mesh : (name : String) → Fields → Outcome Exception Mesh
mesh name d = do
  url ← subscript "name" d
  routes ← read_or "routes" none some_list d
  returned (record { name = name; url = url; routes = routes })
