-- ===== src/Gcp/NetworkServices/GrpcRoutes.antt =====
-- framework/infrastructure/gcp/network_services.py: GrpcRoute, and what its parts read from the dicts of
-- a response.
use psm_interop.Errors.{Exception, type_error, attribute_error}
use psm_interop.Common.Effects.{Outcome, returned, raised}
use psm_interop.Common.{Option, none, some, List, []}
use Prim.Native.String.{String}
use psm_interop.Dicts.{◌>>=◌, subscript, iterate, as_dict}
use psm_interop.Common.Json.{Json, Fields, get_field}
use psm_interop.Gcp.NetworkServices.HttpRoutes.{read_or, read_list, some_list}

pub record MethodMatch : Type 0 where
  pub type : Option Json
  pub grpc_service : Option Json
  pub grpc_method : Option Json
  pub case_sensitive : Option Json

pub record HeaderMatch : Type 0 where
  pub type : Option Json
  pub key : Json
  pub value : Json

pub record RouteMatch : Type 0 where
  pub method : Option MethodMatch
  pub headers : List HeaderMatch

pub record Destination : Type 0 where
  pub service_name : Json
  pub weight : Option Json

-- The class has no field.
pub data RouteAction : Type 0 where
  no_fields : RouteAction

pub record RouteRule : Type 0 where
  pub matches : List RouteMatch
  pub action : RouteAction

pub record GrpcRoute : Type 0 where
  pub name : String
  pub url : Json
  pub hostnames : List Json
  pub rules : List Json
  pub meshes : Option (List Json)

unfoldable pub method_match : Fields → MethodMatch
method_match d = record {
  type = get_field "type" d;
  grpc_service = get_field "grpcService" d;
  grpc_method = get_field "grpcMethod" d;
  case_sensitive = get_field "caseSensitive" d;
}

unfoldable pub header_match : Fields → Outcome Exception HeaderMatch
header_match d = do
  key ← subscript "key" d
  value ← subscript "value" d
  returned (record { type = get_field "type" d; key = key; value = value })

unfoldable pub route_match : Fields → Outcome Exception RouteMatch
unfolding method_match header_match
route_match d = do
  method ←
      read_or "method" none
        (λ v. as_dict attribute_error v >>= λ m. returned (some (method_match m))) d
  headers ← read_or "headers" [] (read_list header_match attribute_error) d
  returned (record { method = method; headers = headers })

unfoldable pub destination : Fields → Outcome Exception Destination
destination d = do
  service_name ← subscript "serviceName" d
  returned (record { service_name = service_name; weight = get_field "weight" d })

-- `cls(destinations=destinations)`: a dataclass without fields takes no argument.
abbrev construct : (destinations : List Destination) → Outcome Exception RouteAction
construct destinations = raised type_error

unfoldable pub route_action : Fields → Outcome Exception RouteAction
unfolding destination
route_action d = do
  destinations ← read_or "destinations" [] (read_list destination type_error) d
  construct destinations

unfoldable pub route_rule : Fields → Outcome Exception RouteRule
unfolding route_match route_action
route_rule d = do
  matches ← read_or "matches" [] (read_list route_match type_error) d
  value ← subscript "action" d
  dict ← as_dict type_error value
  action ← route_action dict
  returned (record { matches = matches; action = action })

unfoldable pub grpc_route : (name : String) → Fields → Outcome Exception GrpcRoute
grpc_route name d = do
  url ← subscript "name" d
  hostnames ← subscript "hostnames" d
  host_list ← iterate hostnames
  rules ← subscript "rules" d
  rule_list ← iterate rules
  meshes ← read_or "meshes" none some_list d
  returned
      (record { name = name; url = url; hostnames = host_list; rules = rule_list; meshes = meshes })
