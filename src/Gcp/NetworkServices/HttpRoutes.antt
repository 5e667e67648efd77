-- ===== src/Gcp/NetworkServices/HttpRoutes.antt =====
-- framework/infrastructure/gcp/network_services.py: HttpRoute, and what its parts read from the dicts of
-- a response. Values that are only passed on are JSON.
use psm_interop.Errors.{Exception, type_error, attribute_error}
use psm_interop.Common.Effects.{Outcome, returned}
use psm_interop.Common.{Option, none, some, List, []}
use Prim.Native.String.{String}
use psm_interop.Dicts.{◌>>=◌, traverse, subscript, iterate, as_dict}
use psm_interop.Common.Json.{Json, Fields, get_field}

pub record MethodMatch : Type 0 where
  pub type : Option Json
  pub http_service : Option Json
  pub http_method : Option Json
  pub case_sensitive : Option Json

pub record HeaderMatch : Type 0 where
  pub type : Option Json
  pub key : Json
  pub value : Json

pub record RouteMatch : Type 0 where
  pub method : Option MethodMatch
  pub headers : List HeaderMatch

pub record Destination : Type 0 where
  pub service_name : Json
  pub weight : Option Json

pub record StatefulSessionAffinity : Type 0 where
  pub cookie_ttl : Option Json

pub record RouteAction : Type 0 where
  pub destinations : List Destination
  pub stateful_session_affinity : Option StatefulSessionAffinity

pub record RouteRule : Type 0 where
  pub matches : List RouteMatch
  pub action : RouteAction

-- `rules` keeps the dicts of the response.
pub record HttpRoute : Type 0 where
  pub name : String
  pub url : Json
  pub hostnames : List Json
  pub rules : List Json
  pub meshes : Option (List Json)

-- `f(d[key]) if key in d else default`
abbrev pub read_or :
    {A : Type 0} → String → A → (Json → Outcome Exception A) → Fields → Outcome Exception A
read_or key default f d = elim (get_field key d) [ none ↦ returned default | some v ↦ f v ]

-- `[f(x) for x in value]` over dicts
abbrev pub read_list :
    {A : Type 0}
    → (Fields → Outcome Exception A)
    → (no_dict : Exception) → Json
    → Outcome Exception (List A)
read_list f no_dict value = iterate value >>= traverse (λ v. as_dict no_dict v >>= f)

unfoldable pub method_match : Fields → MethodMatch
method_match d = record {
  type = get_field "type" d;
  http_service = get_field "httpService" d;
  http_method = get_field "httpMethod" d;
  case_sensitive = get_field "caseSensitive" d;
}

unfoldable pub header_match : Fields → Outcome Exception HeaderMatch
header_match d = do
  key ← subscript "key" d
  value ← subscript "value" d
  returned (record { type = get_field "type" d; key = key; value = value })

unfoldable pub route_match : Fields → Outcome Exception RouteMatch
unfolding method_match header_match
route_match d = do
  method ←
      read_or "method" none
        (λ v. as_dict attribute_error v >>= λ m. returned (some (method_match m))) d
  headers ← read_or "headers" [] (read_list header_match attribute_error) d
  returned (record { method = method; headers = headers })

unfoldable pub destination : Fields → Outcome Exception Destination
destination d = do
  service_name ← subscript "serviceName" d
  returned (record { service_name = service_name; weight = get_field "weight" d })

unfoldable pub stateful_session_affinity : Fields → StatefulSessionAffinity
stateful_session_affinity d = record { cookie_ttl = get_field "cookieTtl" d }

unfoldable pub route_action : Fields → Outcome Exception RouteAction
unfolding destination stateful_session_affinity
route_action d = do
  destinations ← read_or "destinations" [] (read_list destination type_error) d
  affinity ←
      read_or "statefulSessionAffinity" none
        (λ v. as_dict attribute_error v >>= λ a. returned (some (stateful_session_affinity a))) d
  returned (record { destinations = destinations; stateful_session_affinity = affinity })

unfoldable pub route_rule : Fields → Outcome Exception RouteRule
unfolding route_match route_action
route_rule d = do
  matches ← read_or "matches" [] (read_list route_match type_error) d
  value ← subscript "action" d
  dict ← as_dict type_error value
  action ← route_action dict
  returned (record { matches = matches; action = action })

abbrev pub some_list : Json → Outcome Exception (Option (List Json))
some_list v = iterate v >>= λ vs. returned (some vs)

unfoldable pub http_route : (name : String) → Fields → Outcome Exception HttpRoute
http_route name d = do
  url ← subscript "name" d
  hostnames ← subscript "hostnames" d
  host_list ← iterate hostnames
  rules ← subscript "rules" d
  rule_list ← iterate rules
  meshes ← read_or "meshes" none some_list d
  returned
      (record { name = name; url = url; hostnames = host_list; rules = rule_list; meshes = meshes })
