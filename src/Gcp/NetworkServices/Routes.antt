-- ===== src/Gcp/NetworkServices/Routes.antt =====
-- What is read from the dicts of routes: HTTP rules are read as they were written, gRPC rules never.
use psm_interop.Errors.{Exception, type_error, attribute_error}
use psm_interop.Common.Effects.{Outcome-cases, Outcome, raised, returned}
use psm_interop.Common.{refl, inl, inr, ◌≡◌, Option, none, some, List, map, arith}
use psm_interop.Common.Json.{Json, Fields, end, field, arr, obj, get_field}
use psm_interop.Dicts.{◌>>=◌, traverse-map, iterate-arr, to_items, field_of, subscript, as_dict}
use psm_interop.Gcp.NetworkServices.HttpRoutes.{
  MethodMatch, HeaderMatch, RouteMatch, Destination, StatefulSessionAffinity, RouteAction,
  RouteRule, read_list, method_match, header_match, route_match, destination,
  stateful_session_affinity, route_action, route_rule,
}
use psm_interop.Gcp.NetworkServices.GrpcRoutes

-- The dicts of the API for the parts of a rule: optional entries only with a value.
abbrev method_dict : MethodMatch → Fields
method_dict m = field_of "type" m.type (
    field_of "httpService" m.http_service
      (field_of "httpMethod" m.http_method (field_of "caseSensitive" m.case_sensitive end)))

abbrev header_dict : HeaderMatch → Fields
header_dict h = field_of "type" h.type (field "key" h.key (field "value" h.value end))

abbrev list_of : {A : Type 0} → (A → Fields) → List A → Json
list_of f xs = arr (to_items (map (λ x. obj (f x)) xs))

abbrev optional : {A : Type 0} → (A → Fields) → Option A → Option Json
optional f none = none
optional f (some a) = some (obj (f a))

abbrev match_dict : RouteMatch → Fields
match_dict m =
    field_of "method" (optional method_dict m.method)
      (field "headers" (list_of header_dict m.headers) end)

abbrev destination_dict : Destination → Fields
destination_dict d = field "serviceName" d.service_name (field_of "weight" d.weight end)

abbrev affinity_dict : StatefulSessionAffinity → Fields
affinity_dict a = field_of "cookieTtl" a.cookie_ttl end

abbrev action_dict : RouteAction → Fields
action_dict a =
    field "destinations" (list_of destination_dict a.destinations)
      (field_of "statefulSessionAffinity" (optional affinity_dict a.stateful_session_affinity) end)

abbrev pub rule_dict : RouteRule → Fields
rule_dict r =
    field "matches" (list_of match_dict r.matches) (field "action" (obj (action_dict r.action)) end)

method_match_fields :
    (type service method sensitive : Option Json)
    → let m : MethodMatch = record {
      type = type;
      http_service = service;
      http_method = method;
      case_sensitive = sensitive;
    } in
      method_match (method_dict m) ≡ m
unfolding method_match get_field
method_match_fields type service method sensitive = ground arith

header_match-roundtrip : (h : HeaderMatch) → header_match (header_dict h) ≡ returned h
unfolding header_match get_field subscript
header_match-roundtrip h = ground arith

destination-roundtrip : (d : Destination) → destination (destination_dict d) ≡ returned d
unfolding destination get_field subscript
destination-roundtrip d = ground arith

read_list-roundtrip :
    {A : Type 0} (f : Fields → Outcome Exception A) (g : A → Fields) (e : Exception)
    → ((a : A) → f (g a) ≡ returned a)
    → (xs : List A) → read_list f e (list_of g xs) ≡ returned xs
unfolding as_dict
read_list-roundtrip f g e same xs =
    rw (iterate-arr (map (λ x. obj (g x)) xs))
      (traverse-map (λ v. as_dict e v >>= f) (λ x. obj (g x)) same xs)

route_match-roundtrip : (m : RouteMatch) → route_match (match_dict m) ≡ returned m
unfolding route_match get_field as_dict
route_match-roundtrip m = from m.method m.headers
  where
    headers-roundtrip :
        (headers : List HeaderMatch)
        → read_list header_match attribute_error (list_of header_dict headers) ≡ returned headers
    headers-roundtrip =
        read_list-roundtrip header_match header_dict attribute_error header_match-roundtrip

    from :
        (method : Option MethodMatch) (headers : List HeaderMatch)
        → route_match (match_dict (record { method = method; headers = headers }))
          ≡ returned (record { method = method; headers = headers })
    from none headers = rw (headers-roundtrip headers) refl
    from (some m) headers =
        rw (method_match_fields m.type m.http_service m.http_method m.case_sensitive)
          (rw (headers-roundtrip headers) refl)

affinity-roundtrip : (a : StatefulSessionAffinity) → stateful_session_affinity (affinity_dict a) ≡ a
unfolding stateful_session_affinity get_field
affinity-roundtrip a = ground arith

route_action-roundtrip : (a : RouteAction) → route_action (action_dict a) ≡ returned a
unfolding route_action get_field as_dict
route_action-roundtrip a = from a.destinations a.stateful_session_affinity
  where
    destinations-roundtrip :
        (ds : List Destination)
        → read_list destination type_error (list_of destination_dict ds) ≡ returned ds
    destinations-roundtrip =
        read_list-roundtrip destination destination_dict type_error destination-roundtrip

    from :
        (ds : List Destination) (affinity : Option StatefulSessionAffinity)
        → route_action
            (action_dict (record { destinations = ds; stateful_session_affinity = affinity }))
          ≡ returned (record { destinations = ds; stateful_session_affinity = affinity })
    from ds none = rw (destinations-roundtrip ds) refl
    from ds (some x) = rw (destinations-roundtrip ds) (rw (affinity-roundtrip x) refl)

-- A rule of an HTTP route, written as the dict of the API with its optional entries only where they have
-- a value, is read back as it was.
pub route_rule-roundtrip : (r : RouteRule) → route_rule (rule_dict r) ≡ returned r
unfolding route_rule get_field as_dict subscript
route_rule-roundtrip r =
    rw (read_list-roundtrip route_match match_dict type_error route_match-roundtrip r.matches)
      (rw (route_action-roundtrip r.action) refl)

-- No dict is read as a rule of a gRPC route: the reading always raises.
pub grpc_rule-raises : (d : Fields) → (e : Exception) × (GrpcRoutes.route_rule d ≡ raised e)
unfolding GrpcRoutes.route_rule GrpcRoutes.route_action
grpc_rule-raises d = elim (Outcome-cases (GrpcRoutes.route_rule d)) [
  | inl (r, h) ↦ absurd (ground arith)
  | inr (e, h) ↦ (e, h)
]
