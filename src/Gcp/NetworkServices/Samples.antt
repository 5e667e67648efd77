-- ===== src/Gcp/NetworkServices/Samples.antt =====
-- Routes as a response gives them.
use psm_interop.Errors.{Exception, key_error}
use psm_interop.Common.Effects.{returned, raised}
use psm_interop.Common.{◌≡◌, refl, none, some, [], ◌∷◌}
use psm_interop.Common.Json.{Fields, end, field, str, obj, one, get_field}
use psm_interop.Dicts.{subscript, iterate}
use psm_interop.Gcp.NetworkServices.HttpRoutes.{RouteRule, route_rule, http_route}
use psm_interop.Gcp.NetworkServices.GrpcRoutes
use psm_interop.Gcp.NetworkServices.Resources.{mesh}
use psm_interop.Gcp.NetworkServices.Routes.{rule_dict, route_rule-roundtrip, grpc_rule-raises}

abbrev rule : RouteRule
rule = record {
  matches =
      record {
        method = none;
        headers = record { type = none; key = str "k"; value = str "v" } ∷ [];
      }
      ∷ [];
  action = record {
    destinations = record { service_name = str "s"; weight = none } ∷ [];
    stateful_session_affinity = some (record { cookie_ttl = some (str "50s") });
  };
}

route_rule-roundtrip_example : route_rule (rule_dict rule) ≡ returned rule
route_rule-roundtrip_example = route_rule-roundtrip rule

abbrev grpc_dict : Fields
grpc_dict =
    field "action" (obj (field "destinations" (one (obj (field "serviceName" (str "s") end))) end))
      end

grpc_rule-raises_example : (e : Exception) × (GrpcRoutes.route_rule grpc_dict ≡ raised e)
grpc_rule-raises_example = grpc_rule-raises grpc_dict

mesh_without_routes :
    mesh "m" (field "name" (str "projects/p/m") end)
    ≡ returned (record { name = "m"; url = str "projects/p/m"; routes = none })
unfolding mesh get_field subscript
mesh_without_routes = refl

no_hostnames : http_route "r" (field "name" (str "u") end) ≡ raised key_error
unfolding http_route get_field subscript iterate
no_hostnames = refl
