-- ===== src/Gcp/Compute/Bodies.antt =====
-- framework/infrastructure/gcp/compute.py: the request bodies that the methods of ComputeV1 build. A
-- dict argument that may be None is its fields, none of them for None and for the empty dict alike; so
-- for lists. An integer that is only used if it is true is 0 for None.
use psm_interop.Common.{
  ℕ, String, Bool, true, false, Option, none, some, List, [], ◌∷◌, ◌==◌, not, is_some,
  if◌then◌else◌,
}
use psm_interop.Common.Json.{
  Json, str, num, arr, obj, Items, nil, cons, Fields, end, field, field_if, one,
}
use psm_interop.Gcp.Compute.{
  GcpResource, HealthCheckProtocol, tcp, BackendServiceProtocol, unset, http2, region_arg,
}

abbrev pub health_check_field : HealthCheckProtocol → String
health_check_field tcp = "tcpHealthCheck"
health_check_field HealthCheckProtocol.grpc = "grpcHealthCheck"

abbrev pub health_check_type : HealthCheckProtocol → String
health_check_type tcp = "TCP"
health_check_type HealthCheckProtocol.grpc = "GRPC"

abbrev pub port_settings : Option ℕ → Fields
port_settings none = field "portSpecification" (str "USE_SERVING_PORT") end
port_settings (some port) =
    field "portSpecification" (str "USE_FIXED_PORT") (field "port" (num port) end)

abbrev pub protocol_name : BackendServiceProtocol → String
protocol_name unset = "UNSET"
protocol_name http2 = "HTTP2"
protocol_name BackendServiceProtocol.grpc = "GRPC"

abbrev pub texts : List String → Items
texts [] = nil
texts (s ∷ ss) = cons (str s) (texts ss)

abbrev pub is_true_text : Option String → Bool
is_true_text s = is_some (region_arg s)

abbrev pub text_or_empty : Option String → String
text_or_empty none = ""
text_or_empty (some s) = s

abbrev pub has_fields : Fields → Bool
has_fields end = false
has_fields (field k v fs) = true

abbrev pub has_items : Items → Bool
has_items nil = false
has_items (cons v vs) = true

-- `if health_check: body["healthChecks"] = [health_check.url]`
abbrev pub health_check_fields : Option GcpResource → Fields → Fields
health_check_fields none fs = fs
health_check_fields (some r) fs = field "healthChecks" (one (str r.url)) fs

abbrev pub affinity_fields : Option String → Fields → Fields
affinity_fields header fs =
    if is_true_text header
    then field "sessionAffinity" (str "HEADER_FIELD") (
        field "localityLbPolicy" (str "RING_HASH") (
          field "consistentHash" (obj (field "httpHeaderName" (str (text_or_empty header)) end))
            fs))
    else fs

-- The arguments of `create_backend_service_traffic_director` behind the name.
pub record BackendServiceArgs : Type 0 where
  pub health_check : Option GcpResource
  pub affinity_header : Option String
  pub protocol : Option BackendServiceProtocol
  pub subset_size : ℕ
  pub locality_lb_policies : Items
  pub outlier_detection : Fields
  pub enable_dualstack : Bool
  pub security_settings : Fields

unfoldable pub backend_service_body : String → BackendServiceProtocol → BackendServiceArgs → Json
backend_service_body name protocol args = obj (
    field "name" (str name) (
      field "loadBalancingScheme" (str "INTERNAL_SELF_MANAGED") (
        field "protocol" (str (protocol_name protocol)) (
          field_if (has_fields args.security_settings) "securitySettings"
            (obj args.security_settings)
            (health_check_fields args.health_check (
              field_if args.enable_dualstack "ipAddressSelectionPolicy" (str "PREFER_IPV6") (
                affinity_fields args.affinity_header (
                  field_if (not (args.subset_size == 0)) "subsetting"
                    (obj (
                      field "policy" (str "CONSISTENT_HASH_SUBSETTING")
                        (field "subsetSize" (num args.subset_size) end)))
                    (field_if (has_items args.locality_lb_policies) "localityLbPolicies"
                      (arr args.locality_lb_policies)
                      (field_if (has_fields args.outlier_detection) "outlierDetection"
                        (obj args.outlier_detection) end))))))))))

unfoldable pub backend_json : ℕ → String → Json
backend_json max_rate url = obj (
    field "group" (str url)
      (field "balancingMode" (str "RATE") (field "maxRatePerEndpoint" (num max_rate) end)))

abbrev pub backend_list : ℕ → List String → Items
backend_list max_rate [] = nil
backend_list max_rate (url ∷ urls) = cons (backend_json max_rate url) (backend_list max_rate urls)

abbrev pub rate_or_default : Option ℕ → ℕ
rate_or_default none = 5
rate_or_default (some n) = n

abbrev pub host_rule_url : GcpResource → Option GcpResource → String
host_rule_url default none = default.url
host_rule_url default (some r) = r.url

-- The body of `create_url_map` here and of `_generate_url_map_body` in traffic_director.py.
unfoldable pub url_map_body :
    String → String → List String → GcpResource → Option GcpResource → Json
url_map_body name matcher_name src_hosts default_service host_rule_service = obj (
    field "name" (str name) (
      field "defaultService" (str default_service.url) (
        field "hostRules"
          (one (
            obj
              (field "hosts" (arr (texts src_hosts)) (field "pathMatcher" (str matcher_name) end))))
          (field "pathMatchers"
            (one (
              obj (
                field "name" (str matcher_name) (
                  field "defaultService" (str (host_rule_url default_service host_rule_service))
                    end))))
            end))))
