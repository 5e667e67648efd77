-- ===== src/Gcp/Compute/Methods.antt =====
-- framework/infrastructure/gcp/compute.py: the methods of ComputeV1 for each kind of resource.
use Prim.Native.String.{◌++◌}
use psm_interop.Common.{ℕ, String, Bool, Option, none, some, List, ◌==◌, if◌then◌else◌}
use psm_interop.Common.Effects.{Effect, pure, throw, catch, ◌>>=◌, ◌>>◌}
use psm_interop.Common.Json.{
  Json, bool, str, num, arr, obj, Items, nil, Fields, end, field, field_if, one,
}
use psm_interop.Errors.{Exception, http_error, type_error}
use psm_interop.Retryers.Tenacity.{Tenacity}
use psm_interop.Gcp.Compute.{
  health_checks, firewalls, backend_services, region_backend_services, url_maps, region_url_maps,
  target_grpc_proxies, target_http_proxies, region_target_http_proxies, forwarding_rules,
  global_forwarding_rules, GcpResource, HealthCheckProtocol, BackendServiceProtocol, ListResponse,
  ComputeApi, in_region, get_resource, exists_resource, insert_resource, patch_resource,
  list_resource, delete_resource,
}
use psm_interop.Gcp.Compute.Bodies.{
  BackendServiceArgs, backend_list, backend_service_body, has_fields, health_check_field,
  health_check_type, port_settings, rate_or_default, texts, url_map_body,
}

module _ {W : Type 0} (tenacity : Tenacity) (api : ComputeApi W) where
  unfoldable pub create_health_check :
      String → HealthCheckProtocol → (port : Option ℕ) → Effect W Exception GcpResource
  create_health_check name protocol port =
      insert_resource tenacity api health_checks
        (obj (
          field "name" (str name) (
            field "type" (str (health_check_type protocol))
              (field (health_check_field protocol) (obj (port_settings port)) end))))
        none

  unfoldable pub list_health_check : Effect W Exception ListResponse
  list_health_check = list_resource tenacity api health_checks

  unfoldable pub delete_health_check : String → Effect W Exception (Unit {0})
  delete_health_check name = do delete_resource tenacity api health_checks name none; pure tt

  -- HttpError with the status 409 is an answer: None.
  abbrev already_existed : Exception → Effect W Exception (Option GcpResource)
  already_existed (http_error r) = if r.status == 409 then pure none else throw (http_error r)
  already_existed e = throw e

  unfoldable pub create_firewall_rule :
      String
      → (network_url : String) → (source_ranges : Json) → (ports : List String)
      → Effect W Exception (Option GcpResource)
  create_firewall_rule name network_url source_ranges ports =
      catch
        (do
          rule ←
              insert_resource tenacity api firewalls
                (obj (
                  field "allowed"
                    (one (
                      obj (field "IPProtocol" (str "tcp") (field "ports" (arr (texts ports)) end))))
                    (field "direction" (str "INGRESS") (
                      field "name" (str name) (
                        field "network" (str network_url) (
                          field "priority" (num 1000) (
                            field "sourceRanges" source_ranges
                              (field "targetTags" (one (str "allow-health-checks")) end))))))))
                none
          pure (some rule))
        already_existed

  unfoldable pub delete_firewall_rule : String → Effect W Exception (Unit {0})
  delete_firewall_rule name = do delete_resource tenacity api firewalls name none; pure tt

  abbrev create_backend_service :
      String
      → BackendServiceArgs
      → Option String
      → Option BackendServiceProtocol
      → Effect W Exception GcpResource
  create_backend_service name args region none = throw type_error
  create_backend_service name args region (some protocol) =
      insert_resource tenacity api (in_region region region_backend_services backend_services)
        (backend_service_body name protocol args) region

  unfoldable pub create_backend_service_traffic_director :
      String → BackendServiceArgs → (region : Option String) → Effect W Exception GcpResource
  create_backend_service_traffic_director name args region =
      create_backend_service name args region args.protocol

  unfoldable pub get_backend_service_traffic_director :
      String → (region : Option String) → Effect W Exception GcpResource
  get_backend_service_traffic_director name region =
      get_resource tenacity api (in_region region region_backend_services backend_services) region
        name

  unfoldable pub patch_backend_service :
      GcpResource → Json → (region : Option String) → Effect W Exception (Unit {0})
  patch_backend_service backend_service body region =
      patch_resource tenacity api (in_region region region_backend_services backend_services)
        backend_service.name body region

  unfoldable pub backend_service_patch_backends_with_body :
      GcpResource
      → Items
      → (circuit_breakers : Fields) → (region : Option String) → Effect W Exception (Unit {0})
  backend_service_patch_backends_with_body backend_service backends circuit_breakers region =
      patch_resource tenacity api (in_region region region_backend_services backend_services)
        backend_service.name
        (obj (
          field "backends" (arr backends)
            (field_if (has_fields circuit_breakers) "circuitBreakers" (obj circuit_breakers) end)))
        region

  -- The backends are given by their URLs, all that is read of them.
  unfoldable pub backend_service_patch_backends :
      GcpResource
      → (backend_urls : List String) → (max_rate_per_endpoint : Option ℕ)
      → (circuit_breakers : Fields) → (region : Option String) → Effect W Exception (Unit {0})
  backend_service_patch_backends backend_service backend_urls max_rate circuit_breakers region =
      backend_service_patch_backends_with_body backend_service
        (backend_list (rate_or_default max_rate) backend_urls) circuit_breakers region

  unfoldable pub backend_service_remove_all_backends :
      GcpResource → (region : Option String) → Effect W Exception (Unit {0})
  backend_service_remove_all_backends backend_service region =
      patch_resource tenacity api (in_region region region_backend_services backend_services)
        backend_service.name (obj (field "backends" (arr nil) end)) region

  unfoldable pub delete_backend_service :
      String → (region : Option String) → Effect W Exception (Unit {0})
  delete_backend_service name region = do
    delete_resource tenacity api (in_region region region_backend_services backend_services) name
        region
    pure tt

  unfoldable pub create_url_map_with_content :
      Json → (region : Option String) → Effect W Exception GcpResource
  create_url_map_with_content body region =
      insert_resource tenacity api (in_region region region_url_maps url_maps) body region

  unfoldable pub create_url_map :
      String
      → String
      → List String
      → GcpResource
      → Option GcpResource
      → (region : Option String) → Effect W Exception GcpResource
  create_url_map name matcher_name src_hosts default_service host_rule_service region =
      insert_resource tenacity api (in_region region region_url_maps url_maps)
        (url_map_body name matcher_name src_hosts default_service host_rule_service) region

  unfoldable pub patch_url_map :
      GcpResource → Json → (region : Option String) → Effect W Exception (Unit {0})
  patch_url_map url_map body region =
      patch_resource tenacity api (in_region region region_url_maps url_maps) url_map.name body
        region

  unfoldable pub delete_url_map : String → (region : Option String) → Effect W Exception (Unit {0})
  delete_url_map name region = do
    delete_resource tenacity api (in_region region region_url_maps url_maps) name region
    pure tt

  unfoldable pub create_target_grpc_proxy :
      String → GcpResource → (validate_for_proxyless : Bool) → Effect W Exception GcpResource
  create_target_grpc_proxy name url_map validate =
      insert_resource tenacity api target_grpc_proxies
        (obj (
          field "name" (str name) (
            field "url_map" (str url_map.url)
              (field "validate_for_proxyless" (bool validate) end))))
        none

  unfoldable pub delete_target_grpc_proxy : String → Effect W Exception (Unit {0})
  delete_target_grpc_proxy name = do
    delete_resource tenacity api target_grpc_proxies name none
    pure tt

  unfoldable pub create_target_http_proxy :
      String → GcpResource → (region : Option String) → Effect W Exception GcpResource
  create_target_http_proxy name url_map region =
      insert_resource tenacity api (in_region region region_target_http_proxies target_http_proxies)
        (obj (field "name" (str name) (field "url_map" (str url_map.url) end))) region

  unfoldable pub delete_target_http_proxy :
      String → (region : Option String) → Effect W Exception (Unit {0})
  delete_target_http_proxy name region = do
    delete_resource tenacity api (in_region region region_target_http_proxies target_http_proxies)
        name region
    pure tt

  unfoldable pub create_forwarding_rule :
      String
      → (src_port : ℕ) → GcpResource
      → (network_url : String) → (ip_address : String) → (region : Option String)
      → Effect W Exception GcpResource
  create_forwarding_rule name src_port target_proxy network_url ip_address region =
      insert_resource tenacity api (in_region region forwarding_rules global_forwarding_rules)
        (obj (
          field "name" (str name) (
            field "loadBalancingScheme" (str "INTERNAL_SELF_MANAGED") (
              field "portRange" (num src_port) (
                field "IPAddress" (str ip_address) (
                  field "network" (str network_url)
                    (field "target" (str target_proxy.url) end)))))))
        region

  -- The port is given as its decimal text.
  unfoldable pub exists_forwarding_rule :
      (src_port : String) → (region : Option String) → Effect W Exception Bool
  exists_forwarding_rule src_port region =
      exists_resource tenacity api (in_region region forwarding_rules global_forwarding_rules)
        ("(portRange eq \"" ++ src_port ++ "-" ++ src_port
          ++ "\") (IPAddress eq \"0.0.0.0\")(loadBalancingScheme eq \"INTERNAL_SELF_MANAGED\")")
        region

  unfoldable pub delete_forwarding_rule :
      String → (region : Option String) → Effect W Exception (Unit {0})
  delete_forwarding_rule name region = do
    delete_resource tenacity api (in_region region forwarding_rules global_forwarding_rules) name
        region
    pure tt
