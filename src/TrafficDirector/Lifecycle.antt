-- ===== src/TrafficDirector/Lifecycle.antt =====
-- framework/infrastructure/traffic_director.py: the setup of the resources of a service, and cleanup.
pub mod Deletions
mod Forgetting
mod ServiceSteps
mod RouteSteps
mod FirewallSteps
pub mod Cleanup
mod Setup
mod Creations
mod Made
mod Undoing
mod Samples
use psm_interop.Common.{ℕ, String, Bool, Option, none, some, if◌then◌else◌}
use psm_interop.Common.Effects.{pure, ◌>>=◌, ◌>>◌}
use psm_interop.Common.Json.{Fields, end, nil}
use psm_interop.Retryers.Tenacity.{Tenacity}
use psm_interop.Gcp.Compute.{HealthCheckProtocol, BackendServiceProtocol, ComputeApi}
use psm_interop.TrafficDirector.{Method, self}
use psm_interop.TrafficDirector.Backends.{
  create_health_check, delete_health_check, create_backend_service, delete_backend_service,
}
use psm_interop.TrafficDirector.OtherBackends.{
  delete_alternative_backend_service, delete_affinity_backend_service,
}
use psm_interop.TrafficDirector.Routing.{
  create_url_map, delete_url_map, delete_alternative_url_map, create_target_proxy,
  create_target_proxy_ipv6, delete_target_grpc_proxy, delete_target_http_proxy,
  delete_target_proxy_ipv6, delete_alternative_target_grpc_proxy,
}
use psm_interop.TrafficDirector.Forwarding.{
  create_forwarding_rule, create_forwarding_rule_ipv6, delete_forwarding_rule,
  delete_forwarding_rule_ipv6, delete_alternative_forwarding_rule,
}
use psm_interop.TrafficDirector.Firewall.{delete_firewall_rules}

module _ {W : Type 0} (tenacity : Tenacity) (api : ComputeApi W) where
  unfoldable pub setup_backend_for_grpc :
      Option BackendServiceProtocol
      → (health_check_port : Option ℕ) → (security_settings : Fields) → Method W (Unit {0})
  setup_backend_for_grpc protocol health_check_port security_settings = do
    create_health_check tenacity api (some HealthCheckProtocol.grpc) health_check_port
    create_backend_service tenacity api protocol (record {
      subset_size = 0;
      affinity_header = none;
      locality_lb_policies = nil;
      outlier_detection = end;
      security_settings = security_settings;
    })

  abbrev pub setup_ipv6 : (service_port : ℕ) → Method W (Unit {0})
  setup_ipv6 service_port = do
    create_target_proxy_ipv6 tenacity api
    create_forwarding_rule_ipv6 tenacity api service_port
    pure tt

  unfoldable pub setup_routing_rule_map_for_grpc :
      (service_host : String) → (service_port : ℕ) → Method W (Unit {0})
  setup_routing_rule_map_for_grpc service_host service_port = do
    create_url_map tenacity api service_host service_port
    create_target_proxy tenacity api
    create_forwarding_rule tenacity api service_port
    m ← self
    if m.settings.enable_dualstack then setup_ipv6 service_port else pure tt

  unfoldable pub setup_for_grpc :
      (service_host : String)
      → (service_port : ℕ) → Option BackendServiceProtocol
      → (health_check_port : Option ℕ) → (security_settings : Fields) → Method W (Unit {0})
  setup_for_grpc service_host service_port protocol health_check_port security_settings = do
    setup_backend_for_grpc protocol health_check_port security_settings
    setup_routing_rule_map_for_grpc service_host service_port

  abbrev pub delete_ipv6 : (force : Bool) → Method W (Unit {0})
  delete_ipv6 force = do
    delete_forwarding_rule_ipv6 tenacity api force
    delete_target_proxy_ipv6 tenacity api force

  abbrev pub delete_ipv6_if_dualstack : (force : Bool) → Method W (Unit {0})
  delete_ipv6_if_dualstack force = do
    m ← self
    if m.settings.enable_dualstack then delete_ipv6 force else pure tt

  unfoldable pub cleanup : (force : Bool) → Method W (Unit {0})
  cleanup force = do
    delete_firewall_rules tenacity api force
    delete_forwarding_rule tenacity api force
    delete_alternative_forwarding_rule tenacity api force
    delete_target_http_proxy tenacity api force
    delete_target_grpc_proxy tenacity api force
    delete_ipv6_if_dualstack force
    delete_alternative_target_grpc_proxy tenacity api force
    delete_url_map tenacity api force
    delete_alternative_url_map tenacity api force
    delete_backend_service tenacity api force
    delete_alternative_backend_service tenacity api force
    delete_affinity_backend_service tenacity api force
    delete_health_check tenacity api force
