-- ===== src/TrafficDirector/Lifecycle/Samples.antt =====
-- The manager on a concrete cloud, and the setup, the cleanup and the port search on it.
use psm_interop.TrafficDirector.Lifecycle.Setup.{Made}
use psm_interop.Common.{
  All, ◌+◌, ◌≡◌, ℕ, suc, refl, true, false, none, some, [], ◌∷◌, ◌==◌, if◌then◌else◌,
}
use psm_interop.Common.Effects.{Outcome, returned, raised}
use psm_interop.Common.Json.{end, get_field}
use psm_interop.Errors.{Exception, key_error}
use psm_interop.Retryers.{exponential_retryer_with_attempts, build_retry_conditions, error_handler}
use psm_interop.Retryers.Tenacity.{wants_retry, asks}
use psm_interop.Retryers.Loop.{loop}
use psm_interop.Gcp.Api.{get_api_retryer}
use psm_interop.Gcp.Compute.{
  GcpResource, BackendServiceProtocol, ComputeApi, Operation, region_arg, execute, wait,
  operation_retryer, operation_status_done, insert_resource, delete_resource, exists_resource,
}
use psm_interop.Gcp.Compute.Bodies.{backend_service_body, url_map_body}
use psm_interop.Gcp.Compute.Methods
use psm_interop.TrafficDirector.{Settings, State, new_manager, delete_named}
use psm_interop.TrafficDirector.Firewall.{delete_firewall_rules}
use psm_interop.TrafficDirector.Backends.{
  delete_backend_service, delete_health_check, create_health_check, create_backend_service,
}
use psm_interop.TrafficDirector.OtherBackends.{
  delete_alternative_backend_service, delete_affinity_backend_service,
}
use psm_interop.TrafficDirector.Routing.{
  delete_target_http_proxy, delete_target_grpc_proxy, delete_alternative_target_grpc_proxy,
  delete_url_map, delete_alternative_url_map, create_url_map, create_target_proxy,
}
use psm_interop.TrafficDirector.Forwarding.{
  delete_forwarding_rule, delete_alternative_forwarding_rule, create_forwarding_rule,
  find_unused_forwarding_rule_port,
}
use psm_interop.TrafficDirector.Lifecycle.{
  setup_for_grpc, setup_backend_for_grpc, setup_routing_rule_map_for_grpc, cleanup,
}
use psm_interop.TrafficDirector.Lifecycle.Deletions.{perform}
use psm_interop.TrafficDirector.Lifecycle.Cleanup.{
  deletions, cleanup-deletions, cleanup-keeps_alternative,
}
use psm_interop.TrafficDirector.Lifecycle.Made.{undoing}
use psm_interop.TrafficDirector.Lifecycle.Undoing.{setup_for_grpc-undoing}
use psm_interop.TrafficDirector.Ports.{Unused, find_unused_forwarding_rule_port-Unused}

abbrev operation : Operation
operation = record {
  name = some "op";
  status = some "DONE";
  error = none;
  target_link = some "url";
}

-- A cloud that does all it is asked and counts the requests; two forwarding rules are in the way.
abbrev cloud : ComputeApi ℕ
cloud = record {
  insert = λ _ _ _ w. (returned operation, suc w);
  patch = λ _ _ _ _ w. (returned operation, suc w);
  delete = λ _ _ _ w. (returned operation, suc w);
  get = λ _ _ _ w. (raised key_error, suc w);
  list = λ _ _ _ w. (
    returned (record {
      kind = some "list";
      items = if w == 2 then none else some (record { name = some "rule"; self_link = none } ∷ []);
    }),
    suc w,
  );
  get_operation = λ _ _ w. (returned operation, suc w);
  get_health = λ _ _ _ _ w. (raised key_error, suc w);
  get_neg = λ _ _ w. (raised key_error, suc w);
}

abbrev settings : Settings
settings = record {
  network = "default";
  resource_prefix = "psm";
  resource_suffix = "1";
  enable_dualstack = false;
  region = some "us-central1";
}

abbrev start : State ℕ
start = record { manager = new_manager settings; world = 0 }

abbrev ended : Outcome Exception (Unit {0}) × State ℕ
ended = setup_for_grpc loop cloud "server" 8080 (some BackendServiceProtocol.grpc) none end start

setup_returns :
    setup_for_grpc loop cloud "server" 8080 (some BackendServiceProtocol.grpc) none end start
    ≡ (returned tt, ended.1)
unfolding setup_for_grpc setup_backend_for_grpc setup_routing_rule_map_for_grpc new_manager
    create_health_check create_backend_service create_url_map create_target_proxy
    create_forwarding_rule Methods.create_health_check
    Methods.create_backend_service_traffic_director Methods.create_url_map_with_content
    Methods.create_target_grpc_proxy Methods.create_forwarding_rule insert_resource execute wait
    operation_retryer operation_status_done get_api_retryer exponential_retryer_with_attempts
    build_retry_conditions region_arg get_field backend_service_body url_map_body loop wants_retry
    asks error_handler
setup_returns = refl

setup_for_grpc-undoing_example :
    (deletions false ended.1.manager ≡ undoing BackendServiceProtocol.grpc settings)
    × All
        (λ d. (r : GcpResource) × Made loop cloud d r)
        (undoing BackendServiceProtocol.grpc settings)
setup_for_grpc-undoing_example =
    setup_for_grpc-undoing loop cloud settings (some BackendServiceProtocol.grpc) "server" 8080 none
      end 0 ended.1 (λ d. cc) setup_returns

cleanup-deletions_example :
    perform loop cloud (deletions true start.manager) 0
    ≡ ((cleanup loop cloud true start).0, (cleanup loop cloud true start).1.world)
cleanup-deletions_example = cleanup-deletions loop cloud true start

abbrev with_maps : State ℕ
with_maps = record {
  manager = record (new_manager settings) {
    url_map = some (record { name = "map"; url = "url" });
    alternative_url_map = some (record { name = "alternative"; url = "url" });
  };
  world = 0;
}

abbrev cleaned : State ℕ
cleaned = (cleanup loop cloud false with_maps).1

cleanup_returns : cleanup loop cloud false with_maps ≡ (returned tt, cleaned)
unfolding cleanup delete_firewall_rules delete_forwarding_rule delete_alternative_forwarding_rule
    delete_target_http_proxy delete_target_grpc_proxy delete_alternative_target_grpc_proxy
    delete_url_map delete_alternative_url_map delete_backend_service
    delete_alternative_backend_service delete_affinity_backend_service delete_health_check
    delete_named new_manager Methods.delete_url_map delete_resource execute wait operation_retryer
    operation_status_done get_api_retryer exponential_retryer_with_attempts build_retry_conditions
    region_arg loop wants_retry asks error_handler
cleanup_returns = refl

cleanup-keeps_alternative_example :
    (cleaned.manager.forwarding_rule ≡ none)
    × (cleaned.manager.alternative_forwarding_rule ≡ none)
    × (cleaned.manager.target_proxy ≡ none)
    × (cleaned.manager.alternative_target_proxy ≡ none)
    × (cleaned.manager.url_map ≡ none)
    × (cleaned.manager.backend_service ≡ none)
    × (cleaned.manager.alternative_backend_service ≡ none)
    × (cleaned.manager.affinity_backend_service ≡ none)
    × (cleaned.manager.health_check ≡ none)
    × (cleaned.manager.ensure_firewall ≡ false)
    × (cleaned.manager.alternative_url_map ≡ with_maps.manager.alternative_url_map)
cleanup-keeps_alternative_example =
    cleanup-keeps_alternative loop cloud false with_maps cleaned cleanup_returns

-- The third port drawn is free.
abbrev searched : State ℕ
searched = (find_unused_forwarding_rule_port loop cloud (λ i. i + 1024) 5 start).1

search_returns :
    find_unused_forwarding_rule_port loop cloud (λ i. i + 1024) 5 start ≡ (returned 1026, searched)
unfolding find_unused_forwarding_rule_port Methods.exists_forwarding_rule exists_resource
    get_api_retryer exponential_retryer_with_attempts build_retry_conditions region_arg loop
    wants_retry asks error_handler new_manager
search_returns = refl

find_unused_forwarding_rule_port-Unused_example :
    Unused loop cloud (λ i. i + 1024) 5 1026 start searched
find_unused_forwarding_rule_port-Unused_example =
    find_unused_forwarding_rule_port-Unused loop cloud (λ i. i + 1024) 5 1026 start searched
      search_returns
