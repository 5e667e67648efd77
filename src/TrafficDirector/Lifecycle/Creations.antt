-- ===== src/TrafficDirector/Lifecycle/Creations.antt =====
-- The resources that each step of `TrafficDirectorManager.setup_for_grpc` makes.
use psm_interop.Common.{◌≡◌, ℕ, refl, String, Bool, true, false, Option, none, some}
use psm_interop.Common.Effects.{returned}
use psm_interop.Common.Json.{get_field}
use psm_interop.Retryers.Tenacity.{Tenacity}
use psm_interop.Gcp.Compute.{
  target_http_proxies, health_checks, region_arg, GcpResource, ComputeApi, HealthCheckProtocol,
  BackendServiceProtocol, http2, unset,
}
use psm_interop.Gcp.Compute.Bodies.{backend_service_body, url_map_body}
use psm_interop.Gcp.Compute.Methods
use psm_interop.TrafficDirector.{State, make_resource_name}
use psm_interop.TrafficDirector.Backends.{
  full_args, create_health_check, create_if_none, create_backend_service, ServiceOptions, or_grpc,
}
use psm_interop.TrafficDirector.Routing.{
  create_url_map, create_target_proxy, create_proxy_of, create_target_proxy_ipv6,
}
use psm_interop.TrafficDirector.Forwarding.{create_forwarding_rule, create_forwarding_rule_ipv6}
use psm_interop.TrafficDirector.Lifecycle.Setup.{
  service_made, rule_made, rule6_made, proxy_made, map_made, deletion, Made, Creates, created,
  created_from, insert_resource-Made,
}

abbrev pub is_http2 : BackendServiceProtocol → Bool
is_http2 http2 = true
is_http2 _ = false

module _ {W : Type 0} (tenacity : Tenacity) (api : ComputeApi W) where
  create_health_check-if_none :
      (protocol : HealthCheckProtocol) (port : Option ℕ) (x : Option GcpResource) (s s' : State W)
      → create_if_none tenacity api protocol port s.manager.settings x s ≡ (returned tt, s')
      → (r : GcpResource) × Made tenacity api
          (deletion health_checks none s.manager.settings "health-check")
          r
        × (s'.manager ≡ record s.manager { health_check = some r })
  unfolding Methods.create_health_check get_field
  create_health_check-if_none protocol port (some x) s s' h = cc
  create_health_check-if_none protocol port none s s' h =
      created tenacity api
        (Methods.create_health_check tenacity api
          (make_resource_name s.manager.settings "health-check") protocol port)
        (deletion health_checks none s.manager.settings "health-check")
        (λ r m. record m { health_check = some r }) (λ _. tt) s s' tt
        (λ w w' r made. insert_resource-Made tenacity api _ _ w w' r refl made) h

  pub create_backend_service-Creates :
      (protocol : Option BackendServiceProtocol) (options : ServiceOptions)
      → Creates tenacity api
          (create_backend_service tenacity api protocol options)
          (λ m. service_made m.settings)
          (λ r m. record m {
            backend_service = some r;
            backend_service_protocol = or_grpc protocol;
          })
  unfolding create_backend_service Methods.create_backend_service_traffic_director
      backend_service_body get_field
  create_backend_service-Creates protocol options s s' a h =
      created tenacity api
        (Methods.create_backend_service_traffic_director tenacity api
          (make_resource_name s.manager.settings "backend-service")
          (full_args s.manager.health_check (or_grpc protocol) s.manager.settings.enable_dualstack
            options)
          s.manager.settings.region)
        (service_made s.manager.settings)
        (λ r m. record m { backend_service = some r; backend_service_protocol = or_grpc protocol })
        (λ _. tt) s s' a (λ w w' r made. insert_resource-Made tenacity api _ _ w w' r refl made) h

  pub create_url_map-Creates :
      (host : String) (port : ℕ)
      → Creates tenacity api
          (create_url_map tenacity api host port)
          (λ m. map_made m.settings)
          (λ r m. record m { url_map = some r })
  unfolding create_url_map Methods.create_url_map_with_content url_map_body get_field
  create_url_map-Creates host port s s' a h =
      created_from tenacity api s.manager.backend_service _ (map_made s.manager.settings)
        (λ r m. record m { url_map = some r }) (λ r. r) s s' a
        (λ v w w' r made. insert_resource-Made tenacity api _ _ w w' r refl made) h

  create_proxy_of-creates :
      (p : BackendServiceProtocol) (s s' : State W)
      → create_proxy_of tenacity api p s.manager.settings s ≡ (returned tt, s')
      → (r : GcpResource) × Made tenacity api (proxy_made p s.manager.settings) r
        × (s'.manager
            ≡ record s.manager { target_proxy = some r; target_proxy_is_http = is_http2 p })
  unfolding Methods.create_target_grpc_proxy Methods.create_target_http_proxy get_field
  create_proxy_of-creates unset s s' h = cc
  create_proxy_of-creates http2 s s' h =
      created_from tenacity api s.manager.url_map _ (proxy_made http2 s.manager.settings)
        (λ r m. record m { target_proxy = some r }) (λ _. tt)
        (record s { manager = record s.manager { target_proxy_is_http = true } }) s' tt
        (λ v w w' r made. insert_resource-Made tenacity api _ _ w w' r refl made) h
  create_proxy_of-creates BackendServiceProtocol.grpc s s' h =
      created_from tenacity api s.manager.url_map _
        (proxy_made BackendServiceProtocol.grpc s.manager.settings)
        (λ r m. record m { target_proxy = some r }) (λ _. tt)
        (record s { manager = record s.manager { target_proxy_is_http = false } }) s' tt
        (λ v w w' r made. insert_resource-Made tenacity api _ _ w w' r refl made) h

  pub create_health_check-Creates :
      (protocol : Option HealthCheckProtocol) (port : Option ℕ)
      → Creates tenacity api
          (create_health_check tenacity api protocol port)
          (λ m. deletion health_checks none m.settings "health-check")
          (λ r m. record m { health_check = some r })
  unfolding create_health_check
  create_health_check-Creates protocol port s s' tt h =
      create_health_check-if_none _ port s.manager.health_check s s' h

  pub create_target_proxy-Creates :
      Creates tenacity api
        (create_target_proxy tenacity api)
        (λ m. proxy_made m.backend_service_protocol m.settings)
        (λ r m. record m {
          target_proxy = some r;
          target_proxy_is_http = is_http2 m.backend_service_protocol;
        })
  unfolding create_target_proxy
  create_target_proxy-Creates s s' tt h =
      create_proxy_of-creates s.manager.backend_service_protocol s s' h

  pub create_target_proxy_ipv6-Creates :
      Creates tenacity api
        (create_target_proxy_ipv6 tenacity api)
        (λ m. deletion target_http_proxies none m.settings "target-proxy-ipv6")
        (λ r m. record m { target_proxy_ipv6 = some r })
  unfolding region_arg create_target_proxy_ipv6 Methods.create_target_http_proxy get_field
  create_target_proxy_ipv6-Creates s s' a h =
      created_from tenacity api s.manager.url_map _
        (deletion target_http_proxies none s.manager.settings "target-proxy-ipv6")
        (λ r m. record m { target_proxy_ipv6 = some r }) (λ _. tt) s s' a
        (λ v w w' r made. insert_resource-Made tenacity api _ _ w w' r refl made) h

  pub create_forwarding_rule-Creates :
      (port : ℕ)
      → Creates tenacity api
          (create_forwarding_rule tenacity api port)
          (λ m. rule_made m.settings)
          (λ r m. record m { forwarding_rule = some r })
  unfolding create_forwarding_rule Methods.create_forwarding_rule get_field
  create_forwarding_rule-Creates port s s' a h =
      created_from tenacity api s.manager.target_proxy _ (rule_made s.manager.settings)
        (λ r m. record m { forwarding_rule = some r }) (λ r. r) s s' a
        (λ v w w' r made. insert_resource-Made tenacity api _ _ w w' r refl made) h

  pub create_forwarding_rule_ipv6-Creates :
      (port : ℕ)
      → Creates tenacity api
          (create_forwarding_rule_ipv6 tenacity api port)
          (λ m. rule6_made m.settings)
          (λ r m. record m { forwarding_rule_ipv6 = some r })
  unfolding create_forwarding_rule_ipv6 Methods.create_forwarding_rule get_field
  create_forwarding_rule_ipv6-Creates port s s' a h =
      created_from tenacity api s.manager.target_proxy_ipv6 _ (rule6_made s.manager.settings)
        (λ r m. record m { forwarding_rule_ipv6 = some r }) (λ r. r) s s' a
        (λ v w w' r made. insert_resource-Made tenacity api _ _ w w' r refl made) h
