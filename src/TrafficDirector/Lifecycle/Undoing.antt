-- ===== src/TrafficDirector/Lifecycle/Undoing.antt =====
-- What a cleanup without force has to delete after `setup_for_grpc`, framework/infrastructure/
-- traffic_director.py, on a new manager.
use psm_interop.TrafficDirector.Lifecycle.Deletions.{Deletion}
use psm_interop.Common.{
  All, subst, ◌≡◌, ℕ, sym, ap, ◌∙◌, String, Bool, true, false, Option, none, some, if◌then◌else◌,
}
use psm_interop.Common.Effects.{returned, pure, bind-returned, ◌>>=◌, ◌>>◌}
use psm_interop.Common.Json.{Fields, end, nil}
use psm_interop.Retryers.Tenacity.{Tenacity}
use psm_interop.Gcp.Compute.{
  health_checks, GcpResource, ComputeApi, BackendServiceProtocol, HealthCheckProtocol,
}
use psm_interop.TrafficDirector.{Settings, State, self, new_manager}
use psm_interop.TrafficDirector.Backends.{
  create_health_check, create_backend_service, ServiceOptions, or_grpc,
}
use psm_interop.TrafficDirector.Routing.{
  create_url_map, create_target_proxy, create_target_proxy_ipv6,
}
use psm_interop.TrafficDirector.Forwarding.{create_forwarding_rule, create_forwarding_rule_ipv6}
use psm_interop.TrafficDirector.Lifecycle.{
  setup_backend_for_grpc, setup_routing_rule_map_for_grpc, setup_for_grpc, setup_ipv6,
}
use psm_interop.TrafficDirector.Lifecycle.Cleanup.{deletions}
use psm_interop.TrafficDirector.Lifecycle.Setup.{
  Made, Made-name, deletion, service_made, map_made, proxy_made, proxy_made-name, rule_made,
  from_manager,
}
use psm_interop.TrafficDirector.Lifecycle.Creations.{
  create_health_check-Creates, create_backend_service-Creates, create_url_map-Creates,
  create_target_proxy-Creates, create_target_proxy_ipv6-Creates, create_forwarding_rule-Creates,
  create_forwarding_rule_ipv6-Creates,
}
use psm_interop.TrafficDirector.Lifecycle.Made.{
  undoing, undoing-All, ipv6_made, with_resources, deletions-with_resources, deletions-with_ipv6,
}

module _ {W : Type 0} (tenacity : Tenacity) (api : ComputeApi W) (settings : Settings)
    (protocol : Option BackendServiceProtocol) (host : String) (port : ℕ) where
  abbrev options : Fields → ServiceOptions
  options security_settings = record {
    subset_size = 0;
    affinity_header = none;
    locality_lb_policies = nil;
    outlier_detection = end;
    security_settings = security_settings;
  }

  abbrev IsMade : Deletion → Type 0
  IsMade d = (r : GcpResource) × Made tenacity api d r

  abbrev Undoes : State W → Type 0
  Undoes s' =
      (deletions false s'.manager ≡ undoing (or_grpc protocol) settings)
      × All IsMade (undoing (or_grpc protocol) settings)

  -- The last step of the setup.
  finish :
      (check service map proxy rule : GcpResource) (dualstack : Bool) (t s' : State W)
      → Made tenacity api (deletion health_checks none settings "health-check") check
      → Made tenacity api (service_made settings) service
      → Made tenacity api (map_made settings) map
      → Made tenacity api (proxy_made (or_grpc protocol) settings) proxy
      → Made tenacity api (rule_made settings) rule
      → t.manager
        ≡ with_resources (or_grpc protocol) settings check service map proxy rule none none
      → settings.enable_dualstack ≡ dualstack
      → (settings.enable_dualstack ≡ true → settings.region ≡ none)
      → (if dualstack then setup_ipv6 tenacity api port else pure tt) t ≡ (returned tt, s')
      → Undoes s'
  unfolding new_manager
  finish check service map proxy rule false t s' m1 m2 m3 m4 m5 e d global h = (
    ap (deletions false) (ap (λ end. end.1.manager) (sym h) ∙ e)
        ∙ deletions-with_resources (or_grpc protocol) settings check service map proxy rule none
            none (Made-name tenacity api _ check m1) (Made-name tenacity api _ service m2)
            (Made-name tenacity api _ map m3)
            (Made-name tenacity api (proxy_made (or_grpc protocol) settings) proxy m4
              ∙ proxy_made-name (or_grpc protocol) settings)
            (Made-name tenacity api _ rule m5) d,
    undoing-All IsMade (or_grpc protocol) settings (rule, m5) (proxy, m4)
        (subst (λ b. All IsMade (ipv6_made b settings)) (sym d) tt) (map, m3) (service, m2)
        (check, m1),
  )
  finish check service map proxy rule true t s' m1 m2 m3 m4 m5 e d global h =
      let (u6, t6, h6, rest) =
        bind-returned (create_target_proxy_ipv6 tenacity api)
          (λ _. (do create_forwarding_rule_ipv6 tenacity api port; pure tt)) t s' tt h in
      let (u7, t7, h7, rest') =
        bind-returned (create_forwarding_rule_ipv6 tenacity api port) (λ _. pure tt) t6 s' tt
          rest in
      let (proxy6, m6, e6) =
        from_manager tenacity api (create_target_proxy_ipv6 tenacity api) _ _ _ t t6 u6
          (create_target_proxy_ipv6-Creates tenacity api) e h6 in
      let (rule6, m7, e7) =
        from_manager tenacity api (create_forwarding_rule_ipv6 tenacity api port) _ _ _ t6 t7 u7
          (create_forwarding_rule_ipv6-Creates tenacity api port) e6 h7 in
      (
        ap (deletions false) (ap (λ end. end.1.manager) (sym rest') ∙ e7)
            ∙ deletions-with_ipv6 (or_grpc protocol) settings check service map proxy rule proxy6
                rule6 (Made-name tenacity api _ check m1) (Made-name tenacity api _ service m2)
                (Made-name tenacity api _ map m3)
                (Made-name tenacity api (proxy_made (or_grpc protocol) settings) proxy m4
                  ∙ proxy_made-name (or_grpc protocol) settings)
                (Made-name tenacity api _ rule m5) (Made-name tenacity api _ proxy6 m6)
                (Made-name tenacity api _ rule6 m7) d (global d),
        undoing-All IsMade (or_grpc protocol) settings (rule, m5) (proxy, m4)
            (subst (λ b. All IsMade (ipv6_made b settings)) (sym d)
              ((rule6, m7), ((proxy6, m6), tt)))
            (map, m3) (service, m2) (check, m1),
      )

  -- After a setup of a new manager that returns, what a cleanup without force has to delete is the list
  -- `undoing` of these settings, by collection, region and name, and each entry of it is a resource that an
  -- insertion in this collection and region, with this name in its body, has returned; with dualstack this is
  -- stated for a manager without a region.
  pub setup_for_grpc-undoing :
      (health_check_port : Option ℕ) (security_settings : Fields) (w : W) (s' : State W)
      → (settings.enable_dualstack ≡ true → settings.region ≡ none)
      → setup_for_grpc tenacity api host port protocol health_check_port security_settings
          (record { manager = new_manager settings; world = w })
        ≡ (returned tt, s')
      → (deletions false s'.manager ≡ undoing (or_grpc protocol) settings)
        × All (λ d. (r : GcpResource) × Made tenacity api d r) (undoing (or_grpc protocol) settings)
  unfolding setup_for_grpc setup_backend_for_grpc setup_routing_rule_map_for_grpc new_manager
  setup_for_grpc-undoing health_check_port security_settings w s' global h =
      let s0 : State W = record { manager = new_manager settings; world = w } in
      let (u2, t2, backend, routing) =
        bind-returned
          (setup_backend_for_grpc tenacity api protocol health_check_port security_settings)
          (λ _. setup_routing_rule_map_for_grpc tenacity api host port) s0 s' tt h in
      let (u1, t1, h1, h2) =
        bind-returned
          (create_health_check tenacity api (some HealthCheckProtocol.grpc) health_check_port)
          (λ _. create_backend_service tenacity api protocol (options security_settings)) s0 t2 u2
          backend in
      let (u3, t3, h3, rest3) =
        bind-returned (create_url_map tenacity api host port)
          (λ _. (do
            create_target_proxy tenacity api
            create_forwarding_rule tenacity api port
            m ← self
            if m.settings.enable_dualstack then setup_ipv6 tenacity api port else pure tt))
          t2 s' tt routing in
      let (u4, t4, h4, rest4) =
        bind-returned (create_target_proxy tenacity api)
          (λ _. (do
            create_forwarding_rule tenacity api port
            m ← self
            if m.settings.enable_dualstack then setup_ipv6 tenacity api port else pure tt))
          t3 s' tt rest3 in
      let (u5, t5, h5, rest5) =
        bind-returned (create_forwarding_rule tenacity api port)
          (λ _. (do
            m ← self
            if m.settings.enable_dualstack then setup_ipv6 tenacity api port else pure tt))
          t4 s' tt rest4 in
      let (check, m1, e1) =
        create_health_check-Creates tenacity api (some HealthCheckProtocol.grpc) health_check_port
          s0 t1 u1 h1 in
      let (service, m2, e2) =
        from_manager tenacity api
          (create_backend_service tenacity api protocol (options security_settings)) _ _ _ t1 t2 u2
          (create_backend_service-Creates tenacity api protocol (options security_settings)) e1
          h2 in
      let (map, m3, e3) =
        from_manager tenacity api (create_url_map tenacity api host port) _ _ _ t2 t3 u3
          (create_url_map-Creates tenacity api host port) e2 h3 in
      let (proxy, m4, e4) =
        from_manager tenacity api (create_target_proxy tenacity api) _ _ _ t3 t4 u4
          (create_target_proxy-Creates tenacity api) e3 h4 in
      let (rule, m5, e5) =
        from_manager tenacity api (create_forwarding_rule tenacity api port) _ _ _ t4 t5 u5
          (create_forwarding_rule-Creates tenacity api port) e4 h5 in
      finish check service map proxy rule t5.manager.settings.enable_dualstack t5 s' m1 m2 m3 m4 m5
        e5 (sym (ap (λ m. m.settings.enable_dualstack) e5)) global rest5
