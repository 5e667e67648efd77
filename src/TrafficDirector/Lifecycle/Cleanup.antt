-- ===== src/TrafficDirector/Lifecycle/Cleanup.antt =====
-- `TrafficDirectorManager.cleanup`: the requests that it makes, in their order, and the fields that it
-- clears.
use psm_interop.Common.{
  some, ◌≡◌, refl, sym, ap, ◌∙◌, refl, String, Bool, true, false, Option, none, List, [], ◌++◌,
  if◌then◌else◌,
}
use psm_interop.Common.Effects.{returned, pure}
use psm_interop.Retryers.Tenacity.{Tenacity}
use psm_interop.Gcp.Compute.{
  GcpResource, Collection, health_checks, backend_services, region_backend_services, url_maps,
  region_url_maps, target_grpc_proxies, target_http_proxies, region_target_http_proxies,
  forwarding_rules, global_forwarding_rules, ComputeApi, in_region,
}
use psm_interop.TrafficDirector.{Settings, Manager, State, name_to_delete}
use psm_interop.TrafficDirector.Routing.{http_only}
use psm_interop.TrafficDirector.Lifecycle.{cleanup, delete_ipv6, delete_ipv6_if_dualstack}
use psm_interop.TrafficDirector.Lifecycle.Deletions.{
  Deletion, named, perform, Ends, Does, then-Does,
}
use psm_interop.TrafficDirector.Lifecycle.Forgetting.{grpc_left, flag_left, url_map_left}
use psm_interop.TrafficDirector.Lifecycle.FirewallSteps.{
  firewall_left, firewall_requests, delete_firewall_rules-Does,
}
use psm_interop.TrafficDirector.Lifecycle.ServiceSteps.{
  delete_health_check-Does, delete_backend_service-Does, delete_alternative_backend_service-Does,
  delete_affinity_backend_service-Does, delete_url_map-Does, delete_alternative_url_map-Does,
}
use psm_interop.TrafficDirector.Lifecycle.RouteSteps.{
  delete_target_http_proxy-Does, delete_target_grpc_proxy-Does, delete_target_proxy_ipv6-Does,
  delete_alternative_target_grpc_proxy-Does, delete_forwarding_rule-Does,
  delete_forwarding_rule_ipv6-Does, delete_alternative_forwarding_rule-Does,
}

-- A resource with a region of its own kind, or a global one.
abbrev regional :
    (regional global : Collection)
    → Settings
    → (force : Bool) → (name : String) → Option GcpResource
    → List Deletion
regional regional_collection global settings force name r =
    named (in_region settings.region regional_collection global) settings.region
      (name_to_delete force settings name r)

abbrev global :
    Collection → Settings → (force : Bool) → (name : String) → Option GcpResource → List Deletion
global collection settings force name r =
    named collection none (name_to_delete force settings name r)

abbrev ipv6_requests :
    (force dualstack : Bool) → Settings → (rule proxy : Option GcpResource) → List Deletion
ipv6_requests force true settings rule proxy =
    global global_forwarding_rules settings force "forwarding-rule-ipv6" rule
    ++ global target_http_proxies settings force "target-proxy-ipv6" proxy
ipv6_requests force false settings rule proxy = []

-- Everything that is to be deleted, in order.
unfoldable pub deletions : (force : Bool) → Manager → List Deletion
deletions force m =
    firewall_requests force m
    ++ (regional forwarding_rules global_forwarding_rules m.settings force "forwarding-rule"
          m.forwarding_rule
        ++ (global global_forwarding_rules m.settings force "forwarding-rule-alt"
              m.alternative_forwarding_rule
            ++ (regional region_target_http_proxies target_http_proxies m.settings force
                  "target-proxy" (http_only m.target_proxy_is_http m.target_proxy)
                ++ (global target_grpc_proxies m.settings force "target-proxy"
                      (grpc_left force m.target_proxy_is_http m.target_proxy)
                    ++ (ipv6_requests force m.settings.enable_dualstack m.settings
                          m.forwarding_rule_ipv6 m.target_proxy_ipv6
                        ++ (global target_grpc_proxies m.settings force "target-proxy-alt"
                              m.alternative_target_proxy
                            ++ (regional region_url_maps url_maps m.settings force "url-map"
                                  m.url_map
                                ++ (regional region_url_maps url_maps m.settings force "url-map-alt"
                                      m.alternative_url_map
                                    ++ (regional region_backend_services backend_services m.settings
                                          force "backend-service" m.backend_service
                                        ++ (global backend_services m.settings force
                                              "backend-service-alt" m.alternative_backend_service
                                            ++ (global backend_services m.settings force
                                                  "backend-service-affinity"
                                                  m.affinity_backend_service
                                                ++ global health_checks m.settings force
                                                    "health-check" m.health_check)))))))))))

abbrev ipv6_left : Bool → Option GcpResource → Option GcpResource
ipv6_left true r = none
ipv6_left false r = r

-- The manager after a cleanup that returns.
abbrev pub cleared : (force : Bool) → Manager → Manager
cleared force m = record m {
  health_check = none;
  url_map = url_map_left force m.alternative_url_map none;
  firewall_rule = firewall_left m.ensure_firewall m.firewall_rule;
  firewall_rule_ipv6 = firewall_left m.ensure_firewall m.firewall_rule_ipv6;
  target_proxy = none;
  target_proxy_ipv6 = ipv6_left m.settings.enable_dualstack m.target_proxy_ipv6;
  target_proxy_is_http =
      flag_left force (flag_left force m.target_proxy_is_http m.target_proxy)
        (grpc_left force m.target_proxy_is_http m.target_proxy);
  alternative_target_proxy = none;
  forwarding_rule = none;
  forwarding_rule_ipv6 = ipv6_left m.settings.enable_dualstack m.forwarding_rule_ipv6;
  alternative_forwarding_rule = none;
  backend_service = none;
  affinity_backend_service = none;
  alternative_backend_service = none;
  ensure_firewall = false;
}

url_map_left-none :
    (force : Bool) (alternative : Option GcpResource) → url_map_left force alternative none ≡ none
url_map_left-none true alternative = refl
url_map_left-none false none = refl
url_map_left-none false (some r) = refl

module _ {W : Type 0} (tenacity : Tenacity) (api : ComputeApi W) (force : Bool) where
  ipv6-Does :
      (dualstack : Bool) (s : State W)
      → Ends tenacity api
          ((if dualstack then delete_ipv6 tenacity api force else pure tt) s)
          s
          (ipv6_requests force dualstack s.manager.settings s.manager.forwarding_rule_ipv6
            s.manager.target_proxy_ipv6)
          (record s.manager {
            forwarding_rule_ipv6 = ipv6_left dualstack s.manager.forwarding_rule_ipv6;
            target_proxy_ipv6 = ipv6_left dualstack s.manager.target_proxy_ipv6;
          })
  unfolding perform
  ipv6-Does true s =
      then-Does tenacity api _ _ _ _ _ _ (delete_forwarding_rule_ipv6-Does tenacity api force)
        (delete_target_proxy_ipv6-Does tenacity api force) s
  ipv6-Does false s = record { ran = refl; manager = λ h. refl }

  delete_ipv6_if_dualstack-Does :
      Does tenacity api
        (delete_ipv6_if_dualstack tenacity api force)
        (λ m.
          ipv6_requests force m.settings.enable_dualstack m.settings m.forwarding_rule_ipv6
            m.target_proxy_ipv6)
        (λ m. record m {
          forwarding_rule_ipv6 = ipv6_left m.settings.enable_dualstack m.forwarding_rule_ipv6;
          target_proxy_ipv6 = ipv6_left m.settings.enable_dualstack m.target_proxy_ipv6;
        })
  delete_ipv6_if_dualstack-Does s = ipv6-Does s.manager.settings.enable_dualstack s

  pub cleanup-Does :
      Does tenacity api (cleanup tenacity api force) (deletions force) (cleared force)
  unfolding cleanup deletions
  cleanup-Does =
      then-Does tenacity api _ _ _ _ _ _ (delete_firewall_rules-Does tenacity api force) (
        then-Does tenacity api _ _ _ _ _ _ (delete_forwarding_rule-Does tenacity api force) (
          then-Does tenacity api _ _ _ _ _ _
            (delete_alternative_forwarding_rule-Does tenacity api force)
            (then-Does tenacity api _ _ _ _ _ _ (delete_target_http_proxy-Does tenacity api force) (
              then-Does tenacity api _ _ _ _ _ _ (delete_target_grpc_proxy-Does tenacity api force)
                (then-Does tenacity api _ _ _ _ _ _ delete_ipv6_if_dualstack-Does (
                  then-Does tenacity api _ _ _ _ _ _
                    (delete_alternative_target_grpc_proxy-Does tenacity api force)
                    (then-Does tenacity api _ _ _ _ _ _ (delete_url_map-Does tenacity api force) (
                      then-Does tenacity api _ _ _ _ _ _
                        (delete_alternative_url_map-Does tenacity api force)
                        (then-Does tenacity api _ _ _ _ _ _
                          (delete_backend_service-Does tenacity api force)
                          (then-Does tenacity api _ _ _ _ _ _
                            (delete_alternative_backend_service-Does tenacity api force)
                            (then-Does tenacity api _ _ _ _ _ _
                              (delete_affinity_backend_service-Does tenacity api force)
                              (delete_health_check-Does tenacity api force))))))))))))

  -- A cleanup makes exactly the requests of `deletions`, in its order: for the resources that the manager
  -- has, or with force for the names that it gives; it ends as they end, at the first that raises.
  pub cleanup-deletions :
      (s : State W)
      → perform tenacity api (deletions force s.manager) s.world
        ≡ ((cleanup tenacity api force s).0, (cleanup tenacity api force s).1.world)
  cleanup-deletions s = (cleanup-Does s).ran

  -- When a cleanup returns, with or without force, the manager has no health check, backend service of
  -- any kind, URL map, and forwarding rule and target proxy but for the ipv6 ones, and owes no firewall
  -- rule; but it has the alternative URL map that it had before.
  pub cleanup-keeps_alternative :
      (s s' : State W)
      → cleanup tenacity api force s ≡ (returned tt, s')
      → (s'.manager.forwarding_rule ≡ none)
        × (s'.manager.alternative_forwarding_rule ≡ none)
        × (s'.manager.target_proxy ≡ none)
        × (s'.manager.alternative_target_proxy ≡ none)
        × (s'.manager.url_map ≡ none)
        × (s'.manager.backend_service ≡ none)
        × (s'.manager.alternative_backend_service ≡ none)
        × (s'.manager.affinity_backend_service ≡ none)
        × (s'.manager.health_check ≡ none)
        × (s'.manager.ensure_firewall ≡ false)
        × (s'.manager.alternative_url_map ≡ s.manager.alternative_url_map)
  cleanup-keeps_alternative s s' h =
      let e = ap (λ end. end.1.manager) (sym h) ∙ (cleanup-Does s).manager (ap (λ end. end.0) h) in
      (
        ap (λ m. m.forwarding_rule) e,
        ap (λ m. m.alternative_forwarding_rule) e,
        ap (λ m. m.target_proxy) e,
        ap (λ m. m.alternative_target_proxy) e,
        ap (λ m. m.url_map) e ∙ url_map_left-none force s.manager.alternative_url_map,
        ap (λ m. m.backend_service) e,
        ap (λ m. m.alternative_backend_service) e,
        ap (λ m. m.affinity_backend_service) e,
        ap (λ m. m.health_check) e,
        ap (λ m. m.ensure_firewall) e,
        ap (λ m. m.alternative_url_map) e,
      )
