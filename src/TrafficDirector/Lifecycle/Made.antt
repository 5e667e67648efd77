-- ===== src/TrafficDirector/Lifecycle/Made.antt =====
-- What a cleanup without force has to delete of the resources that `setup_for_grpc`, framework/
-- infrastructure/traffic_director.py, makes.
use psm_interop.TrafficDirector.Lifecycle.Setup.{
  service_made, map_made, proxy_made, deletion, rule_made, rule6_made,
}
use psm_interop.Common.{
  map, All, ◌≡◌, refl, Bool, true, false, Option, none, some, List, [], ◌∷◌, ◌++◌,
}
use psm_interop.Gcp.Compute.{
  GcpResource, health_checks, target_http_proxies, region_arg, BackendServiceProtocol, http2, unset,
}
use psm_interop.TrafficDirector.{Settings, Manager, make_resource_name, new_manager}
use psm_interop.TrafficDirector.Lifecycle.Deletions.{Deletion}
use psm_interop.TrafficDirector.Lifecycle.Cleanup.{deletions}
use psm_interop.TrafficDirector.Lifecycle.Creations.{is_http2}

-- The ipv6 proxy and rule, as `setup_routing_rule_map_for_grpc` makes them.
abbrev pub ipv6_made : Bool → Settings → List Deletion
ipv6_made true settings =
    rule6_made settings ∷ deletion target_http_proxies none settings "target-proxy-ipv6" ∷ []
ipv6_made false settings = []

-- The resources that are made under these settings: the forwarding rules and proxies, the URL map, the
-- backend service, the health check.
unfoldable pub undoing : BackendServiceProtocol → Settings → List Deletion
undoing protocol settings =
    rule_made settings
    ∷ proxy_made protocol settings
    ∷ (ipv6_made settings.enable_dualstack settings
        ++ (map_made settings
            ∷ service_made settings
            ∷ deletion health_checks none settings "health-check"
            ∷ []))

All-append :
    (P : Deletion → Type 0) (xs ys : List Deletion) → All P xs → All P ys → All P (xs ++ ys)
All-append P [] ys h k = k
All-append P (x ∷ xs) ys h k = (h.0, All-append P xs ys h.1 k)

pub undoing-All :
    (P : Deletion → Type 0) (p : BackendServiceProtocol) (settings : Settings)
    → P (rule_made settings)
    → P (proxy_made p settings)
    → All P (ipv6_made settings.enable_dualstack settings)
    → P (map_made settings)
    → P (service_made settings)
    → P (deletion health_checks none settings "health-check")
    → All P (undoing p settings)
unfolding undoing
undoing-All P p settings rule proxy ipv6 map service check = (
  rule,
  (
    proxy,
    All-append P (ipv6_made settings.enable_dualstack settings) _ ipv6
        (map, (service, (check, tt))),
  ),
)

-- The manager that has made these resources.
abbrev pub with_resources :
    BackendServiceProtocol
    → Settings
    → (check service map proxy rule : GcpResource) → (proxy6 rule6 : Option GcpResource) → Manager
with_resources p settings check service map proxy rule proxy6 rule6 =
    record (new_manager settings) {
      health_check = some check;
      backend_service = some service;
      backend_service_protocol = p;
      url_map = some map;
      target_proxy = some proxy;
      target_proxy_is_http = is_http2 p;
      forwarding_rule = some rule;
      target_proxy_ipv6 = proxy6;
      forwarding_rule_ipv6 = rule6;
    }

pub deletions-with_resources :
    (p : BackendServiceProtocol) (settings : Settings) (check service map proxy rule : GcpResource)
    (proxy6 rule6 : Option GcpResource)
    → check.name ≡ make_resource_name settings "health-check"
    → service.name ≡ make_resource_name settings "backend-service"
    → map.name ≡ make_resource_name settings "url-map"
    → proxy.name ≡ make_resource_name settings "target-proxy"
    → rule.name ≡ make_resource_name settings "forwarding-rule"
    → settings.enable_dualstack ≡ false
    → deletions false (with_resources p settings check service map proxy rule proxy6 rule6)
      ≡ undoing p settings
unfolding deletions undoing new_manager
deletions-with_resources http2 settings check service map proxy rule proxy6 rule6 n1 n2 n3 n4 n5 d =
    rw n1 (rw n2 (rw n3 (rw n4 (rw n5 (rw d refl)))))
deletions-with_resources unset settings check service map proxy rule proxy6 rule6 n1 n2 n3 n4 n5 d =
    rw n1 (rw n2 (rw n3 (rw n4 (rw n5 (rw d refl)))))
deletions-with_resources BackendServiceProtocol.grpc settings check service map proxy rule proxy6
      rule6 n1 n2 n3 n4 n5 d =
    rw n1 (rw n2 (rw n3 (rw n4 (rw n5 (rw d refl)))))

pub deletions-with_ipv6 :
    (p : BackendServiceProtocol) (settings : Settings)
    (check service map proxy rule proxy6 rule6 : GcpResource)
    → check.name ≡ make_resource_name settings "health-check"
    → service.name ≡ make_resource_name settings "backend-service"
    → map.name ≡ make_resource_name settings "url-map"
    → proxy.name ≡ make_resource_name settings "target-proxy"
    → rule.name ≡ make_resource_name settings "forwarding-rule"
    → proxy6.name ≡ make_resource_name settings "target-proxy-ipv6"
    → rule6.name ≡ make_resource_name settings "forwarding-rule-ipv6"
    → settings.enable_dualstack ≡ true
    → settings.region ≡ none
    → deletions false
        (with_resources p settings check service map proxy rule (some proxy6) (some rule6))
      ≡ undoing p settings
unfolding deletions undoing new_manager region_arg
deletions-with_ipv6 http2 settings check service map proxy rule proxy6 rule6 n1 n2 n3 n4 n5 n6 n7 d
      e =
    rw n1 (rw n2 (rw n3 (rw n4 (rw n5 (rw n6 (rw n7 (rw d (rw e refl))))))))
deletions-with_ipv6 unset settings check service map proxy rule proxy6 rule6 n1 n2 n3 n4 n5 n6 n7 d
      e =
    rw n1 (rw n2 (rw n3 (rw n4 (rw n5 (rw n6 (rw n7 (rw d (rw e refl))))))))
deletions-with_ipv6 BackendServiceProtocol.grpc settings check service map proxy rule proxy6 rule6
      n1 n2 n3 n4 n5 n6 n7 d e =
    rw n1 (rw n2 (rw n3 (rw n4 (rw n5 (rw n6 (rw n7 (rw d (rw e refl))))))))
