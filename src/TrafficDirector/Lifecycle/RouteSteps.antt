-- ===== src/TrafficDirector/Lifecycle/RouteSteps.antt =====
-- The requests that `TrafficDirectorManager` makes to delete the target proxies and the forwarding rules,
-- and what it does to its fields.
use psm_interop.Common.{refl, Bool, none}
use psm_interop.Retryers.Tenacity.{Tenacity}
use psm_interop.Gcp.Compute.{
  region_arg, target_grpc_proxies, target_http_proxies, region_target_http_proxies,
  forwarding_rules, global_forwarding_rules, ComputeApi, in_region,
}
use psm_interop.Gcp.Compute.Methods
use psm_interop.TrafficDirector.{name_to_delete}
use psm_interop.TrafficDirector.Routing.{
  delete_target_grpc_proxy, delete_target_http_proxy, delete_target_proxy_ipv6,
  delete_alternative_target_grpc_proxy, http_only, forget_proxy,
}
use psm_interop.TrafficDirector.Forwarding.{
  delete_forwarding_rule, delete_forwarding_rule_ipv6, delete_alternative_forwarding_rule,
}
use psm_interop.TrafficDirector.Lifecycle.Deletions.{named, Does, delete_named-Ends}
use psm_interop.TrafficDirector.Lifecycle.Forgetting.{
  forget_if_set, forget_http, forget_grpc, grpc_left, flag_left,
}

module _ {W : Type 0} (tenacity : Tenacity) (api : ComputeApi W) (force : Bool) where
  pub delete_target_http_proxy-Does :
      Does tenacity api
        (delete_target_http_proxy tenacity api force)
        (λ m.
          named
            (in_region m.settings.region region_target_http_proxies target_http_proxies)
            m.settings.region
            (name_to_delete force m.settings "target-proxy"
              (http_only m.target_proxy_is_http m.target_proxy)))
        (λ m. record m {
          target_proxy = grpc_left force m.target_proxy_is_http m.target_proxy;
          target_proxy_is_http = flag_left force m.target_proxy_is_http m.target_proxy;
        })
  unfolding delete_target_http_proxy Methods.delete_target_http_proxy
  delete_target_http_proxy-Does s =
      let m = s.manager in
      delete_named-Ends tenacity api
        (name_to_delete force m.settings "target-proxy"
          (http_only m.target_proxy_is_http m.target_proxy))
        (in_region m.settings.region region_target_http_proxies target_http_proxies)
        m.settings.region forget_proxy _ s
        (forget_http force m.target_proxy_is_http m.settings "target-proxy"
          (λ v b. record m { target_proxy = v; target_proxy_is_http = b }) forget_proxy
          m.target_proxy (λ _ _. refl))

  pub delete_target_grpc_proxy-Does :
      Does tenacity api
        (delete_target_grpc_proxy tenacity api force)
        (λ m.
          named
            (target_grpc_proxies)
            none
            (name_to_delete force m.settings "target-proxy" (m.target_proxy)))
        (λ m. record m {
          target_proxy = none;
          target_proxy_is_http = flag_left force m.target_proxy_is_http m.target_proxy;
        })
  unfolding delete_target_grpc_proxy Methods.delete_target_grpc_proxy
  delete_target_grpc_proxy-Does s =
      let m = s.manager in
      delete_named-Ends tenacity api
        (name_to_delete force m.settings "target-proxy" (m.target_proxy)) (target_grpc_proxies) none
        forget_proxy _ s
        (forget_grpc force m.target_proxy_is_http m.settings "target-proxy"
          (λ v b. record m { target_proxy = v; target_proxy_is_http = b }) forget_proxy
          m.target_proxy (λ _ _. refl))

  pub delete_target_proxy_ipv6-Does :
      Does tenacity api
        (delete_target_proxy_ipv6 tenacity api force)
        (λ m.
          named target_http_proxies none
            (name_to_delete force m.settings "target-proxy-ipv6" (m.target_proxy_ipv6)))
        (λ m. record m { target_proxy_ipv6 = none })
  unfolding delete_target_proxy_ipv6 Methods.delete_target_http_proxy region_arg
  delete_target_proxy_ipv6-Does s =
      let m = s.manager in
      delete_named-Ends tenacity api
        (name_to_delete force m.settings "target-proxy-ipv6" (m.target_proxy_ipv6))
        target_http_proxies none (λ m'. record m' { target_proxy_ipv6 = none }) _ s
        (forget_if_set force m.settings "target-proxy-ipv6"
          (λ v. record m { target_proxy_ipv6 = v }) (λ m'. record m' { target_proxy_ipv6 = none })
          m.target_proxy_ipv6 (λ _. refl))

  pub delete_alternative_target_grpc_proxy-Does :
      Does tenacity api
        (delete_alternative_target_grpc_proxy tenacity api force)
        (λ m.
          named
            (target_grpc_proxies)
            none
            (name_to_delete force m.settings "target-proxy-alt" (m.alternative_target_proxy)))
        (λ m. record m { alternative_target_proxy = none })
  unfolding delete_alternative_target_grpc_proxy Methods.delete_target_grpc_proxy
  delete_alternative_target_grpc_proxy-Does s =
      let m = s.manager in
      delete_named-Ends tenacity api
        (name_to_delete force m.settings "target-proxy-alt" (m.alternative_target_proxy))
        (target_grpc_proxies) none (λ m'. record m' { alternative_target_proxy = none }) _ s
        (forget_if_set force m.settings "target-proxy-alt"
          (λ v. record m { alternative_target_proxy = v })
          (λ m'. record m' { alternative_target_proxy = none }) m.alternative_target_proxy
          (λ _. refl))

  pub delete_forwarding_rule-Does :
      Does tenacity api
        (delete_forwarding_rule tenacity api force)
        (λ m.
          named
            (in_region m.settings.region forwarding_rules global_forwarding_rules)
            m.settings.region
            (name_to_delete force m.settings "forwarding-rule" (m.forwarding_rule)))
        (λ m. record m { forwarding_rule = none })
  unfolding delete_forwarding_rule Methods.delete_forwarding_rule
  delete_forwarding_rule-Does s =
      let m = s.manager in
      delete_named-Ends tenacity api
        (name_to_delete force m.settings "forwarding-rule" (m.forwarding_rule))
        (in_region m.settings.region forwarding_rules global_forwarding_rules) m.settings.region
        (λ m'. record m' { forwarding_rule = none }) _ s
        (forget_if_set force m.settings "forwarding-rule" (λ v. record m { forwarding_rule = v })
          (λ m'. record m' { forwarding_rule = none }) m.forwarding_rule (λ _. refl))

  pub delete_forwarding_rule_ipv6-Does :
      Does tenacity api
        (delete_forwarding_rule_ipv6 tenacity api force)
        (λ m.
          named global_forwarding_rules none
            (name_to_delete force m.settings "forwarding-rule-ipv6" (m.forwarding_rule_ipv6)))
        (λ m. record m { forwarding_rule_ipv6 = none })
  unfolding delete_forwarding_rule_ipv6 Methods.delete_forwarding_rule region_arg
  delete_forwarding_rule_ipv6-Does s =
      let m = s.manager in
      delete_named-Ends tenacity api
        (name_to_delete force m.settings "forwarding-rule-ipv6" (m.forwarding_rule_ipv6))
        global_forwarding_rules none (λ m'. record m' { forwarding_rule_ipv6 = none }) _ s
        (forget_if_set force m.settings "forwarding-rule-ipv6"
          (λ v. record m { forwarding_rule_ipv6 = v })
          (λ m'. record m' { forwarding_rule_ipv6 = none }) m.forwarding_rule_ipv6 (λ _. refl))

  pub delete_alternative_forwarding_rule-Does :
      Does tenacity api
        (delete_alternative_forwarding_rule tenacity api force)
        (λ m.
          named global_forwarding_rules none
            (name_to_delete force m.settings "forwarding-rule-alt" (m.alternative_forwarding_rule)))
        (λ m. record m { alternative_forwarding_rule = none })
  unfolding delete_alternative_forwarding_rule Methods.delete_forwarding_rule region_arg
  delete_alternative_forwarding_rule-Does s =
      let m = s.manager in
      delete_named-Ends tenacity api
        (name_to_delete force m.settings "forwarding-rule-alt" (m.alternative_forwarding_rule))
        global_forwarding_rules none (λ m'. record m' { alternative_forwarding_rule = none }) _ s
        (forget_if_set force m.settings "forwarding-rule-alt"
          (λ v. record m { alternative_forwarding_rule = v })
          (λ m'. record m' { alternative_forwarding_rule = none }) m.alternative_forwarding_rule
          (λ _. refl))
