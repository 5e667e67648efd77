-- ===== src/TrafficDirector/Forwarding.antt =====
-- framework/infrastructure/traffic_director.py: the forwarding rules, and the search for a free port.
use psm_interop.Common.{ℕ, zero, suc, String, Bool, none, some, if◌then◌else◌}
use psm_interop.Common.Effects.{returned, pure, throw, ◌>>=◌, ◌>>◌}
use psm_interop.Common.Decimal.{decimal}
use psm_interop.Errors.{runtime_error}
use psm_interop.Retryers.Tenacity.{Tenacity}
use psm_interop.Gcp.Compute.{GcpResource, ComputeApi}
use psm_interop.Gcp.Compute.Methods
use psm_interop.TrafficDirector.{
  Method, cloud, self, update, the, make_resource_name, network_url, name_to_delete, delete_named,
}

module _ {W : Type 0} (tenacity : Tenacity) (api : ComputeApi W) where
  -- What `random.randint` draws is given: the port of each attempt that is left.
  unfoldable pub find_unused_forwarding_rule_port : (draw : ℕ → ℕ) → (attempts : ℕ) → Method W ℕ
  find_unused_forwarding_rule_port draw zero = throw runtime_error
  find_unused_forwarding_rule_port draw (suc attempts) = do
    m ← self
    exists ←
        cloud
          (Methods.exists_forwarding_rule tenacity api (decimal (draw attempts)) m.settings.region)
    (λ s.
        let rest = find_unused_forwarding_rule_port draw attempts s in
        if exists then rest else (returned (draw attempts), s))

  unfoldable pub create_forwarding_rule : (src_port : ℕ) → Method W GcpResource
  create_forwarding_rule src_port = do
    m ← self
    target_proxy ← the m.target_proxy
    resource ← cloud (
        Methods.create_forwarding_rule tenacity api
          (make_resource_name m.settings "forwarding-rule") src_port target_proxy
          (network_url m.settings) "0.0.0.0" m.settings.region)
    update (λ m'. record m' { forwarding_rule = some resource })
    pure resource

  unfoldable pub create_forwarding_rule_ipv6 : (src_port : ℕ) → Method W GcpResource
  create_forwarding_rule_ipv6 src_port = do
    m ← self
    target_proxy ← the m.target_proxy_ipv6
    resource ← cloud (
        Methods.create_forwarding_rule tenacity api
          (make_resource_name m.settings "forwarding-rule-ipv6") src_port target_proxy
          (network_url m.settings) "::" m.settings.region)
    update (λ m'. record m' { forwarding_rule_ipv6 = some resource })
    pure resource

  unfoldable pub delete_forwarding_rule : (force : Bool) → Method W (Unit {0})
  delete_forwarding_rule force = do
    m ← self
    delete_named (name_to_delete force m.settings "forwarding-rule" m.forwarding_rule)
        (λ name. Methods.delete_forwarding_rule tenacity api name m.settings.region)
        (λ m'. record m' { forwarding_rule = none })

  -- No region is given.
  unfoldable pub delete_forwarding_rule_ipv6 : (force : Bool) → Method W (Unit {0})
  delete_forwarding_rule_ipv6 force = do
    m ← self
    delete_named (name_to_delete force m.settings "forwarding-rule-ipv6" m.forwarding_rule_ipv6)
        (λ name. Methods.delete_forwarding_rule tenacity api name none)
        (λ m'. record m' { forwarding_rule_ipv6 = none })

  unfoldable pub create_alternative_forwarding_rule :
      (src_port : ℕ) → (ip_address : String) → Method W GcpResource
  create_alternative_forwarding_rule src_port ip_address = do
    m ← self
    target_proxy ← the m.alternative_target_proxy
    resource ← cloud (
        Methods.create_forwarding_rule tenacity api
          (make_resource_name m.settings "forwarding-rule-alt") src_port target_proxy
          (network_url m.settings) ip_address none)
    update (λ m'. record m' { alternative_forwarding_rule = some resource })
    pure resource

  unfoldable pub delete_alternative_forwarding_rule : (force : Bool) → Method W (Unit {0})
  delete_alternative_forwarding_rule force = do
    m ← self
    delete_named
        (name_to_delete force m.settings "forwarding-rule-alt" m.alternative_forwarding_rule)
        (λ name. Methods.delete_forwarding_rule tenacity api name none)
        (λ m'. record m' { alternative_forwarding_rule = none })
