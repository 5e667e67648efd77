-- ===== src/TrafficDirector/Firewall.antt =====
-- framework/infrastructure/traffic_director.py: the firewall rules. Here the rule that the manager has
-- goes before the name that force gives.
use psm_interop.Common.{String, Bool, true, false, Option, none, some, List, str_eq, if◌then◌else◌}
use psm_interop.Common.Effects.{pure, catch, ◌>>=◌, ◌>>◌}
use psm_interop.Common.Json.{str}
use psm_interop.Retryers.Tenacity.{Tenacity}
use psm_interop.Gcp.Compute.{GcpResource, ComputeApi, not_deleted}
use psm_interop.Gcp.Compute.Methods
use psm_interop.TrafficDirector.{
  Settings, Manager, Method, cloud, self, update, make_resource_name, network_url,
}

abbrev pub name_of : (force : Bool) → Settings → String → Option GcpResource → Option String
name_of force settings name (some rule) = some rule.name
name_of true settings name none = some (make_resource_name settings name)
name_of false settings name none = none

module _ {W : Type 0} (tenacity : Tenacity) (api : ComputeApi W) where
  unfoldable pub create_one :
      String
      → (source_range : String) → (allowed_ports : List String) → Method W (Option GcpResource)
  create_one name source_range allowed_ports = do
    m ← self
    cloud (
        Methods.create_firewall_rule tenacity api name (network_url m.settings) (str source_range)
          allowed_ports)

  abbrev create_ipv4 : (allowed_ports : List String) → (source_range : String) → Method W (Unit {0})
  create_ipv4 allowed_ports source_range = do
    m ← self
    rule ←
        create_one (make_resource_name m.settings "allow-health-checks") source_range allowed_ports
    update (λ m'. record m' { firewall_rule = rule; ensure_firewall = true })

  abbrev create_ipv6 : (allowed_ports : List String) → (source_range : String) → Method W (Unit {0})
  create_ipv6 allowed_ports source_range = do
    m ← self
    rule ←
        create_one (make_resource_name m.settings "allow-health-checks-ipv6") source_range
          allowed_ports
    update (λ m'. record m' { firewall_rule_ipv6 = rule; ensure_firewall = true })

  unfoldable pub create_firewall_rules :
      (allowed_ports : List String)
      → (source_range source_range_ipv6 : String) → Method W (Unit {0})
  create_firewall_rules allowed_ports source_range source_range_ipv6 = do
    if str_eq source_range "" then pure tt else create_ipv4 allowed_ports source_range
    if str_eq source_range_ipv6 "" then pure tt else create_ipv6 allowed_ports source_range_ipv6

  -- `_delete_firewall_rule`: the errors of googleapiclient that it catches are HttpError here.
  unfoldable pub delete_one : String → Method W Bool
  delete_one name =
      cloud (catch (do Methods.delete_firewall_rule tenacity api name; pure true) not_deleted)

  abbrev pub delete_if_named : Option String → (forget : Manager → Manager) → Method W (Unit {0})
  delete_if_named none forget = pure tt
  delete_if_named (some name) forget = do
    deleted ← delete_one name
    update (λ m. if deleted then forget m else m)

  unfoldable pub delete_firewall_rule : (force : Bool) → Method W (Unit {0})
  delete_firewall_rule force = do
    m ← self
    delete_if_named (name_of force m.settings "allow-health-checks" m.firewall_rule)
        (λ m'. record m' { firewall_rule = none })

  unfoldable pub delete_firewall_rule_ipv6 : (force : Bool) → Method W (Unit {0})
  delete_firewall_rule_ipv6 force = do
    m ← self
    delete_if_named (name_of force m.settings "allow-health-checks-ipv6" m.firewall_rule_ipv6)
        (λ m'. record m' { firewall_rule_ipv6 = none })

  abbrev pub delete_both : (force : Bool) → Method W (Unit {0})
  delete_both force = do
    delete_firewall_rule force
    delete_firewall_rule_ipv6 force
    update (λ m. record m { ensure_firewall = false })

  unfoldable pub delete_firewall_rules : (force : Bool) → Method W (Unit {0})
  delete_firewall_rules force = do
    m ← self
    if m.ensure_firewall then delete_both force else pure tt
