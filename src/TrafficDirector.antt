-- ===== src/TrafficDirector.antt =====
-- framework/infrastructure/traffic_director.py: TrafficDirectorManager, its state and how its methods
-- work on it. An optional text that is only tested and printed is "" for None.
pub mod Backends
pub mod OtherBackends
pub mod Routing
pub mod Forwarding
pub mod Ports
pub mod Firewall
pub mod Lifecycle
pub mod Extended
pub mod Secure
pub mod AppNet
pub mod Meshes
use Prim.Native.String.{◌++◌}
use psm_interop.Common.{
  ℕ, String, Bool, true, false, Option, none, some, List, [], ◌∷◌, str_eq, if◌then◌else◌,
}
use psm_interop.Common.Effects.{Outcome, returned, raised, Effect, pure, throw, ◌>>=◌, ◌>>◌}
use psm_interop.Errors.{Exception, attribute_error}
use psm_interop.Gcp.Compute.{GcpResource, Neg, BackendServiceProtocol, unset}

-- The settings, which no method changes.
pub record Settings : Type 0 where
  pub network : String
  pub resource_prefix : String
  pub resource_suffix : String
  pub enable_dualstack : Bool
  pub region : Option String

pub record Manager : Type 0 where
  pub settings : Settings
  pub health_check : Option GcpResource
  pub url_map : Option GcpResource
  pub alternative_url_map : Option GcpResource
  pub firewall_rule : Option GcpResource
  pub firewall_rule_ipv6 : Option GcpResource
  pub target_proxy : Option GcpResource
  pub target_proxy_ipv6 : Option GcpResource
  pub target_proxy_is_http : Bool
  pub alternative_target_proxy : Option GcpResource
  pub forwarding_rule : Option GcpResource
  pub forwarding_rule_ipv6 : Option GcpResource
  pub alternative_forwarding_rule : Option GcpResource
  pub backend_service : Option GcpResource
  pub affinity_backend_service : Option GcpResource
  pub alternative_backend_service : Option GcpResource
  pub backend_service_protocol : BackendServiceProtocol
  pub affinity_backend_service_protocol : BackendServiceProtocol
  pub alternative_backend_service_protocol : BackendServiceProtocol
  pub backends : List Neg
  pub affinity_backends : List Neg
  pub alternative_backends : List Neg
  pub ensure_firewall : Bool

-- `__init__`, with the class's defaults.
unfoldable pub new_manager : Settings → Manager
new_manager settings = record {
  settings = settings;
  health_check = none;
  url_map = none;
  alternative_url_map = none;
  firewall_rule = none;
  firewall_rule_ipv6 = none;
  target_proxy = none;
  target_proxy_ipv6 = none;
  target_proxy_is_http = false;
  alternative_target_proxy = none;
  forwarding_rule = none;
  forwarding_rule_ipv6 = none;
  alternative_forwarding_rule = none;
  backend_service = none;
  affinity_backend_service = none;
  alternative_backend_service = none;
  backend_service_protocol = unset;
  affinity_backend_service_protocol = unset;
  alternative_backend_service_protocol = unset;
  backends = [];
  affinity_backends = [];
  alternative_backends = [];
  ensure_firewall = false;
}

-- The manager and the world around it.
pub record State (W : Type 0) : Type 0 where
  pub manager : Manager
  pub world : W

abbrev pub Method : Type 0 → Type 0 → Type 0
Method W A = Effect (State W) Exception A

-- `"-".join(parts)`, without the suffix if that is empty.
unfoldable pub make_resource_name : Settings → String → String
make_resource_name s name =
    if str_eq s.resource_suffix ""
    then s.resource_prefix ++ "-" ++ name
    else s.resource_prefix ++ "-" ++ name ++ "-" ++ s.resource_suffix

unfoldable pub network_url : Settings → String
network_url s = "global/networks/" ++ s.network

-- How most `delete_*` methods choose: by force the name that the manager would give, else the name of
-- the resource that it has, else nothing to do.
abbrev pub name_to_delete : (force : Bool) → Settings → String → Option GcpResource → Option String
name_to_delete true s name r = some (make_resource_name s name)
name_to_delete false s name none = none
name_to_delete false s name (some r) = some r.name

module _ {W : Type 0} where
  -- A call of the client: it leaves the manager alone.
  abbrev pub cloud : {A : Type 0} → Effect W Exception A → Method W A
  cloud m s = ((m s.world).0, record s { world = (m s.world).1 })

  abbrev pub self : Method W Manager
  self s = (returned s.manager, s)

  abbrev pub update : (Manager → Manager) → Method W (Unit {0})
  update f s = (returned tt, record s { manager = f s.manager })

  -- The fields of an optional resource: None has none.
  abbrev pub the : Option GcpResource → Method W GcpResource
  the none = throw attribute_error
  the (some r) = pure r

  -- The rest of such a method.
  unfoldable pub delete_named :
      Option String
      → (delete : String → Effect W Exception (Unit {0})) → (forget : Manager → Manager)
      → Method W (Unit {0})
  delete_named none delete forget = pure tt
  delete_named (some name) delete forget = do cloud (delete name); update forget
