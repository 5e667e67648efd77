-- ===== src/TrafficDirector/Backends.antt =====
-- framework/infrastructure/traffic_director.py: the health check, the backend service and its backends.
-- A dict or list argument that may be None is its fields or items, as in the client.
use psm_interop.Common.{
  ℕ, String, Bool, Option, none, some, List, [], ◌∷◌, ◌||◌, ◌==◌, if◌then◌else◌, map,
}
use psm_interop.Common.Effects.{pure, throw, ◌>>=◌, ◌>>◌}
use psm_interop.Common.Json.{Items, nil, Fields, end}
use psm_interop.Errors.{value_error, attribute_error}
use psm_interop.Retryers.Tenacity.{Tenacity}
use psm_interop.Gcp.Compute.{
  GcpResource, Neg, HealthCheckProtocol, BackendServiceProtocol, ComputeApi,
}
use psm_interop.Gcp.Compute.Bodies.{BackendServiceArgs}
use psm_interop.Gcp.Compute.Methods
use psm_interop.Gcp.Compute.Groups
use psm_interop.Gcp.Compute.Health.{Checks, add, remove, is_empty_set}
use psm_interop.Gcp.Compute.Health
use psm_interop.TrafficDirector.{
  Settings, Method, cloud, self, update, the, make_resource_name, name_to_delete, delete_named,
}

abbrev pub or_grpc : Option BackendServiceProtocol → BackendServiceProtocol
or_grpc none = BackendServiceProtocol.grpc
or_grpc (some p) = p

abbrev or_grpc_check : Option HealthCheckProtocol → HealthCheckProtocol
or_grpc_check none = HealthCheckProtocol.grpc
or_grpc_check (some p) = p

-- `a |= b` and `a -= b`
unfoldable pub union : List Neg → List Neg → List Neg
union a [] = a
union a (b ∷ bs) = union (add b a) bs

unfoldable pub difference : List Neg → List Neg → List Neg
difference a [] = a
difference a (b ∷ bs) = difference (remove b a) bs

abbrev pub urls : List Neg → List String
urls bs = map (λ b. b.url) bs

abbrev pub plain_args : Option GcpResource → BackendServiceProtocol → Bool → BackendServiceArgs
plain_args health_check protocol dualstack = record {
  health_check = health_check;
  affinity_header = none;
  protocol = some protocol;
  subset_size = 0;
  locality_lb_policies = nil;
  outlier_detection = end;
  enable_dualstack = dualstack;
  security_settings = end;
}

-- What `create_backend_service` takes behind the protocol.
pub record ServiceOptions : Type 0 where
  pub subset_size : ℕ
  pub affinity_header : Option String
  pub locality_lb_policies : Items
  pub outlier_detection : Fields
  pub security_settings : Fields

abbrev pub full_args :
    Option GcpResource → BackendServiceProtocol → Bool → ServiceOptions → BackendServiceArgs
full_args health_check protocol dualstack options = record {
  health_check = health_check;
  affinity_header = options.affinity_header;
  protocol = some protocol;
  subset_size = options.subset_size;
  locality_lb_policies = options.locality_lb_policies;
  outlier_detection = options.outlier_detection;
  enable_dualstack = dualstack;
  security_settings = options.security_settings;
}

module _ {W : Type 0} (tenacity : Tenacity) (api : ComputeApi W) where
  abbrev pub create_if_none :
      HealthCheckProtocol → (port : Option ℕ) → Settings → Option GcpResource → Method W (Unit {0})
  create_if_none protocol port settings (some r) = throw value_error
  create_if_none protocol port settings none = do
    resource ← cloud (
        Methods.create_health_check tenacity api (make_resource_name settings "health-check")
          protocol port)
    update (λ m. record m { health_check = some resource })

  unfoldable pub create_health_check :
      Option HealthCheckProtocol → (port : Option ℕ) → Method W (Unit {0})
  create_health_check protocol port = do
    m ← self
    create_if_none (or_grpc_check protocol) port m.settings m.health_check

  unfoldable pub delete_health_check : (force : Bool) → Method W (Unit {0})
  delete_health_check force = do
    m ← self
    delete_named (name_to_delete force m.settings "health-check" m.health_check)
        (λ name. Methods.delete_health_check tenacity api name)
        (λ m'. record m' { health_check = none })

  unfoldable pub create_backend_service :
      Option BackendServiceProtocol → ServiceOptions → Method W (Unit {0})
  create_backend_service protocol options = do
    m ← self
    resource ← cloud (
        Methods.create_backend_service_traffic_director tenacity api
          (make_resource_name m.settings "backend-service")
          (full_args m.health_check (or_grpc protocol) m.settings.enable_dualstack options)
          m.settings.region)
    update (λ m. record m {
      backend_service = some resource;
      backend_service_protocol = or_grpc protocol;
    })

  unfoldable pub load_backend_service : Method W (Unit {0})
  load_backend_service = do
    m ← self
    resource ← cloud (
        Methods.get_backend_service_traffic_director tenacity api
          (make_resource_name m.settings "backend-service") m.settings.region)
    update (λ m. record m { backend_service = some resource })

  unfoldable pub delete_backend_service : (force : Bool) → Method W (Unit {0})
  delete_backend_service force = do
    m ← self
    delete_named (name_to_delete force m.settings "backend-service" m.backend_service)
        (λ name. Methods.delete_backend_service tenacity api name m.settings.region)
        (λ m'. record m' { backend_service = none })

  unfoldable pub backend_service_patch_backends :
      (max_rate_per_endpoint : Option ℕ) → (circuit_breakers : Fields) → Method W (Unit {0})
  backend_service_patch_backends max_rate_per_endpoint circuit_breakers = do
    m ← self
    service ← the m.backend_service
    cloud (
        Methods.backend_service_patch_backends tenacity api service (urls m.backends)
          max_rate_per_endpoint circuit_breakers m.settings.region)

  -- `_get_gcp_negs_in_zones`, on top of the set that was loaded so far
  abbrev pub load_negs : String → (zones : List String) → (loaded : List Neg) → Method W (List Neg)
  load_negs name [] loaded = pure loaded
  load_negs name (zone ∷ zones) loaded = do
    neg ← cloud (Groups.wait_for_network_endpoint_group tenacity api name zone)
    load_negs name zones (add neg loaded)

  unfoldable pub get_gcp_negs_in_zones : String → (zones : List String) → Method W (List Neg)
  get_gcp_negs_in_zones name zones = load_negs name zones []

  abbrev pub require_some : List Neg → Method W (Unit {0})
  require_some bs = if is_empty_set bs then throw value_error else pure tt

  unfoldable pub backend_service_add_neg_backends :
      String → (zones : List String) → (max_rate_per_endpoint : Option ℕ) → Method W (Unit {0})
  backend_service_add_neg_backends name zones max_rate_per_endpoint = do
    before ← self
    negs ← get_gcp_negs_in_zones name zones
    update (λ m. record m { backends = union before.backends negs })
    m ← self
    require_some m.backends
    backend_service_patch_backends max_rate_per_endpoint end

  unfoldable pub backend_service_remove_neg_backends :
      String → (zones : List String) → Method W (Unit {0})
  backend_service_remove_neg_backends name zones = do
    before ← self
    negs ← get_gcp_negs_in_zones name zones
    update (λ m. record m { backends = difference before.backends negs })
    backend_service_patch_backends none end

  unfoldable pub backend_service_remove_all_backends : Method W (Unit {0})
  backend_service_remove_all_backends = do
    m ← self
    service ← the m.backend_service
    cloud (Methods.backend_service_remove_all_backends tenacity api service m.settings.region)

  -- The wait of the client, with its default time limit and pause.
  abbrev pub wait_for_healthy :
      GcpResource
      → (backends : List Neg) → (replica_count : ℕ) → (region : Option String) → Method W (Unit {0})
  wait_for_healthy service backends replica_count region = cloud (λ w.
      let ended =
        Health.wait_for_backends_healthy_status api service region tenacity backends 600 4
          replica_count (record { pending = []; healthy = []; world = w }) in
      (ended.0, ended.1.world))

  -- Without a service the attempts raise AttributeError until the time is over, and so does the
  -- handler of the RetryError; the arguments are tested before.
  abbrev pub wait_if_any :
      Option GcpResource → (backends : List Neg) → (replica_count : ℕ) → Method W (Unit {0})
  wait_if_any (some service) backends replica_count =
      wait_for_healthy service backends replica_count none
  wait_if_any none backends replica_count =
      if is_empty_set backends || replica_count == 0
      then throw value_error
      else throw attribute_error

  unfoldable pub wait_for_backends_healthy_status : (replica_count : ℕ) → Method W (Unit {0})
  wait_for_backends_healthy_status replica_count = do
    m ← self
    service ← the m.backend_service
    wait_for_healthy service m.backends replica_count m.settings.region
