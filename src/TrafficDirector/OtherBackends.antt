-- ===== src/TrafficDirector/OtherBackends.antt =====
-- framework/infrastructure/traffic_director.py: the alternative and the affinity backend services, and
-- their backends.
use psm_interop.Common.{ℕ, String, Bool, Option, none, some, List}
use psm_interop.Common.Effects.{◌>>=◌, ◌>>◌}
use psm_interop.Common.Json.{Fields, end}
use psm_interop.Retryers.Tenacity.{Tenacity}
use psm_interop.Gcp.Compute.{BackendServiceProtocol, ComputeApi}
use psm_interop.Gcp.Compute.Methods
use psm_interop.TrafficDirector.{
  Method, cloud, self, update, the, make_resource_name, name_to_delete, delete_named,
}
use psm_interop.TrafficDirector.Backends.{
  or_grpc, union, urls, plain_args, get_gcp_negs_in_zones, require_some, wait_if_any,
}

module _ {W : Type 0} (tenacity : Tenacity) (api : ComputeApi W) where
  unfoldable pub create_alternative_backend_service :
      Option BackendServiceProtocol → Method W (Unit {0})
  create_alternative_backend_service protocol = do
    m ← self
    resource ← cloud (
        Methods.create_backend_service_traffic_director tenacity api
          (make_resource_name m.settings "backend-service-alt")
          (plain_args m.health_check (or_grpc protocol) m.settings.enable_dualstack) none)
    update (λ m. record m {
      alternative_backend_service = some resource;
      alternative_backend_service_protocol = or_grpc protocol;
    })

  unfoldable pub load_alternative_backend_service : Method W (Unit {0})
  load_alternative_backend_service = do
    m ← self
    resource ← cloud (
        Methods.get_backend_service_traffic_director tenacity api
          (make_resource_name m.settings "backend-service-alt") none)
    update (λ m. record m { alternative_backend_service = some resource })

  unfoldable pub delete_alternative_backend_service : (force : Bool) → Method W (Unit {0})
  delete_alternative_backend_service force = do
    m ← self
    delete_named
        (name_to_delete force m.settings "backend-service-alt" m.alternative_backend_service)
        (λ name. Methods.delete_backend_service tenacity api name none)
        (λ m'. record m' { alternative_backend_service = none })

  unfoldable pub alternative_backend_service_patch_backends :
      (circuit_breakers : Fields) → Method W (Unit {0})
  alternative_backend_service_patch_backends circuit_breakers = do
    m ← self
    service ← the m.alternative_backend_service
    cloud (
        Methods.backend_service_patch_backends tenacity api service (urls m.alternative_backends)
          none circuit_breakers none)

  unfoldable pub alternative_backend_service_add_neg_backends :
      String → (zones : List String) → Method W (Unit {0})
  alternative_backend_service_add_neg_backends name zones = do
    before ← self
    negs ← get_gcp_negs_in_zones tenacity api name zones
    update (λ m. record m { alternative_backends = union before.alternative_backends negs })
    m ← self
    require_some tenacity api m.alternative_backends
    alternative_backend_service_patch_backends end

  unfoldable pub alternative_backend_service_remove_all_backends : Method W (Unit {0})
  alternative_backend_service_remove_all_backends = do
    m ← self
    service ← the m.alternative_backend_service
    cloud (Methods.backend_service_remove_all_backends tenacity api service none)

  unfoldable pub wait_for_alternative_backends_healthy_status :
      (replica_count : ℕ) → Method W (Unit {0})
  wait_for_alternative_backends_healthy_status replica_count = do
    m ← self
    wait_if_any tenacity api m.alternative_backend_service m.alternative_backends replica_count

  unfoldable pub create_affinity_backend_service :
      Option BackendServiceProtocol → Method W (Unit {0})
  create_affinity_backend_service protocol = do
    m ← self
    resource ← cloud (
        Methods.create_backend_service_traffic_director tenacity api
          (make_resource_name m.settings "backend-service-affinity")
          (record (plain_args m.health_check (or_grpc protocol) m.settings.enable_dualstack) {
            affinity_header = some "xds_md";
          })
          none)
    update (λ m. record m {
      affinity_backend_service = some resource;
      affinity_backend_service_protocol = or_grpc protocol;
    })

  unfoldable pub load_affinity_backend_service : Method W (Unit {0})
  load_affinity_backend_service = do
    m ← self
    resource ← cloud (
        Methods.get_backend_service_traffic_director tenacity api
          (make_resource_name m.settings "backend-service-affinity") none)
    update (λ m. record m { affinity_backend_service = some resource })

  unfoldable pub delete_affinity_backend_service : (force : Bool) → Method W (Unit {0})
  delete_affinity_backend_service force = do
    m ← self
    delete_named
        (name_to_delete force m.settings "backend-service-affinity" m.affinity_backend_service)
        (λ name. Methods.delete_backend_service tenacity api name none)
        (λ m'. record m' { affinity_backend_service = none })

  unfoldable pub affinity_backend_service_patch_backends : Method W (Unit {0})
  affinity_backend_service_patch_backends = do
    m ← self
    service ← the m.affinity_backend_service
    cloud (
        Methods.backend_service_patch_backends tenacity api service (urls m.affinity_backends) none
          end none)

  unfoldable pub affinity_backend_service_add_neg_backends :
      String → (zones : List String) → Method W (Unit {0})
  affinity_backend_service_add_neg_backends name zones = do
    before ← self
    negs ← get_gcp_negs_in_zones tenacity api name zones
    update (λ m. record m { affinity_backends = union before.affinity_backends negs })
    m ← self
    require_some tenacity api m.affinity_backends
    affinity_backend_service_patch_backends

  unfoldable pub affinity_backend_service_remove_all_backends : Method W (Unit {0})
  affinity_backend_service_remove_all_backends = do
    m ← self
    service ← the m.affinity_backend_service
    cloud (Methods.backend_service_remove_all_backends tenacity api service none)

  unfoldable pub wait_for_affinity_backends_healthy_status :
      (replica_count : ℕ) → Method W (Unit {0})
  wait_for_affinity_backends_healthy_status replica_count = do
    m ← self
    wait_if_any tenacity api m.affinity_backend_service m.affinity_backends replica_count
