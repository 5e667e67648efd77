-- ===== src/TrafficDirector/Lifecycle/ServiceSteps.antt =====
-- The requests that `TrafficDirectorManager` makes to delete the health check, the backend services and
-- the URL maps, and what it does to its fields.
use psm_interop.Common.{refl, Bool, none}
use psm_interop.Retryers.Tenacity.{Tenacity}
use psm_interop.Gcp.Compute.{
  region_arg, health_checks, backend_services, region_backend_services, url_maps, region_url_maps,
  ComputeApi, in_region,
}
use psm_interop.Gcp.Compute.Methods
use psm_interop.TrafficDirector.{name_to_delete}
use psm_interop.TrafficDirector.Backends.{delete_health_check, delete_backend_service}
use psm_interop.TrafficDirector.OtherBackends.{
  delete_alternative_backend_service, delete_affinity_backend_service,
}
use psm_interop.TrafficDirector.Routing.{delete_url_map, delete_alternative_url_map}
use psm_interop.TrafficDirector.Lifecycle.Deletions.{named, Does, delete_named-Ends}
use psm_interop.TrafficDirector.Lifecycle.Forgetting.{
  forget_if_set, forget_alternative, url_map_left,
}

module _ {W : Type 0} (tenacity : Tenacity) (api : ComputeApi W) (force : Bool) where
  pub delete_health_check-Does :
      Does tenacity api
        (delete_health_check tenacity api force)
        (λ m.
          named
            (health_checks)
            none
            (name_to_delete force m.settings "health-check" (m.health_check)))
        (λ m. record m { health_check = none })
  unfolding delete_health_check Methods.delete_health_check
  delete_health_check-Does s =
      let m = s.manager in
      delete_named-Ends tenacity api
        (name_to_delete force m.settings "health-check" (m.health_check)) (health_checks) none
        (λ m'. record m' { health_check = none }) _ s
        (forget_if_set force m.settings "health-check" (λ v. record m { health_check = v })
          (λ m'. record m' { health_check = none }) m.health_check (λ _. refl))

  pub delete_backend_service-Does :
      Does tenacity api
        (delete_backend_service tenacity api force)
        (λ m.
          named
            (in_region m.settings.region region_backend_services backend_services)
            m.settings.region
            (name_to_delete force m.settings "backend-service" (m.backend_service)))
        (λ m. record m { backend_service = none })
  unfolding delete_backend_service Methods.delete_backend_service
  delete_backend_service-Does s =
      let m = s.manager in
      delete_named-Ends tenacity api
        (name_to_delete force m.settings "backend-service" (m.backend_service))
        (in_region m.settings.region region_backend_services backend_services) m.settings.region
        (λ m'. record m' { backend_service = none }) _ s
        (forget_if_set force m.settings "backend-service" (λ v. record m { backend_service = v })
          (λ m'. record m' { backend_service = none }) m.backend_service (λ _. refl))

  pub delete_alternative_backend_service-Does :
      Does tenacity api
        (delete_alternative_backend_service tenacity api force)
        (λ m.
          named backend_services none
            (name_to_delete force m.settings "backend-service-alt" (m.alternative_backend_service)))
        (λ m. record m { alternative_backend_service = none })
  unfolding delete_alternative_backend_service Methods.delete_backend_service region_arg
  delete_alternative_backend_service-Does s =
      let m = s.manager in
      delete_named-Ends tenacity api
        (name_to_delete force m.settings "backend-service-alt" (m.alternative_backend_service))
        backend_services none (λ m'. record m' { alternative_backend_service = none }) _ s
        (forget_if_set force m.settings "backend-service-alt"
          (λ v. record m { alternative_backend_service = v })
          (λ m'. record m' { alternative_backend_service = none }) m.alternative_backend_service
          (λ _. refl))

  pub delete_affinity_backend_service-Does :
      Does tenacity api
        (delete_affinity_backend_service tenacity api force)
        (λ m.
          named backend_services none (
            name_to_delete force m.settings "backend-service-affinity"
              (m.affinity_backend_service)))
        (λ m. record m { affinity_backend_service = none })
  unfolding delete_affinity_backend_service Methods.delete_backend_service region_arg
  delete_affinity_backend_service-Does s =
      let m = s.manager in
      delete_named-Ends tenacity api
        (name_to_delete force m.settings "backend-service-affinity" (m.affinity_backend_service))
        backend_services none (λ m'. record m' { affinity_backend_service = none }) _ s
        (forget_if_set force m.settings "backend-service-affinity"
          (λ v. record m { affinity_backend_service = v })
          (λ m'. record m' { affinity_backend_service = none }) m.affinity_backend_service
          (λ _. refl))

  pub delete_url_map-Does :
      Does tenacity api
        (delete_url_map tenacity api force)
        (λ m.
          named
            (in_region m.settings.region region_url_maps url_maps)
            m.settings.region
            (name_to_delete force m.settings "url-map" (m.url_map)))
        (λ m. record m { url_map = none })
  unfolding delete_url_map Methods.delete_url_map
  delete_url_map-Does s =
      let m = s.manager in
      delete_named-Ends tenacity api (name_to_delete force m.settings "url-map" (m.url_map))
        (in_region m.settings.region region_url_maps url_maps) m.settings.region
        (λ m'. record m' { url_map = none }) _ s
        (forget_if_set force m.settings "url-map" (λ v. record m { url_map = v })
          (λ m'. record m' { url_map = none }) m.url_map (λ _. refl))

  pub delete_alternative_url_map-Does :
      Does tenacity api
        (delete_alternative_url_map tenacity api force)
        (λ m.
          named
            (in_region m.settings.region region_url_maps url_maps)
            m.settings.region
            (name_to_delete force m.settings "url-map-alt" (m.alternative_url_map)))
        (λ m. record m { url_map = url_map_left force m.alternative_url_map m.url_map })
  unfolding delete_alternative_url_map Methods.delete_url_map
  delete_alternative_url_map-Does s =
      let m = s.manager in
      delete_named-Ends tenacity api
        (name_to_delete force m.settings "url-map-alt" (m.alternative_url_map))
        (in_region m.settings.region region_url_maps url_maps) m.settings.region
        (λ m'. record m' { url_map = none }) _ s
        (forget_alternative force m.settings "url-map-alt" (λ v. record m { url_map = v })
          (λ m'. record m' { url_map = none }) m.alternative_url_map m.url_map (λ _. refl))
