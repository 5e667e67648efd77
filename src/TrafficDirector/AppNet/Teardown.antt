-- ===== src/TrafficDirector/AppNet/Teardown.antt =====
-- What `TrafficDirectorAppNetManager.cleanup` asks for, in its order, and what it leaves.
use psm_interop.Retryers.Tenacity.{Tenacity}
use psm_interop.Errors.{Exception}
use psm_interop.Common.{String, refl, Bool, Option, none}
use psm_interop.Common.Effects.{Effect, ◌>>◌}
use psm_interop.Gcp.Compute.{ComputeApi}
use psm_interop.Gcp.NetworkServices.{NetworkServicesApi}
use psm_interop.Gcp.NetworkServices
use psm_interop.TrafficDirector.Extended.{own_name, chosen_name}
use psm_interop.TrafficDirector.Extended.Requests.{
  Requests, if_named, then-Requests, inherited-Requests, delete_chosen-Requests, cleanup-Requests,
}
use psm_interop.TrafficDirector.Lifecycle.Deletions.{perform}
use psm_interop.TrafficDirector.Lifecycle.Cleanup.{deletions, cleared}
use psm_interop.TrafficDirector.AppNet.{
  AppNetManager, with_base, delete_http_route, delete_grpc_route, delete_mesh, app_net_cleanup,
}

abbrev name_for :
    {R : Type 0} → (force : Bool) → AppNetManager → String → (R → String) → Option R → Option String
name_for force m name name_of r = chosen_name force m.base.settings name (own_name name_of r)

module _ {W : Type 0} (tenacity : Tenacity) (compute : ComputeApi W) (netsvc : NetworkServicesApi W)
    (project mesh_name : String) (force : Bool) where
  -- Everything that is to be deleted: what refers to the mesh, the mesh, and what the base class deletes.
  unfoldable pub app_net_requests : AppNetManager → Effect W Exception (Unit {0})
  app_net_requests m = do
    if_named (name_for force m "http-route" (λ r. r.name) m.http_route) (λ name.
        NetworkServices.delete_http_route tenacity netsvc project name m.base.settings.region)
    if_named (name_for force m "grpc-route" (λ r. r.name) m.grpc_route) (λ name.
        NetworkServices.delete_grpc_route tenacity netsvc project name m.base.settings.region)
    if_named (name_for force m mesh_name (λ r. r.name) m.mesh)
        (λ name. NetworkServices.delete_mesh tenacity netsvc project name m.base.settings.region)
    perform tenacity compute (deletions force m.base)

  abbrev pub without_routes : AppNetManager → AppNetManager
  without_routes m = record m {
    base = cleared force m.base;
    http_route = none;
    grpc_route = none;
    mesh = none;
  }

  pub app_net_cleanup-Requests :
      Requests
        (app_net_cleanup tenacity compute netsvc project mesh_name force)
        app_net_requests
        without_routes
  unfolding app_net_cleanup app_net_requests delete_http_route delete_grpc_route delete_mesh
      psm_interop.Objects.inherited NetworkServices.delete_mesh NetworkServices.delete_grpc_route
      NetworkServices.delete_http_route
  app_net_cleanup-Requests =
      then-Requests _ _ _ _ _ _
        (delete_chosen-Requests (λ m x. record m { http_route = x }) (λ m. m.http_route)
          (λ m. m.base.settings) (λ r. r.name) (λ m. refl) (λ m x. refl) force "http-route"
          (λ m name.
            NetworkServices.delete_http_route tenacity netsvc project name m.base.settings.region))
        (then-Requests _ _ _ _ _ _
          (delete_chosen-Requests (λ m x. record m { grpc_route = x }) (λ m. m.grpc_route)
            (λ m. m.base.settings) (λ r. r.name) (λ m. refl) (λ m x. refl) force "grpc-route"
            (λ m name.
              NetworkServices.delete_grpc_route tenacity netsvc project name
                m.base.settings.region))
          (then-Requests _ _ _ _ _ _
            (delete_chosen-Requests (λ m x. record m { mesh = x }) (λ m. m.mesh)
              (λ m. m.base.settings) (λ r. r.name) (λ m. refl) (λ m x. refl) force mesh_name
              (λ m name.
                NetworkServices.delete_mesh tenacity netsvc project name m.base.settings.region))
            (inherited-Requests (λ m. m.base) with_base _ _ _
              (cleanup-Requests tenacity compute force))))
