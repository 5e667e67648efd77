-- ===== src/TrafficDirector/Meshes/Teardown.antt =====
-- What the cleanups of CloudRunMeshManager and SpiffeMeshManager ask for, in their order, and what they
-- leave.
use psm_interop.Objects.{Object}
use psm_interop.Retryers.Tenacity.{Tenacity}
use psm_interop.Errors.{Exception}
use psm_interop.Common.{String, refl, Bool, none, some}
use psm_interop.Common.Effects.{Effect, ◌>>◌}
use psm_interop.Gcp.Compute.{ComputeApi}
use psm_interop.Gcp.Compute.Groups
use psm_interop.Gcp.NetworkServices.{NetworkServicesApi}
use psm_interop.Gcp.NetworkServices
use psm_interop.Gcp.NetworkSecurity.{NetworkSecurityApi}
use psm_interop.TrafficDirector.Extended.{own_name, chosen_name}
use psm_interop.TrafficDirector.Extended.Requests.{
  Requests, Fulfils, Requests-Fulfils, if_named, then-Requests, inherited-Requests,
  delete_chosen-Requests,
}
use psm_interop.TrafficDirector.Lifecycle.Cleanup.{cleared}
use psm_interop.TrafficDirector.AppNet.Teardown.{
  app_net_requests, app_net_cleanup-Requests, without_routes,
}
use psm_interop.TrafficDirector.Secure.Teardown.{
  secure_requests, secure_cleanup-Requests, without_policies,
}
use psm_interop.TrafficDirector.Meshes.{
  CloudRunMeshManager, cloud_run_with_base, delete_neg_serverless, cloud_run_cleanup,
  SpiffeMeshManager, spiffe_with_base, delete_mesh, delete_grpc_route, spiffe_cleanup,
}

module _ {W : Type 0} (tenacity : Tenacity) (compute : ComputeApi W) (netsvc : NetworkServicesApi W)
    (project : String) (force : Bool) where
  -- The network endpoint group goes last: the backend service that refers to it is deleted before.
  unfoldable pub cloud_run_requests : CloudRunMeshManager → Effect W Exception (Unit {0})
  cloud_run_requests m = do
    app_net_requests tenacity compute netsvc project "grpc-mesh" force m.base
    if_named (chosen_name force m.base.base.settings "grpc-neg" (own_name (λ r. r.name) m.neg))
        (λ name. Groups.delete_neg_serverless tenacity compute name (some m.serverless_region))

  cloud_run_cleanup-Requests :
      Requests (cloud_run_cleanup tenacity compute netsvc project force) cloud_run_requests (λ m.
        record m {
          base = without_routes tenacity compute netsvc project "grpc-mesh" force m.base;
          neg = none;
        })
  unfolding cloud_run_cleanup cloud_run_requests delete_neg_serverless
  cloud_run_cleanup-Requests =
      then-Requests _ _ _ _ _ _
        (inherited-Requests (λ m. m.base) cloud_run_with_base _ _ _
          (app_net_cleanup-Requests tenacity compute netsvc project "grpc-mesh" force))
        (delete_chosen-Requests (λ m x. record m { neg = x }) (λ m. m.neg)
          (λ m. m.base.base.settings) (λ r. r.name) (λ m. refl) (λ m x. refl) force "grpc-neg"
          (λ m name. Groups.delete_neg_serverless tenacity compute name (some m.serverless_region)))

  -- A cleanup of a Cloud Run mesh manager makes the requests of the AppNet manager's, with the mesh name
  -- grpc-mesh, and deletes the serverless network endpoint group only when all of them have returned.
  -- When it returns, the manager has no group, and the rest is as the AppNet manager's cleanup leaves it.
  pub cloud_run_cleanup-Fulfils :
      (s : Object CloudRunMeshManager W)
      → Fulfils
          (cloud_run_cleanup tenacity compute netsvc project force)
          s
          (cloud_run_requests s.manager)
          (record s.manager {
            base = without_routes tenacity compute netsvc project "grpc-mesh" force s.manager.base;
            neg = none;
          })
  cloud_run_cleanup-Fulfils = Requests-Fulfils _ _ _ cloud_run_cleanup-Requests

module _ {W : Type 0} (tenacity : Tenacity) (compute : ComputeApi W) (netsec : NetworkSecurityApi W)
    (netsvc : NetworkServicesApi W) (project : String) (force : Bool) where
  unfoldable pub spiffe_requests : SpiffeMeshManager → Effect W Exception (Unit {0})
  spiffe_requests m = do
    if_named
        (chosen_name force m.base.base.settings "grpc-route" (own_name (λ r. r.name) m.grpc_route))
        (λ name. NetworkServices.delete_grpc_route tenacity netsvc project name none)
    if_named (chosen_name force m.base.base.settings "mesh" (own_name (λ r. r.name) m.mesh))
        (λ name. NetworkServices.delete_mesh tenacity netsvc project name none)
    secure_requests tenacity compute netsec netsvc project force m.base

  abbrev pub without_mesh : SpiffeMeshManager → SpiffeMeshManager
  without_mesh m = record m {
    base =
        without_policies tenacity compute netsec netsvc project force
          (record m.base { base = cleared force m.base.base });
    grpc_route = none;
    mesh = none;
  }

  spiffe_cleanup-Requests :
      Requests
        (spiffe_cleanup tenacity compute netsec netsvc project force)
        spiffe_requests
        without_mesh
  unfolding spiffe_cleanup spiffe_requests delete_grpc_route delete_mesh
  spiffe_cleanup-Requests =
      then-Requests _ _ _ _ _ _
        (delete_chosen-Requests (λ m x. record m { grpc_route = x }) (λ m. m.grpc_route)
          (λ m. m.base.base.settings) (λ r. r.name) (λ m. refl) (λ m x. refl) force "grpc-route"
          (λ m name. NetworkServices.delete_grpc_route tenacity netsvc project name none))
        (then-Requests _ _ _ _ _ _
          (delete_chosen-Requests (λ m x. record m { mesh = x }) (λ m. m.mesh)
            (λ m. m.base.base.settings) (λ r. r.name) (λ m. refl) (λ m x. refl) force "mesh"
            (λ m name. NetworkServices.delete_mesh tenacity netsvc project name none))
          (inherited-Requests (λ m. m.base) spiffe_with_base _ _ _
            (secure_cleanup-Requests tenacity compute netsec netsvc project force)))

  -- A cleanup of a SPIFFE mesh manager deletes the gRPC route, the mesh, what the base class deletes and
  -- the policies, in this order, each that it has or with force the name that it gives; it ends at the
  -- first request that raises. When it returns, the manager has no route, mesh and policy, and the rest
  -- is as a cleanup of the base class leaves it.
  pub spiffe_cleanup-Fulfils :
      (s : Object SpiffeMeshManager W)
      → Fulfils
          (spiffe_cleanup tenacity compute netsec netsvc project force)
          s
          (spiffe_requests s.manager)
          (without_mesh s.manager)
  spiffe_cleanup-Fulfils = Requests-Fulfils _ _ _ spiffe_cleanup-Requests
