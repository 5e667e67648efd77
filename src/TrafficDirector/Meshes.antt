-- ===== src/TrafficDirector/Meshes.antt =====
-- framework/infrastructure/mesh_resource_manager: CloudRunMeshManager and SpiffeMeshManager.
pub mod Teardown
use psm_interop.Objects.{on_cloud, given, change, itself, inherited, ObjectMethod}
use psm_interop.Retryers.Tenacity.{Tenacity}
use psm_interop.Errors.{value_error}
use psm_interop.Common.{ℕ, String, Bool, Option, none, some, List, [], ◌∷◌}
use psm_interop.Common.Effects.{pure, throw, ◌>>=◌, ◌>>◌}
use psm_interop.Common.Json.{Json, cons, nil, field, end, str, obj}
use psm_interop.Gcp.Compute.{ComputeApi, GcpResource}
use psm_interop.Gcp.Compute.Methods
use psm_interop.Gcp.Compute.Groups
use psm_interop.Gcp.Standard.{resource_full_name}
use psm_interop.Gcp.NetworkServices.{NetworkServicesApi}
use psm_interop.Gcp.NetworkServices
use psm_interop.Gcp.NetworkServices.Resources.{Mesh}
use psm_interop.Gcp.NetworkServices.GrpcRoutes.{GrpcRoute}
use psm_interop.Gcp.NetworkSecurity.{NetworkSecurityApi}
use psm_interop.TrafficDirector.{self, Settings, make_resource_name}
use psm_interop.TrafficDirector.Extended.{chosen_name, own_name, delete_chosen}
use psm_interop.TrafficDirector.AppNet.{
  AppNetManager, new_app_net_manager, app_net_cleanup, route_body, host_port,
}
use psm_interop.TrafficDirector.Secure.{SecureManager, new_secure_manager, secure_cleanup}

-- `backends`, which is set to a list of resources, stands beside the inherited set.
pub record CloudRunMeshManager : Type 0 where
  pub base : AppNetManager
  pub serverless_region : String
  pub neg : Option GcpResource
  pub serverless_backends : List GcpResource

abbrev pub cloud_run_with_base : CloudRunMeshManager → AppNetManager → CloudRunMeshManager
cloud_run_with_base m b = record m { base = b }

-- `__init__`, which passes no region of the control plane on.
unfoldable pub new_cloud_run_mesh_manager : Settings → (region : String) → CloudRunMeshManager
new_cloud_run_mesh_manager settings region = record {
  base = new_app_net_manager (record settings { region = none });
  serverless_region = region;
  neg = none;
  serverless_backends = [];
}

pub record SpiffeMeshManager : Type 0 where
  pub base : SecureManager
  pub grpc_route : Option GrpcRoute
  pub mesh : Option Mesh

abbrev pub spiffe_with_base : SpiffeMeshManager → SecureManager → SpiffeMeshManager
spiffe_with_base m b = record m { base = b }

unfoldable pub new_spiffe_mesh_manager : Settings → SpiffeMeshManager
new_spiffe_mesh_manager settings = record {
  base = new_secure_manager settings;
  grpc_route = none;
  mesh = none;
}

module _ {W : Type 0} (tenacity : Tenacity) (compute : ComputeApi W) (netsvc : NetworkServicesApi W)
    (project : String) where
  abbrev CloudRunMethod : Type 0 → Type 0
  CloudRunMethod A = ObjectMethod CloudRunMeshManager W A

  abbrev the_neg : Option GcpResource → CloudRunMethod GcpResource
  the_neg none = throw value_error
  the_neg (some neg) = pure neg

  -- A capacity is a JSON number, 1.0 by default.
  unfoldable pub backend_service_add_cloudrun_backends :
      (capacity_scaler : Json) → CloudRunMethod (Unit {0})
  backend_service_add_cloudrun_backends capacity_scaler = do
    m ← itself
    neg ← the_neg m.neg
    change (λ m'. record m' { serverless_backends = neg ∷ [] })
    service ← given m.base.base.backend_service
    on_cloud (
        Methods.backend_service_patch_backends_with_body tenacity compute service
          (cons (obj (field "group" (str neg.url) (field "capacityScaler" capacity_scaler end)))
            nil)
          end none)

  unfoldable pub create_neg_serverless : (service_name : String) → CloudRunMethod GcpResource
  create_neg_serverless service_name = do
    m ← itself
    let name = make_resource_name m.base.base.settings "grpc-neg"
    neg ←
        on_cloud (
          Groups.create_neg_serverless tenacity compute name (some m.serverless_region)
            service_name)
    loaded ← on_cloud (Groups.get_neg_serverless tenacity compute name (some m.serverless_region))
    change (λ m'. record m' { neg = some loaded })
    pure neg

  unfoldable pub delete_neg_serverless : (force : Bool) → CloudRunMethod (Unit {0})
  delete_neg_serverless force = do
    m ← itself
    delete_chosen (chosen_name force m.base.base.settings "grpc-neg" (own_name (λ r. r.name) m.neg))
        (λ name. Groups.delete_neg_serverless tenacity compute name (some m.serverless_region))
        (λ m'. record m' { neg = none })

  unfoldable pub cloud_run_cleanup : (force : Bool) → CloudRunMethod (Unit {0})
  cloud_run_cleanup force = do
    inherited (λ m. m.base) cloud_run_with_base
        (app_net_cleanup tenacity compute netsvc project "grpc-mesh" force)
    delete_neg_serverless force

module _ {W : Type 0} (tenacity : Tenacity) (compute : ComputeApi W) (netsec : NetworkSecurityApi W)
    (netsvc : NetworkServicesApi W) (project : String) where
  abbrev SpiffeMethod : Type 0 → Type 0
  SpiffeMethod A = ObjectMethod SpiffeMeshManager W A

  unfoldable pub create_mesh : SpiffeMethod Mesh
  create_mesh = do
    m ← itself
    let name = make_resource_name m.base.base.settings "mesh"
    on_cloud (NetworkServices.create_mesh tenacity netsvc project name (obj end) none)
    mesh ← on_cloud (NetworkServices.get_mesh tenacity netsvc project name none)
    change (λ m'. record m' { mesh = some mesh })
    pure mesh

  unfoldable pub delete_mesh : (force : Bool) → SpiffeMethod (Unit {0})
  delete_mesh force = do
    m ← itself
    delete_chosen (chosen_name force m.base.base.settings "mesh" (own_name (λ r. r.name) m.mesh))
        (λ name. NetworkServices.delete_mesh tenacity netsvc project name none)
        (λ m'. record m' { mesh = none })

  unfoldable pub create_grpc_route : (src_host : String) → (src_port : ℕ) → SpiffeMethod GrpcRoute
  create_grpc_route src_host src_port = do
    m ← itself
    service ← given m.base.base.backend_service
    mesh ← given m.mesh
    let name = make_resource_name m.base.base.settings "grpc-route"
    on_cloud (
        NetworkServices.create_grpc_route tenacity netsvc project name
          (route_body mesh.url (host_port src_host src_port)
            (resource_full_name project service.name "backendServices" none))
          none)
    route ← on_cloud (NetworkServices.get_grpc_route tenacity netsvc project name none)
    change (λ m'. record m' { grpc_route = some route })
    pure route

  unfoldable pub delete_grpc_route : (force : Bool) → SpiffeMethod (Unit {0})
  delete_grpc_route force = do
    m ← itself
    delete_chosen
        (chosen_name force m.base.base.settings "grpc-route" (own_name (λ r. r.name) m.grpc_route))
        (λ name. NetworkServices.delete_grpc_route tenacity netsvc project name none)
        (λ m'. record m' { grpc_route = none })

  unfoldable pub spiffe_cleanup : (force : Bool) → SpiffeMethod (Unit {0})
  spiffe_cleanup force = do
    delete_grpc_route force
    delete_mesh force
    inherited (λ m. m.base) spiffe_with_base
        (secure_cleanup tenacity compute netsec netsvc project force)
