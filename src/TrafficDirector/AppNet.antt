-- ===== src/TrafficDirector/AppNet.antt =====
-- framework/infrastructure/traffic_director.py: TrafficDirectorAppNetManager. `MESH_NAME`, which a class
-- that extends it sets anew, is an argument.
pub mod Teardown
use psm_interop.Objects.{change, on_cloud, given, itself, inherited, ObjectMethod}
use psm_interop.Retryers.Tenacity.{Tenacity}
use psm_interop.Common.{ℕ, String, Bool, Option, none, some}
use Prim.Native.String.{◌++◌ as ◌<+>◌}
use psm_interop.Common.Effects.{pure, ◌>>=◌, ◌>>◌}
use psm_interop.Common.Decimal.{decimal}
use psm_interop.Common.Json.{Json, field, end, str, obj, one}
use psm_interop.Gcp.Compute.{ComputeApi, GcpResource}
use psm_interop.Gcp.Standard.{resource_full_name}
use psm_interop.Gcp.NetworkServices.{NetworkServicesApi}
use psm_interop.Gcp.NetworkServices
use psm_interop.Gcp.NetworkServices.Resources.{Mesh}
use psm_interop.Gcp.NetworkServices.GrpcRoutes.{GrpcRoute}
use psm_interop.Gcp.NetworkServices.HttpRoutes.{HttpRoute}
use psm_interop.TrafficDirector.{self, Settings, Manager, new_manager, make_resource_name}
use psm_interop.TrafficDirector.Extended.{chosen_name, own_name, delete_chosen, plain}
use psm_interop.TrafficDirector.Lifecycle.{cleanup}

pub record AppNetManager : Type 0 where
  pub base : Manager
  pub grpc_route : Option GrpcRoute
  pub http_route : Option HttpRoute
  pub mesh : Option Mesh

abbrev pub with_base : AppNetManager → Manager → AppNetManager
with_base m b = record m { base = b }

unfoldable pub new_app_net_manager : Settings → AppNetManager
new_app_net_manager settings = record {
  base = new_manager settings;
  grpc_route = none;
  http_route = none;
  mesh = none;
}

-- The body of `create_grpc_route`.
unfoldable pub route_body : (mesh_url : Json) → (host service_name : String) → Json
route_body mesh_url host service_name = obj (
    field "meshes" (one mesh_url) (
      field "hostnames" (str host) (
        field "rules"
          (one (
            obj (
              field "action"
                (obj (
                  field "destinations" (one (obj (field "serviceName" (str service_name) end)))
                    end))
                end)))
          end)))

unfoldable pub host_port : (src_host : String) → (src_port : ℕ) → String
host_port src_host src_port = src_host <+> ":" <+> decimal src_port

module _ {W : Type 0} (tenacity : Tenacity) (compute : ComputeApi W) (netsvc : NetworkServicesApi W)
    (project mesh_name : String) where
  abbrev Method : Type 0 → Type 0
  Method A = ObjectMethod AppNetManager W A

  unfoldable pub create_mesh : Method Mesh
  create_mesh = do
    m ← itself
    let settings = m.base.settings
    let name = make_resource_name settings mesh_name
    on_cloud (NetworkServices.create_mesh tenacity netsvc project name (obj end) settings.region)
    mesh ← on_cloud (NetworkServices.get_mesh tenacity netsvc project name settings.region)
    change (λ m'. record m' { mesh = some mesh })
    pure mesh

  unfoldable pub delete_mesh : (force : Bool) → Method (Unit {0})
  delete_mesh force = do
    m ← itself
    delete_chosen (chosen_name force m.base.settings mesh_name (own_name (λ r. r.name) m.mesh))
        (λ name. NetworkServices.delete_mesh tenacity netsvc project name m.base.settings.region)
        (λ m'. record m' { mesh = none })

  unfoldable pub create_grpc_route_with_content : Json → Method GrpcRoute
  create_grpc_route_with_content body = do
    m ← itself
    let settings = m.base.settings
    let name = make_resource_name settings "grpc-route"
    on_cloud (NetworkServices.create_grpc_route tenacity netsvc project name body settings.region)
    route ← on_cloud (NetworkServices.get_grpc_route tenacity netsvc project name settings.region)
    change (λ m'. record m' { grpc_route = some route })
    pure route

  -- `create_grpc_route` repeats the requests of `create_grpc_route_with_content`.
  unfoldable pub create_grpc_route : (src_host : String) → (src_port : ℕ) → Method GrpcRoute
  create_grpc_route src_host src_port = do
    m ← itself
    service ← given m.base.backend_service
    mesh ← given m.mesh
    create_grpc_route_with_content (
        route_body mesh.url (host_port src_host src_port)
          (resource_full_name project service.name "backendServices" m.base.settings.region))

  unfoldable pub create_http_route_with_content : Json → Method HttpRoute
  create_http_route_with_content body = do
    m ← itself
    let settings = m.base.settings
    let name = make_resource_name settings "http-route"
    on_cloud (NetworkServices.create_http_route tenacity netsvc project name body settings.region)
    route ← on_cloud (NetworkServices.get_http_route tenacity netsvc project name settings.region)
    change (λ m'. record m' { http_route = some route })
    pure route

  unfoldable pub delete_grpc_route : (force : Bool) → Method (Unit {0})
  delete_grpc_route force = do
    m ← itself
    delete_chosen
        (chosen_name force m.base.settings "grpc-route" (own_name (λ r. r.name) m.grpc_route))
        (λ name.
          NetworkServices.delete_grpc_route tenacity netsvc project name m.base.settings.region)
        (λ m'. record m' { grpc_route = none })

  unfoldable pub delete_http_route : (force : Bool) → Method (Unit {0})
  delete_http_route force = do
    m ← itself
    delete_chosen
        (chosen_name force m.base.settings "http-route" (own_name (λ r. r.name) m.http_route))
        (λ name.
          NetworkServices.delete_http_route tenacity netsvc project name m.base.settings.region)
        (λ m'. record m' { http_route = none })

  unfoldable pub app_net_cleanup : (force : Bool) → Method (Unit {0})
  app_net_cleanup force = do
    delete_http_route force
    delete_grpc_route force
    delete_mesh force
    inherited (λ m. m.base) with_base (plain (cleanup tenacity compute force))
