-- ===== src/Gcp/NetworkServices.antt =====
-- framework/infrastructure/gcp/network_services.py: the clients of the network services API. The requests
-- of each collection are a parameter; a resource comes as its dict.
pub mod HttpRoutes
pub mod GrpcRoutes
pub mod Resources
mod Routes
mod Samples
use psm_interop.Retryers.Tenacity.{Tenacity}
use psm_interop.Errors.{Exception}
use psm_interop.Common.{String, Bool, Option, none}
use psm_interop.Common.Effects.{Effect, lift, ◌>>=◌}
use psm_interop.Common.Json.{Json, Fields}
use psm_interop.Gcp.Standard.{StandardApi, get_resource, resource_full_name}
use psm_interop.Gcp.Throttled.{create_resource, delete_resource}
use HttpRoutes.{HttpRoute, http_route}
use GrpcRoutes.{GrpcRoute, grpc_route}
use Resources.{EndpointPolicy, Mesh, endpoint_policy, mesh}

pub record NetworkServicesApi (W : Type 0) : Type 0 where
  pub endpoint_policies : StandardApi W Fields
  pub meshes : StandardApi W Fields
  pub grpc_routes : StandardApi W Fields
  pub http_routes : StandardApi W Fields

module _ {W : Type 0} (tenacity : Tenacity) (api : NetworkServicesApi W) (project : String) where
  unfoldable pub create_endpoint_policy : (name : String) → Json → Effect W Exception (Unit {0})
  create_endpoint_policy name body =
      create_resource tenacity api.endpoint_policies project name body none

  unfoldable pub get_endpoint_policy : (name : String) → Effect W Exception EndpointPolicy
  get_endpoint_policy name = do
    response ←
        get_resource tenacity api.endpoint_policies project
          (resource_full_name project name "endpointPolicies" none)
    lift (endpoint_policy name response)

  unfoldable pub delete_endpoint_policy : (name : String) → Effect W Exception Bool
  delete_endpoint_policy name =
      delete_resource tenacity api.endpoint_policies project
        (resource_full_name project name "endpointPolicies" none)

  unfoldable pub create_mesh :
      (name : String) → Json → (location : Option String) → Effect W Exception (Unit {0})
  create_mesh name body location = create_resource tenacity api.meshes project name body location

  unfoldable pub get_mesh : (name : String) → (location : Option String) → Effect W Exception Mesh
  get_mesh name location = do
    response ←
        get_resource tenacity api.meshes project (resource_full_name project name "meshes" location)
    lift (mesh name response)

  unfoldable pub delete_mesh :
      (name : String) → (location : Option String) → Effect W Exception Bool
  delete_mesh name location =
      delete_resource tenacity api.meshes project
        (resource_full_name project name "meshes" location)

  unfoldable pub create_grpc_route :
      (name : String) → Json → (location : Option String) → Effect W Exception (Unit {0})
  create_grpc_route name body location =
      create_resource tenacity api.grpc_routes project name body location

  unfoldable pub get_grpc_route :
      (name : String) → (location : Option String) → Effect W Exception GrpcRoute
  get_grpc_route name location = do
    response ←
        get_resource tenacity api.grpc_routes project
          (resource_full_name project name "grpcRoutes" location)
    lift (grpc_route name response)

  unfoldable pub delete_grpc_route :
      (name : String) → (location : Option String) → Effect W Exception Bool
  delete_grpc_route name location =
      delete_resource tenacity api.grpc_routes project
        (resource_full_name project name "grpcRoutes" location)

  unfoldable pub create_http_route :
      (name : String) → Json → (location : Option String) → Effect W Exception (Unit {0})
  create_http_route name body location =
      create_resource tenacity api.http_routes project name body location

  unfoldable pub get_http_route :
      (name : String) → (location : Option String) → Effect W Exception HttpRoute
  get_http_route name location = do
    response ←
        get_resource tenacity api.http_routes project
          (resource_full_name project name "httpRoutes" location)
    lift (http_route name response)

  unfoldable pub delete_http_route :
      (name : String) → (location : Option String) → Effect W Exception Bool
  delete_http_route name location =
      delete_resource tenacity api.http_routes project
        (resource_full_name project name "httpRoutes" location)
