-- ===== src/TrafficDirector/Routing.antt =====
-- framework/infrastructure/traffic_director.py: URL maps, target proxies and forwarding rules.
use Prim.Native.String.{◌++◌}
use psm_interop.Common.{ℕ, String, Bool, true, false, Option, none, some, [], ◌∷◌}
use psm_interop.Common.Effects.{pure, throw, ◌>>=◌, ◌>>◌}
use psm_interop.Common.Json.{Json}
use psm_interop.Common.Decimal.{decimal}
use psm_interop.Errors.{type_error}
use psm_interop.Retryers.Tenacity.{Tenacity}
use psm_interop.Gcp.Compute.{GcpResource, BackendServiceProtocol, http2, unset, ComputeApi}
use psm_interop.Gcp.Compute.Bodies.{url_map_body}
use psm_interop.Gcp.Compute.Methods
use psm_interop.TrafficDirector.{
  Settings, Manager, Method, cloud, self, update, the, make_resource_name, name_to_delete,
  delete_named,
}

-- `f"{src_host}:{src_port}"`
abbrev address : String → ℕ → String
address src_host src_port = src_host ++ ":" ++ decimal src_port

-- The proxy that `delete_target_http_proxy` takes for its own.
abbrev pub http_only : Bool → Option GcpResource → Option GcpResource
http_only true proxy = proxy
http_only false proxy = none

abbrev pub forget_proxy : Manager → Manager
forget_proxy m = record m { target_proxy = none; target_proxy_is_http = false }

module _ {W : Type 0} (tenacity : Tenacity) (api : ComputeApi W) where
  unfoldable pub create_url_map : String → (src_port : ℕ) → Method W GcpResource
  create_url_map src_host src_port = do
    m ← self
    service ← the m.backend_service
    resource ← cloud (
        Methods.create_url_map_with_content tenacity api
          (url_map_body (make_resource_name m.settings "url-map")
            (make_resource_name m.settings "path-matcher") (address src_host src_port ∷ []) service
            none)
          m.settings.region)
    update (λ m'. record m' { url_map = some resource })
    pure resource

  -- None for the map is an error when its name is read.
  unfoldable pub patch_url_map : String → (src_port : ℕ) → GcpResource → Method W (Unit {0})
  patch_url_map src_host src_port backend_service = do
    m ← self
    url_map ← the m.url_map
    cloud (
        Methods.patch_url_map tenacity api url_map
          (url_map_body (make_resource_name m.settings "url-map")
            (make_resource_name m.settings "path-matcher") (address src_host src_port ∷ [])
            backend_service none)
          m.settings.region)

  unfoldable pub create_url_map_with_content : Json → Method W GcpResource
  create_url_map_with_content url_map_body = do
    m ← self
    resource ←
        cloud (Methods.create_url_map_with_content tenacity api url_map_body m.settings.region)
    update (λ m'. record m' { url_map = some resource })
    pure resource

  unfoldable pub delete_url_map : (force : Bool) → Method W (Unit {0})
  delete_url_map force = do
    m ← self
    delete_named (name_to_delete force m.settings "url-map" m.url_map)
        (λ name. Methods.delete_url_map tenacity api name m.settings.region)
        (λ m'. record m' { url_map = none })

  abbrev or_default : Option GcpResource → Option GcpResource → Option GcpResource
  or_default none service = service
  or_default (some r) service = some r

  unfoldable pub create_alternative_url_map :
      String → (src_port : ℕ) → Option GcpResource → Method W GcpResource
  create_alternative_url_map src_host src_port backend_service = do
    m ← self
    service ← the (or_default backend_service m.alternative_backend_service)
    resource ← cloud (
        Methods.create_url_map_with_content tenacity api
          (url_map_body (make_resource_name m.settings "url-map-alt")
            (make_resource_name m.settings "path-matcher") (address src_host src_port ∷ []) service
            none)
          m.settings.region)
    update (λ m'. record m' { alternative_url_map = some resource })
    pure resource

  -- The field that is cleared is `url_map`.
  unfoldable pub delete_alternative_url_map : (force : Bool) → Method W (Unit {0})
  delete_alternative_url_map force = do
    m ← self
    delete_named (name_to_delete force m.settings "url-map-alt" m.alternative_url_map)
        (λ name. Methods.delete_url_map tenacity api name m.settings.region)
        (λ m'. record m' { url_map = none })

  abbrev pub create_proxy_of : BackendServiceProtocol → Settings → Method W (Unit {0})
  create_proxy_of BackendServiceProtocol.grpc settings = do
    update (λ m. record m { target_proxy_is_http = false })
    m ← self
    url_map ← the m.url_map
    resource ← cloud (
        Methods.create_target_grpc_proxy tenacity api (make_resource_name settings "target-proxy")
          url_map true)
    update (λ m'. record m' { target_proxy = some resource })
  create_proxy_of http2 settings = do
    update (λ m. record m { target_proxy_is_http = true })
    m ← self
    url_map ← the m.url_map
    resource ← cloud (
        Methods.create_target_http_proxy tenacity api (make_resource_name settings "target-proxy")
          url_map settings.region)
    update (λ m'. record m' { target_proxy = some resource })
  create_proxy_of unset settings = throw type_error

  unfoldable pub create_target_proxy : Method W (Unit {0})
  create_target_proxy = do m ← self; create_proxy_of m.backend_service_protocol m.settings

  unfoldable pub create_target_proxy_ipv6 : Method W (Unit {0})
  create_target_proxy_ipv6 = do
    m ← self
    url_map ← the m.url_map
    resource ← cloud (
        Methods.create_target_http_proxy tenacity api
          (make_resource_name m.settings "target-proxy-ipv6") url_map none)
    update (λ m'. record m' { target_proxy_ipv6 = some resource })

  unfoldable pub delete_target_grpc_proxy : (force : Bool) → Method W (Unit {0})
  delete_target_grpc_proxy force = do
    m ← self
    delete_named (name_to_delete force m.settings "target-proxy" m.target_proxy)
        (λ name. Methods.delete_target_grpc_proxy tenacity api name) forget_proxy

  unfoldable pub delete_target_http_proxy : (force : Bool) → Method W (Unit {0})
  delete_target_http_proxy force = do
    m ← self
    delete_named
        (name_to_delete force m.settings "target-proxy"
          (http_only m.target_proxy_is_http m.target_proxy))
        (λ name. Methods.delete_target_http_proxy tenacity api name m.settings.region) forget_proxy

  unfoldable pub delete_target_proxy_ipv6 : (force : Bool) → Method W (Unit {0})
  delete_target_proxy_ipv6 force = do
    m ← self
    delete_named (name_to_delete force m.settings "target-proxy-ipv6" m.target_proxy_ipv6)
        (λ name. Methods.delete_target_http_proxy tenacity api name none)
        (λ m'. record m' { target_proxy_ipv6 = none })

  abbrev create_alternative_proxy_of : BackendServiceProtocol → Method W (Unit {0})
  create_alternative_proxy_of BackendServiceProtocol.grpc = do
    m ← self
    url_map ← the m.alternative_url_map
    resource ← cloud (
        Methods.create_target_grpc_proxy tenacity api
          (make_resource_name m.settings "target-proxy-alt") url_map false)
    update (λ m'. record m' { alternative_target_proxy = some resource })
  create_alternative_proxy_of _ = throw type_error

  unfoldable pub create_alternative_target_proxy : Method W (Unit {0})
  create_alternative_target_proxy = do
    m ← self
    create_alternative_proxy_of m.backend_service_protocol

  unfoldable pub delete_alternative_target_grpc_proxy : (force : Bool) → Method W (Unit {0})
  delete_alternative_target_grpc_proxy force = do
    m ← self
    delete_named (name_to_delete force m.settings "target-proxy-alt" m.alternative_target_proxy)
        (λ name. Methods.delete_target_grpc_proxy tenacity api name)
        (λ m'. record m' { alternative_target_proxy = none })
