-- ===== src/TrafficDirector/Extended/Samples.antt =====
-- The managers that extend TrafficDirectorManager on concrete clouds.
use psm_interop.Objects.{Object}
use psm_interop.Errors.{Exception, key_error}
use psm_interop.Common.Effects.{Outcome, returned, raised}
use psm_interop.Common.{ℕ, suc, ◌≡◌, refl, true, false, none, some}
use psm_interop.Common.Json.{Json, Fields, end, field, str}
use psm_interop.Retryers.{exponential_retryer_with_attempts}
use psm_interop.Retryers.Tenacity.{wants_retry, asks}
use psm_interop.Retryers.Loop.{loop}
use psm_interop.Gcp.Api.{get_api_retryer}
use psm_interop.Gcp.Compute.{ComputeApi, Operation, operation_retryer}
use psm_interop.Gcp.Standard.{LongOperation, StandardApi, operation_status_done, wait, get_resource}
use psm_interop.Gcp.Standard
use psm_interop.Gcp.Throttled.{execute, internal_retryer, create_resource}
use psm_interop.Gcp.NetworkServices.{NetworkServicesApi}
use psm_interop.Gcp.NetworkServices
use psm_interop.Gcp.NetworkServices.Resources.{endpoint_policy}
use psm_interop.Gcp.NetworkSecurity.{NetworkSecurityApi}
use psm_interop.Gcp.NetworkSecurity
use psm_interop.Gcp.NetworkSecurity.Policies.{server_tls_policy}
use psm_interop.TrafficDirector.{Settings}
use psm_interop.TrafficDirector.Extended.Requests.{Fulfils}
use psm_interop.TrafficDirector.Lifecycle.Cleanup.{cleared}
use psm_interop.TrafficDirector.Secure.{
  SecureManager, new_secure_manager, secure_cleanup, setup_server_security,
  create_server_tls_policy, create_endpoint_policy, setup_client_security, create_client_tls_policy,
  backend_service_apply_client_mtls_policy,
}
use psm_interop.TrafficDirector.Secure.Teardown.{
  secure_requests, without_policies, secure_cleanup-Fulfils,
}
use psm_interop.TrafficDirector.Secure.Attachment.{Asked, setup_server_security-Asked}
use psm_interop.TrafficDirector.AppNet.Teardown.{without_routes}
use psm_interop.TrafficDirector.Meshes.{
  CloudRunMeshManager, SpiffeMeshManager, new_cloud_run_mesh_manager, new_spiffe_mesh_manager,
  cloud_run_cleanup, spiffe_cleanup,
}
use psm_interop.TrafficDirector.Meshes.Teardown.{
  cloud_run_requests, cloud_run_cleanup-Fulfils, spiffe_requests, spiffe_cleanup-Fulfils,
  without_mesh,
}

abbrev operation : Operation
operation = record {
  name = some "op";
  status = some "DONE";
  error = none;
  target_link = some "url";
}

-- The clouds count the requests.
abbrev compute : ComputeApi ℕ
compute = record {
  insert = λ _ _ _ w. (returned operation, suc w);
  patch = λ _ _ _ _ w. (returned operation, suc w);
  delete = λ _ _ _ w. (returned operation, suc w);
  get = λ _ _ _ w. (raised key_error, suc w);
  list = λ _ _ _ w. (raised key_error, suc w);
  get_operation = λ _ _ w. (returned operation, suc w);
  get_health = λ _ _ _ _ w. (raised key_error, suc w);
  get_neg = λ _ _ w. (raised key_error, suc w);
}

abbrev over : LongOperation
over = record { name = some "op"; done = some true; error = none }

abbrev resource : Fields
resource = field "name" (str "projects/p/n") (
    field "type" (str "GRPC_SERVER") (
      field "trafficPortSelector" (str "") (
        field "endpointMatcher" (str "")
          (field "updateTime" (str "") (field "createTime" (str "") end)))))

abbrev collection : StandardApi ℕ Fields
collection = record {
  create = λ _ _ _ w. (returned over, suc w);
  get = λ _ w. (returned resource, suc w);
  delete = λ _ w. (returned over, suc w);
  get_operation = λ _ w. (returned over, suc w);
}

abbrev netsvc : NetworkServicesApi ℕ
netsvc = record {
  endpoint_policies = collection;
  meshes = collection;
  grpc_routes = collection;
  http_routes = collection;
}

abbrev netsec : NetworkSecurityApi ℕ
netsec = record {
  server_tls_policies = collection;
  client_tls_policies = collection;
  authorization_policies = collection;
}

abbrev settings : Settings
settings = record {
  network = "default";
  resource_prefix = "psm";
  resource_suffix = "1";
  enable_dualstack = false;
  region = some "us-central1";
}

abbrev secure : Object SecureManager ℕ
secure = record { manager = new_secure_manager settings; world = 0 }

abbrev secured : Outcome Exception (Unit {0}) × Object SecureManager ℕ
secured = setup_server_security loop compute netsec netsvc "p" "ns" "server" 8080 true false secure

secured_returns : secured ≡ (returned tt, secured.1)
unfolding setup_server_security create_server_tls_policy NetworkSecurity.create_server_tls_policy
    create_resource execute loop internal_retryer wants_retry Standard.execute get_api_retryer
    exponential_retryer_with_attempts wait operation_retryer operation_status_done
    NetworkSecurity.get_server_tls_policy get_resource server_tls_policy psm_interop.Dicts.subscript
    psm_interop.Common.Decimal.decimal psm_interop.Common.Json.get_field
    psm_interop.Gcp.Api.is_retryable_api_error psm_interop.Gcp.Api.is_transport endpoint_policy
    NetworkServices.create_endpoint_policy NetworkServices.get_endpoint_policy Standard.parent
    Standard.resource_full_name psm_interop.Gcp.Throttled.operation_internal_error asks
    psm_interop.TrafficDirector.Secure.certificate_provider create_endpoint_policy
    psm_interop.TrafficDirector.Secure.endpoint_config
    psm_interop.TrafficDirector.Secure.server_policy psm_interop.TrafficDirector.make_resource_name
secured_returns = refl

setup_server_security-Asked_example :
    Asked loop compute netsec netsvc "p" "ns" "server" 8080
      (some "psm-server-tls-policy-1")
      (new_secure_manager settings)
unfolding setup_server_security psm_interop.TrafficDirector.make_resource_name new_secure_manager
    psm_interop.TrafficDirector.new_manager
setup_server_security-Asked_example =
    setup_server_security-Asked loop compute netsec netsvc "p" "ns" "server" 8080 true false secure
      secured.1 secured_returns

-- Without TLS no policy is made, and there is nothing to attach to the backend service.
no_client_policy :
    (setup_client_security loop compute netsec netsvc "p" "ns" "server" false false (record {
      manager = record (new_secure_manager settings) {
        base = record (new_secure_manager settings).base {
          backend_service = some (record { name = "b"; url = "u" });
        };
      };
      world = 0;
    })).1.world
    ≡ 0
unfolding setup_client_security create_client_tls_policy backend_service_apply_client_mtls_policy
    new_secure_manager
no_client_policy = refl

-- The force deletes the policies, although the manager has none.
secure_cleanup-Fulfils_example :
    Fulfils
      (secure_cleanup loop compute netsec netsvc "p" true)
      secure
      (secure_requests loop compute netsec netsvc "p" true secure.manager)
      (without_policies loop compute netsec netsvc "p" true
        (record secure.manager { base = cleared true secure.manager.base }))
secure_cleanup-Fulfils_example = secure_cleanup-Fulfils loop compute netsec netsvc "p" true secure

abbrev cloud_run : Object CloudRunMeshManager ℕ
cloud_run = record { manager = new_cloud_run_mesh_manager settings "us-west1"; world = 0 }

cloud_run_cleanup-Fulfils_example :
    Fulfils
      (cloud_run_cleanup loop compute netsvc "p" true)
      cloud_run
      (cloud_run_requests loop compute netsvc "p" true cloud_run.manager)
      (record cloud_run.manager {
        base = without_routes loop compute netsvc "p" "grpc-mesh" true cloud_run.manager.base;
        neg = none;
      })
cloud_run_cleanup-Fulfils_example = cloud_run_cleanup-Fulfils loop compute netsvc "p" true cloud_run

abbrev spiffe : Object SpiffeMeshManager ℕ
spiffe = record { manager = new_spiffe_mesh_manager settings; world = 0 }

spiffe_cleanup-Fulfils_example :
    Fulfils
      (spiffe_cleanup loop compute netsec netsvc "p" true)
      spiffe
      (spiffe_requests loop compute netsec netsvc "p" true spiffe.manager)
      (without_mesh loop compute netsec netsvc "p" true spiffe.manager)
spiffe_cleanup-Fulfils_example = spiffe_cleanup-Fulfils loop compute netsec netsvc "p" true spiffe
