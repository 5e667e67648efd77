-- ===== src/Runners/Samples.antt =====
-- Runs, cleanups and deletions on a concrete cluster.
use psm_interop.Errors.{value_error, etag_conflict, runtime_error}
use psm_interop.Common.{ℕ, suc, ◌≡◌, refl, true, false, none, some, [], ◌∷◌}
use psm_interop.Common.Effects.{returned, raised}
use psm_interop.Objects.{Object}
use psm_interop.Retryers.Loop.{loop}
use psm_interop.Gcp.Iam.Service.{IamApi}
use psm_interop.K8s.{Pod}
use psm_interop.K8s.Waits.Samples.{api, times}
use psm_interop.K8s.Namespaces.RouteKind.{grpc}
use psm_interop.Runners.{Runner, RunnerConfig, may_run}
use psm_interop.Runners.Creations.{base_run}
use psm_interop.Runners.Manifests.{Cluster, created_deployment}
use psm_interop.Runners.Client
use psm_interop.Runners.Server
use psm_interop.Runners.Pods.Moves.{IsNotStarted}
use psm_interop.Runners.Deletions.{delete_pod}
use psm_interop.Runners.Deletions.Tolerance.{delete_pod-IsNotStarted}
use psm_interop.Runners.Again.{Ended, client_cleanup-Ended, server_cleanup-Ended}
use psm_interop.Runners.Gamma.{GammaRunner, gamma_cleanup}
use psm_interop.Runners.Again.Gammas.{gamma_cleanup-Ended}
use psm_interop.Runners.Starts.{Starts}
use psm_interop.Runners.Starts.Runs.{client_run-Starts, server_run-Starts}

abbrev iam : IamApi ℕ (Unit {0})
iam = record {
  get_iam_policy = λ _ _ w. (raised etag_conflict, suc w);
  set_iam_policy = λ _ _ w. (raised etag_conflict, suc w);
  add_attestation_rule = λ _ _ w. (returned tt, suc w);
  remove_attestation_rule = λ _ _ w. (returned tt, suc w);
}

abbrev config : RunnerConfig
config = record {
  namespace_name = "ns";
  deployment_name = "d";
  namespace_template = "namespace.yaml";
  deployment_template = "client.deployment.yaml";
  service_account_template = "service-account.yaml";
  service_template = "server.service.yaml";
  reuse_namespace = true;
  reuse_service = false;
  service_name = "s";
  gcp_service_account = "account";
  service_account_name = "a";
  enable_workload_identity = false;
  workload_identity_iam_policy_binding = false;
  enable_csm_observability = false;
  stats_port = 8079;
}

abbrev pod : Pod
pod = record { pod_name = "pod"; phase = some "Running"; pod_ip = none }

abbrev cluster : Cluster ℕ
cluster = record {
  create = λ template vars w. (
    returned (
        created_deployment
          (record { deployment_name = "d"; match_labels = []; available_replicas = none })),
    suc w,
  );
  stop_dependencies = λ w. (returned tt, w);
  now = λ w. w;
  rand_string = λ w. "r";
  loads = λ text. raised value_error;
}

abbrev running : Object Runner ℕ
running = record {
  manager = record {
    config = config;
    run_history = [];
    namespace = none;
    deployment =
        some (record { deployment_name = "d"; match_labels = []; available_replicas = none });
    deployment_id = some "d-r";
    service_account = none;
    pods_started = ("pod", pod) ∷ [];
    pods_stopping = [];
    pods_stopped = [];
    time_start_requested = some 0;
    time_start_completed = some 1;
    time_stopped = none;
    pod_monitoring = none;
    pod_monitoring_name = none;
    service = none;
    replica_count = 0;
  };
  world = 0;
}

-- The pod is not there when its deletion has been awaited: it has stopped.
delete_pod-IsNotStarted_example :
    IsNotStarted "pod" (delete_pod loop api "ns" "pod" none true true running).1.manager
delete_pod-IsNotStarted_example = delete_pod-IsNotStarted loop api "ns" "pod" none true true running

client_cleanup-Ended_example :
    Ended running.manager
      (Client.client_cleanup loop api iam "p" cluster times false false running).1.manager
client_cleanup-Ended_example =
    client_cleanup-Ended loop api iam "p" cluster times false false running

server_cleanup-Ended_example :
    Ended running.manager
      (Server.server_cleanup loop api iam "p" cluster times true false running).1.manager
server_cleanup-Ended_example =
    server_cleanup-Ended loop api iam "p" cluster times true false running

client_run-Starts_example :
    Starts cluster.now (Client.run loop api iam "p" cluster [] "xds:///s:80")
client_run-Starts_example = client_run-Starts loop api iam "p" cluster [] "xds:///s:80"

server_run-Starts_example :
    Server.run loop api iam "p" cluster [] 8080 none false 1 running
    ≡ (raised runtime_error, running)
server_run-Starts_example = server_run-Starts loop api iam "p" cluster [] 8080 none false 1 running

refused : base_run loop api iam "p" cluster [] running ≡ (raised runtime_error, running)
unfolding base_run may_run
refused = refl

abbrev gamma : Object GammaRunner ℕ
gamma = record {
  manager = record {
    base = running.manager;
    route_kind = grpc;
    route_name = "route";
    frontend_service_name = "f";
    route = none;
    frontend_service = none;
    session_affinity_filter = none;
    session_affinity_policy = none;
    backend_policy = none;
  };
  world = 0;
}

gamma_cleanup-Ended_example :
    Ended running.manager
      (gamma_cleanup loop api iam "p" cluster times false false gamma).1.manager.base
gamma_cleanup-Ended_example = gamma_cleanup-Ended loop api iam "p" cluster times false false gamma
