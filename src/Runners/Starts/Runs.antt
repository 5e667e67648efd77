-- ===== src/Runners/Starts/Runs.antt =====
-- What a whole run leaves, on every path: framework/test_app/runners/k8s.
use psm_interop.Runners.Starts.Steps.{
  setup_workload_identity-Keeps, create_deployment-Keeps, setup_csm_observability-Keeps,
  start_deployment_pods-Keeps, first-Keeps, read_out-Keeps, make_clients_for_deployment-Keeps,
}
use psm_interop.Errors.{Exception, value_error}
use psm_interop.Retryers.Tenacity.{Tenacity}
use psm_interop.Common.{
  sym, ◌||◌, subst, not, ◌&&◌, ◌==◌, if◌then◌else◌, ◌≡◌, ap, true, false, ℕ, String, refl, Bool,
  Option, none, some, List, arith, map,
}
use psm_interop.Common.Effects.{continue, Outcome, returned, raised}
use psm_interop.Objects.{Object, change}
use psm_interop.Objects.Keeps.{Keeps, bind-Keeps, read-Keeps, change-Keeps}
use psm_interop.K8s.{K8sApi}
use psm_interop.Gcp.Iam.Service.{IamApi}
use psm_interop.Runners.{RunnerMethod, Runner}
use psm_interop.Runners.Creations
use psm_interop.Runners.Client
use psm_interop.Runners.Server
use psm_interop.Runners.Creations.{start_pods}
use psm_interop.Runners.Manifests.{Vars, Cluster}
use psm_interop.Runners.Starts.{RunEnds, pending, Starts, bind-Starts, base_run-Starts}

-- The arguments that a server runner refuses.
abbrev pub refuses :
    (secure_mode enable_workload_identity : Bool) → (test_port maintenance_port : ℕ) → Bool
refuses secure_mode enable_workload_identity test_port maintenance_port =
    secure_mode && (maintenance_port == test_port || not enable_workload_identity)

check_ports-eq-refuses :
    (secure_mode enable_workload_identity : Bool) (test_port maintenance_port : ℕ)
    → Server.check_ports secure_mode enable_workload_identity test_port maintenance_port ≡ (
        if refuses secure_mode enable_workload_identity test_port maintenance_port
        then raised value_error
        else returned tt)
unfolding Server.check_ports
check_ports-eq-refuses true true test_port maintenance_port = ground arith
check_ports-eq-refuses true false test_port maintenance_port = ground arith
check_ports-eq-refuses false b test_port maintenance_port = refl

-- How a run of a server runner may end: where its arguments are refused, with ValueError, and nothing has
-- changed; where not, as every run.
abbrev pub ServerRunEnds :
    {W A : Type 0}
    → (now : W → ℕ) → (refused : Bool) → Object Runner W
    → Outcome Exception A × Object Runner W
    → Type 0
ServerRunEnds now true s end = end ≡ (raised value_error, s)
ServerRunEnds now false s end =
    RunEnds now s.manager.time_stopped s.manager.time_start_requested s end

module _ {W Body : Type 0} (tenacity : Tenacity) (api : K8sApi W) (iam : IamApi W Body)
    (project : String) (cluster : Cluster W) where
  -- Where a start is requested and no stop is recorded, a run of a client runner is refused: it raises
  -- RuntimeError and changes nothing. Where not, it leaves, however it ends, the time of its own start as
  -- requested and no stop recorded, so that a second run is refused.
  pub client_run-Starts :
      (vars : Vars) (server_target : String)
      → Starts cluster.now (Client.run tenacity api iam project cluster vars server_target)
  unfolding Client.run
  client_run-Starts vars server_target =
      bind-Starts cluster.now _ _ (base_run-Starts tenacity api iam project cluster vars) (λ _.
        bind-Keeps pending _ _ (setup_workload_identity-Keeps tenacity api iam project cluster vars)
          (λ _.
            bind-Keeps pending _ _
              (create_deployment-Keeps tenacity api iam project cluster none vars)
              (λ deployment.
                bind-Keeps pending (change (λ m. record m { deployment = some deployment })) _
                  (change-Keeps _ _ _ (λ m. refl))
                  (λ _.
                    bind-Keeps pending _ _
                      (setup_csm_observability-Keeps tenacity api iam project cluster vars)
                      (λ _.
                        bind-Keeps pending _ _
                          (make_clients_for_deployment-Keeps tenacity api iam project cluster 1
                            server_target)
                          (λ clients. first-Keeps tenacity api iam project cluster clients))))))

  setup_service-Keeps :
      (vars : Vars) → Keeps pending (Server.setup_service tenacity api iam project cluster vars)
  unfolding Server.setup_service Creations.create_service Creations.make Keeps
  setup_service-Keeps vars s = ground arith

  wait_service_neg_status_annotation-Keeps :
      (service_name : String) (service_port timeout_sec : ℕ)
      → Keeps pending (
          Creations.wait_service_neg_status_annotation tenacity api iam project cluster service_name
            service_port timeout_sec)
  unfolding Creations.wait_service_neg_status_annotation Keeps
  wait_service_neg_status_annotation-Keeps service_name service_port timeout_sec s = ground arith

  make_servers_for_deployment-Keeps :
      (replica_count test_port maintenance_port : ℕ) (secure_mode : Bool)
      → Keeps pending (
          Server.make_servers_for_deployment tenacity api iam project cluster replica_count
            test_port maintenance_port secure_mode)
  unfolding Server.make_servers_for_deployment
  make_servers_for_deployment-Keeps replica_count test_port maintenance_port secure_mode =
      bind-Keeps pending _ _
        (start_deployment_pods-Keeps tenacity api iam project cluster replica_count)
        (λ _.
          bind-Keeps pending (change (λ m. record m { replica_count = replica_count })) _
            (change-Keeps _ _ _ (λ m. refl))
            (λ _. read_out-Keeps tenacity api iam project cluster (λ m.
              map
                (λ entry.
                  Server.xds_test_server_for_pod test_port maintenance_port secure_mode entry.1)
                m.pods_started)))

  -- What a run of a server runner does after its checks.
  checked_run-Starts :
      (vars : Vars) (test_port maintenance_port replica_count : ℕ) (secure_mode : Bool)
      → Starts cluster.now (
          Server.checked_run tenacity api iam project cluster vars test_port maintenance_port
            secure_mode replica_count)
  unfolding Server.checked_run
  checked_run-Starts vars test_port maintenance_port replica_count secure_mode =
      bind-Starts cluster.now _ _ (base_run-Starts tenacity api iam project cluster vars) (λ _.
        bind-Keeps pending _ _ (setup_service-Keeps vars) (λ _. read-Keeps pending _ (λ m.
          bind-Keeps pending _ _
            (wait_service_neg_status_annotation-Keeps m.config.service_name test_port 60)
            (λ _.
              bind-Keeps pending _ _
                (setup_workload_identity-Keeps tenacity api iam project cluster vars)
                (λ _.
                  bind-Keeps pending _ _
                    (create_deployment-Keeps tenacity api iam project cluster none vars)
                    (λ deployment.
                      bind-Keeps pending (change (λ m'. record m' { deployment = some deployment }))
                        _ (change-Keeps _ _ _ (λ m'. refl))
                        (λ _.
                          bind-Keeps pending _ _
                            (setup_csm_observability-Keeps tenacity api iam project cluster vars)
                            (λ _.
                              make_servers_for_deployment-Keeps replica_count test_port
                                maintenance_port secure_mode))))))))

  -- A run of a server runner in secure mode raises ValueError and changes nothing where the maintenance port
  -- is the test port or workload identity is not enabled. Where a start is requested and no stop is recorded,
  -- any other run raises RuntimeError and changes nothing. Where not, it leaves, however it ends, the time of its
  -- own start as requested and no stop recorded, so that a second run is refused.
  pub server_run-Starts :
      (vars : Vars) (test_port : ℕ) (maintenance_port : Option ℕ) (secure_mode : Bool)
      (replica_count : ℕ) (s : Object Runner W)
      → ServerRunEnds cluster.now
          (refuses secure_mode s.manager.config.enable_workload_identity test_port
            (Server.maintenance_port_or_default secure_mode maintenance_port))
          s
          (Server.run tenacity api iam project cluster vars test_port maintenance_port secure_mode
            replica_count s)
  unfolding Server.run Starts
  server_run-Starts vars test_port maintenance_port secure_mode replica_count s =
      split (refuses secure_mode s.manager.config.enable_workload_identity test_port port)
        (Server.check_ports secure_mode s.manager.config.enable_workload_identity test_port port)
        (check_ports-eq-refuses secure_mode s.manager.config.enable_workload_identity test_port
          port)
    where
      port : ℕ
      port = Server.maintenance_port_or_default secure_mode maintenance_port

      checked : RunnerMethod W (List Server.XdsTestServer)
      checked =
          Server.checked_run tenacity api iam project cluster vars test_port port secure_mode
            replica_count

      split :
          (refused : Bool) (o : Outcome Exception (Unit {0}))
          → o ≡ (if refused then raised value_error else returned tt)
          → ServerRunEnds cluster.now refused s (continue o (λ _. checked) s)
      split true o e = ap (λ x. continue x (λ _. checked) s) e
      split false o e =
          subst (λ x. ServerRunEnds cluster.now false s (continue x (λ _. checked) s)) (sym e)
            (checked_run-Starts vars test_port port replica_count secure_mode s)
