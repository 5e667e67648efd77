-- ===== src/Runners/Starts/Steps.antt =====
-- The steps of a run leave the times of its start and stop alone: framework/test_app/runners/k8s.
use psm_interop.Retryers.Tenacity.{Tenacity}
use psm_interop.Common.{ℕ, String, refl, Option, List, [], ◌∷◌, arith}
use psm_interop.Common.Effects.{pure, ◌>>=◌, ◌>>◌}
use psm_interop.Objects.{change, itself, given}
use psm_interop.Objects.Keeps.{Keeps, bind-Keeps, read-Keeps, given-Keeps}
use psm_interop.K8s.{K8sApi, Deployment}
use psm_interop.Gcp.Iam.Service.{IamApi}
use psm_interop.Runners.{Runner, start_completed}
use psm_interop.Runners.Creations
use psm_interop.Runners.Pods
use psm_interop.Runners.Client
use psm_interop.Runners.Creations.{start_pods}
use psm_interop.Runners.Manifests.{Vars, Cluster}
use psm_interop.Runners.Starts.{pending}

module _ {W Body : Type 0} (tenacity : Tenacity) (api : K8sApi W) (iam : IamApi W Body)
    (project : String) (cluster : Cluster W) where
  pub grant_workload_identity_user-Keeps :
      Keeps pending (Creations.grant_workload_identity_user tenacity api iam project cluster)
  unfolding Creations.grant_workload_identity_user Keeps
  grant_workload_identity_user-Keeps s = refl

  pub create_service_account-Keeps :
      (vars : Vars)
      → Keeps pending (Creations.create_service_account tenacity api iam project cluster vars)
  unfolding Creations.create_service_account Creations.make Keeps
  create_service_account-Keeps vars s = refl

  pub setup_workload_identity-Keeps :
      (vars : Vars)
      → Keeps pending (Creations.setup_workload_identity tenacity api iam project cluster vars)
  unfolding Creations.setup_workload_identity Creations.grant_workload_identity_user
      Creations.create_service_account Creations.make Keeps
  setup_workload_identity-Keeps vars s = ground arith

  pub create_deployment-Keeps :
      (id : Option String) (vars : Vars)
      → Keeps pending (Creations.create_deployment tenacity api iam project cluster id vars)
  unfolding Creations.create_deployment Creations.make Keeps
  create_deployment-Keeps id vars s = refl

  pub setup_csm_observability-Keeps :
      (vars : Vars)
      → Keeps pending (Creations.setup_csm_observability tenacity api iam project cluster vars)
  unfolding Creations.setup_csm_observability Creations.make Keeps
  setup_csm_observability-Keeps vars s = ground arith

  pub wait_deployment_pod_count-Keeps :
      (deployment : Deployment) (count : ℕ)
      → Keeps pending
          (Creations.wait_deployment_pod_count tenacity api iam project cluster deployment count)
  unfolding Creations.wait_deployment_pod_count Keeps
  wait_deployment_pod_count-Keeps deployment count s = ground arith

  pub wait_pod_started-Keeps :
      (name : String)
      → Keeps pending (Creations.wait_pod_started tenacity api iam project cluster name)
  unfolding Creations.wait_pod_started Keeps
  wait_pod_started-Keeps name s = ground arith

  pub start_pods-Keeps :
      (names : List String) → Keeps pending (start_pods tenacity api iam project cluster names)
  unfolding start_pods Keeps Pods.pod_started_logic
  start_pods-Keeps [] s = refl
  start_pods-Keeps (name ∷ names) s =
      bind-Keeps pending (Creations.wait_pod_started tenacity api iam project cluster name)
        (λ pod. do
          change (Pods.pod_started_logic pod)
          start_pods tenacity api iam project cluster names)
        (wait_pod_started-Keeps name)
        (λ pod t.
          start_pods-Keeps names (record t { manager = Pods.pod_started_logic pod t.manager }))
        s

  pub wait_deployment_with_available_replicas-Keeps :
      (name : String) (count : ℕ)
      → Keeps pending (
          Creations.wait_deployment_with_available_replicas tenacity api iam project cluster name
            count)
  unfolding Creations.wait_deployment_with_available_replicas Keeps
  wait_deployment_with_available_replicas-Keeps name count s = ground arith

  pub start_completed-Keeps : Keeps pending (start_completed cluster.now)
  unfolding start_completed Keeps
  start_completed-Keeps s = refl

  pub start_deployment_pods-Keeps :
      (replica_count : ℕ)
      → Keeps pending
          (Creations.start_deployment_pods tenacity api iam project cluster replica_count)
  unfolding Creations.start_deployment_pods
  start_deployment_pods-Keeps replica_count = read-Keeps pending _ (λ m.
      bind-Keeps pending (given m.deployment) _ (given-Keeps _ _ m.deployment) (λ deployment.
        bind-Keeps pending _ _ (wait_deployment_pod_count-Keeps deployment replica_count) (λ names.
          bind-Keeps pending _ _ (start_pods-Keeps names) (λ _.
            bind-Keeps pending _ _
              (wait_deployment_with_available_replicas-Keeps m.config.deployment_name replica_count)
              (λ _. start_completed-Keeps)))))

  pub first-Keeps : {A : Type 0} (list : List A) → Keeps {W = W} pending (Client.first list)
  unfolding Keeps
  first-Keeps [] s = refl
  first-Keeps (a ∷ rest) s = refl

  pub read_out-Keeps :
      {A : Type 0} (f : Runner → A) → Keeps {W = W} pending (do m ← itself; pure (f m))
  unfolding Keeps
  read_out-Keeps f s = refl

  pub make_clients_for_deployment-Keeps :
      (replica_count : ℕ) (server_target : String)
      → Keeps pending (
          Client.make_clients_for_deployment tenacity api iam project cluster replica_count
            server_target)
  unfolding Client.make_clients_for_deployment
  make_clients_for_deployment-Keeps replica_count server_target =
      bind-Keeps pending _ _ (start_deployment_pods-Keeps replica_count) (λ _. read_out-Keeps _)
