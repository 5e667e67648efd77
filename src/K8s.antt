-- ===== src/K8s.antt =====
-- framework/infrastructure/k8s.py: what is read of the objects of Kubernetes, and the calls of its client
-- library, which are parameters.
pub mod Manager
pub mod Namespaces
pub mod Waits
use psm_interop.Errors.{Exception}
use psm_interop.Common.{ℕ, String, Option, List}
use psm_interop.Common.Effects.{Effect}

abbrev pub Labels : Type 0
Labels = List (String × String)

pub record Service : Type 0 where
  pub service_name : String
  -- `metadata.annotations`
  pub annotations : Option Labels

pub record ServiceAccount : Type 0 where
  pub account_name : String

pub record Deployment : Type 0 where
  pub deployment_name : String
  -- `spec.selector.match_labels`
  pub match_labels : Labels
  -- `status.available_replicas`
  pub available_replicas : Option ℕ

pub record Pod : Type 0 where
  pub pod_name : String
  -- `status.phase`
  pub phase : Option String
  -- `status.pod_ip`
  pub pod_ip : Option String

pub record Namespace : Type 0 where
  pub namespace_name : String
  -- `status.phase`
  pub phase : Option String

-- An instance of a custom resource: its annotations, if it has metadata and annotations.
pub record DynResource : Type 0 where
  pub resource_name : String
  pub annotations : Option (Option Labels)

-- A dynamic_res.Resource: the requests for one kind of custom resources.
pub record DynApi (W : Type 0) : Type 0 where
  pub get : (name namespace : String) → Effect W Exception DynResource
  pub delete :
      (name namespace : String) → (grace_period_seconds : ℕ) → Effect W Exception (Unit {0})

-- The requests of client.CoreV1Api and AppsV1Api, the discovery of custom resources, and `reload`.
pub record K8sApi (W : Type 0) : Type 0 where
  pub read_service : (name namespace : String) → Effect W Exception Service
  pub read_service_account : (name namespace : String) → Effect W Exception ServiceAccount
  pub read_deployment : (name namespace : String) → Effect W Exception Deployment
  pub read_pod : (name namespace : String) → Effect W Exception Pod
  pub read_namespace : (name : String) → Effect W Exception Namespace
  pub list_pods : (namespace label_selector : String) → Effect W Exception (List Pod)
  pub delete_service :
      (name namespace : String) → (grace_period_seconds : ℕ) → Effect W Exception (Unit {0})
  pub delete_service_account :
      (name namespace : String) → (grace_period_seconds : ℕ) → Effect W Exception (Unit {0})
  pub delete_deployment :
      (name namespace : String) → (grace_period_seconds : ℕ) → Effect W Exception (Unit {0})
  pub delete_pod :
      (name namespace : String) → (grace_period_seconds : Option ℕ) → Effect W Exception (Unit {0})
  pub delete_namespace :
      (name : String) → (grace_period_seconds : ℕ) → Effect W Exception (Unit {0})
  pub discover : (api_version kind : String) → Effect W Exception (DynApi W)
  pub reload : Effect W Exception (Unit {0})
