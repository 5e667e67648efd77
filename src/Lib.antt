-- ===== src/Lib.antt =====
-- The framework of the xDS interoperability tests of gRPC: what makes, watches and deletes the Traffic Director
-- resources of a test, what runs the test applications on Kubernetes, and what asks them how they do, down to
-- the requests and their retries.
--
-- The parts, and how they interact. TrafficDirectorManager (framework/infrastructure/traffic_director.py)
-- makes the resources of a test in dependency order, keeps them in its fields, and deletes them; the secure,
-- the AppNet and the mesh managers extend it. They call ComputeV1 (framework/infrastructure/gcp/compute.py),
-- which sends the requests and waits for operations, network endpoint groups and healthy backends, and the
-- clients of network services and network security. IamV1 (framework/infrastructure/gcp/iam.py) reads,
-- updates and writes the policies of service accounts under concurrent writers. All are clients of
-- GcpProjectApiResource (framework/infrastructure/gcp/api.py), which decides what is retried and what an
-- error becomes, with the policies of framework/helpers/retryers.py. The runners
-- (framework/test_app/runners/k8s) start and stop a test application through KubernetesNamespace
-- (framework/infrastructure/k8s.py) and IamV1. XdsTestClient and XdsTestServer (framework/test_app) look into
-- a running application with the Channelz client (framework/rpc/grpc_channelz.py).
--
-- Which file models which part:
--   Common           shared names; Tests, Lists; Effects: a call as a function of the world around it to
--                    an outcome, a value or a raised exception, and the world after it; Json: bodies;
--                    Decimal: str() of a natural number
--   Errors           the exceptions and the classes of them that the code tests for
--   Dicts            the reading of dicts: subscripts, iteration, missing keys
--   Objects          methods of a class as functions on an object, its fields and the world; Keeps: the
--                    fields that a method leaves as they were
--   Retryers         retryers.py: _build_retry_conditions, the three policies, _safe_check_result and the
--                    error callback. Tenacity: the contract of tenacity's loop; Policies: what the
--                    policies then do; Loop: a loop that meets the contract
--   Gcp.Api          api.py: _is_retryable_api_error, _get_api_retryer, ResponseError, _execute
--   Gcp.Standard     api.py: GcpStandardCloudApiResource, the clients with long operations; Gcp.Throttled:
--                    _NetworkServicesBase of network_services.py, which repeats throttled operations
--   Gcp.NetworkServices, Gcp.NetworkSecurity
--                    network_services.py and network_security.py: the methods and the parsed resources
--   Gcp.Compute      compute.py: _execute, _wait, the five _*_resource methods; Bodies: what is sent;
--                    Methods, Groups: the public methods; Health: wait_for_backends_healthy_status, its
--                    sets in Sets, its attempts in Rounds and Seen, the answers in Answers;
--                    Completion: what the changes wait for
--   Gcp.Iam          iam.py: Expr, Policy, Binding, _replace_binding, and the updates between read and
--                    write; Responses: from_response and as_dict; Service: IamV1 and handle_etag_conflict
--   TrafficDirector  traffic_director.py: the manager's fields as a record, its methods as functions on
--                    it. Backends, OtherBackends, Routing, Forwarding, Firewall: the methods per kind of
--                    resource; Lifecycle: setup_for_grpc and cleanup; Extended: what the managers that
--                    extend it share; Secure, AppNet; Meshes: mesh_resource_manager
--   K8s              k8s.py. Manager: the calls of KubernetesApiManager and their repetition;
--                    Namespaces: reads and deletions of KubernetesNamespace; Waits: its waits
--   Runners          test_app/runners/k8s: the state of a run. Pods: the dicts of pods; Deletions,
--                    Manifests, Creations: k8s_base_runner.py; Client, Server, Gamma: the three runners;
--                    Again, Starts: when a runner may run
--   Rpc              Channelz: grpc_channelz.py, its pages in Paging; Client: client_app.py; Server:
--                    server_app.py
--   Cleanup          bin/cleanup/cleanup.py, the script that deletes what old tests have left: the rules
--                    and the loops over leaked resources and namespaces; Legacy: the calls of gcloud
--
-- A method of the code is the function of its name, less a leading underscore. A Python set is the list
-- of its elements in the order of iteration; a set of policy bindings is compared by what it gives. An
-- argument that may be None, and is tested for truth only, is its empty value for None.
--
-- Parameters. googleapiclient's requests are the fields of ComputeApi and IamApi, those of the Kubernetes
-- client the fields of K8sApi, the creation of objects from templates a field of Cluster, and the generated
-- stub of channelz the fields of ChannelzApi, all arbitrary functions of the world. json.loads, for the annotation
-- of a service, is a field of Cluster. The loop of tenacity is the record Tenacity: a loop `run` with a proof
-- that each run of it is a series of attempts as tenacity documents them: an attempt is made again only if the retry condition holds and no stop condition must; it
-- ends in a RetryError, or the attempt's own error, only if one may. Time is not modelled: a time limit may
-- stop a loop after any attempt. A service account's policy store is assumed to be faithful: what was
-- written is what is read next. The ports that random.randint draws are given.
--
-- Fuel. The loops of the code are structural recursions on the lists and counts that they run over, and a run
-- of tenacity's loop is finite by its contract. Only the listings of channelz, which follow a server's pages,
-- are bounded, by a number of pages; for a server that lists finitely many items, one page more than these
-- is enough.
--
-- Not modelled: logging and messages, the debug header, credentials and discovery in GcpApiManager,
-- ServiceAccount, Cloud Run, the rendering of Kubernetes manifests, port forwarding, log collection and pre-stop
-- hooks, the versions that skips.py compares, the statistics of the load balancer and the CSDS client, the test
-- cases, and the other command line tools: network I/O, threads and text for messages, or callers of what is
-- modelled.
pub mod Common
pub mod Errors
pub mod Dicts
pub mod Objects
pub mod Retryers
pub mod Gcp
pub mod K8s
pub mod Rpc
pub mod Runners
pub mod TrafficDirector
pub mod Cleanup
