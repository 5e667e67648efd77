-- ===== src/Cleanup/Legacy.antt =====
-- bin/cleanup/cleanup.py: the calls of gcloud, and what they delete of the legacy driver's resources. The
-- process is a parameter: its command line in, and how it ended out. Its output is read as a list of names.
use Prim.Native.String.{◌++◌}
use psm_interop.Common.{
  ℕ, String, Option, none, List, [], ◌∷◌, ◌++◌ as ◌<+>◌, ◌==◌, contains, if◌then◌else◌,
}
use psm_interop.Common.Effects.{Effect, pure, ◌>>=◌, ◌>>◌}
use psm_interop.Errors.{Exception}

pub data Process : Type 0 where
  timed_out : Process
  exited : (returncode : ℕ) → (stdout : Option (List String)) → Process

-- None for a time-out, a failure and an empty output alike.
unfoldable pub answer : Process → Option (List String)
answer timed_out = none
answer (exited code stdout) = if code == 0 then stdout else none

module _ {W : Type 0} (gcloud : List String → Effect W Exception Process) (program expire : String)
    (project : String) where
  abbrev shaped : List String → List String
  shaped cmds =
      if contains "list" cmds
      then cmds <+> ("--format" ∷ "json" ∷ "--filter" ∷ ("creationTimestamp <= " ++ expire) ∷ [])
      else cmds

  unfoldable pub exec_gcloud : List String → Effect W Exception (Option (List String))
  exec_gcloud cmds = do
    process ← gcloud (shaped (program ∷ "--project" ∷ project ∷ "--quiet" ∷ cmds))
    pure (answer process)

  abbrev run_all : List (List String) → Effect W Exception (Unit {0})
  run_all [] = pure tt
  run_all (cmds ∷ rest) = do exec_gcloud cmds; run_all rest

  abbrev delete_global : (collection name : String) → List String
  delete_global collection name = "compute" ∷ collection ∷ "delete" ∷ name ∷ "--global" ∷ []

  abbrev delete_plain : (collection name : String) → List String
  delete_plain collection name = "compute" ∷ collection ∷ "delete" ∷ name ∷ []

  abbrev delete_group : (name zone : String) → List String
  delete_group name zone =
      "compute" ∷ "instance-groups" ∷ "managed" ∷ "delete" ∷ name ∷ "--zone" ∷ zone ∷ []

  unfoldable pub cleanup_legacy_driver_resources : (suffix : String) → Effect W Exception (Unit {0})
  cleanup_legacy_driver_resources suffix = run_all (
      delete_global "forwarding-rules" ("test-forwarding-rule" ++ suffix)
      ∷ delete_plain "target-http-proxies" ("test-target-proxy" ++ suffix)
      ∷ ("alpha" ∷ delete_plain "target-grpc-proxies" ("test-target-proxy" ++ suffix))
      ∷ delete_plain "url-maps" ("test-map" ++ suffix)
      ∷ delete_global "backend-services" ("test-backend-service" ++ suffix)
      ∷ delete_global "backend-services" ("test-backend-service-alternate" ++ suffix)
      ∷ delete_global "backend-services" ("test-backend-service-extra" ++ suffix)
      ∷ delete_global "backend-services" ("test-backend-service-more-extra" ++ suffix)
      ∷ delete_plain "firewall-rules" ("test-fw-rule" ++ suffix)
      ∷ delete_plain "health-checks" ("test-hc" ++ suffix)
      ∷ delete_group ("test-ig" ++ suffix) "us-central1-a"
      ∷ delete_group ("test-ig-same-zone" ++ suffix) "us-central1-a"
      ∷ delete_group ("test-ig-secondary-zone" ++ suffix) "us-west1-b"
      ∷ delete_plain "instance-templates" ("test-template" ++ suffix)
      ∷ [])
