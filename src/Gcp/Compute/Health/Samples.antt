-- ===== src/Gcp/Compute/Health/Samples.antt =====
-- The wait for healthy backends on concrete backends.
use psm_interop.Gcp.Compute.Health.Seen.{Seen}
use psm_interop.Gcp.Compute.Health.Answers.{OthersReported}
use psm_interop.Common.{
  ◌⊎◌, ℕ, suc, ◌≡◌, refl, String, true, false, none, some, List, [], ◌∷◌, length, leb, ◌||◌,
}
use psm_interop.Common.Effects.{returned, raised}
use psm_interop.Errors.{key_error}
use psm_interop.Retryers.{
  constant_retryer, build_retry_conditions, safe_check_result, error_handler,
}
use psm_interop.Retryers.Tenacity.{wants_retry}
use psm_interop.Retryers.Loop.{loop}
use psm_interop.Gcp.Compute.{GcpResource, Instance, Neg, ComputeApi, region_arg}
use psm_interop.Gcp.Compute.Health.{
  Checks, is_empty_set, retry_backends_health, wait_for_backends_healthy_status, get_backend_health,
  reports_healthy, visit, visit_all, mark_healthy, remove, add,
}
use psm_interop.Gcp.Compute.Health.Rounds.{
  retry_backends_health-returned, BreaksFor, attempts, healthy_rounds,
}
use psm_interop.Gcp.Compute.Health.Wait.{wait-healthy}

abbrev service : GcpResource
service = record { name = "backend-service"; url = "url" }

abbrev neg : String → Neg
neg name = record {
  name = name;
  url = name;
  zone = "zone";
  id = "1";
  size = 1;
  network_endpoint_type = "type";
  description = "";
}

-- Every call is answered by an error, but for those for the health of a backend, which are counted:
-- with this many of its instances healthy.
abbrev api : List Instance → ComputeApi ℕ
api instances = record {
  insert = λ _ _ _ w. (raised key_error, w);
  patch = λ _ _ _ _ w. (raised key_error, w);
  delete = λ _ _ _ w. (raised key_error, w);
  get = λ _ _ _ w. (raised key_error, w);
  list = λ _ _ _ w. (raised key_error, w);
  get_operation = λ _ _ w. (raised key_error, w);
  get_health = λ _ _ _ _ w. (returned (some instances), suc w);
  get_neg = λ _ _ w. (raised key_error, w);
}

abbrev healthy : List Instance
healthy = record { ip_address = "10.0.0.1"; port = 8080; health_state = "HEALTHY" } ∷ []

abbrev unhealthy : List Instance
unhealthy = record { ip_address = "10.0.0.1"; port = 8080; health_state = "UNHEALTHY" } ∷ []

abbrev start : List Neg → Checks ℕ
start backends = record { pending = backends; healthy = []; world = 0 }

abbrev two : List Neg
two = neg "a" ∷ neg "b" ∷ []

-- One healthy backend would do, and the second of the two is waited for all the same.
healthy_rounds_example :
    BreaksFor (api healthy) service none 2 1 (start two)
    × ((retry_backends_health
          (api healthy)
          service
          none
          1
          (attempts (api healthy) service none 2 1 (start two))).0
        ≡ returned true)
unfolding get_backend_health region_arg reports_healthy
healthy_rounds_example =
    healthy_rounds (api healthy) service none (λ b w. refl) 1 2 (start two) (refl, (refl, tt)) refl

retry_backends_health-returned_example :
    OthersReported (api unhealthy) service none two 0 2
    × ((record (start two) { world = 2 }).pending ≡ two)
    × ((record (start two) { world = 2 }).healthy ≡ [])
    × (false ≡ (is_empty_set two || leb 1 (length {A = Neg} [])))
unfolding retry_backends_health visit_all visit get_backend_health region_arg reports_healthy
retry_backends_health-returned_example =
    retry_backends_health-returned (api unhealthy) service none 1 (start two)
      (record (start two) { world = 2 }) false refl

abbrev finish : Checks ℕ
finish = record { pending = []; healthy = neg "b" ∷ neg "a" ∷ []; world = 2 }

wait-healthy_example :
    Seen (api healthy) service none two finish.pending finish.healthy
    × ((finish.pending ≡ []) ⊎ (leb 1 (length finish.healthy) ≡ true))
unfolding wait_for_backends_healthy_status retry_backends_health visit_all visit mark_healthy remove
    add get_backend_health region_arg reports_healthy loop constant_retryer build_retry_conditions
    wants_retry safe_check_result error_handler
wait-healthy_example = wait-healthy (api healthy) service none loop 9 1 1 two (start []) finish refl
