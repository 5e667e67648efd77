-- ===== src/Gcp/Compute/Health.antt =====
-- framework/infrastructure/gcp/compute.py: the wait for healthy backends. A Python set is the list of
-- its elements in the order of iteration; an iterator over a set raises RuntimeError at its next step
-- once the size of the set has changed. The keys of an instance are taken to be there.
pub mod Sets
pub mod Answers
pub mod Rounds
pub mod Seen
pub mod Wait
mod Samples
use psm_interop.Common.{
  ℕ, ◌+◌, String, Bool, true, false, Option, none, some, List, [], ◌∷◌, ◌&&◌, ◌||◌, ◌==◌, not, leb,
  str_eq, length, keep_if, is_some, if◌then◌else◌,
}
use psm_interop.Common.Effects.{
  Outcome, returned, raised, Effect, pure, throw, lift, catch, ◌>>=◌, ◌>>◌,
}
use psm_interop.Errors.{
  Exception, retry_error, retry_error_of_result, is_retry_error, runtime_error, value_error,
}
use psm_interop.Retryers.{Retrying, constant_retryer}
use psm_interop.Retryers.Tenacity.{Tenacity}
use psm_interop.Gcp.Compute.{
  backend_services, region_backend_services, GcpResource, Instance, Neg, ComputeApi, in_region,
  region_arg,
}

-- Where `_retry_backends_health` works: its two sets, and the world.
pub record Checks (W : Type 0) : Type 0 where
  pub pending : List Neg
  pub healthy : List Neg
  pub world : W

abbrev pub neg_eq : Neg → Neg → Bool
neg_eq a b =
    str_eq a.name b.name
    && (str_eq a.url b.url
        && (str_eq a.zone b.zone
            && (str_eq a.id b.id
                && (a.size == b.size
                    && (str_eq a.network_endpoint_type b.network_endpoint_type
                        && str_eq a.description b.description)))))

unfoldable pub remove : Neg → List Neg → List Neg
remove b bs = keep_if (λ x. not (neg_eq b x)) bs

abbrev pub is_in : Neg → List Neg → Bool
is_in b [] = false
is_in b (x ∷ xs) = neg_eq b x || is_in b xs

unfoldable pub add : Neg → List Neg → List Neg
add b bs = if is_in b bs then bs else b ∷ bs

abbrev pub all_healthy : List Instance → Bool
all_healthy [] = true
all_healthy (i ∷ is) = str_eq i.health_state "HEALTHY" && all_healthy is

-- Whether an answer says that the backend is healthy; without a status it says nothing.
unfoldable pub reports_healthy : Option (List Instance) → Bool
reports_healthy none = false
reports_healthy (some instances) = all_healthy instances

abbrev pub is_empty_set : List Neg → Bool
is_empty_set [] = true
is_empty_set (b ∷ bs) = false

module _ {W : Type 0} where
  abbrev pub on_world : {A : Type 0} → Effect W Exception A → Effect (Checks W) Exception A
  on_world m s = ((m s.world).0, record s { world = (m s.world).1 })

  -- `pending.remove(backend)` and `healthy.add(backend)`
  unfoldable pub mark_healthy : Neg → Checks W → Checks W
  unfolding remove add
  mark_healthy b s = record s { pending = remove b s.pending; healthy = add b s.healthy }

module _ {W : Type 0} (api : ComputeApi W) (backend_service : GcpResource)
    (region : Option String) where
  unfoldable pub get_backend_health : Neg → Effect W Exception (Option (List Instance))
  get_backend_health b =
      api.get_health (in_region region region_backend_services backend_services) (region_arg region)
        backend_service.name b.url

  -- The body of the loop: whether it changed the sets.
  unfoldable pub visit : Neg → Effect (Checks W) Exception Bool
  visit b = do
    answer ← on_world (get_backend_health b)
    (λ s. if reports_healthy answer then (returned true, mark_healthy b s) else (returned false, s))

  -- The loop over the set `pending`, of which these are still to visit.
  unfoldable pub visit_all : List Neg → Effect (Checks W) Exception (Unit {0})
  visit_all [] = pure tt
  visit_all (b ∷ bs) = do
    changed ← visit b
    (λ s. let rest = visit_all bs s in if changed then (raised runtime_error, s) else rest)

  unfoldable pub retry_backends_health : (replica_count : ℕ) → Effect (Checks W) Exception Bool
  retry_backends_health replica_count s =
      (do
        visit_all s.pending
        (λ s'. (returned (is_empty_set s'.pending || leb replica_count (length s'.healthy)), s')))
        s

  -- The answers that are collected for the note of the error; any error ends the collection.
  abbrev pub collect : List Neg → Effect (Checks W) Exception (Unit {0})
  collect [] = pure tt
  collect (b ∷ bs) = do on_world (get_backend_health b); collect bs

  abbrev pub add_note : Exception → Effect (Checks W) Exception Bool
  add_note e s = (do catch (collect s.pending) (λ _. pure tt); throw e) s

  abbrev pub on_retry_error : Exception → Effect (Checks W) Exception Bool
  on_retry_error (retry_error e) = add_note (retry_error e)
  on_retry_error retry_error_of_result = add_note retry_error_of_result
  on_retry_error e = throw e

  abbrev pub run_policy :
      Tenacity
      → (replica_count : ℕ) → Outcome Exception (Retrying Bool)
      → Effect (Checks W) Exception Bool
  run_policy tenacity replica_count (raised e) = throw e
  run_policy tenacity replica_count (returned r) =
      catch (Tenacity.run tenacity (Checks W) Bool r (retry_backends_health replica_count))
        on_retry_error

  unfoldable pub wait_for_backends_healthy_status :
      Tenacity
      → (backends : List Neg) → (timeout_sec wait_sec replica_count : ℕ)
      → Effect (Checks W) Exception (Unit {0})
  wait_for_backends_healthy_status tenacity backends timeout_sec wait_sec replica_count s =
      if is_empty_set backends || replica_count == 0
      then (raised value_error, s)
      else (do
        run_policy tenacity replica_count
            (constant_retryer wait_sec 0 (some timeout_sec) none (some (λ b. returned b)))
        pure tt)
          (record s { pending = backends; healthy = [] })
