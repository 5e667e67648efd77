-- ===== src/Gcp/Compute/Completion.antt =====
-- What a change of a resource that returns, framework/infrastructure/gcp/compute.py, has waited for.
use psm_interop.Common.{
  ℕ, ◌≡◌, ◌≢◌, ℕ, refl, ap, subst, String, Bool, true, false, Option, none, some, [], inl, inr,
  arith, if◌then◌else◌, Bool-cases,
}
use psm_interop.Common.Effects.{
  Outcome, returned, raised, Effect, handle, pure, lift, catch, bind-returned, returned-injective,
  ◌>>=◌, ◌>>◌,
}
use psm_interop.Common.Json.{Json}
use psm_interop.Errors.{Exception, http_error}
use psm_interop.Retryers.Tenacity.{Tenacity, wants_retry, asks, run-accepted}
use psm_interop.Gcp.Compute.{
  unless_error, Collection, Operation, ComputeApi, region_arg, required, operation_status_done,
  operation_retryer, wait_for_operation_sec, checked, retried, wait, execute, delete_resource,
  not_deleted,
}

-- An operation that is over and has not failed.
abbrev pub IsCompleted : Operation → Type 0
IsCompleted operation = (operation_status_done operation ≡ true) × (operation.error ≡ none)

pub retryer-stop : {A : Type 0} (test : A → Bool) (t p : ℕ) → (operation_retryer test t p).stop ≢ []
unfolding operation_retryer
retryer-stop test t p h = cc

pub retryer-accepts :
    {A : Type 0} (test : A → Bool) (t p : ℕ) (a : A)
    → wants_retry (operation_retryer test t p).retry (returned a) ≡ returned false
    → test a ≡ true
unfolding operation_retryer wants_retry asks
retryer-accepts test t p a h = elim (Bool-cases (test a)) [
  | inl yes_done ↦ yes_done
  | inr not_done ↦ absurd (ground (arith, h, not_done))
]

pub if_false : {A : Type 0} (b : Bool) (x y : A) → b ≡ false → (if b then x else y) ≡ y
if_false true x y h = cc
if_false false x y h = refl

pub required-returned : (x : Option String) (s : String) → required x ≡ returned s → x ≡ some s
required-returned none s h = cc
required-returned (some t) s h = ap some (returned-injective h)

handled-true :
    {W : Type 0} (end : Outcome Exception Bool × W) (w' : W)
    → handle end.0 not_deleted end.1 ≡ (returned true, w')
    → end ≡ (returned true, w')
handled-true (returned a, u) w' h = h
handled-true (raised (http_error r), u) w' h = cc
handled-true (raised _, u) w' h = cc

pub unless_error-returned :
    {A : Type 0} (error : Option ℕ) (a b : A) → unless_error error a ≡ returned b → error ≡ none
unless_error-returned none a b h = refl
unless_error-returned (some code) a b h = cc

checked-returned : (o p : Operation) → checked o ≡ returned p → (o ≡ p) × (o.error ≡ none)
checked-returned o p h =
    let e = unless_error-returned o.error o p h in
    (returned-injective (subst (λ x. unless_error x o ≡ returned p) e h), e)

module _ {W : Type 0} (tenacity : Tenacity) (api : ComputeApi W) where
  wait-IsCompleted :
      (id : String) (region : Option String) (w w' : W) (operation : Operation)
      → wait tenacity api id region w ≡ (returned operation, w')
      → IsCompleted operation
  unfolding wait
  wait-IsCompleted id region w w' operation h =
      let (o, u, ran, rest) =
        bind-returned
          (Tenacity.run tenacity W Operation
            (operation_retryer operation_status_done wait_for_operation_sec 2)
            (api.get_operation (region_arg region) id))
          (λ o. lift (checked o)) w w' operation h in
      let (same, fine) = checked-returned o operation (ap (λ end. end.0) rest) in
      let is_over = retryer-accepts operation_status_done wait_for_operation_sec 2 o (
        run-accepted tenacity (operation_retryer operation_status_done wait_for_operation_sec 2)
          (api.get_operation (region_arg region) id) o w u
          (retryer-stop operation_status_done wait_for_operation_sec 2) ran) in
      subst IsCompleted same (is_over, fine)

  execute-IsCompleted :
      (request : Effect W Exception Operation) (region : Option String) (w w' : W)
      (operation : Operation)
      → execute tenacity api request region w ≡ (returned operation, w')
      → IsCompleted operation
  unfolding execute
  execute-IsCompleted request region w w' operation h =
      let (o, u, ran, rest) =
        bind-returned (retried tenacity api request)
          (λ o. (do name ← lift (required o.name); wait tenacity api name region)) w w' operation
          h in
      let (name, v, named, waited) =
        bind-returned (lift (required o.name)) (λ name. wait tenacity api name region) u w'
          operation rest in
      wait-IsCompleted name region v w' operation waited

  caught-true :
      (m : Effect W Exception Bool) (w w' : W)
      → catch m not_deleted w ≡ (returned true, w')
      → m w ≡ (returned true, w')
  caught-true m w w' h = handled-true (m w) w' h

  -- A deletion that returns True has waited for an operation that is over and has not failed.
  pub delete_resource-IsCompleted :
      (collection : Collection) (name : String) (region : Option String) (w w' : W)
      → delete_resource tenacity api collection name region w ≡ (returned true, w')
      → (operation : Operation) × IsCompleted operation
        × (execute tenacity api (api.delete collection (region_arg region) name) region w
            ≡ (returned operation, w'))
  unfolding delete_resource
  delete_resource-IsCompleted c name region w w' h =
      let (operation, u, ran, rest) =
        bind-returned (execute tenacity api (api.delete c (region_arg region) name) region)
          (λ _. pure true) w w' true
          (caught-true
            (do execute tenacity api (api.delete c (region_arg region) name) region; pure true) w w'
            h) in
      (
        operation,
        execute-IsCompleted (api.delete c (region_arg region) name) region w u operation ran,
        subst
            (λ v.
              execute tenacity api (api.delete c (region_arg region) name) region w
              ≡ (returned operation, v))
            (ap (λ end. end.1) rest) ran,
      )
