-- ===== src/Gcp/Standard/Completion.antt =====
-- What a change of a resource that returns, GcpStandardCloudApiResource of framework/infrastructure/gcp/
-- api.py, has waited for.
use psm_interop.Common.{◌≢◌, [], ◌≡◌, ap, subst, String, true, Option, none, some}
use psm_interop.Common.Effects.{returned, lift, bind-returned, ◌>>=◌}
use psm_interop.Common.Json.{Json}
use psm_interop.Retryers.{exponential_retryer_with_attempts}
use psm_interop.Retryers.Tenacity.{Tenacity, run-accepted, run-returned}
use psm_interop.Gcp.Api.{get_api_retryer}
use psm_interop.Gcp.Compute.{required, operation_retryer, wait_for_operation_sec}
use psm_interop.Gcp.Compute.Completion.{
  unless_error-returned, retryer-accepts, retryer-stop, required-returned,
}
use psm_interop.Gcp.Standard.{
  LongOperation, StandardApi, parent, operation_status_done, check, wait, execute, create_resource,
}

api_retryer-stop : (A : Type 0) → (get_api_retryer {A = A} none).stop ≢ []
unfolding get_api_retryer exponential_retryer_with_attempts
api_retryer-stop A h = cc

check-returned : (o : LongOperation) → check o ≡ returned tt → o.error ≡ none
check-returned o h = unless_error-returned o.error tt tt h

module _ {W Resource : Type 0} (tenacity : Tenacity) (api : StandardApi W Resource)
    (project : String) where
  -- In the world `u`, the question for the operation `id` is answered that it is over and has not
  -- failed, and this answer leaves the world `w'`.
  abbrev pub CompletesAt : (id : String) → (u w' : W) → Type 0
  CompletesAt id u w' =
      (operation : LongOperation) × (api.get_operation id u ≡ (returned operation, w'))
      × (operation_status_done operation ≡ true)
      × (operation.error ≡ none)

  wait-CompletesAt :
      (id : String) (w w' : W)
      → wait tenacity api project id w ≡ (returned tt, w')
      → (u : W) × CompletesAt id u w'
  unfolding wait
  wait-CompletesAt id w w' h =
      let retryer = operation_retryer operation_status_done wait_for_operation_sec 2 in
      let stop = retryer-stop operation_status_done wait_for_operation_sec 2 in
      let (o, v, ran, rest) =
        bind-returned (Tenacity.run tenacity W LongOperation retryer (api.get_operation id))
          (λ o. lift (check o)) w w' tt h in
      let (u, asked) = run-returned tenacity retryer (api.get_operation id) o w v stop ran in
      (
        u,
        (
          o,
          subst (λ x. api.get_operation id u ≡ (returned o, x)) (ap (λ end. end.1) rest) asked,
          retryer-accepts operation_status_done wait_for_operation_sec 2 o
              (run-accepted tenacity retryer (api.get_operation id) o w v stop ran),
          check-returned o (ap (λ end. end.0) rest),
        ),
      )

  -- A creation that returns has been answered, in its last request, that the operation that it started is
  -- over and has not failed.
  pub create_resource-CompletesAt :
      (id : String) (body : Json) (location : Option String) (w w' : W)
      → create_resource tenacity api project id body location w ≡ (returned tt, w')
      → (started : LongOperation) × (v v' : W) × (name : String) × (u : W) × (api.create
            (parent project location)
            id
            body
            v
          ≡ (returned started, v'))
        × (started.name ≡ some name)
        × CompletesAt name u w'
  unfolding create_resource execute
  create_resource-CompletesAt id body location w w' h =
      let request = api.create (parent project location) id body in
      let (started, v', ran, rest) =
        bind-returned (Tenacity.run tenacity W LongOperation (get_api_retryer none) request)
          (λ o. (do name ← lift (required o.name); wait tenacity api project name)) w w' tt h in
      let (name, x, named, waited) =
        bind-returned (lift (required started.name)) (λ name. wait tenacity api project name) v' w'
          tt rest in
      let (v, made) =
        run-returned tenacity (get_api_retryer none) request started w v'
          (api_retryer-stop LongOperation) ran in
      let (u, completes) = wait-CompletesAt name x w' waited in
      (
        started,
        v,
        v',
        name,
        u,
        made,
        required-returned started.name name (ap (λ end. end.0) named),
        completes,
      )
