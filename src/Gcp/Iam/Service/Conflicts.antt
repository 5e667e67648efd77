-- ===== src/Gcp/Iam/Service/Conflicts.antt =====
-- Concurrent changes of a policy, framework/infrastructure/gcp/iam.py.
use psm_interop.Common.{
  ◌≡◌, ap, sym, subst, String, Bool, true, Option, none, some, arith, ◌||◌, eq_iff,
}
use psm_interop.Common.Effects.{
  Outcome, returned, Effect, lift, pure, ◌>>=◌, bind-returned, catch-returned,
}
use psm_interop.Errors.{Exception}
use psm_interop.Retryers.{exponential_retryer_with_timeout, exponential_retryer_with_attempts}
use psm_interop.Retryers.Tenacity.{Tenacity, run-returned}
use psm_interop.Gcp.Api.{execute, gcp_api_retries, get_api_retryer, translate_error}
use psm_interop.Gcp.Iam.{Expr, condition_eq, Policy, policy_to_add}
use psm_interop.Gcp.Iam.Sets.{given}
use psm_interop.Gcp.Iam.Granting.{is_grant, policy_to_add-grants, policy_to_add-none}
use psm_interop.Gcp.Iam.Responses.{PolicyResponse, policy_from_response, policy_as_dict}
use psm_interop.Gcp.Iam.Service.{
  IamApi, service_account_resource_name, policy_version, etag_retryer, handle_etag_conflict,
  get_service_account_iam_policy, set_service_account_iam_policy, write_updated, try_add_binding,
  add_service_account_iam_policy_binding, as_etag_conflict,
}

-- What the methods rely on: `stored w` is the policy of the account in the world `w`.
pub record IsFaithful {W Body : Type 0} (api : IamApi W Body) (resource : String)
    (stored : W → Policy) : Type 0 where
  -- a read that is answered answers with what is stored
  pub reads :
      (w w' : W) (response : PolicyResponse) (policy : Policy)
      → api.get_iam_policy resource policy_version w ≡ (returned response, w')
      → policy_from_response response ≡ returned policy
      → policy ≡ stored w'
  -- after a write that is answered, what is stored gives what was written
  pub writes :
      (w w' : W) (response : PolicyResponse) (policy : Policy) (role : String)
      (condition : Option Expr) (member : String)
      → api.set_iam_policy resource (policy_as_dict policy) w ≡ (returned response, w')
      → given role condition member (stored w').bindings
        ≡ given role condition member policy.bindings

-- A request that `_execute` got an answer to was answered in some world.
execute-returned :
    (tenacity : Tenacity) {W A : Type 0} (request : Effect W Exception A) (w w' : W) (a : A)
    → execute tenacity (some gcp_api_retries) request w ≡ (returned a, w')
    → (u : W) × (request u ≡ (returned a, w'))
unfolding execute get_api_retryer exponential_retryer_with_attempts
execute-returned tenacity {W} {A} request w w' a h =
    run-returned tenacity (get_api_retryer (some gcp_api_retries)) request a w w'
      (λ e. ground arith)
      (catch-returned (Tenacity.run tenacity W A (get_api_retryer (some gcp_api_retries)) request)
        translate_error w w' a h)

-- So for a request whose answer is parsed.
parsed-returned :
    (tenacity : Tenacity) {W A B : Type 0} (request : Effect W Exception A)
    (parse : A → Outcome Exception B) (w w' : W) (b : B)
    → (execute tenacity (some gcp_api_retries) request >>= λ a. lift (parse a)) w ≡ (returned b, w')
    → (a : A) × (u : W) × (request u ≡ (returned a, w')) × (parse a ≡ returned b)
parsed-returned tenacity request parse w w' b h =
    let (a, v, got, parsed) =
      bind-returned (execute tenacity (some gcp_api_retries) request) (λ a. lift (parse a)) w w' b
        h in
    let (u, answered) = execute-returned tenacity request w v a got in
    (
      a,
      u,
      subst (λ x. request u ≡ (returned a, x)) (ap (λ end. end.1) parsed) answered,
      ap (λ end. end.0) parsed,
    )

grant_itself :
    (role member : String) (b : Bool) → (b || is_grant role member role none member) ≡ true
unfolding condition_eq
grant_itself role member b = ground (arith, eq_iff role role, eq_iff member member)

module _ {W Body : Type 0} (tenacity : Tenacity) (api : IamApi W Body) (project account : String)
    (stored : W → Policy)
    (faithful : IsFaithful api (service_account_resource_name project account) stored) where
  abbrev resource : String
  resource = service_account_resource_name project account

  get-reads :
      (w w' : W) (policy : Policy)
      → get_service_account_iam_policy tenacity api project account w ≡ (returned policy, w')
      → policy ≡ stored w'
  unfolding get_service_account_iam_policy
  get-reads w w' policy h =
      let (response, u, answered, parsed) =
        parsed-returned tenacity (api.get_iam_policy resource policy_version) policy_from_response w
          w' policy h in
      faithful.reads u w' response policy answered parsed

  abbrev write : Policy → Effect W Exception Policy
  write policy =
      execute tenacity (some gcp_api_retries) (api.set_iam_policy resource (policy_as_dict policy))
      >>= λ response. lift (policy_from_response response)

  set-writes :
      (w w' : W) (policy written : Policy) (role : String) (condition : Option Expr)
      (member : String)
      → set_service_account_iam_policy tenacity api project account policy w
        ≡ (returned written, w')
      → given role condition member (stored w').bindings
        ≡ given role condition member policy.bindings
  unfolding set_service_account_iam_policy
  set-writes w w' policy written role condition member h =
      let (response, u, answered, parsed) =
        parsed-returned tenacity (api.set_iam_policy resource (policy_as_dict policy))
          policy_from_response w w' written
          (catch-returned (write policy) as_etag_conflict w w' written h) in
      faithful.writes u w' response policy role condition member answered

  write-grants :
      (w w' : W) (role member : String) (updated : Option Policy)
      → policy_to_add (stored w) role member ≡ updated
      → write_updated tenacity api project account updated w ≡ (returned tt, w')
      → given role none member (stored w').bindings ≡ true
  unfolding write_updated
  write-grants w w' role member none e h =
      subst (λ x. given role none member (stored x).bindings ≡ true) (ap (λ end. end.1) h)
        (policy_to_add-none (stored w) role member role none member e)
  write-grants w w' role member (some updated) e h =
      let (written, u, set, rest) =
        bind-returned (set_service_account_iam_policy tenacity api project account updated)
          (λ _. pure tt) w w' tt h in
      subst (λ x. given role none member (stored x).bindings ≡ true) (ap (λ end. end.1) rest)
        (cc (
          set-writes w u updated written role none member set,
          (policy_to_add-grants (stored w) role member role none member updated e).0,
          grant_itself role member (given role none member (stored w).bindings),
        ))

  try-grants :
      (w w' : W) (role member : String)
      → try_add_binding tenacity api project account role member w ≡ (returned tt, w')
      → given role none member (stored w').bindings ≡ true
  unfolding try_add_binding
  try-grants w w' role member h =
      let (policy, u, got, rest) =
        bind-returned (get_service_account_iam_policy tenacity api project account)
          (λ policy. write_updated tenacity api project account (policy_to_add policy role member))
          w w' tt h in
      write-grants u w' role member (policy_to_add policy role member)
        (ap (λ p. policy_to_add p role member) (sym (get-reads w u policy got))) rest

  -- With a policy store that is faithful, when `add_service_account_iam_policy_binding` returns, after
  -- however many conflicts and retries, the policy that the service then stores gives the member the
  -- role without a condition.
  pub add_binding-grants :
      (w w' : W) (role member : String)
      → add_service_account_iam_policy_binding tenacity api project account role member w
        ≡ (returned tt, w')
      → given role none member (stored w').bindings ≡ true
  unfolding add_service_account_iam_policy_binding handle_etag_conflict etag_retryer
      exponential_retryer_with_timeout
  add_binding-grants w w' role member h =
      let (u, last) =
        run-returned tenacity etag_retryer
          (try_add_binding tenacity api project account role member) tt w w' (λ e. ground arith)
          h in
      try-grants u w' role member last
