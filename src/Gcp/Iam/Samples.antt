-- ===== src/Gcp/Iam/Samples.antt =====
-- framework/infrastructure/gcp/iam.py on concrete policies, and on a service with one conflict.
use psm_interop.Common.{
  ℕ, zero, suc, ◌≡◌, ◌≢◌, refl, ap, subst, String, true, false, ◌&&◌, not, Option, none, some, [],
  ◌∷◌, arith, ◌≤◌,
}
use psm_interop.Common.Effects.{Outcome, returned, raised}
use psm_interop.Errors.{Exception, http_error}
use psm_interop.Retryers.Loop.{loop}
use psm_interop.Gcp.Iam.{
  Expr, Policy, policy_to_add, policy_to_remove, is_for, condition_eq, has_equal, binding_eq,
  is_subset,
}
use psm_interop.Gcp.Iam.Sets.{given}
use psm_interop.Gcp.Iam.Service.Conflicts.{IsFaithful, add_binding-grants}
use psm_interop.Gcp.Iam.Service.{
  IamApi, add_service_account_iam_policy_binding, try_add_binding, get_service_account_iam_policy,
  set_service_account_iam_policy, write_updated, handle_etag_conflict, etag_retryer,
  as_etag_conflict, remove_attestation_rule, service_account_resource_name,
}
use psm_interop.Gcp.Iam.Granting.{is_grant, policy_to_remove-grants, bindings_for}
use psm_interop.Gcp.Iam.Responses.{
  PolicyResponse, policy_from_response, policy_as_dict, IsBindingSet, policy-roundtrip, policy-read,
  binding_from_response, binding_as_dict,
}
use psm_interop.Gcp.Api.{execute, translate_error, get_api_retryer, is_retryable_api_error}
use psm_interop.Retryers.{
  exponential_retryer_with_attempts, exponential_retryer_with_timeout, build_retry_conditions,
}
use psm_interop.Retryers.Tenacity.{wants_retry}
use psm_interop.Gcp.Iam.Service.Attestation.{remove_attestation_rule-ne-false}

abbrev alice_and_bob : Policy
alice_and_bob = record {
  bindings =
      record { role = "roles/user"; members = "alice" ∷ "bob" ∷ []; condition = none }
      ∷ record { role = "roles/editor"; members = "bob" ∷ []; condition = none }
      ∷ [];
  etag = "e1";
  version = some 3;
}

abbrev with_carol : Policy
with_carol = record alice_and_bob {
  bindings =
      record { role = "roles/user"; members = "carol" ∷ "alice" ∷ "bob" ∷ []; condition = none }
      ∷ record { role = "roles/editor"; members = "bob" ∷ []; condition = none }
      ∷ [];
}

carol_added : policy_to_add alice_and_bob "roles/user" "carol" ≡ some with_carol
unfolding policy_to_add is_for condition_eq has_equal binding_eq is_subset
carol_added = refl

abbrev without_bob : Policy
without_bob = record alice_and_bob {
  bindings =
      record { role = "roles/user"; members = "alice" ∷ []; condition = none }
      ∷ record { role = "roles/editor"; members = "bob" ∷ []; condition = none }
      ∷ [];
}

bob_removed : policy_to_remove alice_and_bob "roles/user" "bob" ≡ some without_bob
unfolding policy_to_remove is_for condition_eq has_equal binding_eq is_subset
bob_removed = refl

one_for_user : bindings_for "roles/user" none alice_and_bob.bindings ≤ 1
unfolding bindings_for is_for condition_eq
one_for_user = omega arith

policy_to_remove-grants_example :
    (given "roles/user" none "bob" without_bob.bindings ≡ (
      given "roles/user" none "bob" alice_and_bob.bindings
      && not (is_grant "roles/user" "bob" "roles/user" none "bob")))
    × (without_bob.etag ≡ alice_and_bob.etag)
    × (without_bob.version ≡ alice_and_bob.version)
policy_to_remove-grants_example =
    policy_to_remove-grants alice_and_bob "roles/user" "bob" "roles/user" none "bob" without_bob
      one_for_user bob_removed

alice_and_bob_sets : IsBindingSet alice_and_bob.bindings
unfolding has_equal binding_eq is_subset condition_eq
alice_and_bob_sets = (((refl, (refl, tt)), refl, ((refl, tt), refl, tt)))

policy-roundtrip_example :
    policy_from_response (policy_as_dict alice_and_bob) ≡ returned alice_and_bob
policy-roundtrip_example = policy-roundtrip alice_and_bob alice_and_bob_sets

-- A service that keeps the JSON of one policy, and answers a number of writes with a conflict.
record Server : Type 0 where
  json : PolicyResponse
  conflicts : ℕ

answer : ℕ → PolicyResponse → Server → Outcome Exception PolicyResponse × Server
answer zero body s = (returned body, record s { json = body })
answer (suc n) body s =
    (raised (http_error (record { status = 409; truthy = true })), record s { conflicts = n })

abbrev server : IamApi Server (Unit {0})
server = record {
  get_iam_policy = λ resource version s. (returned s.json, s);
  set_iam_policy = λ resource body s. unfold answer in answer s.conflicts body s;
  add_attestation_rule = λ resource body s. (returned tt, s);
  remove_attestation_rule =
      λ resource body s. (raised (http_error (record { status = 404; truthy = true })), s);
}

abbrev read_or_empty : Outcome Exception Policy → Policy
read_or_empty (returned p) = p
read_or_empty (raised e) = record { bindings = []; etag = ""; version = none }

abbrev stored : Server → Policy
stored s = read_or_empty (policy_from_response s.json)

module _ (policy : Policy) (role : String) (condition : Option Expr) (member : String) where
  written :
      given role condition member
        (read_or_empty (policy_from_response (policy_as_dict policy))).bindings
      ≡ given role condition member policy.bindings
  written =
      let (read, same, gives_same) = policy-read policy in
      rw same (gives_same role condition member)

  answer-writes :
      (n : ℕ) (w w' : Server) (response : PolicyResponse)
      → answer n (policy_as_dict policy) w ≡ (returned response, w')
      → given role condition member (stored w').bindings
        ≡ given role condition member policy.bindings
  unfolding answer
  answer-writes zero w w' response h =
      subst
        (λ (s : Server).
          given role condition member (stored s).bindings
          ≡ given role condition member policy.bindings)
        (ap (λ end. end.1) h) written
  answer-writes (suc n) w w' response h = cc

server-IsFaithful : (resource : String) → IsFaithful server resource stored
unfolding answer
server-IsFaithful resource = record {
  reads = λ w w' response policy got parsed. ground arith;
  writes = λ w w' response policy role condition member.
      answer-writes policy role condition member w.conflicts w w' response;
}

abbrev before : Server
before = record { json = policy_as_dict alice_and_bob; conflicts = 2 }

abbrev after : Server
after = record { json = policy_as_dict with_carol; conflicts = 0 }

carol_granted :
    add_service_account_iam_policy_binding loop server "p" "a" "roles/user" "carol" before
    ≡ (returned tt, after)
unfolding add_service_account_iam_policy_binding try_add_binding get_service_account_iam_policy
    set_service_account_iam_policy write_updated handle_etag_conflict etag_retryer as_etag_conflict
    execute translate_error get_api_retryer exponential_retryer_with_attempts
    exponential_retryer_with_timeout build_retry_conditions loop wants_retry is_retryable_api_error
    policy_to_add is_for condition_eq has_equal binding_eq is_subset policy_from_response
    policy_as_dict answer binding_from_response binding_as_dict
carol_granted = refl

add_binding-grants_example : given "roles/user" none "carol" (stored after).bindings ≡ true
add_binding-grants_example =
    add_binding-grants loop server "p" "a" stored
      (server-IsFaithful (service_account_resource_name "p" "a")) before after "roles/user" "carol"
      carol_granted

remove_attestation_rule-ne-false_example :
    (remove_attestation_rule loop server "p" "pool" "ns" "id" tt before).0 ≢ returned false
remove_attestation_rule-ne-false_example =
    remove_attestation_rule-ne-false loop server "p" "pool" "ns" "id" tt before
