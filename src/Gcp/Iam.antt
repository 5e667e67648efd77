-- ===== src/Gcp/Iam.antt =====
-- framework/infrastructure/gcp/iam.py: policies and their bindings. A frozenset is the list of its
-- elements in the order in which Python iterates over it, each once.
pub mod Sets
pub mod Granting
pub mod Responses
pub mod Service
mod Samples
use psm_interop.Common.{
  ℕ, suc, String, Bool, true, false, Option, none, some, List, [], ◌∷◌, ◌&&◌, ◌||◌, not, str_eq,
  contains, keep_if, if◌then◌else◌,
}

pub record Expr : Type 0 where
  pub expression : String
  pub title : String
  pub description : String
  pub location : String

unfoldable pub expr_eq : Expr → Expr → Bool
expr_eq a b =
    str_eq a.expression b.expression
    && (str_eq a.title b.title
        && (str_eq a.description b.description && str_eq a.location b.location))

unfoldable pub condition_eq : Option Expr → Option Expr → Bool
condition_eq none none = true
condition_eq (some a) (some b) = expr_eq a b
condition_eq _ _ = false

pub record Binding : Type 0 where
  pub role : String
  pub members : List String
  pub condition : Option Expr

unfoldable pub is_subset : List String → List String → Bool
is_subset [] ys = true
is_subset (x ∷ xs) ys = contains x ys && is_subset xs ys

-- `==` of the dataclass: equal roles, members as sets, and conditions.
unfoldable pub binding_eq : Binding → Binding → Bool
binding_eq a b =
    str_eq a.role b.role
    && (is_subset a.members b.members
        && (is_subset b.members a.members && condition_eq a.condition b.condition))

pub record Policy : Type 0 where
  pub bindings : List Binding
  pub etag : String
  pub version : Option ℕ

-- `binding.role == role and binding.condition == condition`
unfoldable pub is_for : String → Option Expr → Binding → Bool
is_for role condition b = str_eq b.role role && condition_eq b.condition condition

unfoldable pub find_in : String → Option Expr → List Binding → Option Binding
find_in role condition [] = none
find_in role condition (b ∷ bs) =
    let rest = find_in role condition bs in if is_for role condition b then some b else rest

unfoldable pub find_binding_for_role : Policy → String → Option Expr → Option Binding
unfolding find_in
find_binding_for_role policy role condition = find_in role condition policy.bindings

-- `discard` of a set of bindings, and its `add`.
unfoldable pub discard : Option Binding → List Binding → List Binding
discard none bs = bs
discard (some b) bs = keep_if (λ x. not (binding_eq b x)) bs

unfoldable pub has_equal : Binding → List Binding → Bool
has_equal b [] = false
has_equal b (x ∷ xs) = binding_eq b x || has_equal b xs

unfoldable pub add : Binding → List Binding → List Binding
add b bs = if has_equal b bs then bs else b ∷ bs

unfoldable pub replace_binding : Policy → Option Binding → Binding → Policy
unfolding discard add
replace_binding policy binding new_binding = record policy {
  bindings = add new_binding (discard binding policy.bindings);
}

-- `members.union({member})` and `members.difference({member})`.
unfoldable pub with_member : String → List String → List String
with_member m ms = if contains m ms then ms else m ∷ ms

unfoldable pub without_member : String → List String → List String
without_member m ms = keep_if (λ x. not (str_eq x m)) ms

-- The body of `add_service_account_iam_policy_binding` between the read of the policy and its write:
-- the policy to write, if there is anything to change.
abbrev updated_to_add : String → String → Option Binding → Binding
updated_to_add role member none = record { role = role; members = member ∷ []; condition = none }
updated_to_add role member (some b) = record b { members = with_member member b.members }

abbrev is_member_of : String → Option Binding → Bool
is_member_of m none = false
is_member_of m (some b) = contains m b.members

unfoldable pub policy_to_add : Policy → String → String → Option Policy
unfolding find_binding_for_role with_member replace_binding
policy_to_add policy role member =
    let binding = find_binding_for_role policy role none in
    if is_member_of member binding
    then none
    else some (replace_binding policy binding (updated_to_add role member binding))

-- So for `remove_service_account_iam_policy_binding`.
abbrev removal : Policy → String → Option Binding → Option Policy
removal policy member none = none
removal policy member (some b) =
    if not (contains member b.members)
    then none
    else some
        (replace_binding policy (some b) (record b { members = without_member member b.members }))

unfoldable pub policy_to_remove : Policy → String → String → Option Policy
unfolding find_binding_for_role without_member replace_binding
policy_to_remove policy role member = removal policy member (find_binding_for_role policy role none)
