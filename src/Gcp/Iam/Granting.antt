-- ===== src/Gcp/Iam/Granting.antt =====
-- What framework/infrastructure/gcp/iam.py makes of a policy when it adds a member to a role, or
-- takes one from it.
use psm_interop.Common.{
  ℕ, suc, ◌≤◌, String, ◌≡◌, refl, Bool, true, false, Option, none, some, List, [], ◌∷◌, ◌&&◌, ◌||◌,
  not, arith, str_eq, eq_iff, Option-cases, inl, inr, if◌then◌else◌,
}
use psm_interop.Gcp.Iam.{
  Expr, condition_eq, Binding, Policy, is_for, find_in, discard, add, with_member, without_member,
  policy_to_add, policy_to_remove,
}
use psm_interop.Gcp.Iam.Sets.{
  condition_eq→eq, gives, given, given-add, given_of_discard, discard_of_given, binding_eq_refl,
  contains-with_member, contains-without_member,
}

-- The found binding is one of the list, and it is for the role.
find-is_for :
    (role : String) (condition : Option Expr) (bs : List Binding) (b : Binding)
    → find_in role condition bs ≡ some b
    → is_for role condition b ≡ true
unfolding find_in
find-is_for role condition [] b h = ground arith
find-is_for role condition (x ∷ bs) b h = ground (arith, find-is_for role condition bs b)

-- What a found binding gives under any role and condition, the list gives.
gives_of_find :
    (role : String) (condition : Option Expr) (r : String) (c : Option Expr) (m : String)
    (bs : List Binding) (b : Binding)
    → find_in role condition bs ≡ some b
    → gives r c m b ≡ true
    → given r c m bs ≡ true
unfolding find_in given
gives_of_find role condition r c m [] b h g = ground arith
gives_of_find role condition r c m (x ∷ bs) b h g =
    ground (arith, gives_of_find role condition r c m bs b)

-- The grant that a call is about: the role, without a condition, for the member.
abbrev pub is_grant : String → String → String → Option Expr → String → Bool
is_grant role member r c m = str_eq role r && (condition_eq none c && str_eq member m)

-- How many bindings of the list are for the role under the condition.
unfoldable pub bindings_for : String → Option Expr → List Binding → ℕ
bindings_for role condition [] = 0
bindings_for role condition (b ∷ bs) =
    let rest = bindings_for role condition bs in if is_for role condition b then suc rest else rest

given-lacking :
    (role : String) (condition : Option Expr) (m : String) (bs : List Binding)
    → bindings_for role condition bs ≡ 0
    → given role condition m bs ≡ false
unfolding bindings_for given
given-lacking role condition m [] h = refl
given-lacking role condition m (x ∷ bs) h = ground (arith, given-lacking role condition m bs)

-- Where one binding at most is for the role, none is once that one is dropped.
given-discard_found :
    (role : String) (condition : Option Expr) (m : String) (bs : List Binding) (b : Binding)
    → bindings_for role condition bs ≤ 1
    → find_in role condition bs ≡ some b
    → given role condition m (discard (some b) bs) ≡ false
unfolding bindings_for find_in discard given
given-discard_found role condition m [] b le h = refl
given-discard_found role condition m (x ∷ bs) b le h = ground (
  arith,
  given-discard_found role condition m bs b,
  binding_eq_refl x,
  given-lacking role condition m bs,
  given_of_discard role condition m b bs,
)

module _ (policy : Policy) (role member : String) (r : String) (c : Option Expr) (m : String) where
  add_to_found :
      (b : Binding)
      → find_in role none policy.bindings ≡ some b
      → given r c m (
          add
            (record b { members = with_member member b.members })
            (discard (some b) policy.bindings))
        ≡ (given r c m policy.bindings || is_grant role member r c m)
  unfolding is_for
  add_to_found b h = rw given-add (
      ground (
        arith,
        find-is_for role none policy.bindings b h,
        gives_of_find role none r c m policy.bindings b h,
        given_of_discard r c m b policy.bindings,
        discard_of_given r c m b policy.bindings,
        contains-with_member m member b.members,
        condition_eq→eq b.condition none,
        eq_iff b.role role,
      ))

  add_to_none :
      given r c m (
        add
          (record { role = role; members = member ∷ []; condition = none })
          (discard none policy.bindings))
      ≡ (given r c m policy.bindings || is_grant role member r c m)
  unfolding is_for discard condition_eq given
  add_to_none = rw given-add (ground (arith, eq_iff role r, eq_iff member m))

  remove_found :
      (b : Binding)
      → bindings_for role none policy.bindings ≤ 1
      → find_in role none policy.bindings ≡ some b
      → given r c m (
          add
            (record b { members = without_member member b.members })
            (discard (some b) policy.bindings))
        ≡ (given r c m policy.bindings && not (is_grant role member r c m))
  unfolding is_for
  remove_found b le h = rw given-add (
      ground (
        arith,
        find-is_for role none policy.bindings b h,
        gives_of_find role none r c m policy.bindings b h,
        given_of_discard r c m b policy.bindings,
        discard_of_given r c m b policy.bindings,
        given-discard_found role none m policy.bindings b le h,
        contains-without_member m member b.members,
        condition_eq→eq b.condition none,
        condition_eq→eq b.condition c,
        condition_eq→eq none c,
        eq_iff b.role role,
        eq_iff b.role r,
        eq_iff role r,
        eq_iff member m,
      ))

  -- A policy that is to be written for an addition gives exactly what the read policy gives and, to
  -- the member, the role without a condition; its etag and version are those that were read.
  pub policy_to_add-grants :
      (updated : Policy)
      → policy_to_add policy role member ≡ some updated
      → (given r c m updated.bindings ≡ (given r c m policy.bindings || is_grant role member r c m))
        × (updated.etag ≡ policy.etag)
        × (updated.version ≡ policy.version)
  unfolding policy_to_add
  policy_to_add-grants updated h = elim (Option-cases (find_in role none policy.bindings)) [
    | inl absent ↦ ground (arith, add_to_none)
    | inr (b, found) ↦ ground (arith, add_to_found b found)
  ]

  -- The policy is left as it is only if it gives the member the role already.
  pub policy_to_add-none :
      policy_to_add policy role member ≡ none → given role none member policy.bindings ≡ true
  unfolding policy_to_add
  policy_to_add-none h = elim (Option-cases (find_in role none policy.bindings)) [
    | inl absent ↦ ground arith
    | inr (b, found) ↦ ground (
      arith,
      find-is_for role none policy.bindings b found,
      gives_of_find role none role none member policy.bindings b found,
    )
  ]

  -- Where at most one binding is for the role without a condition, a policy that is to be written for
  -- a removal gives exactly what the read policy gives but, to the member, the role without a
  -- condition; its etag and version are those that were read.
  pub policy_to_remove-grants :
      (updated : Policy)
      → bindings_for role none policy.bindings ≤ 1
      → policy_to_remove policy role member ≡ some updated
      → (given r c m updated.bindings
          ≡ (given r c m policy.bindings && not (is_grant role member r c m)))
        × (updated.etag ≡ policy.etag)
        × (updated.version ≡ policy.version)
  unfolding policy_to_remove
  policy_to_remove-grants updated le h = elim (Option-cases (find_in role none policy.bindings)) [
    | inl absent ↦ absurd (ground arith)
    | inr (b, found) ↦ ground (arith, remove_found b le found)
  ]
