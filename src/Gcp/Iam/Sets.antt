-- ===== src/Gcp/Iam/Sets.antt =====
-- The sets of framework/infrastructure/gcp/iam.py, by what is in them.
use psm_interop.Common.{
  String, ◌≡◌, refl, Bool, true, false, Option, none, some, List, [], ◌∷◌, ◌&&◌, ◌||◌, not, arith,
  str_eq, eq_iff, eq_refl, contains,
}
use psm_interop.Gcp.Iam.{
  Expr, expr_eq, condition_eq, Binding, is_subset, binding_eq, is_for, discard, has_equal, add,
  with_member, without_member,
}

expr_eq→eq : (a b : Expr) → expr_eq a b ≡ true → a ≡ b
unfolding expr_eq
expr_eq→eq a b h = ground (
  arith,
  eq_iff a.expression b.expression,
  eq_iff a.title b.title,
  eq_iff a.description b.description,
  eq_iff a.location b.location,
)

pub condition_eq→eq : (a b : Option Expr) → condition_eq a b ≡ true → a ≡ b
unfolding condition_eq
condition_eq→eq none none h = refl
condition_eq→eq (some a) (some b) h = ground (arith, expr_eq→eq a b)
condition_eq→eq none (some b) h = ground arith
condition_eq→eq (some a) none h = ground arith

contains_of_subset :
    (s : String) (xs ys : List String)
    → is_subset xs ys ≡ true
    → contains s xs ≡ true
    → contains s ys ≡ true
unfolding is_subset
contains_of_subset s [] ys h c = ground arith
contains_of_subset s (x ∷ xs) ys h c = ground (arith, eq_iff x s, contains_of_subset s xs ys)

pub contains-with_member :
    (s m : String) (ms : List String)
    → contains s (with_member m ms) ≡ (str_eq m s || contains s ms)
unfolding with_member
contains-with_member s m ms = ground (arith, eq_iff m s)

pub contains-without_member :
    (s m : String) (ms : List String)
    → contains s (without_member m ms) ≡ (contains s ms && not (str_eq m s))
unfolding without_member
contains-without_member s m [] = refl
contains-without_member s m (x ∷ ms) =
    ground (arith, eq_iff x s, eq_iff x m, eq_iff m s, contains-without_member s m ms)

is_subset-cons :
    (y : String) (xs ys : List String) → is_subset xs ys ≡ true → is_subset xs (y ∷ ys) ≡ true
unfolding is_subset
is_subset-cons y [] ys h = refl
is_subset-cons y (x ∷ xs) ys h = ground (arith, is_subset-cons y xs ys)

is_subset_refl : (xs : List String) → is_subset xs xs ≡ true
unfolding is_subset
is_subset_refl [] = refl
is_subset_refl (x ∷ xs) = ground (arith, eq_iff x x, is_subset-cons x xs xs (is_subset_refl xs))

condition_eq_refl : (c : Option Expr) → condition_eq c c ≡ true
unfolding condition_eq expr_eq
condition_eq_refl none = refl
condition_eq_refl (some e) = simp eq_refl

pub binding_eq_refl : (b : Binding) → binding_eq b b ≡ true
unfolding binding_eq
binding_eq_refl b = simp (eq_refl, is_subset_refl, condition_eq_refl)

-- Whether the binding gives `member` the role under the condition.
abbrev pub gives : String → Option Expr → String → Binding → Bool
gives role condition member b = is_for role condition b && contains member b.members

gives_of_eq :
    (role : String) (condition : Option Expr) (member : String) (a b : Binding)
    → binding_eq a b ≡ true
    → gives role condition member a ≡ gives role condition member b
unfolding binding_eq is_for
gives_of_eq role condition member a b h = ground (
  arith,
  eq_iff a.role b.role,
  condition_eq→eq a.condition b.condition,
  contains_of_subset member a.members b.members,
  contains_of_subset member b.members a.members,
)

-- Whether some binding of the list does.
unfoldable pub given : String → Option Expr → String → List Binding → Bool
given role condition member [] = false
given role condition member (b ∷ bs) =
    gives role condition member b || given role condition member bs

module _ (role : String) (condition : Option Expr) (member : String) where
  given_of_has_equal :
      (n : Binding) (bs : List Binding)
      → has_equal n bs ≡ true
      → gives role condition member n ≡ true
      → given role condition member bs ≡ true
  unfolding has_equal given
  given_of_has_equal n [] h g = ground arith
  given_of_has_equal n (b ∷ bs) h g =
      ground (arith, gives_of_eq role condition member n b, given_of_has_equal n bs)

  -- A set with an element added gives what the element gives, and what the set gave.
  pub given-add :
      (n : Binding) (bs : List Binding)
      → given role condition member (add n bs)
        ≡ (gives role condition member n || given role condition member bs)
  unfolding add given
  given-add n bs = ground (arith, given_of_has_equal n bs)

  -- With an element dropped a set gives no more, and no less but for what the element gives.
  pub given_of_discard :
      (b : Binding) (bs : List Binding)
      → given role condition member (discard (some b) bs) ≡ true
      → given role condition member bs ≡ true
  unfolding discard given
  given_of_discard b [] h = h
  given_of_discard b (x ∷ bs) h = ground (arith, given_of_discard b bs)

  pub discard_of_given :
      (b : Binding) (bs : List Binding)
      → gives role condition member b ≡ false
      → given role condition member bs ≡ true
      → given role condition member (discard (some b) bs) ≡ true
  unfolding discard given
  discard_of_given b [] g h = h
  discard_of_given b (x ∷ bs) g h =
      ground (arith, gives_of_eq role condition member b x, discard_of_given b bs)
