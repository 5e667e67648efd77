-- ===== src/Gcp/Compute/Health/Sets.antt =====
-- The sets of the wait for healthy backends: framework/infrastructure/gcp/compute.py.
use psm_interop.Gcp.Compute.Health.{add, remove, neg_eq, is_in}
use psm_interop.Common.{
  both-true, ℕ, ◌≡◌, refl, sym, ◌∙◌, subst, ◌⊎◌, inl, inr, true, false, List, [], ◌∷◌, arith,
  eq_refl, ◌==◌, str_eq, Bool-cases, All, ==→≡, str_eq_iff,
}
use psm_interop.Gcp.Compute.{Neg}

nat_eq_refl : (n : ℕ) → (n == n) ≡ true
nat_eq_refl n = ground arith

neg_eq_refl : (b : Neg) → neg_eq b b ≡ true
neg_eq_refl b = simp (eq_refl, nat_eq_refl)

remove-absent : (b : Neg) (bs : List Neg) → is_in b bs ≡ false → remove b bs ≡ bs
unfolding remove
remove-absent b [] h = refl
remove-absent b (x ∷ bs) h = ground (arith, remove-absent b bs)

pub remove-head : (b : Neg) (bs : List Neg) → is_in b bs ≡ false → remove b (b ∷ bs) ≡ bs
unfolding remove
remove-head b bs h = ground (arith, neg_eq_refl b, remove-absent b bs)

-- Nothing is in the set twice.
abbrev pub IsNegSet : List Neg → Type 0
IsNegSet [] = Unit
IsNegSet (b ∷ bs) = (is_in b bs ≡ false) × IsNegSet bs

-- Membership, with the place.
abbrev pub IsAmong : Neg → List Neg → Type 0
IsAmong b [] = ⊥
IsAmong b (x ∷ xs) = (b ≡ x) ⊎ IsAmong b xs

neg_eq-≡ : (a b : Neg) → neg_eq a b ≡ true → a ≡ b
neg_eq-≡ a b h =
    let (name, h1) = both-true (str_eq a.name b.name) _ h in
    let (url, h2) = both-true (str_eq a.url b.url) _ h1 in
    let (zone, h3) = both-true (str_eq a.zone b.zone) _ h2 in
    let (id, h4) = both-true (str_eq a.id b.id) _ h3 in
    let (size, h5) = both-true (a.size == b.size) _ h4 in
    let (type, description) =
      both-true (str_eq a.network_endpoint_type b.network_endpoint_type)
        (str_eq a.description b.description) h5 in
    cc (
      (str_eq_iff a.name b.name).0 name,
      (str_eq_iff a.url b.url).0 url,
      (str_eq_iff a.zone b.zone).0 zone,
      (str_eq_iff a.id b.id).0 id,
      ==→≡ a.size b.size size,
      (str_eq_iff a.network_endpoint_type b.network_endpoint_type).0 type,
      (str_eq_iff a.description b.description).0 description,
    )

is_in-IsAmong : (b : Neg) (bs : List Neg) → is_in b bs ≡ true → IsAmong b bs
is_in-IsAmong b [] h = absurd (cc)
is_in-IsAmong b (x ∷ bs) h = elim (Bool-cases (neg_eq b x)) [
  | inl same ↦ inl (neg_eq-≡ b x same)
  | inr other ↦ inr (is_in-IsAmong b bs (rw other at h))
]

remove-same : (b x : Neg) (bs : List Neg) → neg_eq b x ≡ true → remove b (x ∷ bs) ≡ remove b bs
unfolding remove
remove-same b x bs h = ground (arith, h)

remove-other :
    (b x : Neg) (bs : List Neg) → neg_eq b x ≡ false → remove b (x ∷ bs) ≡ x ∷ remove b bs
unfolding remove
remove-other b x bs h = ground (arith, h)

-- What is not removed stays.
pub remove-IsAmong : (x b : Neg) (bs : List Neg) → IsAmong x bs → (x ≡ b) ⊎ IsAmong x (remove b bs)
remove-IsAmong x b [] h = absurd h
remove-IsAmong x b (y ∷ bs) (inl here) = elim (Bool-cases (neg_eq b y)) [
  | inl same ↦ inl (here ∙ sym (neg_eq-≡ b y same))
  | inr other ↦ inr (rw (remove-other b y bs other) (inl here))
]
remove-IsAmong x b (y ∷ bs) (inr later) =
    let rest = remove-IsAmong x b bs later in
    elim (Bool-cases (neg_eq b y)) [
      | inl same ↦ rw (remove-same b y bs same) rest
      | inr other ↦ elim rest [
        | inl e ↦ inl e
        | inr stays ↦ inr (rw (remove-other b y bs other) (inr stays))
      ]
    ]

pub remove-All : (P : Neg → Type 0) (b : Neg) (bs : List Neg) → All P bs → All P (remove b bs)
unfolding remove
remove-All P b [] h = tt
remove-All P b (x ∷ bs) h =
    let rest = remove-All P b bs h.1 in
    elim (Bool-cases (neg_eq b x)) [
      | inl same ↦ subst (All P) (sym (remove-same b x bs same)) rest
      | inr other ↦ subst (All P) (sym (remove-other b x bs other)) (h.0, rest)
    ]

-- What `add` may do.
pub add-cases :
    (b : Neg) (bs : List Neg)
    → ((add b bs ≡ bs) × IsAmong b bs) ⊎ ((add b bs ≡ b ∷ bs) × (is_in b bs ≡ false))
unfolding add
add-cases b bs = elim (Bool-cases (is_in b bs)) [
  | inl old ↦ inl (ground (arith, old), is_in-IsAmong b bs old)
  | inr new ↦ inr (ground (arith, new), new)
]

pub All-map : (P Q : Neg → Type 0) → ((b : Neg) → P b → Q b) → (bs : List Neg) → All P bs → All Q bs
All-map P Q f [] h = tt
All-map P Q f (b ∷ bs) h = (f b h.0, All-map P Q f bs h.1)
