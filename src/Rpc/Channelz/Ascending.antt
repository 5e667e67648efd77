-- ===== src/Rpc/Channelz/Ascending.antt =====
-- Sequences with ascending numbers, what of them stands from a number on, and their beginnings: what the pages
-- of framework/rpc/grpc_channelz.py are made of.
use psm_interop.Common.{
  ℕ, zero, suc, ◌≤◌, ◌<◌, ◌≡◌, refl, sym, ap, ◌∙◌, subst, Bool, true, false, List, [], ◌∷◌, ◌++◌,
  arith, ltb, leb, if◌then◌else◌, length, keep_if, leb→le,
}
use psm_interop.Rpc.Channelz.{highest}

module _ {A : Type 0} where
  unfoldable pub take : ℕ → List A → List A
  take n [] = []
  take zero (a ∷ xs) = []
  take (suc n) (a ∷ xs) = a ∷ take n xs

  unfoldable pub drop : ℕ → List A → List A
  drop n [] = []
  drop zero (a ∷ xs) = a ∷ xs
  drop (suc n) (a ∷ xs) = drop n xs

  pub take-some : (n : ℕ) (xs : List A) → 1 ≤ n → n < length xs → 1 ≤ length (take n xs)
  unfolding take
  take-some n [] p h = absurd (omega (arith, h))
  take-some zero (a ∷ xs) p h = absurd (omega (arith, p))
  take-some (suc n) (a ∷ xs) p h = omega arith

  pub take-drop : (n : ℕ) (xs : List A) → take n xs ++ drop n xs ≡ xs
  unfolding take drop
  take-drop n [] = refl
  take-drop zero (a ∷ xs) = refl
  take-drop (suc n) (a ∷ xs) = ap (λ ys. a ∷ ys) (take-drop n xs)

  pub take-all : (n : ℕ) (xs : List A) → length xs ≤ n → take n xs ≡ xs
  unfolding take
  take-all n [] h = refl
  take-all zero (a ∷ xs) h = absurd (omega (arith, h))
  take-all (suc n) (a ∷ xs) h = ap (λ ys. a ∷ ys) (take-all n xs (omega (arith, h)))

  drop-le : (n : ℕ) (xs : List A) → length (drop n xs) ≤ length xs
  unfolding drop
  drop-le n [] = omega arith
  drop-le zero (a ∷ xs) = omega arith
  drop-le (suc n) (a ∷ xs) = omega (arith, drop-le n xs)

  pub length-drop : (n : ℕ) (xs : List A) → n < length xs → 1 ≤ n → length (drop n xs) < length xs
  unfolding drop
  length-drop n [] h p = absurd (omega (arith, h))
  length-drop zero (a ∷ xs) h p = absurd (omega (arith, p))
  length-drop (suc n) (a ∷ xs) h p = omega (arith, drop-le n xs)

pub not_leb : (a b : ℕ) → leb a b ≡ false → b < a
not_leb a b h = ground arith

module _ {A : Type 0} (id : A → ℕ) where
  unfoldable pub above : ℕ → List A → List A
  above s xs = keep_if (λ a. leb s (id a)) xs

  -- The numbers go up, from `low` on.
  abbrev pub Ascending : (low : ℕ) → List A → Type 0
  Ascending low [] = Unit
  Ascending low (a ∷ xs) = (low ≤ id a) × Ascending (suc (id a)) xs

  pub above-Ascending : (low s : ℕ) (xs : List A) → Ascending low xs → s ≤ low → above s xs ≡ xs
  unfolding above
  above-Ascending low s [] h p = refl
  above-Ascending low s (a ∷ xs) (q, h) p =
      let rest = above-Ascending (suc (id a)) s xs h (omega (arith, p, q)) in
      ground (arith, rest, p, q)

  above-above : (s t : ℕ) (xs : List A) → s ≤ t → above t (above s xs) ≡ above t xs
  unfolding above
  above-above s t [] p = refl
  above-above s t (a ∷ xs) p = let rest = above-above s t xs p in ground (arith, rest, p)

  Ascending-above : (low s : ℕ) (xs : List A) → Ascending low xs → Ascending s (above s xs)
  unfolding above
  Ascending-above low s [] h = tt
  Ascending-above low s (a ∷ xs) (q, h) =
      split (leb s (id a)) refl (Ascending-above (suc (id a)) s xs h)
    where
      split :
          (b : Bool)
          → leb s (id a) ≡ b
          → Ascending s (above s xs)
          → Ascending s (let rest = above s xs in if b then a ∷ rest else rest)
      split true e rest = (
        leb→le s (id a) e,
        subst (Ascending (suc (id a)))
            (sym (above-Ascending (suc (id a)) s xs h (omega (arith, leb→le s (id a) e)))) h,
      )
      split false e rest = rest

  later : (a b : ℕ) → a ≤ b → (if ltb a b then b else a) ≡ b
  later a b h = ground arith

  above-skip : (s : ℕ) (b : A) (xs : List A) → id b < s → above s (b ∷ xs) ≡ above s xs
  unfolding above
  above-skip s b xs p = ground (arith, p)

  highest-above :
      (a : A) (xs ys : List A)
      → Ascending (suc (id a)) (xs ++ ys)
      → (id a ≤ highest id (id a) xs) × (above (suc (highest id (id a) xs)) (xs ++ ys) ≡ ys)
  unfolding highest
  highest-above a [] ys h =
      (omega arith, above-Ascending (suc (id a)) (suc (id a)) ys h (omega arith))
  highest-above a (b ∷ xs) ys (q, h) =
      let (le, same) = highest-above b xs ys h in
      let e = later (id a) (id b) (omega (arith, q)) in
      subst (λ m. (id a ≤ highest id m xs) × (above (suc (highest id m xs)) (b ∷ (xs ++ ys)) ≡ ys))
        (sym e)
        (
          omega (arith, le, q),
          above-skip (suc (highest id (id b) xs)) b (xs ++ ys) (omega (arith, le)) ∙ same,
        )

  -- What is left after a page that is not empty.
  pub above-rest :
      (start : ℕ) (all items ys : List A)
      → Ascending 0 all
      → items ++ ys ≡ above start all
      → 1 ≤ length items
      → above (suc (highest id start items)) all ≡ ys
  unfolding highest
  above-rest start all [] ys h e p = absurd (omega (arith, p))
  above-rest start all (a ∷ xs) ys h e p =
      let (q, asc) = subst (Ascending start) (sym e) (Ascending-above 0 start all h) in
      let (le, same) = highest-above a xs ys asc in
      let next = suc (highest id (id a) xs) in
      subst (λ m. above (suc (highest id m xs)) all ≡ ys) (sym (later start (id a) q))
        (sym (above-above start next all (omega (arith, q, le)))
          ∙ ap (above next) (sym e)
          ∙ above-skip next a (xs ++ ys) (omega (arith, le))
          ∙ same)
