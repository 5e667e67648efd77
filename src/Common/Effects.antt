-- ===== src/Common/Effects.antt =====
-- Python's effects as values: a call of a function that may raise and that changes the world `W`
-- around it. What was changed before a raise stays changed.

use mathlib.Core.Path.{ap, ◌≡◌, refl}
use mathlib.Core.Logic.{◌⊎◌, inl, inr}

-- What a call ends with, over the exceptions `E`.
pub data Outcome {ℓ} (E A : Type ℓ) : Type ℓ where
  returned : A → Outcome E A
  raised : E → Outcome E A

pub Outcome-cases {ℓ} :
    {E A : Type ℓ} (o : Outcome E A) → ((a : A) × (o ≡ returned a)) ⊎ ((e : E) × (o ≡ raised e))
Outcome-cases (returned a) = inl (a, refl)
Outcome-cases (raised e) = inr (e, refl)

abbrev pub Effect {ℓ} : Type ℓ → Type ℓ → Type ℓ → Type ℓ
Effect W E A = W → Outcome E A × W

module _ {ℓ} {W E A : Type ℓ} where
  abbrev pub pure : A → Effect W E A
  pure a w = (returned a, w)

  abbrev pub throw : E → Effect W E A
  throw e w = (raised e, w)

module _ {ℓ} {W E A B : Type ℓ} where
  abbrev pub continue : Outcome E A → (A → Effect W E B) → Effect W E B
  continue (returned a) f w = f a w
  continue (raised e) f w = (raised e, w)

  infixl 5 ◌>>=◌ ◌>>◌
  abbrev pub ◌>>=◌ : Effect W E A → (A → Effect W E B) → Effect W E B
  ◌>>=◌ m f w = continue (m w).0 f (m w).1

  abbrev pub ◌>>◌ : Effect W E A → Effect W E B → Effect W E B
  m >> k = m >>= λ _. k

module _ {ℓ} {W E A : Type ℓ} where
  abbrev pub handle : Outcome E A → (E → Effect W E A) → Effect W E A
  handle (returned a) f w = (returned a, w)
  handle (raised e) f w = f e w

  -- `try: m` with `except: f`; a handler that does not fit raises its argument again.
  abbrev pub catch : Effect W E A → (E → Effect W E A) → Effect W E A
  catch m f w = handle (m w).0 f (m w).1

module _ {ℓ} {W E A : Type ℓ} where
  abbrev finished : Outcome E A → Outcome E (Unit {ℓ}) × W → Outcome E A × W
  finished o (returned x, w) = (o, w)
  finished o (raised e, w) = (raised e, w)

  -- `try: m` with `finally: k`: what `k` raises takes the place of what `m` ended with.
  abbrev pub finally : Effect W E A → Effect W E (Unit {ℓ}) → Effect W E A
  finally m k w = finished (m w).0 (k (m w).1)

module _ {ℓ} {E A B : Type ℓ} where
  -- Calls in a row that may raise and change nothing.
  abbrev pub and_then : Outcome E A → (A → Outcome E B) → Outcome E B
  and_then (returned a) f = f a
  and_then (raised e) f = raised e

module _ {ℓ} {W E A : Type ℓ} where
  abbrev pub lift : Outcome E A → Effect W E A
  lift o w = (o, w)

pub returned-injective {ℓ} :
    {E A : Type ℓ} {a b : A} → ◌≡◌ {A = Outcome E A} (returned a) (returned b) → a ≡ b
returned-injective h = cc

pub raised-injective {ℓ} :
    {E A : Type ℓ} {a b : E} → ◌≡◌ {A = Outcome E A} (raised a) (raised b) → a ≡ b
raised-injective h = cc

pub raised-ne-returned {ℓ} :
    {W E B : Type ℓ} {x : E} {u w' : W} {b : B}
    → ◌≡◌ {A = Outcome E B × W} (raised x, u) (returned b, w')
    → ⊥
raised-ne-returned h = cc

module _ {ℓ} {W E A B : Type ℓ} where
  -- What the parts of a successful `do` block returned.
  pub bind-returned :
      (m : Effect W E A) (f : A → Effect W E B) (w w' : W) (b : B)
      → (m >>= f) w ≡ (returned b, w')
      → (a : A) × (u : W) × (m w ≡ (returned a, u)) × (f a u ≡ (returned b, w'))
  bind-returned m f w w' b h = split (m w) refl
    where
      split :
          (end : Outcome E A × W)
          → m w ≡ end
          → (a : A) × (u : W) × (m w ≡ (returned a, u)) × (f a u ≡ (returned b, w'))
      split (returned a, u) e = (a, u, e, rw e at h)
      split (raised x, u) e = absurd (raised-ne-returned (rw e at h))

module _ {ℓ} {W E A : Type ℓ} where
  -- A call that returned under a handler that only raises has returned by itself.
  pub catch-returned :
      (m : Effect W E A) (f : E → E) (w w' : W) (a : A)
      → catch m (λ e. throw (f e)) w ≡ (returned a, w')
      → m w ≡ (returned a, w')
  catch-returned m f w w' a h = split (m w) refl
    where
      split : (end : Outcome E A × W) → m w ≡ end → end ≡ (returned a, w')
      split (returned b, u) e = rw e at h
      split (raised x, u) e = absurd (raised-ne-returned (rw e at h))

module _ {ℓ} {W E A B : Type ℓ} where
  -- Which part of a `do` block has raised.
  pub continue-raised :
      (o : Outcome E A) (f : A → Effect W E B) (x : E) (w w' : W)
      → continue o f w ≡ (raised x, w')
      → ((o ≡ raised x) × (w ≡ w')) ⊎ ((a : A) × (o ≡ returned a) × (f a w ≡ (raised x, w')))
  continue-raised (returned a) f x w w' h = inr (a, refl, h)
  continue-raised (raised y) f x w w' h =
      inl (raised-same (ap (λ end. end.0) h), ap (λ end. end.1) h)
    where
      raised-same :
          {a b : E}
          → ◌≡◌ {A = Outcome E B} (raised a) (raised b)
          → ◌≡◌ {A = Outcome E A} (raised a) (raised b)
      raised-same e = ap raised (raised-injective e)

module _ {ℓ} {W E A : Type ℓ} where
  -- Where the result of a handled call comes from.
  pub handle-cases :
      (o : Outcome E A) (f : E → Effect W E A) (w : W) (end : Outcome E A × W)
      → handle o f w ≡ end
      → ((o ≡ end.0) × (w ≡ end.1)) ⊎ ((x : E) × (o ≡ raised x) × (f x w ≡ end))
  handle-cases (returned a) f w end h = inl (ap (λ e. e.0) h, ap (λ e. e.1) h)
  handle-cases (raised x) f w end h = inr (x, refl, h)
