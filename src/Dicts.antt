-- ===== src/Dicts.antt =====
-- Calls in a row that may raise and change nothing, for do blocks, and the reading of JSON dicts.
use psm_interop.Errors.{Exception, key_error, type_error}
use psm_interop.Common.Effects.{and_then, Outcome, returned, raised}
use psm_interop.Common.{String, ◌≡◌, refl, ap, Option, none, some, List, [], ◌∷◌, map}
use Prim.Native.String
use psm_interop.Common.Json.{
  Json, Items, nil, cons, Fields, end, field, get_field, bool, num, str, arr, obj,
}

infixl 5 ◌>>=◌ ◌>>◌
abbrev pub ◌>>=◌ {ℓ} : {E A B : Type ℓ} → Outcome E A → (A → Outcome E B) → Outcome E B
m >>= f = and_then m f

abbrev pub ◌>>◌ {ℓ} : {E A B : Type ℓ} → Outcome E A → Outcome E B → Outcome E B
m >> k = and_then m (λ _. k)

-- `[f(x) for x in xs]` with an `f` that may raise.
abbrev pub traverse {ℓ} : {E A B : Type ℓ} → (A → Outcome E B) → List A → Outcome E (List B)
traverse f [] = returned []
traverse f (x ∷ xs) = and_then (f x) (λ y. and_then (traverse f xs) (λ ys. returned (y ∷ ys)))

pub traverse-map {ℓ} :
    {E A B : Type ℓ} (f : A → Outcome E B) (g : B → A)
    → ((y : B) → f (g y) ≡ returned y)
    → (ys : List B) → traverse f (map g ys) ≡ returned ys
traverse-map f g same [] = refl
traverse-map f g same (y ∷ ys) = rw (same y) (rw (traverse-map f g same ys) refl)

-- `d[key]`
unfoldable pub subscript : String → Fields → Outcome Exception Json
subscript key d = elim (get_field key d) [ none ↦ raised key_error | some v ↦ returned v ]

-- `d.get(key, default)`
abbrev pub get_or : String → Json → Fields → Json
get_or key default d = elim (get_field key d) [ none ↦ default | some v ↦ v ]

-- The keyword arguments that are given only with a value.
abbrev pub field_of : String → Option Json → Fields → Fields
field_of key none fs = fs
field_of key (some v) fs = field key v fs

abbrev items : Items → List Json
items nil = []
items (cons v vs) = v ∷ items vs

abbrev keys : Fields → List Json
keys end = []
keys (field key v fs) = str key ∷ keys fs

abbrev characters : String → List Json
characters Prim.Native.String.[] = []
characters (Prim.Native.String.◌∷◌ c s) =
    str (Prim.Native.String.◌∷◌ c Prim.Native.String.[]) ∷ characters s

-- What iterating over a value yields.
unfoldable pub iterate : Json → Outcome Exception (List Json)
iterate (bool b) = raised type_error
iterate (num n) = raised type_error
iterate (str s) = returned (characters s)
iterate (arr vs) = returned (items vs)
iterate (obj fs) = returned (keys fs)

-- A value that is read as a dict; what is none raises when it is read.
unfoldable pub as_dict : Exception → Json → Outcome Exception Fields
as_dict e (obj fs) = returned fs
as_dict e _ = raised e

abbrev pub to_items : List Json → Items
to_items [] = nil
to_items (v ∷ vs) = cons v (to_items vs)

items-to_items : (vs : List Json) → items (to_items vs) ≡ vs
items-to_items [] = refl
items-to_items (v ∷ vs) = ap (λ rest. v ∷ rest) (items-to_items vs)

pub iterate-arr : (vs : List Json) → iterate (arr (to_items vs)) ≡ returned vs
unfolding iterate
iterate-arr vs = ap returned (items-to_items vs)
