-- ===== src/Objects.antt =====
-- An object of a class, as its state, with the world around it, and what methods are made of.
pub mod Keeps
use psm_interop.Errors.{Exception, attribute_error}
use psm_interop.Common.{Bool, true, false, Option, none, some}
use psm_interop.Common.Effects.{returned, Effect, pure, throw, ◌>>=◌, ◌>>◌}

-- An object of the class `M`.
pub record Object (M W : Type 0) : Type 0 where
  pub manager : M
  pub world : W

abbrev pub ObjectMethod : Type 0 → Type 0 → Type 0 → Type 0
ObjectMethod M W A = Effect (Object M W) Exception A

module _ {M W : Type 0} where
  abbrev pub on_cloud : {A : Type 0} → Effect W Exception A → ObjectMethod M W A
  on_cloud m s = ((m s.world).0, record s { world = (m s.world).1 })

  abbrev pub itself : ObjectMethod M W M
  itself s = (returned s.manager, s)

  abbrev pub change : (M → M) → ObjectMethod M W (Unit {0})
  change f s = (returned tt, record s { manager = f s.manager })

  -- A resource whose fields are read: None has none.
  abbrev pub given : {R : Type 0} → Option R → ObjectMethod M W R
  given none = throw attribute_error
  given (some r) = pure r

module _ {M W : Type 0} where
  -- `if b:` a deletion, and then the field for what was deleted is cleared.
  unfoldable pub drop_if :
      Bool → Effect W Exception (Unit {0}) → (forget : M → M) → ObjectMethod M W (Unit {0})
  drop_if false delete forget = pure tt
  drop_if true delete forget = do on_cloud delete; change forget

-- A method of the base class `B`, on the part of the manager that is a `B`.
module _ {M B W : Type 0} (base : M → B) (with_base : M → B → M) where
  unfoldable pub inherited : {A : Type 0} → ObjectMethod B W A → ObjectMethod M W A
  inherited method s =
      let ended = method (record { manager = base s.manager; world = s.world }) in
      (ended.0, record { manager = with_base s.manager ended.1.manager; world = ended.1.world })
