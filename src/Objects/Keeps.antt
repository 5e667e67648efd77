-- ===== src/Objects/Keeps.antt =====
-- Methods that leave a part of their object as it was, however they end.
use psm_interop.Errors.{Exception}
use psm_interop.Common.{◌≡◌, refl, ap, ◌∙◌, Bool, true, false, Option, none, some, if◌then◌else◌}
use psm_interop.Common.Effects.{Effect, Outcome, pure, lift, returned, raised, continue, ◌>>=◌}
use psm_interop.Objects.{drop_if, on_cloud, inherited, itself, given, Object, ObjectMethod, change}

module _ {M W X : Type 0} (part : M → X) where
  unfoldable pub Keeps : {A : Type 0} → ObjectMethod M W A → Type 0
  Keeps method = (s : Object M W) → part (method s).1.manager ≡ part s.manager

  pub continue-Keeps :
      {A B : Type 0} (o : Outcome Exception A) (f : A → ObjectMethod M W B) (t : Object M W)
      → ((a : A) → Keeps (f a))
      → part (continue o f t).1.manager ≡ part t.manager
  unfolding Keeps
  continue-Keeps (returned a) f t k = k a t
  continue-Keeps (raised e) f t k = refl

  pub bind-Keeps :
      {A B : Type 0} (m : ObjectMethod M W A) (f : A → ObjectMethod M W B)
      → Keeps m
      → ((a : A) → Keeps (f a))
      → Keeps (m >>= f)
  unfolding Keeps
  bind-Keeps m f k q s = continue-Keeps (m s).0 f (m s).1 q ∙ k s

  pub if-Keeps :
      {A : Type 0} (b : Bool) (m n : ObjectMethod M W A)
      → Keeps m
      → Keeps n
      → Keeps (if b then m else n)
  unfolding Keeps
  if-Keeps true m n k q = k
  if-Keeps false m n k q = q

  pub drop_if-Keeps :
      (b : Bool) (delete : Effect W Exception (Unit {0})) (forget : M → M)
      → ((m : M) → part (forget m) ≡ part m)
      → Keeps (drop_if b delete forget)
  unfolding drop_if Keeps
  drop_if-Keeps false delete forget same s = refl
  drop_if-Keeps true delete forget same s =
      continue-Keeps (delete s.world).0 (λ _. change forget)
        (record s { world = (delete s.world).1 }) (λ a t. same t.manager)

module _ {M X : Type 0} (W : Type 0) (part : M → X) where
  pub itself-Keeps : Keeps {W = W} part itself
  unfolding Keeps
  itself-Keeps s = refl

  pub pure-Keeps : {A : Type 0} (a : A) → Keeps {W = W} part (pure a)
  unfolding Keeps
  pure-Keeps a s = refl

  pub lift-Keeps : {A : Type 0} (o : Outcome Exception A) → Keeps {W = W} part (lift o)
  unfolding Keeps
  lift-Keeps o s = refl

  pub on_cloud-Keeps : {A : Type 0} (m : Effect W Exception A) → Keeps part (on_cloud m)
  unfolding Keeps
  on_cloud-Keeps m s = refl

  pub change-Keeps : (f : M → M) → ((m : M) → part (f m) ≡ part m) → Keeps {W = W} part (change f)
  unfolding Keeps
  change-Keeps f same s = same s.manager

  pub given-Keeps : {R : Type 0} (r : Option R) → Keeps {W = W} part (given r)
  unfolding Keeps
  given-Keeps none s = refl
  given-Keeps (some r) s = refl

-- The same for the first step of a method, and what follows it.
module _ {M W X : Type 0} (part : M → X) where
  pub read-Keeps :
      {A : Type 0} (f : M → ObjectMethod M W A)
      → ((m : M) → Keeps part (f m))
      → Keeps part (itself >>= f)
  unfolding Keeps
  read-Keeps f k s = k s.manager s

  pub call-Keeps :
      {A B : Type 0} (m : Effect W Exception A) (f : A → ObjectMethod M W B)
      → ((a : A) → Keeps part (f a))
      → Keeps part (on_cloud m >>= f)
  call-Keeps m f k = bind-Keeps part (on_cloud m) f (on_cloud-Keeps W part m) k

module _ {M B W X A : Type 0} (base : M → B) (with_base : M → B → M) (part : B → X) where
  pub inherited-Keeps :
      (method : ObjectMethod B W A)
      → ((m : M) (b : B) → base (with_base m b) ≡ b)
      → Keeps part method
      → Keeps (λ m. part (base m)) (inherited base with_base method)
  unfolding Keeps inherited
  inherited-Keeps method law k s =
      let ended = method (record { manager = base s.manager; world = s.world }) in
      ap part (law s.manager ended.1.manager)
      ∙ k (record { manager = base s.manager; world = s.world })
