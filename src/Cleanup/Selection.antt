-- ===== src/Cleanup/Selection.antt =====
-- Which leaked Traffic Director resources bin/cleanup/cleanup.py removes, and by which rule.
use psm_interop.Common.{
  ◌≡◌, refl, ap, ◌∙◌, String, true, false, none, some, List, [], ◌∷◌, ◌⊎◌, inl, inr, if◌then◌else◌,
  Bool-cases, Option-cases,
}
use psm_interop.Common.Effects.{Outcome, returned, raised, Effect, pure, continue, ◌>>◌}
use psm_interop.Errors.{Exception}
use psm_interop.Cleanup.{Options, TdRule, search, apply_rules, delete_leaked_td_resources}

-- A removal: what a rule found in a name.
pub record Removal (W : Type 0) : Type 0 where
  pub rule : TdRule W
  pub suffix : String

module _ {W : Type 0} where
  -- The rule is the first that matches the name, and the suffix is what it found.
  pub data Decides : List (TdRule W) → (name : String) → TdRule W → (suffix : String) → Type 0 where
    here :
        {rule : TdRule W} {rules : List (TdRule W)} {name suffix : String}
        → search rule.text name ≡ some suffix
        → Decides (rule ∷ rules) name rule suffix
    later :
        {first rule : TdRule W} {rules : List (TdRule W)} {name suffix : String}
        → search first.text name ≡ none
        → Decides rules name rule suffix
        → Decides (first ∷ rules) name rule suffix

  -- The removals of a run, in order: of each name whose deciding rule does not keep it.
  pub data Removals (rules : List (TdRule W)) : List String → List (Removal W) → Type 0 where
    done : Removals rules [] []
    removed :
        {name : String} {names : List String} {rule : TdRule W} {suffix : String}
        {rest : List (Removal W)}
        → Decides rules name rule suffix
        → rule.keep suffix ≡ false
        → Removals rules names rest
        → Removals rules (name ∷ names) (record { rule = rule; suffix = suffix } ∷ rest)
    kept :
        {name : String} {names : List String} {rule : TdRule W} {suffix : String}
        {rest : List (Removal W)}
        → Decides rules name rule suffix
        → rule.keep suffix ≡ true
        → Removals rules names rest
        → Removals rules (name ∷ names) rest
    unmatched :
        {name : String} {names : List String} {rest : List (Removal W)}
        → ((rule : TdRule W) (suffix : String) → ¬ Decides rules name rule suffix)
        → Removals rules names rest
        → Removals rules (name ∷ names) rest

  abbrev pub remove_all : Options → List (Removal W) → Effect W Exception (Unit {0})
  remove_all options [] = pure tt
  remove_all options (r ∷ rs) = do
    r.rule.remove_fn options r.rule.prefix r.suffix
    remove_all options rs

  apply_rules-Decides :
      (options : Options) (rules : List (TdRule W)) (name : String) (rule : TdRule W)
      (suffix : String) (w : W)
      → Decides rules name rule suffix
      → apply_rules options rules name w
        ≡ (if rule.keep suffix then pure tt else rule.remove_fn options rule.prefix suffix) w
  unfolding apply_rules
  apply_rules-Decides options [] name rule' suffix w d = elim d [ ]
  apply_rules-Decides options (rule ∷ rules) name rule' suffix w (here e) = rw e refl
  apply_rules-Decides options (first ∷ rules) name rule suffix w (later e d) =
      rw e (apply_rules-Decides options rules name rule suffix w d)

  apply_rules-unmatched :
      (options : Options) (rules : List (TdRule W)) (name : String) (w : W)
      → ((rule : TdRule W) (suffix : String) → ¬ Decides rules name rule suffix)
      → apply_rules options rules name w ≡ (returned tt, w)
  unfolding apply_rules
  apply_rules-unmatched options [] name w none_of = refl
  apply_rules-unmatched options (rule ∷ rules) name w none_of =
      elim (Option-cases (search rule.text name)) [
        | inl absent ↦ rw absent (
            apply_rules-unmatched options rules name w
              (λ r suffix d. none_of r suffix (later absent d)))
        | inr (suffix, found) ↦ absurd (none_of rule suffix (here found))
      ]

  no_rule : (name : String) (rule : TdRule W) (suffix : String) → ¬ Decides [] name rule suffix
  no_rule name rule suffix d = elim d [ ]

  only_later :
      (first : TdRule W) (rules : List (TdRule W)) (name : String)
      → search first.text name ≡ none
      → ((rule : TdRule W) (suffix : String) → ¬ Decides rules name rule suffix)
      → (rule : TdRule W) (suffix : String) → ¬ Decides (first ∷ rules) name rule suffix
  only_later first rules name absent n rule suffix (here e) = cc
  only_later first rules name absent n rule suffix (later e d) = n rule suffix d

  Decides-cases :
      (rules : List (TdRule W)) (name : String)
      → ((rule : TdRule W) × (suffix : String) × Decides rules name rule suffix)
        ⊎ ((rule : TdRule W) (suffix : String) → ¬ Decides rules name rule suffix)
  Decides-cases [] name = inr (λ rule suffix d. no_rule name rule suffix d)
  Decides-cases (first ∷ rules) name = elim (Option-cases (search first.text name)) [
    | inl absent ↦ elim (Decides-cases rules name) [
      | inl (rule, suffix, d) ↦ inl (rule, suffix, later absent d)
      | inr n ↦ inr (only_later first rules name absent n)
    ]
    | inr (suffix, found) ↦ inl (first, suffix, here found)
  ]

  next-same :
      (end : Outcome Exception (Unit {0}) × W) (f g : Effect W Exception (Unit {0}))
      → ((w : W) → f w ≡ g w)
      → continue end.0 (λ _. f) end.1 ≡ continue end.0 (λ _. g) end.1
  next-same (returned tt, w) f g same = same w
  next-same (raised e, w) f g same = refl

  delete_next :
      (options : Options) (rules : List (TdRule W)) (name : String) (names : List String)
      (m rest : Effect W Exception (Unit {0})) (w : W)
      → apply_rules options rules name w ≡ m w
      → ((v : W) → delete_leaked_td_resources options false rules names v ≡ rest v)
      → delete_leaked_td_resources options false rules (name ∷ names) w ≡ (m >> rest) w
  unfolding delete_leaked_td_resources
  delete_next options rules name names m rest w e same =
      ap (λ end. continue end.0 (λ _. delete_leaked_td_resources options false rules names) end.1) e
      ∙ next-same (m w) (delete_leaked_td_resources options false rules names) rest same

  delete-Removals :
      (options : Options) (rules : List (TdRule W)) (names : List String) (rs : List (Removal W))
      (w : W)
      → Removals rules names rs
      → delete_leaked_td_resources options false rules names w ≡ remove_all options rs w
  unfolding delete_leaked_td_resources
  delete-Removals options rules [] rs w done = refl
  delete-Removals options rules (name ∷ names) rs w
        (removed {rule = rule} {suffix} {rest} d k more) =
      delete_next options rules name names (rule.remove_fn options rule.prefix suffix)
        (remove_all options rest) w
        (apply_rules-Decides options rules name rule suffix w d ∙ rw k refl)
        (λ v. delete-Removals options rules names rest v more)
  delete-Removals options rules (name ∷ names) rs w (kept {rule = rule} {suffix} d k more) =
      delete_next options rules name names (pure tt) (remove_all options rs) w
        (apply_rules-Decides options rules name rule suffix w d ∙ rw k refl)
        (λ v. delete-Removals options rules names rs v more)
  delete-Removals options rules (name ∷ names) rs w (unmatched n more) =
      delete_next options rules name names (pure tt) (remove_all options rs) w
        (apply_rules-unmatched options rules name w n)
        (λ v. delete-Removals options rules names rs v more)

  Removals-total :
      (rules : List (TdRule W)) (names : List String)
      → (rs : List (Removal W)) × Removals rules names rs
  Removals-total rules [] = ([], done)
  Removals-total rules (name ∷ names) =
      let (rest, more) = Removals-total rules names in
      elim (Decides-cases rules name) [
        | inl (rule, suffix, d) ↦ elim (Bool-cases (rule.keep suffix)) [
          | inl k ↦ (rest, kept d k more)
          | inr k ↦ (record { rule = rule; suffix = suffix } ∷ rest, removed d k more)
        ]
        | inr n ↦ (rest, unmatched n more)
      ]

  dry_run-idle :
      (options : Options) (rules : List (TdRule W)) (names : List String) (w : W)
      → delete_leaked_td_resources options true rules names w ≡ (returned tt, w)
  unfolding delete_leaked_td_resources
  dry_run-idle options rules [] w = refl
  dry_run-idle options rules (name ∷ names) w = dry_run-idle options rules names w

  -- A run removes, in order, the resources whose first matching rule does not keep them, by that rule, and
  -- nothing else, and ends at the first removal that raises; a dry run does nothing.
  pub delete_leaked_td_resources-Removals :
      (options : Options) (rules : List (TdRule W)) (names : List String)
      → (rs : List (Removal W)) × Removals rules names rs
        × ((w : W)
            → delete_leaked_td_resources options false rules names w ≡ remove_all options rs w)
        × ((w : W) → delete_leaked_td_resources options true rules names w ≡ (returned tt, w))
  delete_leaked_td_resources-Removals options rules names =
      let (rs, removals) = Removals-total rules names in
      (
        rs,
        removals,
        λ w. delete-Removals options rules names rs w removals,
        dry_run-idle options rules names,
      )
