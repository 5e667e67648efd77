-- ===== src/Gcp/Compute/Health/Rounds.antt =====
-- One attempt of `_retry_backends_health`, framework/infrastructure/gcp/compute.py, and the attempts
-- that a wait takes.
use psm_interop.Gcp.Compute.Health.Sets.{remove-head, IsNegSet}
use psm_interop.Gcp.Compute.Health.Answers.{others_reported, OthersReported}
use psm_interop.Common.{
  ℕ, zero, suc, ◌≡◌, ◌⊎◌, inl, inr, refl, ap, sym, subst, ◌∙◌, String, Bool, true, false, Option,
  List, [], ◌∷◌, ◌||◌, arith, leb, length, Bool-cases,
}
use psm_interop.Common.Effects.{
  returned-injective, Outcome, Outcome-cases, returned, raised, continue, bind-returned,
}
use mathlib.Core.Bool.{false≢true}
use psm_interop.Errors.{Exception, runtime_error}
use psm_interop.Gcp.Compute.{GcpResource, Instance, Neg, ComputeApi}
use psm_interop.Gcp.Compute.Health.{
  Checks, remove, add, is_empty_set, reports_healthy, mark_healthy, get_backend_health, visit,
  visit_all, retry_backends_health,
}

module _ {W : Type 0} (api : ComputeApi W) (service : GcpResource) (region : Option String) where
  -- What a loop from `s` ends with: nothing moved; or one backend moved, and RuntimeError.
  abbrev Moves : Checks W → Outcome Exception (Unit {0}) × Checks W → Type 0
  Moves s end =
      (end.1.pending ≡ s.pending) × (end.1.healthy ≡ s.healthy)
      ⊎ ((b : Neg) × (end.0 ≡ raised runtime_error)
          × (end.1.pending ≡ remove b s.pending)
          × (end.1.healthy ≡ add b s.healthy))

  abbrev asked : Neg → Checks W → Checks W
  asked b s = record s { world = (get_backend_health api service region b s.world).1 }

  pub visit_all-skips :
      (b : Neg) (bs : List Neg) (s : Checks W) (answer : Option (List Instance))
      → (get_backend_health api service region b s.world).0 ≡ returned answer
      → reports_healthy answer ≡ false
      → visit_all api service region (b ∷ bs) s ≡ visit_all api service region bs (asked b s)
  unfolding visit_all visit
  visit_all-skips b bs s answer e n = ground arith

  pub visit_all-stops :
      (b : Neg) (bs : List Neg) (s : Checks W) (answer : Option (List Instance))
      → (get_backend_health api service region b s.world).0 ≡ returned answer
      → reports_healthy answer ≡ true
      → visit_all api service region (b ∷ bs) s ≡ (raised runtime_error, mark_healthy b (asked b s))
  unfolding visit_all visit mark_healthy
  visit_all-stops b bs s answer e y = ground arith

  pub visit_all-breaks :
      (b : Neg) (bs : List Neg) (s : Checks W) (x : Exception)
      → (get_backend_health api service region b s.world).0 ≡ raised x
      → visit_all api service region (b ∷ bs) s ≡ (raised x, asked b s)
  unfolding visit_all visit
  visit_all-breaks b bs s x e = ground arith

  visit_all-Moves : (bs : List Neg) (s : Checks W) → Moves s (visit_all api service region bs s)
  unfolding visit_all mark_healthy
  visit_all-Moves [] s = inl (refl, refl)
  visit_all-Moves (b ∷ bs) s =
      elim (Outcome-cases (get_backend_health api service region b s.world).0) [
        | inl (answer, e) ↦ elim (Bool-cases (reports_healthy answer)) [
          | inl y ↦ rw (visit_all-stops b bs s answer e y) (inr (b, refl, refl, refl))
          | inr n ↦ rw (visit_all-skips b bs s answer e n) (visit_all-Moves bs (asked b s))
        ]
        | inr (x, e) ↦ rw (visit_all-breaks b bs s x e) (inl (refl, refl))
      ]

  -- A loop that comes to its end has left both sets as they were, and was told of none that it is healthy.
  visit_all-returned :
      (bs : List Neg) (s s' : Checks W)
      → visit_all api service region bs s ≡ (returned tt, s')
      → (s'.pending ≡ s.pending)
        × (s'.healthy ≡ s.healthy)
        × OthersReported api service region bs s.world s'.world
  unfolding visit_all
  visit_all-returned [] s s' h = (
    ap (λ end. end.1.pending) (sym h),
    ap (λ end. end.1.healthy) (sym h),
    ap (λ end. end.1.world) h,
  )
  visit_all-returned (b ∷ bs) s s' h =
      elim (Outcome-cases (get_backend_health api service region b s.world).0) [
        | inl (answer, e) ↦ elim (Bool-cases (reports_healthy answer)) [
          | inl y ↦ absurd (cc (h, visit_all-stops b bs s answer e y))
          | inr n ↦
              let (pending, healthy, others) =
                visit_all-returned bs (asked b s) s'
                  (sym (visit_all-skips b bs s answer e n) ∙ h) in
              (
                pending,
                healthy,
                others_reported api service region b bs s.world s'.world answer e n others,
              )
        ]
        | inr (x, e) ↦ absurd (cc (h, visit_all-breaks b bs s x e))
      ]

  abbrev verdict : ℕ → Checks W → Bool
  verdict replica_count t = is_empty_set t.pending || leb replica_count (length t.healthy)

  -- An attempt that returns has asked for the health of the pending backends in turn, and nothing else, and
  -- no answer was that a backend is healthy. It has left both sets as they were, and its result is the test
  -- on the two sets.
  pub retry_backends_health-returned :
      (replica_count : ℕ) (s s' : Checks W) (result : Bool)
      → retry_backends_health api service region replica_count s ≡ (returned result, s')
      → OthersReported api service region s.pending s.world s'.world
        × (s'.pending ≡ s.pending)
        × (s'.healthy ≡ s.healthy)
        × (result ≡ (is_empty_set s.pending || leb replica_count (length s.healthy)))
  unfolding retry_backends_health
  retry_backends_health-returned replica_count s s' result h =
      let (a, u, visited, rest) =
        bind-returned (visit_all api service region s.pending)
          (λ _ (t : Checks W). (returned (verdict replica_count t), t)) s s' result h in
      let (pending, healthy, others) = visit_all-returned s.pending s u visited in
      let same : u ≡ s' = ap (λ end. end.1) rest in
      let tested : verdict replica_count u ≡ result = returned-injective (ap (λ end. end.0) rest) in
      (
        subst (λ t. OthersReported api service region s.pending s.world t.world) same others,
        ap (λ t. t.pending) (sym same) ∙ pending,
        ap (λ t. t.healthy) (sym same) ∙ healthy,
        sym tested
            ∙ ap (λ l. is_empty_set l || leb replica_count (length u.healthy)) pending
            ∙ ap (λ l. is_empty_set s.pending || leb replica_count (length l)) healthy,
      )

  -- Whether the backend would report that it is healthy.
  abbrev pub reports : Neg → W → Bool
  reports b w = says (get_backend_health api service region b w).0
    where
      says : Outcome Exception (Option (List Instance)) → Bool
      says (returned answer) = reports_healthy answer
      says (raised e) = false

  -- With backends that always report it, an attempt over a set that is not empty raises RuntimeError,
  -- and has moved the first of the set.
  retry_backends_health-healthy :
      (replica_count : ℕ) (b : Neg) (bs : List Neg) (s : Checks W)
      → s.pending ≡ b ∷ bs
      → reports b s.world ≡ true
      → retry_backends_health api service region replica_count s
        ≡ (raised runtime_error, mark_healthy b (asked b s))
  unfolding retry_backends_health
  retry_backends_health-healthy replica_count b bs s e y =
      elim (Outcome-cases (get_backend_health api service region b s.world).0) [
        | inl (answer, got) ↦
            let stops =
              ap (λ l. visit_all api service region l s) e
              ∙ visit_all-stops b bs s answer got (rw got at y) in
            ap
              (λ end.
                continue end.0 (λ _ (t : Checks W). (returned (verdict replica_count t), t)) end.1)
              stops
        | inr (x, broke) ↦ absurd (false≢true (rw broke at y))
      ]

  -- The first `k` attempts from `s` raise RuntimeError; where they leave the sets and the world.
  abbrev pub BreaksFor : ℕ → (replica_count : ℕ) → Checks W → Type 0
  BreaksFor zero n s = Unit
  BreaksFor (suc k) n s =
      ((retry_backends_health api service region n s).0 ≡ raised runtime_error)
      × BreaksFor k n (retry_backends_health api service region n s).1

  abbrev pub attempts : ℕ → (replica_count : ℕ) → Checks W → Checks W
  attempts zero n s = s
  attempts (suc k) n s = attempts k n (retry_backends_health api service region n s).1

  abbrev EndsAfter : ℕ → (replica_count : ℕ) → Checks W → Type 0
  EndsAfter k n s =
      BreaksFor k n s
      × ((retry_backends_health api service region n (attempts k n s)).0 ≡ returned true)

  EndsAfter-suc :
      (k n : ℕ) (s t : Checks W)
      → retry_backends_health api service region n s ≡ (raised runtime_error, t)
      → EndsAfter k n t
      → EndsAfter (suc k) n s
  EndsAfter-suc k n s t e h =
      let h' = subst (EndsAfter k n) (sym (ap (λ end. end.1) e)) h in
      ((ap (λ end. end.0) e, h'.0), h'.1)

  EndsAfter-empty : (n : ℕ) (s : Checks W) → s.pending ≡ [] → EndsAfter zero n s
  unfolding retry_backends_health visit_all
  EndsAfter-empty n s e = (tt, ground arith)

  module _ (always : (b : Neg) (w : W) → reports b w ≡ true) (replica_count : ℕ) where
    rounds :
        (l : List Neg) (k : ℕ) (s : Checks W)
        → s.pending ≡ l
        → IsNegSet l
        → length l ≡ k
        → EndsAfter k replica_count s
    unfolding mark_healthy
    rounds [] zero s e nodup len = EndsAfter-empty replica_count s e
    rounds [] (suc k) s e nodup len = absurd (omega arith)
    rounds (b ∷ bs) zero s e nodup len = absurd (omega arith)
    rounds (b ∷ bs) (suc k) s e nodup len =
        EndsAfter-suc k replica_count s _
          (retry_backends_health-healthy replica_count b bs s e (always b s.world))
          (rounds bs k (mark_healthy b (asked b s)) (ap (remove b) e ∙ remove-head b bs nodup.0)
            nodup.1 (omega arith))

    -- Where every backend always reports that it is healthy, a wait over `k` different
    -- backends makes `k` attempts that raise RuntimeError, whatever `replica_count` is, and the next
    -- one returns True.
    pub healthy_rounds :
        (k : ℕ) (s : Checks W)
        → IsNegSet s.pending
        → length s.pending ≡ k
        → BreaksFor k replica_count s
          × ((retry_backends_health api service region replica_count (attempts k replica_count s)).0
              ≡ returned true)
    healthy_rounds k s nodup len = rounds s.pending k s refl nodup len
