-- ===== src/Gcp/Compute/Health/Seen.antt =====
-- What the sets of the wait for healthy backends stand for: framework/infrastructure/gcp/compute.py.
use psm_interop.Gcp.Compute.Health.Sets.{
  IsNegSet, remove-All, add-cases, remove-IsAmong, IsAmong, All-map,
}
use psm_interop.Gcp.Compute.Health.Rounds.{visit_all-breaks, visit_all-skips, visit_all-stops}
use psm_interop.Gcp.Compute.Health.Answers.{reported_healthy, ReportedHealthy}
use psm_interop.Errors.{Exception}
use psm_interop.Common.Effects.{continue, Outcome-cases, Outcome, returned, raised}
use psm_interop.Gcp.Compute.Health.{
  is_empty_set, get_backend_health, mark_healthy, Checks, visit_all, retry_backends_health,
  reports_healthy, add, remove,
}
use psm_interop.Common.{
  ℕ, String, refl, subst, ◌||◌, Option, leb, length, All, ◌≡◌, sym, ◌⊎◌, inl, inr, List, [], ◌∷◌,
  Bool-cases,
}
use psm_interop.Gcp.Compute.{GcpResource, Neg, ComputeApi}

module _ {W : Type 0} (api : ComputeApi W) (service : GcpResource) (region : Option String)
    (backends : List Neg) where
  -- What holds of the two sets all along a wait: each backend is in one of them, nothing else is, the healthy
  -- ones have been reported healthy, and none of them is there twice.
  pub record Seen (pending healthy : List Neg) : Type 0 where
    pub covered : All (λ b. IsAmong b pending ⊎ IsAmong b healthy) backends
    pub pending_backends : All (λ b. IsAmong b backends) pending
    pub healthy_backends : All (λ b. IsAmong b backends) healthy
    pub reported : All (ReportedHealthy api service region) healthy
    pub distinct : IsNegSet healthy

  add-Seen :
      (b : Neg) (pending healthy : List Neg)
      → IsAmong b backends
      → ReportedHealthy api service region b
      → Seen pending healthy
      → Seen (remove b pending) (add b healthy)
  add-Seen b pending healthy is told h = elim (add-cases b healthy) [
    | inl (same, old) ↦ subst (Seen (remove b pending)) (sym same) (record {
      covered = All-map _ _ (λ x c. kept x old c) backends h.covered;
      pending_backends = remove-All _ b pending h.pending_backends;
      healthy_backends = h.healthy_backends;
      reported = h.reported;
      distinct = h.distinct;
    })
    | inr (new, absent) ↦ subst (Seen (remove b pending)) (sym new) (record {
      covered = All-map _ _ (λ x c. moved x c) backends h.covered;
      pending_backends = remove-All _ b pending h.pending_backends;
      healthy_backends = (is, h.healthy_backends);
      reported = (told, h.reported);
      distinct = (absent, h.distinct);
    })
  ]
    where
      kept :
          (x : Neg)
          → IsAmong b healthy
          → IsAmong x pending ⊎ IsAmong x healthy
          → IsAmong x (remove b pending) ⊎ IsAmong x healthy
      kept x old (inr in_healthy) = inr in_healthy
      kept x old (inl in_pending) = elim (remove-IsAmong x b pending in_pending) [
        | inl e ↦ inr (subst (λ y. IsAmong y healthy) (sym e) old)
        | inr stays ↦ inl stays
      ]

      moved :
          (x : Neg)
          → IsAmong x pending ⊎ IsAmong x healthy
          → IsAmong x (remove b pending) ⊎ ((x ≡ b) ⊎ IsAmong x healthy)
      moved x (inr in_healthy) = inr (inr in_healthy)
      moved x (inl in_pending) = elim (remove-IsAmong x b pending in_pending) [
        | inl e ↦ inr (inl e)
        | inr stays ↦ inl stays
      ]

  visit_all-Seen :
      (bs : List Neg) (s : Checks W)
      → All (λ b. IsAmong b backends) bs
      → Seen s.pending s.healthy
      → Seen
          (visit_all api service region bs s).1.pending
          (visit_all api service region bs s).1.healthy
  unfolding visit_all mark_healthy
  visit_all-Seen [] s are h = h
  visit_all-Seen (b ∷ bs) s are h =
      elim (Outcome-cases (get_backend_health api service region b s.world).0) [
        | inl (answer, e) ↦ elim (Bool-cases (reports_healthy answer)) [
          | inl y ↦ rw (visit_all-stops api service region b bs s answer e y) (
              add-Seen b s.pending s.healthy are.0
                (reported_healthy api service region b s.world answer e y) h)
          | inr n ↦ rw (visit_all-skips api service region b bs s answer e n) (
              visit_all-Seen bs
                (record s { world = (get_backend_health api service region b s.world).1 }) are.1 h)
        ]
        | inr (x, e) ↦ rw (visit_all-breaks api service region b bs s x e) h
      ]

  -- An attempt keeps it, however it ends.
  pub retry_backends_health-Seen :
      (replica_count : ℕ) (s : Checks W)
      → Seen s.pending s.healthy
      → Seen
          (retry_backends_health api service region replica_count s).1.pending
          (retry_backends_health api service region replica_count s).1.healthy
  unfolding retry_backends_health
  retry_backends_health-Seen replica_count s h =
      split (visit_all api service region s.pending s)
        (visit_all-Seen s.pending s h.pending_backends h)
    where
      split :
          (end : Outcome Exception (Unit {0}) × Checks W)
          → Seen end.1.pending end.1.healthy
          → Seen
              (continue end.0
                (λ _ (t : Checks W).
                  (returned (is_empty_set t.pending || leb replica_count (length t.healthy)), t))
                end.1).1.pending
              (continue end.0
                (λ _ (t : Checks W).
                  (returned (is_empty_set t.pending || leb replica_count (length t.healthy)), t))
                end.1).1.healthy
      split (returned a, t) k = k
      split (raised e, t) k = k

  All-IsAmong : (bs : List Neg) → All (λ b. IsAmong b bs) bs
  All-IsAmong [] = tt
  All-IsAmong (b ∷ bs) = (inl refl, All-map _ _ (λ x is. inr is) bs (All-IsAmong bs))

  -- It holds at the start of a wait.
  pub start-Seen : Seen backends []
  start-Seen = record {
    covered = All-map _ _ (λ x is. inl is) backends (All-IsAmong backends);
    pending_backends = All-IsAmong backends;
    healthy_backends = tt;
    reported = tt;
    distinct = tt;
  }
