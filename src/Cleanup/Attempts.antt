-- ===== src/Cleanup/Attempts.antt =====
-- Which namespaces bin/cleanup/cleanup.py cleans up, and how it counts what goes wrong.
use psm_interop.Common.{
  ◌++◌, length-append, ◌≡◌, ◌≢◌, ℕ, suc, ◌+◌, refl, sym, ap, subst, ◌∙◌, ◌↔◌, String, Bool, false,
  none, some, List, [], ◌∷◌, ◌⊎◌, inl, inr, arith, if◌then◌else◌, Bool-cases, Option-cases,
  contains, ltb, length,
}
use psm_interop.Common.Effects.{Outcome, returned, raised, Effect, Outcome-cases}
use psm_interop.Errors.{Exception, not_found}
use psm_interop.Cleanup.{
  CleanupResult, add_error, exit_status, Namespace, K8sRule, protected_namespaces, Run,
  rule_match_k8s_namespace, note, noted, attempt, visit, delete_k8s_resources,
}

length_snoc : (ms : List String) (m : String) → length (ms ++ (m ∷ [])) ≡ suc (length ms)
length_snoc ms m = length-append ms (m ∷ []) ∙ omega arith

-- NotFound is passed over, and all else is counted and told.
note-cases :
    (str : Exception → String) (namespace : String) (e : Exception) (r : CleanupResult)
    → ((e ≡ not_found) × (note str namespace e r ≡ r))
      ⊎ ((e ≢ not_found)
          × ((note str namespace e r).error_count ≡ suc r.error_count)
          × (length (note str namespace e r).error_messages ≡ suc (length r.error_messages)))
unfolding note add_error
note-cases str namespace not_found r = inl (refl, refl)
note-cases str namespace _ r = inr (λ h. cc, refl, length_snoc r.error_messages _)

no_more : {n : ℕ} (k : ℕ) → n ≡ 0 + k → n ≡ k
no_more k e = omega arith

exit_status-zero : (r : CleanupResult) → (exit_status r ≡ 0) ↔ (r.error_count ≡ 0)
unfolding exit_status
exit_status-zero r = (λ h. ground arith, λ h. ground arith)

plus_one : {m n : ℕ} (k : ℕ) → m ≡ suc n → m + k ≡ n + suc k
plus_one k e = omega arith

module _ {W : Type 0} (str : Exception → String) (secondary dry_run : Bool) (expire : ℕ)
    (rules : List (K8sRule W)) where
  -- A namespace is cleaned up by the rule that matches its name, unless it is the system's, too young, or
  -- the run is a dry one.
  abbrev pub IsDue : Namespace → K8sRule W → Type 0
  IsDue ns rule =
      (contains ns.name protected_namespaces ≡ false)
      × (ltb expire ns.creation_timestamp ≡ false)
      × (dry_run ≡ false)
      × (rule_match_k8s_namespace ns.name rules ≡ some rule)

  abbrev pub clean : K8sRule W → Namespace → Effect W Exception (Unit {0})
  clean rule ns = rule.cleanup_ns_fn ns.name (if secondary then some "alt" else none)

  -- The cleanups of a run, in order, from a world to a world, and how many of them failed.
  pub data Cleanups : List Namespace → (w w' : W) → (failed : ℕ) → Type 0 where
    done : {w : W} → Cleanups [] w w 0
    skipped :
        {ns : Namespace} {nss : List Namespace} {w w' : W} {k : ℕ}
        → ((rule : K8sRule W) → ¬ IsDue ns rule)
        → Cleanups nss w w' k
        → Cleanups (ns ∷ nss) w w' k
    cleaned :
        {ns : Namespace} {nss : List Namespace} {w u w' : W} {k : ℕ} (rule : K8sRule W)
        → IsDue ns rule
        → (clean rule ns w ≡ (returned tt, u)) ⊎ (clean rule ns w ≡ (raised not_found, u))
        → Cleanups nss u w' k
        → Cleanups (ns ∷ nss) w w' k
    failed :
        {ns : Namespace} {nss : List Namespace} {w u w' : W} {k : ℕ} (rule : K8sRule W)
        (e : Exception)
        → IsDue ns rule
        → clean rule ns w ≡ (raised e, u)
        → e ≢ not_found
        → Cleanups nss u w' k
        → Cleanups (ns ∷ nss) w w' (suc k)

  -- A visit leaves all as it was, if the namespace is not due, or is the attempt of its rule.
  visit-cases :
      (ns : Namespace) (s : Run W)
      → (((rule : K8sRule W) → ¬ IsDue ns rule)
          × (visit str secondary dry_run expire rules ns s ≡ s))
        ⊎ ((rule : K8sRule W) × IsDue ns rule
            × (visit str secondary dry_run expire rules ns s
                ≡ attempt str secondary rule ns.name s))
  unfolding visit
  visit-cases ns s = elim (Bool-cases (contains ns.name protected_namespaces)) [
    | inl p ↦ inl (λ rule due. cc, rw p refl)
    | inr p ↦ elim (Bool-cases (ltb expire ns.creation_timestamp)) [
      | inl y ↦ inl (λ rule due. cc, rw p (rw y refl))
      | inr y ↦ elim (Bool-cases dry_run) [
        | inl d ↦ inl (λ rule due. cc, rw p (rw y (rw d refl)))
        | inr d ↦ elim (Option-cases (rule_match_k8s_namespace ns.name rules)) [
          | inl m ↦ inl (λ rule due. cc, rw p (rw y (rw d (rw m refl))))
          | inr (rule, m) ↦ inr (rule, (p, y, d, m), rw p (rw y (rw d (rw m refl))))
        ]
      ]
    ]
  ]

  abbrev Counted : List Namespace → (s t : Run W) → Type 0
  Counted nss s t =
      (k : ℕ) × Cleanups nss s.world t.world k
      × (t.result.error_count ≡ s.result.error_count + k)
      × (length t.result.error_messages ≡ length s.result.error_messages + k)

  same_result :
      (rule : K8sRule W) (ns : Namespace) (s : Run W) (o : Outcome Exception (Unit {0}))
      → (clean rule ns s.world).0 ≡ o
      → (attempt str secondary rule ns.name s).result ≡ noted str ns.name o s.result
  unfolding attempt
  same_result rule ns s o e = ap (λ x. noted str ns.name x s.result) e

  same_end :
      (rule : K8sRule W) (ns : Namespace) (s : Run W) (o : Outcome Exception (Unit {0}))
      → (clean rule ns s.world).0 ≡ o
      → clean rule ns s.world ≡ (o, (attempt str secondary rule ns.name s).world)
  unfolding attempt
  same_end rule ns s o e = ap (λ x. (x, (clean rule ns s.world).1)) e

  Counted-attempt :
      (rule : K8sRule W) (ns : Namespace) (nss : List Namespace) (s t : Run W)
      → IsDue ns rule
      → Counted nss (attempt str secondary rule ns.name s) t
      → Counted (ns ∷ nss) s t
  Counted-attempt rule ns nss s t due (k, rest, count, messages) =
      elim (Outcome-cases (clean rule ns s.world).0) [
        | inl (tt, e) ↦
            let r = same_result rule ns s (returned tt) e in
            (
              k,
              cleaned rule due (inl (same_end rule ns s (returned tt) e)) rest,
              count ∙ ap (λ x. x.error_count + k) r,
              messages ∙ ap (λ x. length x.error_messages + k) r,
            )
        | inr (x, e) ↦
            let r = same_result rule ns s (raised x) e in
            elim (note-cases str ns.name x s.result) [
              | inl (missing, same) ↦ (
                k,
                cleaned rule due
                    (inr (
                      same_end rule ns s (raised x) e
                      ∙ ap (λ y. (raised y, (attempt str secondary rule ns.name s).world)) missing))
                    rest,
                count ∙ ap (λ y. y.error_count + k) (r ∙ same),
                messages ∙ ap (λ y. length y.error_messages + k) (r ∙ same),
              )
              | inr (ne, one_more, one_told) ↦ (
                suc k,
                failed rule x due (same_end rule ns s (raised x) e) ne rest,
                count ∙ ap (λ y. y.error_count + k) r ∙ plus_one k one_more,
                messages ∙ ap (λ y. length y.error_messages + k) r ∙ plus_one k one_told,
              )
            ]
      ]

  Counted-all :
      (nss : List Namespace) (s : Run W)
      → Counted nss s (delete_k8s_resources str secondary dry_run expire rules nss s)
  unfolding delete_k8s_resources
  Counted-all [] s = (0, done, omega arith, omega arith)
  Counted-all (ns ∷ nss) s = elim (visit-cases ns s) [
    | inl (idle, same) ↦
        let (k, rest, count, messages) = Counted-all nss s in
        subst
          (λ u.
            Counted (ns ∷ nss) s (delete_k8s_resources str secondary dry_run expire rules nss u))
          (sym same) (k, skipped idle rest, count, messages)
    | inr (rule, due, same) ↦
        subst
          (λ u.
            Counted (ns ∷ nss) s (delete_k8s_resources str secondary dry_run expire rules nss u))
          (sym same)
          (Counted-attempt rule ns nss s _ due
            (Counted-all nss (attempt str secondary rule ns.name s)))
  ]

  -- A run over namespaces cleans up those that are due, each whatever became of the ones before it, and
  -- nothing else; what fails but for NotFound is counted and told, and the script's status is 0 only if
  -- nothing has.
  pub delete_k8s_resources-Cleanups :
      (nss : List Namespace) (w : W)
      → let t =
          delete_k8s_resources str secondary dry_run expire rules nss
            (record { result = record { error_count = 0; error_messages = [] }; world = w }) in
        (k : ℕ) × Cleanups nss w t.world k
        × (t.result.error_count ≡ k)
        × (length t.result.error_messages ≡ k)
        × ((exit_status t.result ≡ 0) ↔ (k ≡ 0))
  delete_k8s_resources-Cleanups nss w =
      let s : Run W = record {
        result = record { error_count = 0; error_messages = [] };
        world = w;
      } in
      let (k, c, count, messages) = Counted-all nss s in
      (
        k,
        c,
        no_more k count,
        no_more k messages,
        subst
            (λ n.
              (exit_status (delete_k8s_resources str secondary dry_run expire rules nss s).result
                ≡ 0)
              ↔ (n ≡ 0))
            (no_more k count)
            (exit_status-zero
              (delete_k8s_resources str secondary dry_run expire rules nss s).result),
      )
