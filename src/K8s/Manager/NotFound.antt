-- ===== src/K8s/Manager/NotFound.antt =====
-- When `KubernetesApiManager._execute` raises NotFound: framework/infrastructure/k8s.py.
use psm_interop.Common.{
  Option, none, ◌∙◌, some, Bool-cases, ℕ, suc, ◌≡◌, refl, sym, ap, subst, ◌≢◌, ◌⊎◌, inl, inr, Bool,
  true, false, List, [], ◌∷◌, arith, ◌==◌,
}
use psm_interop.Common.Effects.{
  pure, handle-cases, continue-raised, raised-injective, Outcome, returned, raised, Effect,
  raised-ne-returned,
}
use psm_interop.Retryers.{
  Retrying, RetryBase, retry_if_exception_type, exponential_retryer_with_timeout, constant_retryer,
  build_retry_conditions, exhausted, error_handler,
}
use psm_interop.Retryers.Tenacity.{
  Tenacity, Attempts, done, broke, stopped, again, wants_retry, asks,
}
use psm_interop.Errors.{
  ApiError, Exception, api_exception, fail_to_create_error, max_retry_error, not_found,
  is_retry_error,
}
use psm_interop.K8s.{K8sApi}
use psm_interop.K8s.Manager.{
  RetryPlan, server_restart, too_many_requests, quick_recovery, retry_on_exceptions, plan_retryer,
  handle_api_exception, handle_exception, reraised, with_404_handler, repeated, recover, execute,
}

-- The answer 404, inside the errors that are unwrapped; or NotFound itself.
abbrev pub answers_not_found : Exception → Bool
answers_not_found (api_exception err) = err.status == 404
answers_not_found (max_retry_error e) = answers_not_found e
answers_not_found (fail_to_create_error e) = answers_not_found e
answers_not_found not_found = true
answers_not_found _ = false

missing_is_authorized : (n : ℕ) → (n == 404) ≡ true → (n == 401) ≡ false
missing_is_authorized n h = ground arith

module _ {A : Type 0} where
  abbrev conditions : List (RetryBase A)
  conditions = retry_if_exception_type (retry_on_exceptions ∷ []) ∷ []

  record FromPlan (r : Retrying A) : Type 0 where
    retry : r.retry ≡ conditions
    reraise : r.reraise ≡ false
    stop : r.stop ≢ []

  plan_retryer-FromPlan :
      (plan : RetryPlan) (o : Outcome Exception (Retrying A))
      → plan_retryer plan ≡ o
      → (r : Retrying A) × (o ≡ returned r) × FromPlan r
  unfolding plan_retryer exponential_retryer_with_timeout constant_retryer build_retry_conditions
  plan_retryer-FromPlan server_restart o h =
      (_, sym h, record { retry = refl; reraise = refl; stop = λ e. cc })
  plan_retryer-FromPlan too_many_requests o h =
      (_, sym h, record { retry = refl; reraise = refl; stop = λ e. cc })
  plan_retryer-FromPlan quick_recovery o h =
      (_, sym h, record { retry = refl; reraise = refl; stop = λ e. cc })

  wants-retry_on :
      (o : Outcome Exception A) (x : Exception)
      → wants_retry conditions o ≡ returned false
      → o ≡ raised x
      → retry_on_exceptions x ≡ false
  unfolding wants_retry asks
  wants-retry_on (returned a) x h e = cc
  wants-retry_on (raised y) x h e = ground (arith, h, e)

  wants-ne-raised : (o : Outcome Exception A) (x : Exception) → wants_retry conditions o ≢ raised x
  unfolding wants_retry asks
  wants-ne-raised (returned a) x h = ground arith
  wants-ne-raised (raised e) x h = ground arith

  exhausted-retry_error : (o : Outcome Exception A) → is_retry_error (exhausted false o) ≡ true
  unfolding exhausted error_handler
  exhausted-retry_error (returned a) = refl
  exhausted-retry_error (raised e) = refl

module _ {W A : Type 0} (r : Retrying A) (plan : FromPlan r) (m : Effect W Exception A) where
  -- What a retryer of the manager raises: a RetryError, or what a call raised that is not retried.
  Attempts-raised :
      (x : Exception) (w' : W) (n : ℕ) (w : W)
      → Attempts r m (raised x, w') n w
      → (is_retry_error x ≡ true)
        ⊎ ((u : W) × (m u ≡ (raised x, w')) × (retry_on_exceptions x ≡ false))
  Attempts-raised x w' n w (done q e) = inr (
    w,
    sym e,
    wants-retry_on (m w).0 x (subst (λ c. wants_retry c (m w).0 ≡ returned false) plan.retry q)
        (ap (λ end. end.0) (sym e)),
  )
  Attempts-raised x w' n w (broke y q e) =
      absurd
        (wants-ne-raised (m w).0 y (subst (λ c. wants_retry c (m w).0 ≡ raised y) plan.retry q))
  Attempts-raised x w' n w (stopped q s e) = inl (
      subst (λ y. is_retry_error y ≡ true)
        (sym (raised-injective (ap (λ end. end.0) e) ∙ ap (λ b. exhausted b (m w).0) plan.reraise))
        (exhausted-retry_error (m w).0))
  Attempts-raised x w' n w (again q s t) = Attempts-raised x w' (suc n) (m w).1 t

module _ {W : Type 0} (api : K8sApi W) where
  -- A renewal of the authorization does not answer that something is not found.
  abbrev pub ReloadFinds : Type 0
  ReloadFinds = (w : W) → (api.reload w).0 ≢ raised not_found

  module _ (finds : ReloadFinds) where
    handle_api_exception-raised :
        (err : ApiError) (w w' : W)
        → handle_api_exception api err w ≡ (raised not_found, w')
        → ((err.status == 404) ≡ true) × (w ≡ w')
    unfolding handle_api_exception
    handle_api_exception-raised err w w' h = elim (Bool-cases (err.status == 401)) [
      | inl unauthorized ↦
          elim (continue-raised (api.reload w).0 (λ _. pure (some server_restart)) not_found
            (api.reload w).1 w' (rw unauthorized at h)) [
              | inl (e, u) ↦ absurd (finds w e)
              | inr (a, e, u) ↦ absurd (raised-ne-returned (sym u))
            ]
      | inr other ↦ elim (Bool-cases (err.status == 404)) [
        | inl missing ↦ (missing, ap (λ end. end.1) (rw missing at (rw other at h)))
        | inr present ↦ absurd (raised-ne-returned (sym (rw present at (rw other at h))))
      ]
    ]

    handle_exception-raised :
        (err : Exception) (w w' : W)
        → handle_exception api err w ≡ (raised not_found, w')
        → (answers_not_found err ≡ true) × (w ≡ w')
    unfolding handle_exception
    handle_exception-raised (max_retry_error reason) w w' h = handle_exception-raised reason w w' h
    handle_exception-raised (fail_to_create_error e) w w' h = handle_exception-raised e w w' h
    handle_exception-raised (api_exception err) w w' h = handle_api_exception-raised err w w' h
    handle_exception-raised not_found w w' h = absurd (raised-ne-returned (sym h))
    handle_exception-raised _ w w' h = absurd (raised-ne-returned (sym h))

  module _ {A : Type 0} where
    handled-not_found :
        (err : ApiError) (w w' : W)
        → (err.status == 404) ≡ true
        → reraised {A = A} api (api_exception err) w ≡ (raised not_found, w')
        → ◌≡◌ {A = Outcome Exception A × W} (raised not_found, w) (raised not_found, w')
    unfolding handle_api_exception
    handled-not_found err w w' missing h =
        rw (missing_is_authorized err.status missing) at (rw missing at h)

    reraised-raised :
        (e : Exception) (w w' : W)
        → reraised {A = A} api e w ≡ (raised not_found, w')
        → (answers_not_found e ≡ true) × (w ≡ w')
    unfolding handle_api_exception
    reraised-raised (api_exception err) w w' h = elim (Bool-cases (err.status == 404)) [
      | inl missing ↦ (missing, ap (λ end. end.1) (handled-not_found err w w' missing h))
      | inr present ↦ absurd (cc (rw present at h))
    ]
    reraised-raised not_found w w' h = (refl, ap (λ end. end.1) h)
    reraised-raised _ w w' h = absurd (cc)

    with_404_handler-raised :
        (m : Effect W Exception A) (u w' : W)
        → with_404_handler api m u ≡ (raised not_found, w')
        → (e : Exception) × (m u ≡ (raised e, w')) × (answers_not_found e ≡ true)
    unfolding with_404_handler
    with_404_handler-raised m u w' h =
        elim (handle-cases (m u).0 (reraised api) (m u).1 (raised not_found, w') h) [
          | inl (e, v) ↦ (not_found, cc (e, v), refl)
          | inr (x, e, q) ↦ let (found, v) = reraised-raised x (m u).1 w' q in (x, cc (e, v), found)
        ]

module _ {W A : Type 0} (tenacity : Tenacity) (api : K8sApi W) (finds : ReloadFinds api)
    (m : Effect W Exception A) where
  -- The call was answered, at last, that there is no such thing.
  abbrev pub AnswersNotFound : W → Type 0
  AnswersNotFound w' =
      (u : W) × (e : Exception) × (m u ≡ (raised e, w')) × (answers_not_found e ≡ true)

  run-AnswersNotFound :
      (plan : RetryPlan) (r : Retrying A) (w w' : W)
      → FromPlan r
      → Tenacity.run tenacity W A r (with_404_handler api m) w ≡ (raised not_found, w')
      → AnswersNotFound w'
  run-AnswersNotFound plan r w w' from h =
      let attempts = tenacity.runs W A r (with_404_handler api m) w from.stop in
      elim (Attempts-raised r from (with_404_handler api m) not_found w' 1 w
        (subst (λ out. Attempts r (with_404_handler api m) out 1 w) h attempts)) [
          | inl e ↦ absurd (cc e)
          | inr (u, e, q) ↦
              let (x, asked, found) = with_404_handler-raised api m u w' e in (u, x, asked, found)
        ]

  repeated-AnswersNotFound :
      (err : Exception) (plan : Option RetryPlan) (w w' : W)
      → repeated tenacity api m err plan w ≡ (raised not_found, w')
      → ((err ≡ not_found) × (w ≡ w')) ⊎ AnswersNotFound w'
  repeated-AnswersNotFound err none w w' h =
      inl (raised-injective (ap (λ end. end.0) h), ap (λ end. end.1) h)
  repeated-AnswersNotFound err (some plan) w w' h =
      let (r, e, from) = plan_retryer-FromPlan plan (plan_retryer plan) refl in
      inr (run-AnswersNotFound plan r w w' from (rw e at h))

  not_found-ne-retried : (err : Exception) → retry_on_exceptions err ≡ true → err ≢ not_found
  unfolding retry_on_exceptions
  not_found-ne-retried err h e = cc

  recover-AnswersNotFound :
      (err : Exception) (w w' : W)
      → recover tenacity api m err w ≡ (raised not_found, w')
      → ((answers_not_found err ≡ true) × (w ≡ w')) ⊎ AnswersNotFound w'
  recover-AnswersNotFound err w w' h = elim (Bool-cases (retry_on_exceptions err)) [
    | inr other ↦
        let q : ◌≡◌ {A = Outcome Exception A × W} (raised err, w) (raised not_found, w') =
          rw other at h in
        inl (ap answers_not_found (raised-injective (ap (λ end. end.0) q)), ap (λ end. end.1) q)
    | inl retried ↦
        let answer = handle_exception api err w in
        elim (continue-raised answer.0 (repeated tenacity api m err) not_found answer.1 w'
          (rw retried at h)) [
            | inl (e, v) ↦ inl (handle_exception-raised api finds err w w' (cc (e, v)))
            | inr (plan, e, q) ↦ elim (repeated-AnswersNotFound err plan answer.1 w' q) [
              | inl (same, v) ↦ absurd (not_found-ne-retried err retried same)
              | inr answers ↦ inr answers
            ]
          ]
  ]

  -- Where `_execute` raises NotFound, the last of its calls was answered that there is no such thing.
  pub execute-AnswersNotFound :
      (w w' : W) → execute tenacity api m w ≡ (raised not_found, w') → AnswersNotFound w'
  unfolding execute
  execute-AnswersNotFound w w' h =
      elim (handle-cases (m w).0 (recover tenacity api m) (m w).1 (raised not_found, w') h) [
        | inl (e, v) ↦ (w, not_found, cc (e, v), refl)
        | inr (x, e, q) ↦ elim (recover-AnswersNotFound x (m w).1 w' q) [
          | inl (found, v) ↦ (w, x, cc (e, v), found)
          | inr answers ↦ answers
        ]
      ]
