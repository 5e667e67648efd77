-- ===== src/Gcp/Api/Execute.antt =====
-- What `GcpProjectApiResource._execute` returns and raises.
use psm_interop.Common.{
  ℕ, zero, suc, ◌+◌, ◌≤◌, ◌≡◌, refl, Bool, true, false, Option, some, arith, ◌||◌,
}
use psm_interop.Common.Effects.{Outcome, returned, raised, Effect, throw, handle}
use psm_interop.Errors.{
  Exception, http_error, httplib2_error, connection_error, ssl_error, retry_error, is_retry_error,
  is_http_error,
}
use psm_interop.Retryers.Tenacity.{Tenacity}
use psm_interop.Retryers.Policies.{fails_with, tries, run-eq-tries}
use psm_interop.Gcp.Api.{
  is_transport, is_retryable_api_error, get_api_retryer, wrap_error, translate_error, execute,
}

-- What a request or the retry loop raises: HttpError, a transport error or RetryError.
abbrev pub is_low_level : Exception → Bool
is_low_level e = is_http_error e || (is_transport e || is_retry_error e)

wrap_error-high : (e : Exception) → is_low_level (wrap_error e) ≡ false
unfolding wrap_error is_transport
wrap_error-high (http_error r) = refl
wrap_error-high _ = refl

translate_error-high : (e : Exception) → is_low_level (translate_error e) ≡ false
unfolding translate_error is_transport
translate_error-high (retry_error e) = wrap_error-high e
translate_error-high (http_error r) = wrap_error-high (http_error r)
translate_error-high httplib2_error = wrap_error-high httplib2_error
translate_error-high connection_error = wrap_error-high connection_error
translate_error-high ssl_error = wrap_error-high ssl_error
translate_error-high _ = refl

-- The call `m` raises errors that the clients retry in its first `j` runs from `w`.
abbrev pub FailsFor : {W A : Type 0} → ℕ → Effect W Exception A → W → Type 0
FailsFor zero m w = Unit
FailsFor (suc j) m w = (fails_with is_retryable_api_error (m w).0 ≡ true) × FailsFor j m (m w).1

-- The world after `j` runs.
abbrev pub after : {W A : Type 0} → ℕ → Effect W Exception A → W → W
after zero m w = w
after (suc j) m w = after j m (m w).1

tries-after :
    {W A : Type 0} (m : Effect W Exception A) (j k : ℕ) (w : W)
    → j ≤ k
    → FailsFor j m w
    → fails_with is_retryable_api_error (m (after j m w)).0 ≡ false
    → tries is_retryable_api_error k m w ≡ m (after j m w)
unfolding tries
tries-after m zero zero w le h q = ground arith
tries-after m zero (suc k) w le h q = ground arith
tries-after m (suc j) zero w le h q = absurd (omega arith)
tries-after m (suc j) (suc k) w le h q =
    ground (arith, tries-after m j k (m w).1 (omega arith) h.1 q)

-- The end of a request, with its error as `_execute` raises it.
abbrev pub translated : {W A : Type 0} → Outcome Exception A × W → Outcome Exception A × W
translated end = handle end.0 (λ e. throw (translate_error e)) end.1

translated-high :
    {W A : Type 0} (end : Outcome Exception A × W) (e : Exception)
    → (translated end).0 ≡ raised e
    → is_low_level e ≡ false
translated-high (returned a, w) e h = cc
translated-high (raised x, w) e h = ground (arith, translate_error-high x)

module _ (tenacity : Tenacity) {W A : Type 0} where
  -- The retry loop of a client is a bounded series of calls.
  pub run-api_retryer :
      (n : ℕ) (m : Effect W Exception A) (w : W)
      → Tenacity.run tenacity W A (get_api_retryer (some n)) m w
        ≡ tries is_retryable_api_error n m w
  unfolding get_api_retryer
  run-api_retryer n m w =
      let e : n + 1 ≡ suc n = omega arith in
      rw e (run-eq-tries tenacity is_retryable_api_error 1 10 n m w)

  -- `_execute` raises no HttpError, transport error or RetryError, whatever the request raises.
  pub execute-ne-low_level :
      (num_retries : Option ℕ) (request : Effect W Exception A) (w : W) (e : Exception)
      → (execute tenacity num_retries request w).0 ≡ raised e
      → is_low_level e ≡ false
  unfolding execute
  execute-ne-low_level num_retries request w e h = translated-high _ e h

  -- A request that fails up to `n` times with an error worth a retry, and then does not, is made once
  -- more than it failed; what it then returns is what `_execute` returns, and what it then raises is
  -- raised as `translate_error` turns it.
  pub execute-after :
      (n j : ℕ) (request : Effect W Exception A) (w : W)
      → j ≤ n
      → FailsFor j request w
      → fails_with is_retryable_api_error (request (after j request w)).0 ≡ false
      → execute tenacity (some n) request w ≡ translated (request (after j request w))
  unfolding execute
  execute-after n j request w le h q =
      rw (run-api_retryer n request w, tries-after request j n w le h q)
