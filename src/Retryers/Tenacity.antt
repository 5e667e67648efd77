-- ===== src/Retryers/Tenacity.antt =====
-- tenacity, the library that runs a retry policy, as a parameter. `Attempts` is its documented
-- behaviour: call, ask the conditions in order, stop or sleep and call again. How long an attempt
-- and a sleep take is not known, so `stop_after_delay` may or may not stop at any attempt.
use psm_interop.Common.{
  ℕ, suc, ◌≡◌, ◌≢◌, sym, ap, subst, Bool, true, false, List, [], ◌∷◌, ◌||◌, leb, not,
}
use psm_interop.Common.Effects.{Outcome, returned, raised, Effect}
use psm_interop.Errors.{Exception}
use psm_interop.Retryers.{
  RetryBase, retry_if_exception_type, retry_if_exception, retry_if_not_result, Stop,
  stop_after_attempt, stop_after_delay, Retrying, is_instance, exhausted,
}

abbrev negated : Outcome Exception Bool → Outcome Exception Bool
negated (returned b) = returned (not b)
negated (raised e) = raised e

abbrev or_else : Outcome Exception Bool → Outcome Exception Bool → Outcome Exception Bool
or_else (returned true) o = returned true
or_else (returned false) o = o
or_else (raised e) o = raised e

module _ {A : Type 0} where
  -- Whether one condition asks for a retry; a check of the result may raise.
  unfoldable pub asks : RetryBase A → Outcome Exception A → Outcome Exception Bool
  asks (retry_if_exception_type cs) (raised e) = returned (is_instance cs e)
  asks (retry_if_exception_type cs) (returned a) = returned false
  asks (retry_if_exception p) (raised e) = returned (p e)
  asks (retry_if_exception p) (returned a) = returned false
  asks (retry_if_not_result check) (raised e) = returned false
  asks (retry_if_not_result check) (returned a) = negated (check a)

  -- retry_any
  unfoldable pub wants_retry : List (RetryBase A) → Outcome Exception A → Outcome Exception Bool
  unfolding asks
  wants_retry [] o = returned false
  wants_retry (c ∷ cs) o = or_else (asks c o) (wants_retry cs o)

-- stop_any after the attempt `n`: it may stop, and it has to.
unfoldable pub may_stop : List Stop → ℕ → Bool
may_stop [] n = false
may_stop (stop_after_attempt k ∷ stops) n = leb k n || may_stop stops n
may_stop (stop_after_delay t ∷ stops) n = true

unfoldable pub must_stop : List Stop → ℕ → Bool
must_stop [] n = false
must_stop (stop_after_attempt k ∷ stops) n = leb k n || must_stop stops n
must_stop (stop_after_delay t ∷ stops) n = must_stop stops n

-- The runs of the policy `r` over the call `m` to `out`, from the attempt `n` in the world `w`.
pub data Attempts {W A : Type 0} (r : Retrying A) (m : Effect W Exception A)
    (out : Outcome Exception A × W) : ℕ → W → Type 0 where
  done :
      {n : ℕ} {w : W}
      → wants_retry r.retry (m w).0 ≡ returned false
      → out ≡ m w
      → Attempts r m out n w
  broke :
      {n : ℕ} {w : W} (e : Exception)
      → wants_retry r.retry (m w).0 ≡ raised e
      → out ≡ (raised e, (m w).1)
      → Attempts r m out n w
  stopped :
      {n : ℕ} {w : W}
      → wants_retry r.retry (m w).0 ≡ returned true
      → may_stop r.stop n ≡ true
      → out ≡ (raised (exhausted r.reraise (m w).0), (m w).1)
      → Attempts r m out n w
  again :
      {n : ℕ} {w : W}
      → wants_retry r.retry (m w).0 ≡ returned true
      → must_stop r.stop n ≡ false
      → Attempts r m out (suc n) (m w).1
      → Attempts r m out n w

-- The library. A policy with no stop never ends, and none of the code's policies is such.
pub record Tenacity : Type 1 where
  pub run : (W A : Type 0) → Retrying A → Effect W Exception A → Effect W Exception A
  pub runs :
      (W A : Type 0) (r : Retrying A) (m : Effect W Exception A) (w : W)
      → r.stop ≢ []
      → Attempts r m (run W A r m w) 1 w

-- A run that returns ends with a call that returned.
pub Attempts-returned :
    {W A : Type 0} (r : Retrying A) (m : Effect W Exception A) (a : A) (w' : W) (n : ℕ) (w : W)
    → Attempts r m (returned a, w') n w
    → (u : W) × (m u ≡ (returned a, w'))
Attempts-returned r m a w' n w (done q e) = (w, sym e)
Attempts-returned r m a w' n w (broke x q e) = cc
Attempts-returned r m a w' n w (stopped q s e) = cc
Attempts-returned r m a w' n w (again q s t) = Attempts-returned r m a w' (suc n) (m w).1 t

pub run-returned :
    (tenacity : Tenacity) {W A : Type 0} (r : Retrying A) (m : Effect W Exception A) (a : A)
    (w w' : W)
    → r.stop ≢ []
    → Tenacity.run tenacity W A r m w ≡ (returned a, w')
    → (u : W) × (m u ≡ (returned a, w'))
run-returned tenacity {W} {A} r m a w w' s h =
    Attempts-returned r m a w' 1 w
      (subst (λ out. Attempts r m out 1 w) h (tenacity.runs W A r m w s))

-- The result of a run that returns is one that its policy does not try again for.
Attempts-accepted :
    {W A : Type 0} (r : Retrying A) (m : Effect W Exception A) (a : A) (w' : W) (n : ℕ) (w : W)
    → Attempts r m (returned a, w') n w
    → wants_retry r.retry (returned a) ≡ returned false
Attempts-accepted r m a w' n w (done q e) =
    subst (λ o. wants_retry r.retry o ≡ returned false) (ap (λ end. end.0) (sym e)) q
Attempts-accepted r m a w' n w (broke x q e) = cc
Attempts-accepted r m a w' n w (stopped q s e) = cc
Attempts-accepted r m a w' n w (again q s t) = Attempts-accepted r m a w' (suc n) (m w).1 t

pub run-accepted :
    (tenacity : Tenacity) {W A : Type 0} (r : Retrying A) (m : Effect W Exception A) (a : A)
    (w w' : W)
    → r.stop ≢ []
    → Tenacity.run tenacity W A r m w ≡ (returned a, w')
    → wants_retry r.retry (returned a) ≡ returned false
run-accepted tenacity {W} {A} r m a w w' s h =
    Attempts-accepted r m a w' 1 w
      (subst (λ out. Attempts r m out 1 w) h (tenacity.runs W A r m w s))

-- What every call keeps, a run keeps, however it ends.
Attempts-keeps :
    {W A : Type 0} (P : W → Type 0) (r : Retrying A) (m : Effect W Exception A)
    (out : Outcome Exception A × W) (n : ℕ) (w : W)
    → ((u : W) → P u → P (m u).1)
    → P w
    → Attempts r m out n w
    → P out.1
Attempts-keeps P r m out n w k h (done q e) = subst (λ end. P end.1) (sym e) (k w h)
Attempts-keeps P r m out n w k h (broke x q e) = subst (λ end. P end.1) (sym e) (k w h)
Attempts-keeps P r m out n w k h (stopped q s e) = subst (λ end. P end.1) (sym e) (k w h)
Attempts-keeps P r m out n w k h (again q s t) =
    Attempts-keeps P r m out (suc n) (m w).1 k (k w h) t

pub run-keeps :
    (tenacity : Tenacity) {W A : Type 0} (P : W → Type 0) (r : Retrying A)
    (m : Effect W Exception A) (w : W)
    → r.stop ≢ []
    → ((u : W) → P u → P (m u).1)
    → P w
    → P (Tenacity.run tenacity W A r m w).1
run-keeps tenacity {W} {A} P r m w s k h =
    Attempts-keeps P r m (Tenacity.run tenacity W A r m w) 1 w k h (tenacity.runs W A r m w s)
