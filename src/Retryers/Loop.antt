-- ===== src/Retryers/Loop.antt =====
-- A loop that behaves as `Tenacity` asks, to run the policies on concrete calls. Each
-- attempt takes a second.
use psm_interop.Common.{
  ℕ, zero, suc, ◌+◌, ◌≤◌, ◌≡◌, ◌≢◌, refl, Bool, true, false, List, [], ◌∷◌, arith, leb, ◌||◌,
  if◌then◌else◌,
}
use psm_interop.Common.Effects.{Outcome, returned, raised, Effect}
use psm_interop.Errors.{Exception}
use psm_interop.Retryers.{Retrying, Stop, stop_after_attempt, stop_after_delay, exhausted}
use psm_interop.Retryers.Tenacity.{
  Tenacity, Attempts, done, broke, stopped, again, wants_retry, may_stop, must_stop,
}

pub stops_at : List Stop → ℕ → Bool
stops_at [] n = false
stops_at (stop_after_attempt k ∷ stops) n = leb k n || stops_at stops n
stops_at (stop_after_delay t ∷ stops) n = leb t n || stops_at stops n

pub must_stop_of_stops :
    (stops : List Stop) (n : ℕ) → stops_at stops n ≡ false → must_stop stops n ≡ false
unfolding stops_at must_stop
must_stop_of_stops [] n h = refl
must_stop_of_stops (stop_after_attempt k ∷ stops) n h = ground (arith, must_stop_of_stops stops n)
must_stop_of_stops (stop_after_delay t ∷ stops) n h = ground (arith, must_stop_of_stops stops n)

pub may_stop_of_stops :
    (stops : List Stop) (n : ℕ) → stops_at stops n ≡ true → may_stop stops n ≡ true
unfolding stops_at may_stop
may_stop_of_stops [] n h = h
may_stop_of_stops (stop_after_attempt k ∷ stops) n h = ground (arith, may_stop_of_stops stops n)
may_stop_of_stops (stop_after_delay t ∷ stops) n h = refl

pub limit : List Stop → ℕ
limit [] = 0
limit (stop_after_attempt k ∷ stops) = k
limit (stop_after_delay t ∷ stops) = t

pub stops_at-limit :
    (stops : List Stop) (n : ℕ) → stops ≢ [] → limit stops ≤ n → stops_at stops n ≡ true
unfolding stops_at limit
stops_at-limit [] n h le = absurd (h refl)
stops_at-limit (stop_after_attempt k ∷ stops) n h le = ground arith
stops_at-limit (stop_after_delay t ∷ stops) n h le = ground arith

module _ {W A : Type 0} where
  conclude :
      Outcome Exception Bool → (last given_up : Outcome Exception A × W) → Outcome Exception A × W
  conclude (returned false) last given_up = last
  conclude (returned true) last given_up = given_up
  conclude (raised e) last given_up = (raised e, last.1)

  abbrev give_up : Bool → Outcome Exception A × W → Outcome Exception A × W
  give_up reraise last = (raised (exhausted reraise last.0), last.1)

  go : ℕ → Retrying A → Effect W Exception A → ℕ → W → Outcome Exception A × W
  go zero r m n w = conclude (wants_retry r.retry (m w).0) (m w) (give_up r.reraise (m w))
  go (suc fuel) r m n w =
      let rest = go fuel r m (suc n) (m w).1 in
      conclude (wants_retry r.retry (m w).0) (m w)
        (if stops_at r.stop n then give_up r.reraise (m w) else rest)

  conclude-Attempts :
      (r : Retrying A) (m : Effect W Exception A) (n : ℕ) (w : W) (o : Outcome Exception Bool)
      (given_up : Outcome Exception A × W)
      → wants_retry r.retry (m w).0 ≡ o
      → (wants_retry r.retry (m w).0 ≡ returned true → Attempts r m given_up n w)
      → Attempts r m (conclude o (m w) given_up) n w
  unfolding conclude
  conclude-Attempts r m n w (returned false) given_up e h = done e refl
  conclude-Attempts r m n w (returned true) given_up e h = h e
  conclude-Attempts r m n w (raised x) given_up e h = broke x e refl

  stops_or_again :
      (r : Retrying A) (m : Effect W Exception A) (n : ℕ) (w : W) (rest : Outcome Exception A × W)
      (b : Bool)
      → stops_at r.stop n ≡ b
      → wants_retry r.retry (m w).0 ≡ returned true
      → Attempts r m rest (suc n) (m w).1
      → Attempts r m (if b then give_up r.reraise (m w) else rest) n w
  stops_or_again r m n w rest true e q t = stopped q (may_stop_of_stops r.stop n e) refl
  stops_or_again r m n w rest false e q t = again q (must_stop_of_stops r.stop n e) t

  go-Attempts :
      (r : Retrying A) (m : Effect W Exception A) (fuel n : ℕ) (w : W)
      → r.stop ≢ []
      → limit r.stop ≤ n + fuel
      → Attempts r m (go fuel r m n w) n w
  unfolding go conclude-Attempts stops_or_again
  go-Attempts r m zero n w s le =
      conclude-Attempts r m n w _ _ refl
        (λ q. stopped q (may_stop_of_stops r.stop n (stops_at-limit r.stop n s (omega arith))) refl)
  go-Attempts r m (suc fuel) n w s le = conclude-Attempts r m n w _ _ refl (λ q.
      stops_or_again r m n w (go fuel r m (suc n) (m w).1) (stops_at r.stop n) refl q
        (go-Attempts r m fuel (suc n) (m w).1 s (omega arith)))

pub run_loop : (W A : Type 0) → Retrying A → Effect W Exception A → Effect W Exception A
unfolding go limit conclude stops_at
run_loop W A r m w = go (limit r.stop) r m 1 w

pub run_loop-Attempts :
    (W A : Type 0) (r : Retrying A) (m : Effect W Exception A) (w : W)
    → r.stop ≢ []
    → Attempts r m (run_loop W A r m w) 1 w
unfolding run_loop go-Attempts conclude-Attempts stops_or_again
run_loop-Attempts W A r m w s = go-Attempts r m (limit r.stop) 1 w s (omega arith)

-- Shut, so that a proof that uses it does not run it.
unfoldable pub loop : Tenacity
unfolding run_loop run_loop-Attempts
loop = record { run = run_loop; runs = run_loop-Attempts }
