-- ===== src/Rpc/Client/Active.antt =====
-- What a channel to the xDS control plane is when a wait for it returns: framework/test_app/client_app.py.
use psm_interop.Errors.{channel_not_active, Exception, is_app_not_found}
use psm_interop.Common.{
  both-true, ◌+◌, arith, ℕ, refl, not, ◌||◌, ◌==◌, ==→≡, String, ◌≡◌, ap, inl, inr, Bool, true,
  false, Option, none, some, if◌then◌else◌, occurs,
}
use psm_interop.Common.Effects.{
  returned-injective, returned, Effect, pure, throw, handle-cases, bind-returned,
}
use psm_interop.Rpc.Channelz.{
  ChannelState, is_ready, Channel, ChannelzApi, Deadline, Scan, found, finished, unfinished,
  get_channel, find_channels_for_target, list_channels,
}
use psm_interop.Rpc.Channelz.ChannelState.{ready}
use psm_interop.Rpc.Channelz.Hits.{Listed, scan-hit}
use psm_interop.Rpc.Client.{
  calls_in_flight, still_active, check_again, check_channel_in_flight_calls,
  find_active_xds_channel, or_continue, or_raise,
}

module _ {W R : Type 0} where
  pub or_raise-found :
      (e : Exception) (scan : Scan R) (r : R) (w w' : W)
      → or_raise e scan w ≡ (returned (some r), w')
      → (scan ≡ found r) × (w ≡ w')
  unfolding or_raise
  or_raise-found e (found x) r w w' h = (cc, ap (λ end. end.1) h)
  or_raise-found e finished r w w' h = absurd (cc)
  or_raise-found e unfinished r w w' h = absurd (cc)

  pub or_continue-hit :
      (m : Effect W Exception (Option R)) (r : R) (w w' : W)
      → or_continue m w ≡ (returned (some r), w')
      → m w ≡ (returned (some r), w')
  unfolding or_continue
  or_continue-hit m r w w' h =
      elim (handle-cases (m w).0 (λ e. if is_app_not_found e then pure none else throw e) (m w).1
        (returned (some r), w') h) [
          | inl same ↦ cc (same.0, same.1)
          | inr (e, p, q) ↦ absurd (never (is_app_not_found e) e (m w).1 q)
        ]
    where
      never :
          (b : Bool) (e : Exception) (u : W)
          → (if b then pure none else throw e) u ≡ (returned (some r), w')
          → ⊥
      never true e u q = cc
      never false e u q = cc

-- READY, with a number of started calls other than that of those that have ended.
abbrev pub InFlight : Channel → Type 0
InFlight c = (c.state ≡ ready) × ¬ (c.calls_started ≡ c.calls_succeeded + c.calls_failed)

is_ready-ready : (s : ChannelState) → is_ready s ≡ true → s ≡ ready
unfolding is_ready
is_ready-ready ready h = refl
is_ready-ready _ h = absurd (cc)

not_eq-ne : (m n : ℕ) → not (m == n) ≡ true → ¬ (m ≡ n)
not_eq-ne m n h = ground arith

calls_in_flight-InFlight : (c : Channel) → calls_in_flight c ≡ true → InFlight c
unfolding calls_in_flight
calls_in_flight-InFlight c h =
    let (is, calls) =
      both-true (is_ready c.state) (not (c.calls_started == c.calls_succeeded + c.calls_failed))
        h in
    (
      is_ready-ready c.state is,
      not_eq-ne c.calls_started (c.calls_succeeded + c.calls_failed) calls,
    )

-- A channel that was READY with calls in flight when it was listed, and when it was read again, with no call
-- started in between.
pub record IsActive {W : Type 0} (api : ChannelzApi W) (xds_server_uri : String)
    (deadline : Deadline) (c : Channel) (w' : W) : Type 0 where
  pub before : Channel
  pub listed : Listed (api.get_top_channels deadline) before
  pub for_target : occurs xds_server_uri before.target ≡ true
  pub was_in_flight : InFlight before
  pub read_at : W
  pub read : get_channel api deadline before.channel_id read_at ≡ (returned c, w')
  pub in_flight : InFlight c
  pub same_calls : before.calls_started ≡ c.calls_started

pub if-hit :
    {W R : Type 0} (b : Bool) (m : Effect W Exception (Option R)) (r : R) (w w' : W)
    → (if b then m else pure none) w ≡ (returned (some r), w')
    → (b ≡ true) × (m w ≡ (returned (some r), w'))
if-hit true m r w w' h = (refl, h)
if-hit false m r w w' h = absurd (cc)

still_active-some :
    (before after c : Channel)
    → still_active before after ≡ some c
    → (after ≡ c) × (calls_in_flight after ≡ true) × (before.calls_started ≡ after.calls_started)
still_active-some before after c h =
    split (calls_in_flight after) (before.calls_started == after.calls_started) refl refl h
  where
    split :
        (a b : Bool)
        → calls_in_flight after ≡ a
        → (before.calls_started == after.calls_started) ≡ b
        → (if not a || not b then none else some after) ≡ some c
        → (after ≡ c)
          × (calls_in_flight after ≡ true)
          × (before.calls_started ≡ after.calls_started)
    split true true p q e = (cc, p, ==→≡ before.calls_started after.calls_started q)
    split true false p q e = absurd (cc)
    split false b p q e = absurd (cc)

module _ {W : Type 0} (api : ChannelzApi W) (sleep : (seconds : ℕ) → Effect W Exception (Unit {0}))
    (deadline : Deadline) where
  check_again-hit :
      (before c : Channel) (w w' : W)
      → check_again api sleep deadline before w ≡ (returned (some c), w')
      → (u : W) × (get_channel api deadline before.channel_id u ≡ (returned c, w'))
        × (calls_in_flight c ≡ true)
        × (before.calls_started ≡ c.calls_started)
  unfolding check_again
  check_again-hit before c w w' h =
      let (t, u, slept, rest) = bind-returned (sleep 2) _ w w' (some c) h in
      let (after, v, read, kept) =
        bind-returned (get_channel api deadline before.channel_id)
          (λ after. pure (still_active before after)) u w' (some c) rest in
      let (same, flies, calls) =
        still_active-some before after c (returned-injective (ap (λ end. end.0) kept)) in
      (u, cc (read, same, kept), cc (flies, same), cc (calls, same))

  check_channel-hit :
      (before c : Channel) (w w' : W)
      → check_channel_in_flight_calls api sleep deadline before w ≡ (returned (some c), w')
      → (calls_in_flight before ≡ true)
        × (check_again api sleep deadline before w ≡ (returned (some c), w'))
  unfolding check_channel_in_flight_calls
  check_channel-hit before c w w' h =
      if-hit (calls_in_flight before) (check_again api sleep deadline before) c w w' h

  pub find_active_xds_channel-IsActive :
      (pages : ℕ) (xds_server_uri : String) (c : Channel) (w w' : W)
      → find_active_xds_channel api sleep pages xds_server_uri deadline w ≡ (returned (some c), w')
      → IsActive api xds_server_uri deadline c w'
  unfolding find_active_xds_channel find_channels_for_target list_channels
  find_active_xds_channel-IsActive pages xds_server_uri c w w' h =
      let body = λ (channel : Channel).
        or_continue (check_channel_in_flight_calls api sleep deadline channel) in
      let (scan, u, scanned, ended) =
        bind-returned (find_channels_for_target api pages deadline xds_server_uri body)
          (or_raise channel_not_active) w w' (some c) h in
      let (hit, same) = or_raise-found channel_not_active scan c u w' ended in
      let (before, v, listed, seen) =
        scan-hit (λ c'. c'.channel_id) (api.get_top_channels deadline)
          (λ channel. if occurs xds_server_uri channel.target then body channel else pure none)
          pages 0 c w w' (cc (scanned, hit, same)) in
      let (for_target, continued) =
        if-hit (occurs xds_server_uri before.target) (body before) c v w' seen in
      let (was_in_flight, checked) = check_channel-hit before c v w' (
        or_continue-hit (check_channel_in_flight_calls api sleep deadline before) c v w'
          continued) in
      let (read_at, read, in_flight, same_calls) = check_again-hit before c v w' checked in
      record {
        before = before;
        for_target = for_target;
        listed = listed;
        was_in_flight = calls_in_flight-InFlight before was_in_flight;
        read_at = read_at;
        read = read;
        in_flight = calls_in_flight-InFlight c in_flight;
        same_calls = same_calls;
      }
