-- ===== src/Rpc/Client/Ends.antt =====
-- How the waits of XdsTestClient end: framework/test_app/client_app.py.
use psm_interop.Errors.{Exception, is_retry_error}
use psm_interop.Common.{
  String, sym, ap, subst, Option, none, some, ℕ, suc, ◌≡◌, refl, ◌≢◌, true, false, [],
}
use psm_interop.Common.Effects.{
  catch, throw, Outcome, returned, raised, Effect, handle, raised-injective,
}
use psm_interop.Retryers.{
  Retrying, exponential_retryer_with_timeout, build_retry_conditions, exhausted, error_handler,
}
use psm_interop.Retryers.Tenacity.{
  Tenacity, wants_retry, Attempts, done, broke, stopped, again, run-returned,
}
use psm_interop.Rpc.Channelz.{Channel, ChannelzApi}
use psm_interop.Rpc.Client.{find_active_xds_channel, find_server_channel_with_state}
use psm_interop.Rpc.Client.States.{HasState, find_server_channel_with_state-HasState}
use psm_interop.Rpc.Channelz.ChannelState.{ready}
use psm_interop.Rpc.Client.Active.{IsActive, find_active_xds_channel-IsActive}
use psm_interop.Rpc.Client.Waits.{
  wait_for_server_channel_ready, wait_for_server_channel_state, wait_policy,
  wait_for_xds_channel_active, wait_for_active_xds_channel, uri_or_default, or_default,
  rpc_deadline_or_default,
}

module _ (A : Type 0) (timeout : ℕ) where
  abbrev pub policy : Retrying A
  policy = wait_policy timeout

  pub wait_policy-stops : policy.stop ≢ []
  unfolding wait_policy exponential_retryer_with_timeout
  wait_policy-stops h = cc

  wait_policy-retries : (e : Exception) → wants_retry policy.retry (raised e) ≡ returned true
  unfolding wait_policy exponential_retryer_with_timeout wants_retry build_retry_conditions
  wait_policy-retries e = refl

  wait_policy-exhausted :
      (o : Outcome Exception A) → is_retry_error (exhausted policy.reraise o) ≡ true
  unfolding wait_policy exponential_retryer_with_timeout exhausted error_handler
  wait_policy-exhausted (raised e) = refl
  wait_policy-exhausted (returned a) = refl

  wait_policy-accepts : (a : A) → wants_retry policy.retry (returned a) ≡ returned false
  unfolding wait_policy exponential_retryer_with_timeout wants_retry build_retry_conditions
  wait_policy-accepts a = refl

  wait_policy-decides :
      (o : Outcome Exception A) (e : Exception) → wants_retry policy.retry o ≡ raised e → ⊥
  wait_policy-decides (raised x) e h = cc (h, wait_policy-retries x)
  wait_policy-decides (returned a) e h = cc (h, wait_policy-accepts a)

  module _ {W : Type 0} (m : Effect W Exception A) where
    Attempts-raised :
        (e : Exception) (w' : W) (n : ℕ) (w : W)
        → Attempts policy m (raised e, w') n w
        → is_retry_error e ≡ true
    Attempts-raised e w' n w (done q h) =
        absurd (cc (q, ap (λ end. end.0) h, wait_policy-retries e))
    Attempts-raised e w' n w (broke x q h) = absurd (wait_policy-decides (m w).0 x q)
    Attempts-raised e w' n w (stopped q s h) =
        subst (λ x. is_retry_error x ≡ true) (sym (raised-injective (ap (λ end. end.0) h)))
          (wait_policy-exhausted (m w).0)
    Attempts-raised e w' n w (again q s t) = Attempts-raised e w' (suc n) (m w).1 t

    pub wait_policy-raised :
        (tenacity : Tenacity) (e : Exception) (w w' : W)
        → Tenacity.run tenacity W A policy m w ≡ (raised e, w')
        → is_retry_error e ≡ true
    wait_policy-raised tenacity e w w' h = Attempts-raised e w' 1 w (
        subst (λ out. Attempts policy m out 1 w) h (tenacity.runs W A policy m w wait_policy-stops))

-- How a wait for a channel ends: with a channel of which `P` holds, or with a RetryError; None is the result
-- of a listing that is longer than the pages that it is followed over.
unfoldable pub WaitEnds :
    {W : Type 0} (P : Channel → W → Type 0) → Outcome Exception (Option Channel) × W → Type 0
WaitEnds P (returned (some c), w') = P c w'
WaitEnds P (returned none, w') = Unit
WaitEnds P (raised e, w') = is_retry_error e ≡ true

run-WaitEnds :
    {W : Type 0} (P : Channel → W → Type 0) (tenacity : Tenacity) (timeout : ℕ)
    (m : Effect W Exception (Option Channel))
    → ((c : Channel) (u w' : W) → m u ≡ (returned (some c), w') → P c w')
    → (w : W)
    → WaitEnds P
        (catch (Tenacity.run tenacity W (Option Channel) (wait_policy timeout) m) (λ e. throw e) w)
unfolding WaitEnds
run-WaitEnds {W} P tenacity timeout m holds w =
    split (Tenacity.run tenacity W (Option Channel) (wait_policy timeout) m w) refl
  where
    split :
        (end : Outcome Exception (Option Channel) × W)
        → Tenacity.run tenacity W (Option Channel) (wait_policy timeout) m w ≡ end
        → WaitEnds P (handle end.0 (λ e. throw e) end.1)
    split (returned none, w') h = tt
    split (returned (some c), w') h =
        let (u, last) =
          run-returned tenacity (wait_policy timeout) m (some c) w w'
            (wait_policy-stops (Option Channel) timeout) h in
        holds c u w' last
    split (raised e, w') h = wait_policy-raised (Option Channel) timeout m tenacity e w w' h

module _ {W : Type 0} (tenacity : Tenacity) (api : ChannelzApi W)
    (sleep : (seconds : ℕ) → Effect W Exception (Unit {0})) (pages : ℕ) where
  -- A wait for the channel to the xDS control plane returns one that is active: in an answer to a
  -- listing of the channels, and again when it was read after that, it was READY with a number of started calls
  -- other than that of those that have succeeded or failed, and no call was started in between. What the wait
  -- raises is a RetryError. A listing that is longer than the given pages, for which the model returns None, is
  -- left aside.
  pub wait_for_active_xds_channel-WaitEnds :
      (xds_server_uri : Option String) (timeout rpc_deadline : Option ℕ) (w : W)
      → WaitEnds
          (IsActive api (uri_or_default xds_server_uri) (rpc_deadline_or_default rpc_deadline))
          (wait_for_active_xds_channel tenacity api sleep pages xds_server_uri timeout rpc_deadline
            w)
  unfolding wait_for_active_xds_channel wait_for_xds_channel_active
  wait_for_active_xds_channel-WaitEnds xds_server_uri timeout rpc_deadline w =
      run-WaitEnds
        (IsActive api (uri_or_default xds_server_uri) (rpc_deadline_or_default rpc_deadline))
        tenacity (or_default 300 timeout)
        (find_active_xds_channel api sleep pages (uri_or_default xds_server_uri)
          (rpc_deadline_or_default rpc_deadline))
        (find_active_xds_channel-IsActive api sleep (rpc_deadline_or_default rpc_deadline) pages
          (uri_or_default xds_server_uri))
        w

module _ {W : Type 0} (tenacity : Tenacity) (api : ChannelzApi W) (pages : ℕ) where
  -- A wait for the channel to the server returns one that was READY in a listing, with a subchannel that was
  -- READY when it was read. What the wait raises is a RetryError. A listing that is longer than the given
  -- pages, for which the model returns None, is left aside.
  pub wait_for_server_channel_ready-WaitEnds :
      (server_target : String) (timeout rpc_deadline : Option ℕ) (w : W)
      → WaitEnds
          (HasState api server_target ready (rpc_deadline_or_default rpc_deadline))
          (wait_for_server_channel_ready tenacity api pages server_target timeout rpc_deadline w)
  unfolding wait_for_server_channel_ready wait_for_server_channel_state
  wait_for_server_channel_ready-WaitEnds server_target timeout rpc_deadline w =
      run-WaitEnds (HasState api server_target ready (rpc_deadline_or_default rpc_deadline))
        tenacity (or_default 900 timeout)
        (find_server_channel_with_state api pages server_target ready
          (rpc_deadline_or_default rpc_deadline) true)
        (find_server_channel_with_state-HasState api (rpc_deadline_or_default rpc_deadline) pages
          server_target ready)
        w
