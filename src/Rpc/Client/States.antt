-- ===== src/Rpc/Client/States.antt =====
-- What a channel to the server is when a search for it returns: framework/test_app/client_app.py.
use psm_interop.Errors.{Exception, channel_not_found}
use psm_interop.Common.{
  refl, ap, subst, Bool, false, Option, none, some, if◌then◌else◌, is_some, ℕ, String, ◌≡◌, true,
  occurs,
}
use mathlib.Core.List.{Mem}
use mathlib.Core.Option.{some-injective}
use psm_interop.Common.Effects.{
  returned-injective, Outcome, returned, pure, bind-returned, ◌>>=◌, ◌>>◌,
}
use psm_interop.Rpc.Channelz.{
  Channel, Subchannel, ChannelState, ChannelzApi, Deadline, same_state, find_channels_for_target,
  list_channels, list_channel_subchannels,
}
use psm_interop.Rpc.Channelz.Hits.{scan-hit, scan_items-hit}
use psm_interop.Rpc.Client.{
  find_subchannel_with_state, find_server_channel_with_state, has_state, with_state, or_not_found,
  or_raise,
}
use psm_interop.Rpc.Client.Active.{or_raise-found, or_continue-hit, if-hit}

-- A channel to the target in a state, with a subchannel that was in the state when it was read.
pub record HasState {W : Type 0} (api : ChannelzApi W) (server_target : String)
    (state : ChannelState) (deadline : Deadline) (c : Channel) (w' : W) : Type 0 where
  pub for_target : occurs server_target c.target ≡ true
  pub in_state : same_state c.state state ≡ true
  pub subchannel : Subchannel
  pub subchannel_id : ℕ
  pub is_listed : Mem subchannel_id c.subchannel_ref
  pub read_at : W
  pub read : api.get_subchannel deadline subchannel_id read_at ≡ (returned subchannel, w')
  pub is_in_state : same_state subchannel.state state ≡ true

with_state-hit :
    {W : Type 0} (api : ChannelzApi W) (state : ChannelState) (read subchannel : Subchannel)
    (w w' : W)
    → with_state api state read w ≡ (returned (some subchannel), w')
    → (read ≡ subchannel) × (same_state subchannel.state state ≡ true) × (w ≡ w')
with_state-hit {W} api state read subchannel w w' h = split (same_state read.state state) refl h
  where
    split :
        (b : Bool)
        → same_state read.state state ≡ b
        → ◌≡◌ {A = Outcome Exception (Option Subchannel) × W}
            (returned (if b then some read else none), w)
            (returned (some subchannel), w')
        → (read ≡ subchannel) × (same_state subchannel.state state ≡ true) × (w ≡ w')
    split true e q =
        let same = some-injective _ _ (returned-injective (ap (λ end. end.0) q)) in
        (same, subst (λ r. same_state r.state state ≡ true) same e, ap (λ end. end.1) q)
    split false e q = absurd (cc)

or_not_found-hit :
    {W A : Type 0} (api : ChannelzApi W) (o : Option A) (a : A) (w w' : W)
    → or_not_found api o w ≡ (returned a, w')
    → (o ≡ some a) × (w ≡ w')
or_not_found-hit api none a w w' h = absurd (cc)
or_not_found-hit api (some b) a w w' h =
    (ap some (returned-injective (ap (λ end. end.0) h)), ap (λ end. end.1) h)

module _ {W : Type 0} (api : ChannelzApi W) (deadline : Deadline) where
  find_subchannel-hit :
      (c : Channel) (state : ChannelState) (subchannel : Subchannel) (w w' : W)
      → find_subchannel_with_state api deadline c state w ≡ (returned subchannel, w')
      → (n : ℕ) × (u : W) × Mem n c.subchannel_ref
        × (api.get_subchannel deadline n u ≡ (returned subchannel, w'))
        × (same_state subchannel.state state ≡ true)
  unfolding find_subchannel_with_state list_channel_subchannels
  find_subchannel-hit c state subchannel w w' h =
      let (o, v, listed, kept) =
        bind-returned (list_channel_subchannels api deadline c (with_state api state))
          (or_not_found api) w w' subchannel h in
      let (is_some, same) = or_not_found-hit api o subchannel v w' kept in
      let (n, u, is_listed, hit) =
        scan_items-hit
          (λ n. do subchannel ← api.get_subchannel deadline n; with_state api state subchannel)
          c.subchannel_ref subchannel w w' (cc (listed, is_some, same)) in
      let (read, t, got, test) =
        bind-returned (api.get_subchannel deadline n) (with_state api state) u w' (some subchannel)
          hit in
      let (same_read, in_state, same_world) = with_state-hit api state read subchannel t w' test in
      (n, u, is_listed, cc (got, same_read, same_world), in_state)

  kept-same :
      (channel c : Channel) (t w' : W)
      → pure {E = Exception} (some channel) t ≡ (returned (some c), w')
      → (channel ≡ c) × (t ≡ w')
  kept-same channel c t w' h =
      (some-injective _ _ (returned-injective (ap (λ end. end.0) h)), ap (λ end. end.1) h)

  checked-HasState :
      (server_target : String) (state : ChannelState) (channel c : Channel) (v w' : W)
      → occurs server_target channel.target ≡ true
      → same_state channel.state state ≡ true
      → (find_subchannel_with_state api deadline channel state >>= λ _. pure (some channel)) v
        ≡ (returned (some c), w')
      → HasState api server_target state deadline c w'
  checked-HasState server_target state channel c v w' for_target in_state h =
      let (subchannel, t, found, kept) =
        bind-returned (find_subchannel_with_state api deadline channel state)
          (λ _. pure (some channel)) v w' (some c) h in
      let (is_channel, same) = kept-same channel c t w' kept in
      let (n, r, is_listed, read, is_in_state) =
        find_subchannel-hit channel state subchannel v t found in
      subst (λ x. HasState api server_target state deadline x w') is_channel
        (record {
          for_target = for_target;
          in_state = in_state;
          subchannel = subchannel;
          subchannel_id = n;
          is_listed = is_listed;
          read_at = r;
          read = cc (read, same);
          is_in_state = is_in_state;
        })

  pub find_server_channel_with_state-HasState :
      (pages : ℕ) (server_target : String) (state : ChannelState) (c : Channel) (w w' : W)
      → find_server_channel_with_state api pages server_target state deadline true w
        ≡ (returned (some c), w')
      → HasState api server_target state deadline c w'
  unfolding find_server_channel_with_state find_channels_for_target list_channels
  find_server_channel_with_state-HasState pages server_target state c w w' h =
      let body = λ (channel : Channel).
        if same_state channel.state state
        then has_state api deadline state true channel
        else pure none in
      let (scan, u, scanned, ended) =
        bind-returned (find_channels_for_target api pages deadline server_target body)
          (or_raise channel_not_found) w w' (some c) h in
      let (hit, same) = or_raise-found channel_not_found scan c u w' ended in
      let (channel, v, is_listed, seen) =
        scan-hit (λ c'. c'.channel_id) (api.get_top_channels deadline)
          (λ channel. if occurs server_target channel.target then body channel else pure none) pages
          0 c w w' (cc (scanned, hit, same)) in
      let (for_target, matched) =
        if-hit (occurs server_target channel.target) (body channel) c v w' seen in
      let (in_state, checked) =
        if-hit (same_state channel.state state) (has_state api deadline state true channel) c v w'
          matched in
      checked-HasState server_target state channel c v w' for_target in_state (
        or_continue-hit
          (do find_subchannel_with_state api deadline channel state; pure (some channel)) c v w'
          checked)
