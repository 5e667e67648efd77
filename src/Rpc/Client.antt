-- ===== src/Rpc/Client.antt =====
-- framework/test_app/client_app.py: XdsTestClient, its searches for channels and sockets and its waits. `pages`
-- bounds the pages that a listing is followed over; None is returned where a listing has not ended by then.
-- Whether the requests go over a secure channel is a choice of the parameter `api`.
pub mod Waits
pub mod Active
pub mod States
pub mod Ends
use psm_interop.Errors.{
  Exception, value_error, channel_not_found, channel_not_active, app_not_found, is_app_not_found,
  index_error,
}
use psm_interop.Common.{
  ℕ, ◌+◌, String, Bool, true, false, not, ◌&&◌, ◌||◌, Option, none, some, List, [], ◌∷◌, ◌==◌,
  if◌then◌else◌,
}
use psm_interop.Common.Effects.{Effect, pure, throw, catch, ◌>>=◌, ◌>>◌}
use psm_interop.Rpc.Channelz.{
  Channel, Subchannel, Socket, ChannelState, ChannelzApi, Deadline, Scan, found, finished,
  unfinished, is_ready, same_state, get_channel, find_channels_for_target, list_channel_subchannels,
  list_subchannels_sockets,
}
use psm_interop.Rpc.Channelz.ChannelState.{ready}

module _ {W R : Type 0} where
  -- A loop that returns what it finds, and raises at its end.
  unfoldable pub or_raise : Exception → Scan R → Effect W Exception (Option R)
  or_raise e (found r) = pure (some r)
  or_raise e finished = throw e
  or_raise e unfinished = pure none

  -- `except NotFound: continue`; what else is raised leaves the loop.
  unfoldable pub or_continue : Effect W Exception (Option R) → Effect W Exception (Option R)
  or_continue m = catch m (λ e. if is_app_not_found e then pure none else throw e)

-- The truth of `calc_calls_in_flight`, which is all that its caller looks at: a READY channel has calls that
-- have neither succeeded nor failed, or more that have than have been started.
unfoldable pub calls_in_flight : Channel → Bool
calls_in_flight c = is_ready c.state && not (c.calls_started == c.calls_succeeded + c.calls_failed)

abbrev pub still_active : (before after : Channel) → Option Channel
still_active before after =
    if not (calls_in_flight after) || not (before.calls_started == after.calls_started)
    then none
    else some after

module _ {W : Type 0} (api : ChannelzApi W)
    (sleep : (seconds : ℕ) → Effect W Exception (Unit {0})) where
  -- The channel again, two seconds after it has been listed.
  unfoldable pub check_again : Deadline → Channel → Effect W Exception (Option Channel)
  check_again deadline channel = do
    sleep 2
    after ← get_channel api deadline channel.channel_id
    pure (still_active channel after)

  unfoldable pub check_channel_in_flight_calls :
      Deadline → Channel → Effect W Exception (Option Channel)
  check_channel_in_flight_calls deadline channel =
      if calls_in_flight channel then check_again deadline channel else pure none

  unfoldable pub find_active_xds_channel :
      (pages : ℕ) → (xds_server_uri : String) → Deadline → Effect W Exception (Option Channel)
  find_active_xds_channel pages xds_server_uri deadline = do
    scan ←
        find_channels_for_target api pages deadline xds_server_uri
          (λ channel. or_continue (check_channel_in_flight_calls deadline channel))
    or_raise channel_not_active scan

module _ {W : Type 0} (api : ChannelzApi W) where
  abbrev pub with_state : ChannelState → Subchannel → Effect W Exception (Option Subchannel)
  with_state state subchannel =
      pure (if same_state subchannel.state state then some subchannel else none)

  abbrev pub or_not_found : {A : Type 0} → Option A → Effect W Exception A
  or_not_found none = throw app_not_found
  or_not_found (some a) = pure a

  unfoldable pub find_subchannel_with_state :
      Deadline → Channel → ChannelState → Effect W Exception Subchannel
  find_subchannel_with_state deadline channel state = do
    r ← list_channel_subchannels api deadline channel (with_state state)
    or_not_found r

  abbrev pub has_state :
      Deadline
      → ChannelState
      → (check_subchannel : Bool) → Channel
      → Effect W Exception (Option Channel)
  has_state deadline state false channel = pure (some channel)
  has_state deadline state true channel =
      or_continue (do find_subchannel_with_state deadline channel state; pure (some channel))

  unfoldable pub find_server_channel_with_state :
      (pages : ℕ)
      → (server_target : String) → ChannelState
      → Deadline
      → (check_subchannel : Bool) → Effect W Exception (Option Channel)
  find_server_channel_with_state pages server_target state deadline check_subchannel = do
    scan ← find_channels_for_target api pages deadline server_target (λ channel.
        if same_state channel.state state
        then has_state deadline state check_subchannel channel
        else pure none)
    or_raise channel_not_found scan

  -- All items of a loop over numbers, each asked for in turn.
  unfoldable pub collect :
      {A : Type 0} → (get : ℕ → Effect W Exception A) → List ℕ → Effect W Exception (List A)
  collect get [] = pure []
  collect get (n ∷ ns) = do a ← get n; rest ← collect get ns; pure (a ∷ rest)

  -- `first, *rest = list`
  abbrev first_of : {A : Type 0} → List A → Effect W Exception A
  first_of [] = throw value_error
  first_of (a ∷ rest) = pure a

  -- The name of the first subchannel is read for a message.
  abbrev first_ref : List ℕ → Effect W Exception (Unit {0})
  first_ref [] = throw index_error
  first_ref (n ∷ ns) = pure tt

  abbrev socket_of : Option Channel → Effect W Exception (Option Socket)
  socket_of none = pure none
  socket_of (some channel) = do
    first_ref channel.subchannel_ref
    subchannels ← collect (api.get_subchannel none) channel.subchannel_ref
    subchannel ← first_of subchannels
    sockets ← collect (api.get_socket none) subchannel.socket_ref
    socket ← first_of sockets
    pure (some socket)

  -- The first socket of the first subchannel of a READY channel to the server.
  unfoldable pub get_active_server_channel_socket :
      (pages : ℕ) → (server_target : String) → Effect W Exception (Option Socket)
  get_active_server_channel_socket pages server_target = do
    channel ← find_server_channel_with_state pages server_target ready none true
    socket_of channel
