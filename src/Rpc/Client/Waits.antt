-- ===== src/Rpc/Client/Waits.antt =====
-- framework/test_app/client_app.py: the waits of XdsTestClient.
use psm_interop.Retryers.Tenacity.{Tenacity}
use psm_interop.Errors.{Exception}
use psm_interop.Common.Effects.{Effect, throw, catch}
use psm_interop.Common.{ℕ, String, true, Option, none, some, str_eq, if◌then◌else◌}
use psm_interop.Retryers.{Retrying, exponential_retryer_with_timeout}
use psm_interop.Rpc.Channelz.{Channel, ChannelState, ChannelzApi, Deadline}
use psm_interop.Rpc.Channelz.ChannelState.{ready}
use psm_interop.Rpc.Client.{find_server_channel_with_state, find_active_xds_channel}

abbrev pub or_default : (default : ℕ) → Option ℕ → ℕ
or_default default none = default
or_default default (some n) = n

-- A short deadline of the requests, unless another is given.
abbrev pub rpc_deadline_or_default : Option ℕ → Deadline
rpc_deadline_or_default deadline = some (or_default 30 deadline)

unfoldable pub wait_policy : {A : Type 0} → (timeout : ℕ) → Retrying A
wait_policy timeout = exponential_retryer_with_timeout 10 25 timeout none none

abbrev default_td_xds_uri : String
default_td_xds_uri = "trafficdirector.googleapis.com:443"

unfoldable pub uri_or_default : Option String → String
uri_or_default none = default_td_xds_uri
uri_or_default (some uri) = if str_eq uri "" then default_td_xds_uri else uri

module _ {W : Type 0} (tenacity : Tenacity) (api : ChannelzApi W) (pages : ℕ) where
  unfoldable pub wait_for_server_channel_state :
      (server_target : String)
      → ChannelState
      → (timeout rpc_deadline : Option ℕ) → Effect W Exception (Option Channel)
  wait_for_server_channel_state server_target state timeout rpc_deadline =
      Tenacity.run tenacity W (Option Channel) (wait_policy (or_default 900 timeout)) (
        find_server_channel_with_state api pages server_target state
          (rpc_deadline_or_default rpc_deadline) true)

  -- A RetryError is raised again, with a note.
  unfoldable pub wait_for_server_channel_ready :
      (server_target : String)
      → (timeout rpc_deadline : Option ℕ) → Effect W Exception (Option Channel)
  wait_for_server_channel_ready server_target timeout rpc_deadline =
      catch (wait_for_server_channel_state server_target ready timeout rpc_deadline) (λ e. throw e)

module _ {W : Type 0} (tenacity : Tenacity) (api : ChannelzApi W)
    (sleep : (seconds : ℕ) → Effect W Exception (Unit {0})) (pages : ℕ) where
  unfoldable pub wait_for_xds_channel_active :
      (xds_server_uri : Option String)
      → (timeout rpc_deadline : Option ℕ) → Effect W Exception (Option Channel)
  wait_for_xds_channel_active xds_server_uri timeout rpc_deadline =
      Tenacity.run tenacity W (Option Channel) (wait_policy (or_default 300 timeout)) (
        find_active_xds_channel api sleep pages (uri_or_default xds_server_uri)
          (rpc_deadline_or_default rpc_deadline))

  unfoldable pub wait_for_active_xds_channel :
      (xds_server_uri : Option String)
      → (timeout rpc_deadline : Option ℕ) → Effect W Exception (Option Channel)
  wait_for_active_xds_channel xds_server_uri timeout rpc_deadline =
      catch (wait_for_xds_channel_active xds_server_uri timeout rpc_deadline) (λ e. throw e)
