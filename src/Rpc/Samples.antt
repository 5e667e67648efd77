-- ===== src/Rpc/Samples.antt =====
-- Searches and waits on concrete test applications.
use psm_interop.Errors.{Exception}
use psm_interop.Common.{
  ℕ, suc, ◌≡◌, refl, true, false, Option, none, some, List, [], ◌∷◌, arith, ◌==◌, if◌then◌else◌,
}
use psm_interop.Common.Effects.{Outcome, returned, pure}
use psm_interop.Retryers.Loop.{loop}
use psm_interop.Rpc.Channelz.{
  Channel, Subchannel, Address, tcpip_address, Socket, Server, Page, ChannelzApi, Scan, found, scan,
}
use psm_interop.Rpc.Channelz.ChannelState.{ready, idle}
use psm_interop.Rpc.Channelz.Paging.{page_of, scan_all, scan-eq-scan_all}
use psm_interop.Rpc.Client.Active.{IsActive}
use psm_interop.Rpc.Client.States.{HasState}
use psm_interop.Rpc.Client.Waits.{wait_for_active_xds_channel, wait_for_server_channel_ready}
use psm_interop.Rpc.Client.Ends.{
  WaitEnds, wait_for_active_xds_channel-WaitEnds, wait_for_server_channel_ready-WaitEnds,
}
use psm_interop.Rpc.Server.{XdsAddress, xds_uri, get_server_socket_matching_client}
use psm_interop.Rpc.Server.Matches.{get_server_socket_matching_client-IsMatch}
use psm_interop.Rpc.Server.Pairs.{IsMatch}

abbrev channel : Channel
channel = record {
  channel_id = 3;
  target = "dns:///trafficdirector.googleapis.com:443";
  state = ready;
  calls_started = 2;
  calls_succeeded = 1;
  calls_failed = 0;
  subchannel_ref = 4 ∷ [];
}

abbrev socket : Socket
socket = record {
  socket_id = 5;
  local = tcpip_address "\u{7f}" 8080;
  remote = tcpip_address "\u{7f}" 50000;
}

abbrev client_socket : Socket
client_socket = record {
  socket_id = 6;
  local = tcpip_address "\u{7f}" 50000;
  remote = tcpip_address "\u{7f}" 8080;
}

abbrev server : Server
server = record { server_id = 1; listen_socket = 5 ∷ [] }

-- The world counts the requests.
abbrev api : ChannelzApi ℕ
api = record {
  get_top_channels = λ _ _ w. (returned (record { items = channel ∷ []; last = true }), suc w);
  get_channel = λ _ _ w. (returned channel, suc w);
  get_servers = λ _ _ w. (returned (record { items = server ∷ []; last = true }), suc w);
  get_server_sockets = λ _ _ _ w. (returned (record { items = 5 ∷ []; last = true }), suc w);
  get_subchannel =
      λ _ n w. (returned (record { subchannel_id = n; state = ready; socket_ref = [] }), suc w);
  get_socket = λ _ _ w. (returned socket, suc w);
}

active :
    wait_for_active_xds_channel loop api (λ n. pure tt) 1 none none none 0
    ≡ (returned (some channel), 2)
unfolding wait_for_active_xds_channel psm_interop.Rpc.Client.Waits.wait_for_xds_channel_active loop
    psm_interop.Rpc.Client.Waits.wait_policy psm_interop.Retryers.exponential_retryer_with_timeout
    psm_interop.Retryers.Tenacity.wants_retry psm_interop.Retryers.build_retry_conditions
    psm_interop.Rpc.Client.find_active_xds_channel psm_interop.Rpc.Channelz.find_channels_for_target
    psm_interop.Rpc.Channelz.list_channels scan psm_interop.Rpc.Channelz.scan_items
    psm_interop.Rpc.Client.Waits.uri_or_default psm_interop.Rpc.Client.or_continue
    psm_interop.Rpc.Client.check_channel_in_flight_calls psm_interop.Rpc.Client.calls_in_flight
    psm_interop.Rpc.Channelz.is_ready psm_interop.Rpc.Client.check_again
    psm_interop.Retryers.Tenacity.asks psm_interop.Retryers.safe_check_result
    psm_interop.Rpc.Channelz.get_channel psm_interop.Rpc.Channelz.highest
    psm_interop.Rpc.Channelz.is_not_found_call psm_interop.Rpc.Client.or_raise
active = refl

wait_for_active_xds_channel-WaitEnds_example :
    WaitEnds
      (IsActive api "trafficdirector.googleapis.com:443" (some 30))
      (wait_for_active_xds_channel loop api (λ n. pure tt) 1 none none none 0)
unfolding psm_interop.Rpc.Client.Waits.uri_or_default
wait_for_active_xds_channel-WaitEnds_example =
    wait_for_active_xds_channel-WaitEnds loop api (λ n. pure tt) 1 none none none 0

wait_for_server_channel_ready-WaitEnds_example :
    WaitEnds
      (HasState api "trafficdirector" ready (some 30))
      (wait_for_server_channel_ready loop api 1 "trafficdirector" none none 0)
wait_for_server_channel_ready-WaitEnds_example =
    wait_for_server_channel_ready-WaitEnds loop api 1 "trafficdirector" none none 0

matched :
    get_server_socket_matching_client api 1 8080 false client_socket 0 ≡ (returned (some socket), 4)
unfolding get_server_socket_matching_client psm_interop.Rpc.Channelz.is_sock_tcpip_address
    psm_interop.Rpc.Server.get_test_server psm_interop.Rpc.Channelz.find_server_listening_on_port
    psm_interop.Rpc.Channelz.list_servers scan psm_interop.Rpc.Channelz.scan_items
    psm_interop.Rpc.Channelz.tcpip_port psm_interop.Rpc.Client.or_raise
    psm_interop.Rpc.Channelz.list_server_sockets psm_interop.Rpc.Channelz.matches_client
    psm_interop.Rpc.Channelz.same_address
matched = refl

get_server_socket_matching_client-IsMatch_example : IsMatch api 8080 false client_socket socket 4
get_server_socket_matching_client-IsMatch_example =
    get_server_socket_matching_client-IsMatch api 1 8080 false client_socket socket 0 4 matched

abbrev is_four : ℕ → ℕ → Outcome Exception (Option ℕ) × ℕ
is_four n w = (returned (if n == 4 then some n else none), suc w)

abbrev numbers : List ℕ
numbers = 1 ∷ 3 ∷ 4 ∷ []

abbrev get_page : ℕ → ℕ → Outcome Exception (Page ℕ) × ℕ
get_page start w = (returned (page_of (λ n. n) numbers (λ s. 2) start), w)

scan-eq-scan_all_example : scan (λ n. n) get_page is_four 4 0 0 ≡ scan_all is_four numbers 0
scan-eq-scan_all_example =
    scan-eq-scan_all (λ n. n) numbers (λ s. 2) get_page is_four 4 0 (λ start w. refl)
      (omega arith, (omega arith, (omega arith, tt))) (λ start. omega arith) (omega arith)

uri :
    xds_uri (record { xds_host = some "s"; xds_port = some 80; xds_authority = some "a" })
    ≡ "xds://a/s:80"
unfolding xds_uri psm_interop.Rpc.Server.xds_address psm_interop.Common.Decimal.decimal
uri = refl
