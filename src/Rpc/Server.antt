-- ===== src/Rpc/Server.antt =====
-- framework/test_app/server_app.py: XdsTestServer, its addresses and its searches. As in Rpc.Client, None is
-- returned where a listing has not ended within the given number of pages.
pub mod Pairs
pub mod Matches
use psm_interop.Errors.{Exception, app_not_found, not_implemented_error}
use psm_interop.Common.{◌&&◌, ℕ, String, Bool, Option, none, some, ◌==◌, str_eq, if◌then◌else◌}
use Prim.Native.String.{◌++◌ as ◌<+>◌}
use psm_interop.Common.Decimal.{decimal}
use psm_interop.Common.Effects.{Effect, pure, throw, ◌>>=◌, ◌>>◌}
use psm_interop.Rpc.Channelz.{
  Socket, Server, Address, ChannelzApi, Scan, find_server_listening_on_port, list_server_sockets,
  matches_client, is_sock_tcpip_address,
}
use psm_interop.Rpc.Client.{or_raise}

-- The address of a server in the xDS configuration. 0 is no port.
pub record XdsAddress : Type 0 where
  pub xds_host : Option String
  pub xds_port : Option ℕ
  pub xds_authority : Option String

abbrev with_port : (host : String) → Option ℕ → String
with_port host none = host
with_port host (some port) = if port == 0 then host else host <+> ":" <+> decimal port

abbrev address_of : Option String → Option ℕ → String
address_of none port = ""
address_of (some host) port = if str_eq host "" then "" else with_port host port

unfoldable pub xds_address : XdsAddress → String
xds_address a = address_of a.xds_host a.xds_port

abbrev authority_of : Option String → String
authority_of none = ""
authority_of (some authority) = authority

abbrev uri_of : Option String → (authority address : String) → String
uri_of none authority address = ""
uri_of (some host) authority address =
    if str_eq host ""
    then ""
    else if str_eq authority ""
    then "xds:///" <+> address
    else "xds://" <+> authority <+> "/" <+> address

unfoldable pub xds_uri : XdsAddress → String
xds_uri a = uri_of a.xds_host (authority_of a.xds_authority) (xds_address a)

module _ {W : Type 0} (api : ChannelzApi W) (pages rpc_port : ℕ) where
  -- The server that listens on the port of the test service.
  unfoldable pub get_test_server : Effect W Exception (Option Server)
  get_test_server = do
    scan ← find_server_listening_on_port api pages none rpc_port
    or_raise app_not_found scan

  -- The addresses of the pair, written for a message, which only TCP addresses are.
  abbrev pub written : (client_socket : Socket) → Option Socket → Effect W Exception (Option Socket)
  written client_socket none = pure none
  written client_socket (some socket) =
      if is_sock_tcpip_address socket.local
        && (is_sock_tcpip_address socket.remote && is_sock_tcpip_address client_socket.remote)
      then pure (some socket)
      else throw not_implemented_error

  abbrev pub matching :
      (match_only_port : Bool)
      → (client_socket : Socket) → Option Server
      → Effect W Exception (Option Socket)
  matching match_only_port client_socket none = pure none
  matching match_only_port client_socket (some server) = do
    scan ← list_server_sockets api pages none server (λ socket.
        pure (if matches_client match_only_port client_socket socket then some socket else none))
    socket ← or_raise app_not_found scan
    written client_socket socket

  unfoldable pub get_server_socket_matching_client :
      (match_only_port : Bool) → (client_socket : Socket) → Effect W Exception (Option Socket)
  get_server_socket_matching_client match_only_port client_socket =
      if is_sock_tcpip_address client_socket.local
      then (do server ← get_test_server; matching match_only_port client_socket server)
      else throw not_implemented_error
