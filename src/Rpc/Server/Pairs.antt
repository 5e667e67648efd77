-- ===== src/Rpc/Server/Pairs.antt =====
-- The test server, and the two sockets of a connection: framework/test_app/server_app.py.
use psm_interop.Common.{
  both-true, str_eq_iff, ◌==◌, str_eq, ==→≡, String, ◌&&◌, ℕ, ◌≡◌, refl, Bool, true, false, none,
  some, if◌then◌else◌,
}
use mathlib.Core.Option.{some-injective}
use mathlib.Core.List.{Mem}
use psm_interop.Common.Effects.{returned}
use psm_interop.Rpc.Channelz.{
  listens_on, other_address, tcpip_address, Address, tcpip_port, same_address, Socket, Server,
  ChannelzApi, matches_client, is_sock_tcpip_address,
}
use psm_interop.Rpc.Channelz.Hits.{Listed}

-- Where not only the ports are to match.
abbrev pub SameIp : (match_only_port : Bool) → (ip client_ip : String) → Type 0
SameIp true ip client_ip = Unit
SameIp false ip client_ip = ip ≡ client_ip

-- The two ends of a connection: what is remote for the socket of the server is local for that of the client.
pub record IsPair (match_only_port : Bool) (client_socket socket : Socket) : Type 0 where
  pub ip : String
  pub client_ip : String
  pub port : ℕ
  pub remote : socket.remote ≡ tcpip_address ip port
  pub local : client_socket.local ≡ tcpip_address client_ip port
  pub same_ip : SameIp match_only_port ip client_ip

-- One of the listed servers, with a socket that listens on the port.
pub record IsTestServer {W : Type 0} (api : ChannelzApi W) (rpc_port : ℕ) (server : Server)
    : Type 0 where
  pub is_listed : Listed (api.get_servers none) server
  pub listener : ℕ
  pub is_listener : Mem listener server.listen_socket
  pub listening : Socket
  pub asked_at : W
  pub known_at : W
  pub answer : api.get_socket none listener asked_at ≡ (returned listening, known_at)
  pub listen_ip : String
  pub listens : listening.local ≡ tcpip_address listen_ip rpc_port

-- The socket is among those of the test server, was read last, and is the other end for the client.
pub record IsMatch {W : Type 0} (api : ChannelzApi W) (rpc_port : ℕ) (match_only_port : Bool)
    (client_socket socket : Socket) (w' : W) : Type 0 where
  pub server : Server
  pub is_test_server : IsTestServer api rpc_port server
  pub socket_id : ℕ
  pub listed : Listed (api.get_server_sockets none server.server_id) socket_id
  pub read_at : W
  pub read : api.get_socket none socket_id read_at ≡ (returned socket, w')
  pub pair : IsPair match_only_port client_socket socket

is_tcpip-address :
    (a : Address)
    → is_sock_tcpip_address a ≡ true
    → (ip : String) × (a ≡ tcpip_address ip (tcpip_port a))
unfolding is_sock_tcpip_address tcpip_port
is_tcpip-address (tcpip_address ip port) h = (ip, refl)
is_tcpip-address (other_address name) h = absurd (cc)

pub matches_client-IsPair :
    (match_only_port : Bool) (client_socket socket : Socket)
    → is_sock_tcpip_address client_socket.local ≡ true
    → is_sock_tcpip_address socket.remote ≡ true
    → matches_client match_only_port client_socket socket ≡ true
    → IsPair match_only_port client_socket socket
unfolding matches_client same_address tcpip_port
matches_client-IsPair match_only_port client_socket socket t u h =
    let (client_ip, local) = is_tcpip-address client_socket.local t in
    let (ip, remote) = is_tcpip-address socket.remote u in
    split match_only_port client_ip ip (tcpip_port client_socket.local) (tcpip_port socket.remote)
      local remote h
  where
    split :
        (only : Bool) (client_ip ip : String) (client_port port : ℕ)
        → client_socket.local ≡ tcpip_address client_ip client_port
        → socket.remote ≡ tcpip_address ip port
        → matches_client only client_socket socket ≡ true
        → IsPair only client_socket socket
    split true client_ip ip client_port port l r e =
        let same = ==→≡ port client_port (rw (r, l) at e) in
        record {
          ip = ip;
          client_ip = client_ip;
          port = client_port;
          remote = cc (r, same);
          local = l;
          same_ip = tt;
        }
    split false client_ip ip client_port port l r e =
        let (ips, ports) = both-true (str_eq ip client_ip) (port == client_port) (rw (r, l) at e) in
        let same = ==→≡ port client_port ports in
        record {
          ip = ip;
          client_ip = client_ip;
          port = client_port;
          remote = cc (r, same);
          local = l;
          same_ip = (str_eq_iff ip client_ip).0 ips;
        }

pub listens_on-some :
    (port : ℕ) (server found : Server) (socket : Socket)
    → listens_on port server socket ≡ some found
    → (server ≡ found) × (ip : String) × (socket.local ≡ tcpip_address ip port)
listens_on-some port server found socket h =
    split (is_sock_tcpip_address socket.local && tcpip_port socket.local == port) refl h
  where
    split :
        (b : Bool)
        → (is_sock_tcpip_address socket.local && tcpip_port socket.local == port) ≡ b
        → (if b then some server else none) ≡ some found
        → (server ≡ found) × (ip : String) × (socket.local ≡ tcpip_address ip port)
    split true e q =
        let (tcp, ports) =
          both-true (is_sock_tcpip_address socket.local) (tcpip_port socket.local == port) e in
        let (ip, local) = is_tcpip-address socket.local tcp in
        (some-injective _ _ q, ip, cc (local, ==→≡ (tcpip_port socket.local) port ports))
    split false e q = absurd (cc)
