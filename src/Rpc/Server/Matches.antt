-- ===== src/Rpc/Server/Matches.antt =====
-- Which socket of the test server is found for a client: framework/test_app/server_app.py.
use psm_interop.Rpc.Server.Pairs.{IsMatch, IsTestServer, matches_client-IsPair, listens_on-some}
use psm_interop.Errors.{Exception, app_not_found, not_implemented_error}
use psm_interop.Common.{
  both-true, ◌&&◌, is_some, ℕ, ◌≡◌, refl, ap, subst, Bool, true, false, Option, none, some,
  if◌then◌else◌,
}
use mathlib.Core.Option.{some-injective}
use mathlib.Core.List.{Mem}
use psm_interop.Common.Effects.{returned-injective, returned, throw, pure, bind-returned, ◌>>=◌}
use psm_interop.Rpc.Channelz.{
  scan_items, list_servers, listens_on, find_server_listening_on_port, Socket, Server, ChannelzApi,
  matches_client, is_sock_tcpip_address, list_server_sockets,
}
use psm_interop.Rpc.Channelz.Hits.{scan_items-hit, Listed, scan-hit}
use psm_interop.Rpc.Client.{or_raise}
use psm_interop.Rpc.Client.Active.{or_raise-found}
use psm_interop.Rpc.Server.{get_test_server, matching, written, get_server_socket_matching_client}

kept-match :
    {W : Type 0} (match_only_port : Bool) (client_socket read socket : Socket) (u w' : W)
    → pure {E = Exception}
        (if matches_client match_only_port client_socket read then some read else none)
        u
      ≡ (returned (some socket), w')
    → (read ≡ socket) × (matches_client match_only_port client_socket socket ≡ true) × (u ≡ w')
kept-match {W} match_only_port client_socket read socket u w' h =
    split (matches_client match_only_port client_socket read) refl h
  where
    split :
        (b : Bool)
        → matches_client match_only_port client_socket read ≡ b
        → pure {E = Exception} (if b then some read else none) u ≡ (returned (some socket), w')
        → (read ≡ socket) × (matches_client match_only_port client_socket socket ≡ true) × (u ≡ w')
    split true e q =
        let same = some-injective _ _ (returned-injective (ap (λ end. end.0) q)) in
        (
          same,
          subst (λ s. matches_client match_only_port client_socket s ≡ true) same e,
          ap (λ end. end.1) q,
        )
    split false e q = absurd (cc)

module _ {W : Type 0} (api : ChannelzApi W) (pages rpc_port : ℕ) where
  written-hit :
      (client_socket : Socket) (o : Option Socket) (socket : Socket) (u w' : W)
      → written api pages rpc_port client_socket o u ≡ (returned (some socket), w')
      → (o ≡ some socket) × (u ≡ w') × (is_sock_tcpip_address socket.remote ≡ true)
  written-hit client_socket none socket u w' h = absurd (cc)
  written-hit client_socket (some s) socket u w' h =
      split
        (is_sock_tcpip_address s.local
          && (is_sock_tcpip_address s.remote && is_sock_tcpip_address client_socket.remote))
        refl h
    where
      split :
          (b : Bool)
          → (is_sock_tcpip_address s.local
              && (is_sock_tcpip_address s.remote && is_sock_tcpip_address client_socket.remote))
            ≡ b
          → (if b then pure (some s) else throw not_implemented_error) u
            ≡ (returned (some socket), w')
          → (◌≡◌ {A = Option Socket} (some s) (some socket))
            × (u ≡ w')
            × (is_sock_tcpip_address socket.remote ≡ true)
      split true e q =
          let same = returned-injective (ap (λ end. end.0) q) in
          let (local, others) =
            both-true (is_sock_tcpip_address s.local)
              (is_sock_tcpip_address s.remote && is_sock_tcpip_address client_socket.remote) e in
          let (remote, other) =
            both-true (is_sock_tcpip_address s.remote) (is_sock_tcpip_address client_socket.remote)
              others in
          (
            same,
            ap (λ end. end.1) q,
            subst (λ x. is_sock_tcpip_address x.remote ≡ true) (some-injective _ _ same) remote,
          )
      split false e q = absurd (cc)

  get_test_server-IsTestServer :
      (server : Server) (w w' : W)
      → get_test_server api pages rpc_port w ≡ (returned (some server), w')
      → IsTestServer api rpc_port server
  unfolding get_test_server find_server_listening_on_port list_servers
  get_test_server-IsTestServer server w w' h =
      let body = λ (s : Server) (n : ℕ). (do
        socket ← api.get_socket none n
        pure (listens_on rpc_port s socket)) in
      let (scan, u, scanned, ended) =
        bind-returned (find_server_listening_on_port api pages none rpc_port)
          (or_raise app_not_found) w w' (some server) h in
      let (hit, same) = or_raise-found app_not_found scan server u w' ended in
      let (s, v, is_listed, seen) =
        scan-hit (λ s. s.server_id) (api.get_servers none)
          (λ s. scan_items (body s) s.listen_socket) pages 0 server w w'
          (cc (scanned, hit, same)) in
      let (n, x, on_server, got) = scan_items-hit (body s) s.listen_socket server v w' seen in
      let (socket, y, answer, kept) =
        bind-returned (api.get_socket none n) (λ socket. pure (listens_on rpc_port s socket)) x w'
          (some server) got in
      let (is, ip, local) =
        listens_on-some rpc_port s server socket (returned-injective (ap (λ end. end.0) kept)) in
      record {
        is_listed = subst (Listed (api.get_servers none)) is is_listed;
        listener = n;
        is_listener = subst (λ t. Mem n t.listen_socket) is on_server;
        listening = socket;
        asked_at = x;
        known_at = y;
        answer = answer;
        listen_ip = ip;
        listens = local;
      }

  matching-IsMatch :
      (match_only_port : Bool) (client_socket : Socket) (server : Option Server) (socket : Socket)
      (w w' : W)
      → ((s : Server) → server ≡ some s → IsTestServer api rpc_port s)
      → is_sock_tcpip_address client_socket.local ≡ true
      → matching api pages rpc_port match_only_port client_socket server w
        ≡ (returned (some socket), w')
      → IsMatch api rpc_port match_only_port client_socket socket w'
  unfolding list_server_sockets
  matching-IsMatch match_only_port client_socket none socket w w' is tcp h = absurd (cc)
  matching-IsMatch match_only_port client_socket (some server) socket w w' is tcp h =
      let keep = λ (s : Socket).
        pure {W = W} {E = Exception}
          (if matches_client match_only_port client_socket s then some s else none) in
      let (scan, u, scanned, ended) =
        bind-returned (list_server_sockets api pages none server keep)
          (λ scan. or_raise app_not_found scan >>= written api pages rpc_port client_socket) w w'
          (some socket) h in
      let (o, x, raised_or, wrote) =
        bind-returned (or_raise app_not_found scan) (written api pages rpc_port client_socket) u w'
          (some socket) ended in
      let (is_some, same_end, remote) = written-hit client_socket o socket x w' wrote in
      let (hit, same) =
        or_raise-found app_not_found scan socket u w' (cc (raised_or, is_some, same_end)) in
      let (n, v, listed, seen) =
        scan-hit (λ n. n) (api.get_server_sockets none server.server_id)
          (λ n. do s ← api.get_socket none n; keep s) pages 0 socket w w'
          (cc (scanned, hit, same)) in
      let (read, t, got, kept) =
        bind-returned (api.get_socket none n) keep v w' (some socket) seen in
      let (same_socket, matches, same_world) =
        kept-match match_only_port client_socket read socket t w' kept in
      record {
        server = server;
        is_test_server = is server refl;
        socket_id = n;
        listed = listed;
        read_at = v;
        read = cc (got, same_socket, same_world);
        pair = matches_client-IsPair match_only_port client_socket socket tcp remote matches;
      }

  -- A server socket that is found for a client socket has been read last, by an id in an answer to a listing
  -- of the sockets of a server that was itself listed, with a listening socket on the port of the test service.
  -- Its remote address and the local address of the client socket are TCP addresses with the same port, and
  -- with the same IP address as well, unless only the ports are to match.
  pub get_server_socket_matching_client-IsMatch :
      (match_only_port : Bool) (client_socket socket : Socket) (w w' : W)
      → get_server_socket_matching_client api pages rpc_port match_only_port client_socket w
        ≡ (returned (some socket), w')
      → IsMatch api rpc_port match_only_port client_socket socket w'
  unfolding get_server_socket_matching_client
  get_server_socket_matching_client-IsMatch match_only_port client_socket socket w w' h =
      split (is_sock_tcpip_address client_socket.local) refl h
    where
      split :
          (b : Bool)
          → is_sock_tcpip_address client_socket.local ≡ b
          → (if b
                then get_test_server api pages rpc_port
                  >>= matching api pages rpc_port match_only_port client_socket
                else throw not_implemented_error)
              w
            ≡ (returned (some socket), w')
          → IsMatch api rpc_port match_only_port client_socket socket w'
      split true tcp q =
          let (server, u, got, rest) =
            bind-returned (get_test_server api pages rpc_port)
              (matching api pages rpc_port match_only_port client_socket) w w' (some socket) q in
          matching-IsMatch match_only_port client_socket server socket u w'
            (λ s e. get_test_server-IsTestServer s w u (cc (got, e))) tcp rest
      split false tcp q = absurd (cc)
