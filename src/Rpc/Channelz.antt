-- ===== src/Rpc/Channelz.antt =====
-- framework/rpc/grpc_channelz.py: ChannelzServiceClient. The messages are records of what the code reads of
-- them; the requests of the generated stub are a parameter, arbitrary functions of the world.
pub mod Paging
pub mod Hits
pub mod Ascending
use psm_interop.Errors.{rpc_error, app_not_found, Exception}
use psm_interop.Common.{
  occurs, ℕ, zero, suc, String, Bool, true, false, ◌&&◌, Option, none, some, List, [], ◌∷◌, ltb,
  ◌==◌, str_eq, if◌then◌else◌,
}
use psm_interop.Common.Effects.{Effect, pure, throw, catch, ◌>>=◌, ◌>>◌}

pub data ChannelState : Type 0 where
  unknown idle connecting ready transient_failure shutdown : ChannelState

pub record Channel : Type 0 where
  pub channel_id : ℕ
  pub target : String
  pub state : ChannelState
  pub calls_started : ℕ
  pub calls_succeeded : ℕ
  pub calls_failed : ℕ
  pub subchannel_ref : List ℕ

pub record Subchannel : Type 0 where
  pub subchannel_id : ℕ
  pub state : ChannelState
  pub socket_ref : List ℕ

-- The bytes of an IP address are a text.
pub data Address : Type 0 where
  tcpip_address : (ip_address : String) → (port : ℕ) → Address
  other_address : (name : String) → Address

pub record Socket : Type 0 where
  pub socket_id : ℕ
  pub local : Address
  pub remote : Address

pub record Server : Type 0 where
  pub server_id : ℕ
  pub listen_socket : List ℕ

-- A page of a listing; `last` is the field `end` of the response.
pub record Page (A : Type 0) : Type 0 where
  pub items : List A
  pub last : Bool

-- The deadline of a request in seconds; None stands for the default one.
abbrev pub Deadline : Type 0
Deadline = Option ℕ

pub record ChannelzApi (W : Type 0) : Type 0 where
  pub get_top_channels : Deadline → (start : ℕ) → Effect W Exception (Page Channel)
  pub get_channel : Deadline → (channel_id : ℕ) → Effect W Exception Channel
  pub get_servers : Deadline → (start : ℕ) → Effect W Exception (Page Server)
  pub get_server_sockets : Deadline → (server_id start : ℕ) → Effect W Exception (Page ℕ)
  pub get_subchannel : Deadline → (subchannel_id : ℕ) → Effect W Exception Subchannel
  pub get_socket : Deadline → (socket_id : ℕ) → Effect W Exception Socket

unfoldable pub is_sock_tcpip_address : Address → Bool
is_sock_tcpip_address (tcpip_address ip port) = true
is_sock_tcpip_address (other_address name) = false

-- The port of the message `tcpip_address`, 0 where another is set.
unfoldable pub tcpip_port : Address → ℕ
tcpip_port (tcpip_address ip port) = port
tcpip_port (other_address name) = 0

unfoldable pub same_address : Address → Address → Bool
same_address (tcpip_address ip port) (tcpip_address ip' port') = str_eq ip ip' && port == port'
same_address (other_address name) (other_address name') = str_eq name name'
same_address a b = false

unfoldable pub is_ready : ChannelState → Bool
is_ready ready = true
is_ready _ = false

unfoldable pub same_state : ChannelState → ChannelState → Bool
same_state unknown unknown = true
same_state idle idle = true
same_state connecting connecting = true
same_state ready ready = true
same_state transient_failure transient_failure = true
same_state shutdown shutdown = true
same_state _ _ = false

-- How a loop over a listing ends: with a `return` in its body, after the last page, or, for a server whose
-- pages go on, not within the given number of pages.
pub data Scan (R : Type 0) : Type 0 where
  found : R → Scan R
  finished unfinished : Scan R

module _ {W R : Type 0} where
  -- What the loop does after its body: it returns, or goes on with the rest.
  abbrev pub or_on :
      (rest : Effect W Exception (Option R)) → Option R → Effect W Exception (Option R)
  or_on rest none = rest
  or_on rest (some r) = pure (some r)

module _ {W A R : Type 0} where
  -- `for item in items`, with a body that may return.
  unfoldable pub scan_items :
      (body : A → Effect W Exception (Option R)) → List A → Effect W Exception (Option R)
  scan_items body [] = pure none
  scan_items body (a ∷ items) = do r ← body a; or_on (scan_items body items) r

-- The highest number among those seen: `start = max(start, id)`.
unfoldable pub highest : {A : Type 0} (id : A → ℕ) (start : ℕ) → List A → ℕ
highest id start [] = start
highest id start (a ∷ items) = highest id (if ltb start (id a) then id a else start) items

module _ {W A R : Type 0} (id : A → ℕ) (get_page : (start : ℕ) → Effect W Exception (Page A))
    (body : A → Effect W Exception (Option R)) where
  abbrev pub after_page :
      Page A → (rest : Effect W Exception (Scan R)) → Option R → Effect W Exception (Scan R)
  after_page page rest (some r) = pure (found r)
  after_page page rest none = if page.last then pure finished else rest

  -- A loop over all pages: the next one is asked for when the body has seen the last item of a page.
  unfoldable pub scan : (pages : ℕ) → (start : ℕ) → Effect W Exception (Scan R)
  scan zero start = pure unfinished
  scan (suc pages) start = do
    page ← get_page start
    r ← scan_items body page.items
    after_page page (scan pages (suc (highest id start page.items))) r

unfoldable pub is_not_found_call : Exception → Bool
is_not_found_call (rpc_error (some code)) = code == 5
is_not_found_call _ = false

module _ {W : Type 0} (api : ChannelzApi W) where
  -- NOT_FOUND, the status code 5, becomes GrpcApp.NotFound.
  unfoldable pub get_channel : Deadline → (channel_id : ℕ) → Effect W Exception Channel
  get_channel deadline channel_id =
      catch (api.get_channel deadline channel_id)
        (λ e. throw (if is_not_found_call e then app_not_found else e))

module _ {W R : Type 0} (api : ChannelzApi W) where
  -- `for channel in self.list_channels()`, and so on.
  unfoldable pub list_channels :
      (pages : ℕ)
      → Deadline
      → (body : Channel → Effect W Exception (Option R)) → Effect W Exception (Scan R)
  list_channels pages deadline body =
      scan (λ c. c.channel_id) (api.get_top_channels deadline) body pages 0

  unfoldable pub list_servers :
      (pages : ℕ)
      → Deadline
      → (body : Server → Effect W Exception (Option R)) → Effect W Exception (Scan R)
  list_servers pages deadline body = scan (λ s. s.server_id) (api.get_servers deadline) body pages 0

  unfoldable pub list_server_sockets :
      (pages : ℕ)
      → Deadline
      → Server
      → (body : Socket → Effect W Exception (Option R)) → Effect W Exception (Scan R)
  list_server_sockets pages deadline server body =
      scan (λ n. n) (api.get_server_sockets deadline server.server_id)
        (λ n. do socket ← api.get_socket deadline n; body socket) pages 0

  -- A substring of the target, which may be canonicalized.
  unfoldable pub find_channels_for_target :
      (pages : ℕ)
      → Deadline
      → (target : String) → (body : Channel → Effect W Exception (Option R))
      → Effect W Exception (Scan R)
  find_channels_for_target pages deadline target body =
      list_channels pages deadline
        (λ channel. if occurs target channel.target then body channel else pure none)

  unfoldable pub list_channel_subchannels :
      Deadline
      → Channel
      → (body : Subchannel → Effect W Exception (Option R)) → Effect W Exception (Option R)
  list_channel_subchannels deadline channel body =
      scan_items (λ n. do subchannel ← api.get_subchannel deadline n; body subchannel)
        channel.subchannel_ref

  unfoldable pub list_subchannels_sockets :
      Deadline
      → Subchannel
      → (body : Socket → Effect W Exception (Option R)) → Effect W Exception (Option R)
  list_subchannels_sockets deadline subchannel body =
      scan_items (λ n. do socket ← api.get_socket deadline n; body socket) subchannel.socket_ref

abbrev pub listens_on : (port : ℕ) → Server → Socket → Option Server
listens_on port server socket =
    if is_sock_tcpip_address socket.local && tcpip_port socket.local == port
    then some server
    else none

module _ {W : Type 0} (api : ChannelzApi W) where
  unfoldable pub find_server_listening_on_port :
      (pages : ℕ) → Deadline → (port : ℕ) → Effect W Exception (Scan Server)
  find_server_listening_on_port pages deadline port = list_servers api pages deadline (λ server.
      scan_items (λ n. do socket ← api.get_socket deadline n; pure (listens_on port server socket))
        server.listen_socket)

unfoldable pub matches_client :
    (match_only_port : Bool) → (client_socket server_socket : Socket) → Bool
matches_client true client_socket server_socket =
    tcpip_port server_socket.remote == tcpip_port client_socket.local
matches_client false client_socket server_socket =
    same_address server_socket.remote client_socket.local
