-- ===== src/Net/UdpClient.antt =====
-- src/net/udp_client.c: a UDP client on a socket of socket.c. A host name is the list of its
-- characters, the empty one an empty string. The callbacks are a log; the model takes it that they
-- leave the client alone, and that both are there. A client pointer is never NULL.
pub mod Started
mod Tests
use zero_tool_kit.Prelude.{
  ℕ, ◌+◌, Bool, true, false, not, ◌&&◌, ◌||◌, Option, none, some, List, [], ◌∷◌, ◌++◌, length, take,
  leb, ltb, ◌==◌, if◌then◌else◌,
}
use zero_tool_kit.Errno.{Err, ok, invalid, state}
use zero_tool_kit.Poller.Select.{Poller}
use zero_tool_kit.Net.Socket.{
  World, Callbacks, created, is_ok, detach_poller, bind_udp_ex, attach_poller, destroy,
}
use zero_tool_kit.Net.Socket.Guards.{Moved, moved, refused, sendto}

-- The callbacks of `ztk_udp_client_ops_t`.
pub data Heard : Type 0 where
  on_packet : List ℕ → Heard
  on_error : Heard

-- `peer_host` with `peer_port`
pub record Peer : Type 0 where
  pub host : List ℕ
  pub port : ℕ

-- `struct ztk_udp_client`, with the world of its socket; `peer` is `none` while `has_peer` is 0.
pub record UdpClient : Type 0 where
  pub world : World
  pub poller : ℕ
  pub peer : Option Peer
  pub started : Bool
  pub recv_cap : ℕ
  pub log : List Heard

-- ZTK_UDP_CLIENT_RECV
abbrev pub recv_size : ℕ
recv_size = 65536

-- The flag says whether realloc gives memory.
abbrev pub ensure_recv_buf : Bool → UdpClient → Bool × UdpClient
ensure_recv_buf room c =
    if leb recv_size c.recv_cap
    then (true, c)
    else if room
    then (true, record c { recv_cap = recv_size })
    else (false, c)

-- What the socket gives to one receive: a datagram, nothing yet (ZTK_ERR_AGAIN), or another error.
pub data Datagram : Type 0 where
  packet : List ℕ → Datagram
  not_yet : Datagram
  broken : Datagram

abbrev pub hear : Heard → UdpClient → UdpClient
hear h c = record c { log = c.log ++ (h ∷ []) }

-- The loop of `udp_client_on_readable`; no answer left is ZTK_ERR_AGAIN. A receive of 0 bytes ends it.
pub receive : List Datagram → UdpClient → UdpClient
receive [] c = c
receive (packet [] ∷ more) c = hear on_error c
receive (packet (b ∷ bs) ∷ more) c = receive more (hear (on_packet (take c.recv_cap (b ∷ bs))) c)
receive (not_yet ∷ more) c = c
receive (broken ∷ more) c = hear on_error c

abbrev pub receive_into : List Datagram → Bool × UdpClient → UdpClient
receive_into arrived (room, c) = if room then receive arrived c else c

pub on_readable : Bool → List Datagram → UdpClient → UdpClient
on_readable room arrived c = receive_into arrived (ensure_recv_buf room c)

pub on_socket_error : UdpClient → UdpClient
on_socket_error c = hear on_error c

pub create : ℕ → (ℕ → Poller) → Bool → ℕ → UdpClient
create addr pollers inited poller = record {
  world = record {
    sock = created addr;
    pollers = pollers;
    sockplat_inited = inited;
    taken = [];
    closed = [];
  };
  poller = poller;
  peer = none;
  started = false;
  recv_cap = 0;
  log = [];
}

abbrev pub udp_callbacks : Callbacks
udp_callbacks = record { on_readable = true; on_writable = false; on_error = true }

abbrev pub attached_udp : UdpClient → Err × World → Err × UdpClient
attached_udp c (err, w) =
    let there = record c { world = w } in
    if is_ok err then (ok, record there { started = true }) else (err, there)

abbrev pub bound_udp : Bool → ℕ → UdpClient → Err × World → Err × UdpClient
bound_udp calloc_ok self c (err, w) =
    if is_ok err
    then attached_udp c (attach_poller calloc_ok (some c.poller) (some udp_callbacks) self w)
    else (err, record c { world = w })

-- The answers are the platform's; `self` is the client's address.
unfoldable pub bind_and_attach : Err → Err × ℕ → Bool → ℕ → UdpClient → Err × UdpClient
bind_and_attach init answer calloc_ok self c =
    bound_udp calloc_ok self c
      (bind_udp_ex init answer (if c.started then detach_poller c.world else c.world))

unfoldable pub bind : Err → Err × ℕ → Bool → ℕ → UdpClient → Err × UdpClient
bind init answer calloc_ok self c =
    bind_and_attach init answer calloc_ok self (record c { peer = none })

-- `none` is NULL; snprintf keeps 63 characters.
unfoldable pub set_peer : Option (List ℕ) → ℕ → UdpClient → UdpClient
set_peer none port c = c
set_peer (some []) port c = c
set_peer (some (x ∷ host)) port c = record c {
  peer = some (record { host = take 63 (x ∷ host); port = port });
}

abbrev pub with_peer : List ℕ → ℕ → Err × UdpClient → Err × UdpClient
with_peer host port (err, c) = if is_ok err then (ok, set_peer (some host) port c) else (err, c)

unfoldable pub start : Err → Err × ℕ → Bool → ℕ → Option (List ℕ) → ℕ → UdpClient → Err × UdpClient
start init answer calloc_ok self none port c = (invalid, c)
start init answer calloc_ok self (some host) port c =
    with_peer host port (bind_and_attach init answer calloc_ok self c)

abbrev pub status_of : Moved → Err
status_of (moved n) = ok
status_of (refused err) = err

-- `sys` is the platform's call with the descriptor, the message, the host and the port.
unfoldable pub sendto_peer :
    (Option ℕ → List ℕ → List ℕ → ℕ → Moved) → UdpClient → List ℕ → Option Peer → Err
sendto_peer sys c msg none = state
sendto_peer sys c msg (some p) =
    if c.started
    then status_of (sendto (λ fd m. sys fd m p.host p.port) c.world.sock msg)
    else state

unfoldable pub send : (Option ℕ → List ℕ → List ℕ → ℕ → Moved) → UdpClient → List ℕ → Err
send sys c msg = sendto_peer sys c msg c.peer
