-- ===== src/Net/TcpClient.antt =====
-- src/net/tcp_client.c: a TCP client on a socket of socket.c. The client's callbacks are a log, in
-- the order in which they are called; the model takes it that they leave the client alone. A client
-- pointer is never NULL, and all three callbacks are there. The loop of a send runs on fuel.
pub mod Send
pub mod States
pub mod Life
mod Tests
use zero_tool_kit.Prelude.{
  ℕ, zero, suc, ◌+◌, min, Bool, true, false, not, ◌&&◌, ◌||◌, Option, none, some, List, [], ◌∷◌,
  ◌++◌, length, take, drop, leb, ◌==◌, if◌then◌else◌,
}
use zero_tool_kit.Errno.{
  Err, ok, nomem, invalid, io, timeout, again, not_impl, platform, state, buffer_too_small,
}
use zero_tool_kit.Poller.Select.{Poller}
use zero_tool_kit.Net.TcpSession.{Reply, takes, blocks, fails}
use zero_tool_kit.Net.Socket.{
  World, Callbacks, created, is_ok, detach_poller, connect, check_connect, attach_poller, destroy,
}
use zero_tool_kit.Net.Socket.Dispatch.{Called, readable, writable, error, dispatch}

-- The callbacks of `ztk_tcp_client_ops_t`, on_recv with the bytes.
pub data Event : Type 0 where
  on_connect : Event
  on_recv : List ℕ → Event
  on_error : Event

-- `struct ztk_tcp_client`, with the world of its socket.
pub record Client : Type 0 where
  pub world : World
  pub poller : ℕ
  pub connected : Bool
  pub closing : Bool
  pub log : List Event

abbrev pub say : Event → Client → Client
say e c = record c { log = c.log ++ (e ∷ []) }

unfoldable pub fire_error : Client → Client
fire_error c =
    if c.closing
    then c
    else let told = say on_error (record c { closing = true }) in
      record told { world = detach_poller told.world }

abbrev pub is_again : Err → Bool
is_again ok = false
is_again nomem = false
is_again invalid = false
is_again zero_tool_kit.Errno.io = false
is_again timeout = false
is_again again = true
is_again not_impl = false
is_again platform = false
is_again state = false
is_again buffer_too_small = false

abbrev pub connect_checked : Client → Err × World → Client
connect_checked c (err, w) =
    let seen = record c { world = w } in
    if is_ok err
    then say on_connect (record seen { connected = true })
    else if is_again err
    then seen
    else fire_error seen

-- `check` is the platform's answer about the connection if it is asked.
unfoldable pub client_on_writable : Err → Client → Client
client_on_writable check c =
    if c.closing || c.connected then c else connect_checked c (check_connect check c.world)

-- What one `ztk_socket_recv` gives: bytes (none at the end of the stream), or an error.
pub data Received : Type 0 where
  bytes : List ℕ → Received
  refused : Err → Received

abbrev pub received : Received → Client → Client
received (bytes []) c = fire_error c
received (bytes (b ∷ bs)) c = say (on_recv (b ∷ bs)) c
received (refused err) c = if is_again err then c else fire_error c

unfoldable pub client_on_readable : Err → Received → Client → Client
client_on_readable check r c =
    let ready = if c.connected then c else client_on_writable check c in
    if c.closing
    then c
    else if not ready.connected || ready.closing
    then ready
    else received r ready

abbrev pub run_call : Err → Received → Client → Called → Client
run_call check r c readable = client_on_readable check r c
run_call check r c writable = client_on_writable check c
run_call check r c error = fire_error c

abbrev pub run_calls : Err → Received → Client → List Called → Client
run_calls check r c [] = c
run_calls check r c (call ∷ calls) = run_calls check r (run_call check r c call) calls

-- An event of the poller, through the socket's callback.
abbrev pub on_dispatched : Err → Received → Client → List Called × World → Client
on_dispatched check r c (calls, w) = run_calls check r (record c { world = w }) calls

unfoldable pub on_event : ℕ → ℕ → Err → Received → Client → Client
on_event fd events check r c = on_dispatched check r c (dispatch fd events check c.world)

-- `world` has the new socket; the options and both allocations are there.
pub create : ℕ → (ℕ → Poller) → Bool → ℕ → Client
create addr pollers inited poller = record {
  world = record {
    sock = created addr;
    pollers = pollers;
    sockplat_inited = inited;
    taken = [];
    closed = [];
  };
  poller = poller;
  connected = false;
  closing = false;
  log = [];
}

abbrev pub client_callbacks : Callbacks
client_callbacks = record { on_readable = true; on_writable = true; on_error = true }

abbrev pub attached_client : Bool → Client → Err × World → Err × Client
attached_client pending c (err, w) =
    let there = record c { world = w } in
    if not (is_ok err)
    then (err, there)
    else if pending
    then (ok, there)
    else (ok, say on_connect (record there { connected = true }))

abbrev pub connected_client : Bool → Bool → ℕ → Client → Err × World → Err × Client
connected_client calloc_ok pending self c (err, w) =
    if is_ok err
    then attached_client pending c
        (attach_poller calloc_ok (some c.poller) (some client_callbacks) self w)
    else (err, record c { world = w })

-- The answers are the platform's; `self` is the client's address.
unfoldable pub connect_client : Err → Bool → Err × ℕ → Bool → Bool → ℕ → Client → Err × Client
connect_client init host answer pending calloc_ok self c =
    if c.closing
    then (invalid, c)
    else connected_client calloc_ok pending self (record c { connected = false })
        (connect init host answer pending (detach_poller c.world))

pub is_connected : Client → Bool
is_connected c = c.connected && not c.closing

-- The new socket of `ztk_tcp_client_close` has the address `addr`.
unfoldable pub close : ℕ → Client → Client
close addr c =
    let gone = destroy (detach_poller c.world) in
    record c { world = record gone { sock = created addr }; connected = false; closing = false }

-- How a send ended: with a status, or without fuel; what went out, and what is left.
pub record Ended : Type 0 where
  pub status : Option Err
  pub wire : List ℕ
  pub left : List ℕ

abbrev pub ended : Err → List ℕ → List ℕ → Ended
ended e wire left = record { status = some e; wire = wire; left = left }

-- The loop: `replies k` is the answer to the k-th send, `spin` is `again_spin`.
abbrev pub send_step : (List ℕ → List ℕ → ℕ → Ended) → Reply → List ℕ → List ℕ → ℕ → Ended
send_step more (takes n) wire left spin =
    if n == 0 then ended io wire left else more (wire ++ take n left) (drop n left) 0
send_step more blocks wire left spin =
    if leb 64 spin then ended again wire left else more wire left (spin + 1)
send_step more (fails e) wire left spin = ended e wire left

unfoldable pub send_loop : ℕ → (ℕ → Reply) → ℕ → List ℕ → List ℕ → ℕ → Ended
send_loop fuel replies k wire [] spin = ended ok wire []
send_loop zero replies k wire (x ∷ left) spin = record {
  status = none;
  wire = wire;
  left = x ∷ left;
}
send_loop (suc fuel) replies k wire (x ∷ left) spin =
    send_step (send_loop fuel replies (k + 1)) (replies k) wire (x ∷ left) spin

-- `msg` is `none` for NULL.
unfoldable pub send : ℕ → (ℕ → Reply) → Client → List ℕ → Ended
send fuel replies c msg =
    if (not c.connected || c.closing) || (length msg == 0)
    then ended state [] msg
    else send_loop fuel replies 0 [] msg 0
