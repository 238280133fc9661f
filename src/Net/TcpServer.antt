-- ===== src/Net/TcpServer.antt =====
-- src/net/tcp_server.c: the server's registrations with its pollers, its table of sessions and its
-- choice of a poller. A session is the number of its address; the table is a list with its
-- capacity. The listening socket is one of socket.c.
pub mod Table
pub mod Agreement
pub mod Listening
pub mod Running
mod Tests
use zero_tool_kit.Prelude.{
  ℕ, zero, suc, ◌+◌, ◌-◌, ◌*◌, Bool, true, false, not, ◌&&◌, ◌||◌, Option, none, some, List, [],
  ◌∷◌, ◌++◌, length, get_elem?, get_or, set, take, ltb, leb, ◌==◌, if◌then◌else◌, u64,
}
use zero_tool_kit.Errno.{Err, ok, nomem, state}
use zero_tool_kit.Poller.Select.{Poller, add, del, poll_in, poll_err, poll_hup}
use zero_tool_kit.Net.Socket.{World, is_ok, listen, at_poller}

-- `sessions`, `session_count` and `session_cap`: the list has `session_count` elements.
pub record Sessions : Type 0 where
  pub sessions : List ℕ
  pub session_cap : ℕ

abbrev pub grown_cap : ℕ → ℕ
grown_cap cap = if cap == 0 then 8 else u64 (cap * 2)

-- `room` says whether realloc gives memory. The byte size, 8 times the capacity, is left out: it
-- wraps from 2 ^ 60 sessions on only.
unfoldable pub session_list_add : Bool → Sessions → ℕ → Err × Sessions
session_list_add room srv session =
    if leb srv.session_cap (length srv.sessions)
    then (if room
        then (
          ok,
          record {
            sessions = srv.sessions ++ (session ∷ []);
            session_cap = grown_cap srv.session_cap;
          },
        )
        else (nomem, srv))
    else (ok, record srv { sessions = srv.sessions ++ (session ∷ []) })

-- The place of the first occurrence.
abbrev pub index_of : ℕ → List ℕ → Option ℕ
index_of target [] = none
index_of target (s ∷ rest) =
    let later = index_of target rest in
    if s == target then some 0 else elim later [ none ↦ none | some i ↦ some (i + 1) ]

-- `sessions[i] = sessions[session_count - 1]; session_count--;`
abbrev pub swap_out : List ℕ → Option ℕ → List ℕ
swap_out l none = l
swap_out l (some i) = take (length l - 1) (set l i (get_or l (length l - 1) 0))

-- The table's part of `session_remove`, for a session that is not closing.
unfoldable pub session_remove : Sessions → ℕ → Sessions
session_remove srv target = record srv {
  sessions = swap_out srv.sessions (index_of target srv.sessions);
}

-- `pick` is what `pick_poller` returns, `from_pool` what the pool's choice does, both `none` for NULL
-- and where there is no such function or pool.
pub choose_poller : Option ℕ → Option ℕ → ℕ → ℕ
choose_poller (some p) from_pool accept_poller = p
choose_poller none (some p) accept_poller = p
choose_poller none none accept_poller = accept_poller

-- `struct ztk_tcp_server` as far as it listens. `manager_timers i` says whether binding `i` has a
-- timer; `with_manager` whether there is an on_manager with an interval above 0; `bindings` is the
-- address of the first of `listen_bindings`.
pub record Server : Type 0 where
  pub listen_world : World
  pub pollers : List ℕ
  pub bindings : ℕ
  pub manager_timers : ℕ → Bool
  pub with_manager : Bool
  pub port : ℕ
  pub started : Bool

-- The address of `listen_on_readable`.
abbrev pub listen_on_readable : ℕ
listen_on_readable = 2

abbrev pub mark : (ℕ → Bool) → ℕ → Bool → ℕ → Bool
mark f i b j = if j == i then b else f j

abbrev pub with_pollers : Server → (ℕ → Poller) → Server
with_pollers s pollers = record s { listen_world = record s.listen_world { pollers = pollers } }

-- `listen_attach_manager`; `timer` says whether the poller gives a timer.
pub listen_attach_manager : Bool → ℕ → Server → Err × Server
listen_attach_manager timer i s =
    if not s.with_manager
    then (ok, s)
    else if timer
    then (ok, record s { manager_timers = mark s.manager_timers i true })
    else (nomem, record s { manager_timers = mark s.manager_timers i false })

abbrev pub bind_added : Bool → ℕ → ℕ → Server → Err × Poller → Err × Server
bind_added timer i p s (err, q) =
    let there = with_pollers s (at_poller s.listen_world.pollers p q) in
    if is_ok err then listen_attach_manager timer i there else (err, there)

-- One round of the loop of start.
abbrev pub bind_one : (ℕ → Bool) → (ℕ → Bool) → ℕ → ℕ → Server → Err × Server
bind_one calloc_ok timer i p s = bind_added (timer i) i p s (
    add (calloc_ok i) (s.listen_world.pollers p) s.listen_world.sock.fd
      (poll_in + poll_err + poll_hup) listen_on_readable (s.bindings + i))

abbrev pub bind_next : (Server → Err × Server) → Err × Server → Err × Server
bind_next more (err, s) = if is_ok err then more s else (err, s)

unfoldable pub bind_all : (ℕ → Bool) → (ℕ → Bool) → ℕ → List ℕ → Server → Err × Server
bind_all calloc_ok timer i [] s = (ok, s)
bind_all calloc_ok timer i (p ∷ ps) s =
    bind_next (bind_all calloc_ok timer (i + 1) ps) (bind_one calloc_ok timer i p s)

-- The loop of stop.
unfoldable pub unbind_all : ℕ → List ℕ → Server → Server
unbind_all i [] s = s
unbind_all i (p ∷ ps) s = unbind_all (i + 1) ps (
    with_pollers (record s { manager_timers = mark s.manager_timers i false })
      (at_poller s.listen_world.pollers p
        (del (s.listen_world.pollers p) s.listen_world.sock.fd).1))

unfoldable pub stop : Server → Server
stop s = if s.started then record (unbind_all 0 s.pollers s) { started = false } else s

-- A failure calls stop, with `started` still 0.
abbrev pub bound : Err × Server → Err × Server
bound (err, s) = if is_ok err then (ok, record s { started = true }) else (err, stop s)

abbrev pub listening : (ℕ → Bool) → (ℕ → Bool) → ℕ → Server → Err × World → Err × Server
listening calloc_ok timer local s (err, w) =
    let there = record s { listen_world = w } in
    if is_ok err
    then bound (
        bind_all calloc_ok timer 0 there.pollers
          (record there { port = if local == 0 then there.port else local }))
    else (err, there)

-- `local` is the port that `ztk_socket_get_local` tells, 0 if it fails.
unfoldable pub start_server : (ℕ → Bool) → (ℕ → Bool) → Err → Err × ℕ → ℕ → Server → Err × Server
start_server calloc_ok timer init answer local s =
    if s.started
    then (state, s)
    else listening calloc_ok timer local s (listen init answer s.listen_world)

pub is_running : Server → Bool
is_running s = s.started

pub port_of : Server → ℕ
port_of s = s.port

pub poller_count : Server → ℕ
poller_count s = length s.pollers

pub poller_at : Server → ℕ → Option ℕ
poller_at s index = get_elem? s.pollers index
