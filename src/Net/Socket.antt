-- ===== src/Net/Socket.antt =====
-- src/net/socket.c: a socket object, its descriptor and its registration with a poller. Pollers are
-- those of poller_select.c, named by numbers; so are socket objects (`addr`). A socket pointer is
-- never NULL here. The platform's calls (ztk_sockplat_…) are arguments: their answers, or functions
-- of the descriptor. A descriptor is an `Option`, `none` for -1.
pub mod Dispatch
pub mod Guards
pub mod Settles
pub mod Tied
pub mod Attach
pub mod Each
pub mod Calls
pub mod Once
pub mod Sample
mod Tests
use zero_tool_kit.Prelude.{
  ℕ, ◌+◌, Bool, true, false, not, ◌&&◌, ◌||◌, Option, none, some, List, [], ◌∷◌, ◌++◌, ◌==◌,
  if◌then◌else◌,
}
use zero_tool_kit.Errno.{
  Err, ok, nomem, invalid, io, timeout, again, not_impl, platform, state, buffer_too_small,
}
use zero_tool_kit.Poller.Select.{
  Poller, add, mod_events, del, poll_in, poll_out, poll_err, poll_hup,
}

-- `ztk_sock_type_t`
pub data SockType : Type 0 where
  no_type tcp_client tcp_listen tcp_connected udp : SockType

-- `ztk_socket_callbacks_t`: which of the functions are there.
pub record Callbacks : Type 0 where
  pub on_readable : Bool
  pub on_writable : Bool
  pub on_error : Bool

-- `struct ztk_socket` at the address `addr`
pub record Socket : Type 0 where
  pub addr : ℕ
  pub fd : Option ℕ
  pub type_of : SockType
  pub poller : Option ℕ
  pub cb : Callbacks
  pub user : ℕ
  pub poll_events : ℕ
  pub attached : Bool
  pub connect_pending : Bool

-- A socket, the pollers, `s_sockplat_inited`, and two logs that the source does not have:
-- the descriptors that the socket took over, and those that it closed, in order.
pub record World : Type 0 where
  pub sock : Socket
  pub pollers : ℕ → Poller
  pub sockplat_inited : Bool
  pub taken : List ℕ
  pub closed : List ℕ

abbrev pub is_ok : Err → Bool
is_ok ok = true
is_ok nomem = false
is_ok invalid = false
is_ok io = false
is_ok timeout = false
is_ok again = false
is_ok not_impl = false
is_ok platform = false
is_ok state = false
is_ok buffer_too_small = false

-- `ztk_sockplat_init` answers `init` if it is called.
unfoldable pub ensure_sockplat : Err → World → Err × World
ensure_sockplat init w =
    if w.sockplat_inited then (ok, w) else (init, record w { sockplat_inited = is_ok init })

abbrev pub close_at : World → Option ℕ → World
close_at w none = w
close_at w (some fd) = record w {
  closed = w.closed ++ (fd ∷ []);
  sock = record w.sock { fd = none };
}

unfoldable pub close_fd : World → World
close_fd w = close_at w w.sock.fd

unfoldable pub default_poll_events : Socket → ℕ
default_poll_events sock =
    poll_in + poll_err + poll_hup + (if sock.connect_pending then poll_out else 0)

abbrev pub no_callbacks : Callbacks
no_callbacks = record { on_readable = false; on_writable = false; on_error = false }

-- `ztk_socket_create` where calloc gives memory.
abbrev pub created : ℕ → Socket
created addr = record {
  addr = addr;
  fd = none;
  type_of = no_type;
  poller = none;
  cb = no_callbacks;
  user = 0;
  poll_events = 0;
  attached = false;
  connect_pending = false;
}

-- One poller changed.
abbrev pub at_poller : (ℕ → Poller) → ℕ → Poller → ℕ → Poller
at_poller pollers p new q = if q == p then new else pollers q

abbrev pub detach_from : World → Option ℕ → Option ℕ → World
detach_from w (some p) (some fd) = record w {
  pollers = at_poller w.pollers p (del (w.pollers p) (some fd)).1;
  sock = record w.sock { attached = false; poller = none };
}
detach_from w none fd = w
detach_from w (some p) none = w

unfoldable pub detach_poller : World → World
detach_poller w = if w.sock.attached then detach_from w w.sock.poller w.sock.fd else w

-- What listen, bind and connect first do with the descriptor that was there.
abbrev pub drop_fd : World → World
drop_fd w = close_fd (detach_poller w)

abbrev pub hold : ℕ → SockType → Bool → World → World
hold fd type pending w = record w {
  sock = record w.sock { fd = some fd; type_of = type; connect_pending = pending };
  taken = w.taken ++ (fd ∷ []);
}

-- After `ensure_sockplat`, which every failure turns into ZTK_ERR_PLATFORM.
abbrev pub with_sockplat : (World → Err × World) → Err × World → Err × World
with_sockplat next (err, w) = if is_ok err then next w else (platform, w)

-- The platform's answer to listen, bind or connect: a status, and the descriptor if it is ZTK_OK.
abbrev pub opened : SockType → Bool → Err × ℕ → World → Err × World
opened type pending (err, fd) w = if is_ok err then (ok, hold fd type pending w) else (err, w)

unfoldable pub listen : Err → Err × ℕ → World → Err × World
listen init answer w =
    with_sockplat (λ w. opened tcp_listen false answer (drop_fd w)) (ensure_sockplat init w)

unfoldable pub bind_udp_ex : Err → Err × ℕ → World → Err × World
bind_udp_ex init answer w =
    with_sockplat (λ w. opened udp false answer (drop_fd w)) (ensure_sockplat init w)

-- `pending` is what the platform writes to its last argument; `host` is `false` for NULL.
unfoldable pub connect : Err → Bool → Err × ℕ → Bool → World → Err × World
connect init host answer pending w =
    if host
    then with_sockplat
        (λ w. opened (if pending then tcp_client else tcp_connected) pending answer (drop_fd w))
        (ensure_sockplat init w)
    else (invalid, w)

-- The platform's options for a type of socket: the three functions' answers.
pub record Options : Type 0 where
  pub tcp_server : Err
  pub tcp_client_opts : Err
  pub udp_opts : Err

abbrev pub opts_for : Options → SockType → Err
opts_for o tcp_listen = o.tcp_server
opts_for o tcp_client = o.tcp_client_opts
opts_for o tcp_connected = o.tcp_client_opts
opts_for o udp = o.udp_opts
opts_for o no_type = invalid

unfoldable pub adopt : Err → Options → Option ℕ → SockType → World → Err × World
adopt init o none type w = (invalid, w)
adopt init o (some fd) type w =
    with_sockplat (λ w. opened type false (opts_for o type, fd) (drop_fd w))
      (ensure_sockplat init w)

abbrev pub check_at : Err → World → Option ℕ → Err × World
check_at answer w none = (invalid, w)
check_at answer w (some fd) =
    if not w.sock.connect_pending
    then (ok, w)
    else if is_ok answer
    then (
      ok,
      record w { sock = record w.sock { connect_pending = false; type_of = tcp_connected } },
    )
    else (answer, w)

-- `answer` is that of the platform if it is asked.
unfoldable pub check_connect : Err → World → Err × World
check_connect answer w = check_at answer w w.sock.fd

-- The address of `socket_poller_cb`.
abbrev pub socket_poller_cb : ℕ
socket_poller_cb = 1

-- The outcome of `ztk_poller_add`.
abbrev pub attach_done : ℕ → World → Err × Poller → Err × World
attach_done p w (err, q) =
    let there = record w { pollers = at_poller w.pollers p q } in
    if is_ok err
    then (ok, record there { sock = record w.sock { attached = true } })
    else (err, there)

abbrev pub attach_fresh : Bool → ℕ → Callbacks → ℕ → World → Err × World
attach_fresh calloc_ok p cb user w =
    let events = default_poll_events w.sock in
    let set = record w {
      sock = record w.sock { cb = cb; user = user; poller = some p; poll_events = events };
    } in
    attach_done p set (add calloc_ok (w.pollers p) w.sock.fd events socket_poller_cb w.sock.addr)

abbrev pub is_some : Option ℕ → Bool
is_some none = false
is_some (some fd) = true

-- `calloc_ok` is for the poller's entry; `none` callbacks are NULL.
unfoldable pub attach_poller : Bool → Option ℕ → Option Callbacks → ℕ → World → Err × World
attach_poller calloc_ok none cb user w = (invalid, w)
attach_poller calloc_ok (some p) cb user w =
    if is_some w.sock.fd
    then attach_fresh calloc_ok p (elim cb [ none ↦ no_callbacks | some c ↦ c ]) user
        (detach_poller w)
    else (invalid, w)

abbrev pub events_set : World → ℕ → ℕ → Err × Poller → Err × World
events_set w p events (err, q) = (
  err,
  record w { pollers = at_poller w.pollers p q; sock = record w.sock { poll_events = events } },
)

abbrev pub mod_at : World → ℕ → Option ℕ → Err × World
mod_at w events none = (state, w)
mod_at w events (some p) = events_set w p events (mod_events (w.pollers p) w.sock.fd events)

unfoldable pub mod_socket_events : ℕ → World → Err × World
mod_socket_events events w = if w.sock.attached then mod_at w events w.sock.poller else (state, w)

-- `ztk_socket_destroy` up to the free.
unfoldable pub destroy : World → World
destroy w = drop_fd w
