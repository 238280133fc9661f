-- ===== src/Net/Socket/Guards.antt =====
-- src/net/socket.c: the calls that only check the socket and hand its descriptor to the platform.
-- The platform's function, its other arguments given, is the parameter `sys`.
use zero_tool_kit.Prelude.{
  ℕ, ◌==◌, Bool, true, false, not, ◌&&◌, Option, none, some, List, if◌then◌else◌, length, take,
}
use zero_tool_kit.Errno.{Err, ok, nomem, invalid}
use zero_tool_kit.Net.Socket.{
  SockType, no_type, tcp_client, tcp_listen, tcp_connected, udp, Socket, created, is_ok,
}

-- The result of a transfer: a number of bytes, or an error.
pub data Moved : Type 0 where
  moved : ℕ → Moved
  refused : Err → Moved

abbrev pub is_udp : SockType → Bool
is_udp no_type = false
is_udp tcp_client = false
is_udp tcp_listen = false
is_udp tcp_connected = false
is_udp udp = true

abbrev pub is_tcp_stream : SockType → Bool
is_tcp_stream no_type = false
is_tcp_stream tcp_client = true
is_tcp_stream tcp_listen = false
is_tcp_stream tcp_connected = true
is_tcp_stream udp = false

abbrev pub is_listener : SockType → Bool
is_listener no_type = false
is_listener tcp_client = false
is_listener tcp_listen = true
is_listener tcp_connected = false
is_listener udp = false

-- The call on an open descriptor, and the answer where there is none.
abbrev pub on_fd {ℓ} : {A : Type ℓ} → A → (ℕ → A) → Option ℕ → A
on_fd closed sys none = closed
on_fd closed sys (some fd) = sys fd

pub fd : Socket → Option ℕ
fd sock = sock.fd

pub type_of : Socket → SockType
type_of sock = sock.type_of

pub send : (ℕ → List ℕ → Moved) → Socket → List ℕ → Moved
send sys sock msg = on_fd (refused invalid) (λ fd. sys fd msg) sock.fd

-- ZTK_SOCKET_IOV_MAX
abbrev pub iov_max : ℕ
iov_max = 16

-- The message has a part for each iov; only the first 16 are handed on.
abbrev pub sendv_parts : (ℕ → List (List ℕ) → Moved) → List (List ℕ) → ℕ → Moved
sendv_parts sys parts fd =
    if length parts == 0 then refused invalid else sys fd (take iov_max parts)

pub sendv : (ℕ → List (List ℕ) → Moved) → Socket → List (List ℕ) → Moved
sendv sys sock parts = on_fd (refused invalid) (sendv_parts sys parts) sock.fd

pub recv : (ℕ → Moved) → Socket → Moved
recv sys sock = on_fd (refused invalid) sys sock.fd

-- These two do not look at the descriptor.
unfoldable pub sendto : (Option ℕ → List ℕ → Moved) → Socket → List ℕ → Moved
sendto sys sock msg = if is_udp sock.type_of then sys sock.fd msg else refused invalid

pub recvfrom : (Option ℕ → Moved) → Socket → Moved
recvfrom sys sock = if is_udp sock.type_of then sys sock.fd else refused invalid

pub set_bbr : (ℕ → Err) → Socket → Err
set_bbr sys sock =
    on_fd invalid (λ fd. if is_tcp_stream sock.type_of then sys fd else invalid) sock.fd

pub get_local : (ℕ → Err) → Socket → Err
get_local sys sock = on_fd invalid sys sock.fd

pub get_peer : (ℕ → Err) → Socket → Err
get_peer sys sock = on_fd invalid sys sock.fd

pub udp_fd_check : Socket → Err
udp_fd_check sock = if is_udp sock.type_of then on_fd invalid (λ fd. ok) sock.fd else invalid

abbrev pub udp_call : (Option ℕ → Err) → Socket → Err
udp_call sys sock = if is_ok (udp_fd_check sock) then sys sock.fd else udp_fd_check sock

pub set_broadcast : (Option ℕ → Err) → Socket → Err
set_broadcast sys sock = udp_call sys sock

pub set_multicast_ttl : (Option ℕ → Err) → Socket → Err
set_multicast_ttl sys sock = udp_call sys sock

pub set_multicast_if : (Option ℕ → Err) → Socket → Err
set_multicast_if sys sock = udp_call sys sock

pub set_multicast_loop : (Option ℕ → Err) → Socket → Err
set_multicast_loop sys sock = udp_call sys sock

-- `group` is `false` for a NULL address of the group, and `src` for that of the source.
abbrev pub group_call : (Option ℕ → Err) → Bool → Socket → Err
group_call sys given sock =
    if not (is_ok (udp_fd_check sock))
    then udp_fd_check sock
    else if given
    then sys sock.fd
    else invalid

pub join_multicast : (Option ℕ → Err) → Bool → Socket → Err
join_multicast sys group sock = group_call sys group sock

pub leave_multicast : (Option ℕ → Err) → Bool → Socket → Err
leave_multicast sys group sock = group_call sys group sock

pub join_multicast_filter : (Option ℕ → Err) → Bool → Bool → Socket → Err
join_multicast_filter sys group src sock = group_call sys (group && src) sock

pub leave_multicast_filter : (Option ℕ → Err) → Bool → Bool → Socket → Err
leave_multicast_filter sys group src sock = group_call sys (group && src) sock

-- `ztk_socket_accept`: the platform's answer is a status and the client's descriptor; `calloc_ok`
-- is for the new socket, whose address is `addr`. The last part is the descriptor closed here.
abbrev pub accepted : ℕ → ℕ → Socket
accepted addr cfd = record (created addr) { fd = some cfd; type_of = tcp_connected }

abbrev pub accept_answer : Err × ℕ → Bool → ℕ → Err × Option Socket × Option ℕ
accept_answer (err, cfd) calloc_ok addr =
    if not (is_ok err)
    then (err, none, none)
    else if not calloc_ok
    then (nomem, none, some cfd)
    else (ok, some (accepted addr cfd), none)

pub accept : (Option ℕ → Err × ℕ) → Bool → ℕ → Socket → Err × Option Socket × Option ℕ
accept sys calloc_ok addr listen_sock =
    if is_listener listen_sock.type_of
    then accept_answer (sys listen_sock.fd) calloc_ok addr
    else (invalid, none, none)
