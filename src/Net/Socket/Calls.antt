-- ===== src/Net/Socket/Calls.antt =====
-- src/net/socket.c: every sequence of calls keeps the object and the pollers together.
use mathlib.Core.Path.{subst}
use zero_tool_kit.Prelude.{ℕ, ◌≡◌, ◌≢◌, sym, Bool, true, false, Option, some, if◌then◌else◌, []}
use zero_tool_kit.Errno.{Err}
use zero_tool_kit.Poller.Select.{Entry, Poller}
use zero_tool_kit.Poller.Select.Registry.{IsRegistry, lookup}
use zero_tool_kit.Net.Socket.{
  SockType, Callbacks, World, detach_poller, listen, bind_udp_ex, connect, adopt, Options, opts_for,
  tcp_listen, tcp_client, tcp_connected, udp, check_connect, destroy, attach_poller,
  mod_socket_events, created,
}
use zero_tool_kit.Net.Socket.Tied.{Tied, IsNew, detach_poller-Tied, drop_fd-Tied, reopen-Tied}
use zero_tool_kit.Net.Socket.Each.{attach_poller-Tied, mod_socket_events-Tied, check_connect-Tied}

-- One call on the object, with the platform's answers.
pub data Step (w : World) (t : World) : Type 0 where
  does_listen :
      (init : Err) (answer : Err × ℕ) → IsNew w answer.1 → t ≡ (listen init answer w).1 → Step w t
  does_bind_udp :
      (init : Err) (answer : Err × ℕ)
      → IsNew w answer.1
      → t ≡ (bind_udp_ex init answer w).1
      → Step w t
  does_connect :
      (init : Err) (host : Bool) (answer : Err × ℕ) (pending : Bool)
      → IsNew w answer.1
      → t ≡ (connect init host answer pending w).1
      → Step w t
  does_adopt :
      (init : Err) (o : Options) (fd : ℕ) (type : SockType)
      → IsNew w fd
      → t ≡ (adopt init o (some fd) type w).1
      → Step w t
  does_check_connect : (answer : Err) → t ≡ (check_connect answer w).1 → Step w t
  does_attach :
      (calloc_ok : Bool) (p : Option ℕ) (cb : Option Callbacks) (user : ℕ)
      → t ≡ (attach_poller calloc_ok p cb user w).1
      → Step w t
  does_detach : t ≡ detach_poller w → Step w t
  does_mod_events : (events : ℕ) → t ≡ (mod_socket_events events w).1 → Step w t

pub data Reach (w : World) : World → Type 0 where
  here : Reach w w
  next : {t u : World} → Reach w t → Step t u → Reach w u

pub Step-Tied : (w t : World) → Step w t → Tied w → Tied t
unfolding listen bind_udp_ex connect adopt
Step-Tied w t (does_listen init answer new e) v =
    subst Tied (sym e) (reopen-Tied tcp_listen false init answer w v new)
Step-Tied w t (does_bind_udp init answer new e) v =
    subst Tied (sym e) (reopen-Tied udp false init answer w v new)
Step-Tied w t (does_connect init true answer pending new e) v =
    subst Tied (sym e)
      (reopen-Tied (if pending then tcp_client else tcp_connected) pending init answer w v new)
Step-Tied w t (does_connect init false answer pending new e) v = subst Tied (sym e) v
Step-Tied w t (does_adopt init o fd type new e) v =
    subst Tied (sym e) (reopen-Tied type false init (opts_for o type, fd) w v new)
Step-Tied w t (does_check_connect answer e) v = subst Tied (sym e) (check_connect-Tied answer w v)
Step-Tied w t (does_attach calloc_ok p cb user e) v =
    subst Tied (sym e) (attach_poller-Tied calloc_ok p cb user w v)
Step-Tied w t (does_detach e) v = subst Tied (sym e) (detach_poller-Tied w v).0
Step-Tied w t (does_mod_events events e) v = subst Tied (sym e) (mod_socket_events-Tied events w v)

Reach-Tied : {w t : World} → Tied w → Reach w t → Tied t
Reach-Tied v here = v
Reach-Tied v (next {t} {u} r st) = Step-Tied t u st (Reach-Tied v r)

-- An object before any call, and pollers that know nothing of it.
abbrev pub start : ℕ → (ℕ → Poller) → Bool → World
start addr pollers inited = record {
  sock = created addr;
  pollers = pollers;
  sockplat_inited = inited;
  taken = [];
  closed = [];
}

abbrev pub IsUnknown : ℕ → (ℕ → Poller) → Type 0
IsUnknown addr pollers =
    (p : ℕ)
    → IsRegistry (pollers p) × ((g : ℕ) (e : Entry) → lookup (pollers p) g ≡ some e → e.user ≢ addr)

pub start-Tied :
    (addr : ℕ) (pollers : ℕ → Poller) (inited : Bool)
    → IsUnknown addr pollers
    → Tied (start addr pollers inited)
start-Tied addr pollers inited u = record {
  registries = λ p. (u p).0;
  not_wake = λ p f h. absurd cc;
  known = λ h. absurd cc;
  only = λ p g {e} there mine. absurd ((u p).1 g e there mine);
}

-- Whatever was called on a socket object, while it is attached the one entry that points to it is
-- that of its poller for its descriptor, with the events it notes, and otherwise no poller has an
-- entry that points to it. (The platform hands out no descriptor of a wake pipe.)
pub entry_follows :
    (addr : ℕ) (pollers : ℕ → Poller) (inited : Bool) {t : World}
    → IsUnknown addr pollers
    → Reach (start addr pollers inited) t
    → Tied t
entry_follows addr pollers inited u r = Reach-Tied (start-Tied addr pollers inited u) r

-- Once a socket is destroyed no poller has an entry that points to it.
pub destroy-IsUnknown :
    (addr : ℕ) (pollers : ℕ → Poller) (inited : Bool) {t : World}
    → IsUnknown addr pollers
    → Reach (start addr pollers inited) t
    → IsUnknown (destroy t).sock.addr (destroy t).pollers
unfolding destroy
destroy-IsUnknown addr pollers inited {t} u r p =
    let (v, off) = drop_fd-Tied t (entry_follows addr pollers inited u r) in
    (v.registries p, λ g e there mine. let (on, a, b) = v.only p g {e = e} there mine in absurd cc)
