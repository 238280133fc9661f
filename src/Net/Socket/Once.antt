-- ===== src/Net/Socket/Once.antt =====
-- src/net/socket.c: each descriptor that a socket takes over is closed once.
use mathlib.Core.Path.{subst}
use zero_tool_kit.Prelude.{
  ℕ, ◌≡◌, refl, sym, ap, ◌∙◌, Bool, true, false, not, Option, none, some, if◌then◌else◌, List, [],
  ◌∷◌, ◌++◌, append-nil,
}
use zero_tool_kit.Errno.{Err, ok}
use zero_tool_kit.Poller.Select.{Poller}
use zero_tool_kit.Net.Socket.{
  SockType, Callbacks, World, detach_poller, detach_from, close_fd, close_at, drop_fd,
  ensure_sockplat, with_sockplat, opened, is_ok, listen, bind_udp_ex, connect, adopt, opts_for,
  tcp_listen, tcp_client, tcp_connected, udp, check_connect, check_at, destroy, attach_poller,
  is_some, mod_at, mod_socket_events, close_at,
}
use zero_tool_kit.Net.Socket.Calls.{
  Step, Reach, here, next, does_listen, does_bind_udp, does_connect, does_adopt, does_check_connect,
  does_attach, does_detach, does_mod_events, start,
}

abbrev pub held : Option ℕ → List ℕ
held none = []
held (some fd) = fd ∷ []

-- All that was taken over is closed, but for what the object holds.
abbrev pub Owns : World → Type 0
Owns w = w.taken ≡ w.closed ++ held w.sock.fd

if-Owns : (b : Bool) (x y : Err × World) → Owns x.1 → Owns y.1 → Owns (if b then x else y).1
if-Owns true x y v u = v
if-Owns false x y v u = u

detach_poller-Owns : (w : World) → Owns w → Owns (detach_poller w)
unfolding detach_poller
detach_poller-Owns w o = choose w.sock.attached
  where
    from : (p fd : Option ℕ) → Owns (detach_from w p fd)
    from none fd = o
    from (some p) none = o
    from (some p) (some fd) = o

    choose : (b : Bool) → Owns (if b then detach_from w w.sock.poller w.sock.fd else w)
    choose true = from w.sock.poller w.sock.fd
    choose false = o

drop_fd-Owns : (w : World) → Owns w → (Owns (drop_fd w)) × ((drop_fd w).sock.fd ≡ none)
unfolding close_fd
drop_fd-Owns w o = closes (detach_poller w).sock.fd refl
  where
    t : World
    t = detach_poller w

    closes :
        (fd : Option ℕ) → t.sock.fd ≡ fd → Owns (close_at t fd) × ((close_at t fd).sock.fd ≡ none)
    closes none e = (detach_poller-Owns w o, e)
    closes (some fd) e = (
      detach_poller-Owns w o
          ∙ ap (λ d. t.closed ++ held d) e
          ∙ sym (append-nil (t.closed ++ (fd ∷ []))),
      refl,
    )

drop_fd-taken : (w : World) → (drop_fd w).taken ≡ w.taken
unfolding close_fd detach_poller
drop_fd-taken w = closes (detach_poller w) (detach_poller w).sock.fd ∙ choose w.sock.attached
  where
    closes : (t : World) (fd : Option ℕ) → (close_at t fd).taken ≡ t.taken
    closes t none = refl
    closes t (some fd) = refl

    from : (p fd : Option ℕ) → (detach_from w p fd).taken ≡ w.taken
    from none fd = refl
    from (some p) none = refl
    from (some p) (some fd) = refl

    choose : (b : Bool) → (if b then detach_from w w.sock.poller w.sock.fd else w).taken ≡ w.taken
    choose true = from w.sock.poller w.sock.fd
    choose false = refl

reopen-Owns :
    (type : SockType) (pending : Bool) (init : Err) (answer : Err × ℕ) (w : World)
    → Owns w
    → Owns (with_sockplat (λ w. opened type pending answer (drop_fd w)) (ensure_sockplat init w)).1
unfolding ensure_sockplat
reopen-Owns type pending init answer w o = choose w.sockplat_inited
  where
    go : World → Err × World
    go u = opened type pending answer (drop_fd u)

    took : (u : World) → Owns u → Owns (go u).1
    took u o' =
        let (owns, empty) = drop_fd-Owns u o' in
        if-Owns (is_ok answer.0) _ _
          (ap (λ l. l ++ (answer.1 ∷ []))
            (owns ∙ ap (λ d. (drop_fd u).closed ++ held d) empty ∙ append-nil _))
          owns

    choose :
        (b : Bool)
        → Owns
            (with_sockplat go
              (if b then (ok, w) else (init, record w { sockplat_inited = is_ok init }))).1
    choose true = took w o
    choose false = if-Owns (is_ok init) _ _ (took (record w { sockplat_inited = is_ok init }) o) o

attach_poller-Owns :
    (calloc_ok : Bool) (p : Option ℕ) (cb : Option Callbacks) (user : ℕ) (w : World)
    → Owns w
    → Owns (attach_poller calloc_ok p cb user w).1
unfolding attach_poller
attach_poller-Owns calloc_ok none cb user w o = o
attach_poller-Owns calloc_ok (some p) cb user w o =
    if-Owns (is_some w.sock.fd) _ _
      (if-Owns _ _ _ (detach_poller-Owns w o) (detach_poller-Owns w o)) o

Step-Owns : (w t : World) → Step w t → Owns w → Owns t
unfolding listen bind_udp_ex connect adopt mod_socket_events check_connect
Step-Owns w t (does_listen init answer new e) o =
    subst Owns (sym e) (reopen-Owns tcp_listen false init answer w o)
Step-Owns w t (does_bind_udp init answer new e) o =
    subst Owns (sym e) (reopen-Owns udp false init answer w o)
Step-Owns w t (does_connect init true answer pending new e) o =
    subst Owns (sym e)
      (reopen-Owns (if pending then tcp_client else tcp_connected) pending init answer w o)
Step-Owns w t (does_connect init false answer pending new e) o = subst Owns (sym e) o
Step-Owns w t (does_adopt init opts fd type new e) o =
    subst Owns (sym e) (reopen-Owns type false init (opts_for opts type, fd) w o)
Step-Owns w t (does_check_connect answer e) o = subst Owns (sym e) (checked w.sock.fd)
  where
    checked : (fd : Option ℕ) → Owns (check_at answer w fd).1
    checked none = o
    checked (some fd) = if-Owns (not w.sock.connect_pending) _ _ o (if-Owns (is_ok answer) _ _ o o)
Step-Owns w t (does_attach calloc_ok p cb user e) o =
    subst Owns (sym e) (attach_poller-Owns calloc_ok p cb user w o)
Step-Owns w t (does_detach e) o = subst Owns (sym e) (detach_poller-Owns w o)
Step-Owns w t (does_mod_events events e) o =
    subst Owns (sym e) (if-Owns w.sock.attached _ _ (there w.sock.poller) o)
  where
    there : (p : Option ℕ) → Owns (mod_at w events p).1
    there none = o
    there (some p) = o

Reach-Owns : {w t : World} → Owns w → Reach w t → Owns t
Reach-Owns o here = o
Reach-Owns o (next {t} {u} r st) = Step-Owns t u st (Reach-Owns o r)

-- A destroyed socket has closed every descriptor that listen, bind, connect and adopt ever put into
-- it exactly as often as it took it, in that order, and nothing else: no descriptor is leaked
-- and none is closed twice.
pub closed_once :
    (addr : ℕ) (pollers : ℕ → Poller) (inited : Bool) {t : World}
    → Reach (start addr pollers inited) t
    → (destroy t).closed ≡ t.taken
unfolding destroy
closed_once addr pollers inited {t} r =
    let (owns, empty) = drop_fd-Owns t (Reach-Owns refl r) in
    sym (append-nil (drop_fd t).closed)
    ∙ ap (λ d. (drop_fd t).closed ++ held d) (sym empty)
    ∙ sym owns
    ∙ drop_fd-taken t
