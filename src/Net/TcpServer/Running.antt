-- ===== src/Net/TcpServer/Running.antt =====
-- src/net/tcp_server.c: a server that is started and then stopped.
use zero_tool_kit.Prelude.{
  ℕ, ◌≡◌, ◌≢◌, refl, sym, ap, ◌∙◌, Bool, true, false, none, some, All, if◌then◌else◌, ◌==◌,
}
use mathlib.Core.Path.{subst}
use zero_tool_kit.Errno.{Err, ok, state}
use zero_tool_kit.Poller.Select.Registry.{IsRegistry}
use zero_tool_kit.Net.Socket.{
  World, is_ok, listen, close_fd, close_at, drop_fd, with_sockplat, opened, ensure_sockplat,
  tcp_listen, hold,
}
use zero_tool_kit.Net.Socket.Tied.{IsNew, detach_poller_idle}
use zero_tool_kit.Net.TcpServer.{Server, bind_all, unbind_all, stop, bound, listening, start_server}
use zero_tool_kit.Net.TcpServer.Agreement.{Agrees, Agrees-trans}
use zero_tool_kit.Net.TcpServer.Listening.{Gone, Kept, bind_all-Kept, unbind_all-Kept}

-- What listening does to a socket that is on no poller and has no descriptor.
abbrev Opens : ℕ → World → Err × World → Type 0
Opens fd w (err, t) = is_ok err ≡ true → (t.pollers ≡ w.pollers) × (t.sock.fd ≡ some fd)

drop_fresh : (w : World) → w.sock.attached ≡ false → w.sock.fd ≡ none → drop_fd w ≡ w
unfolding close_fd
drop_fresh w off empty =
    ap (λ u. close_at u u.sock.fd) (detach_poller_idle w off) ∙ ap (close_at w) empty

if-Opens :
    (fd : ℕ) (w : World) (b : Bool) (x y : Err × World)
    → Opens fd w x
    → Opens fd w y
    → Opens fd w (if b then x else y)
if-Opens fd w true x y v u = v
if-Opens fd w false x y v u = u

listen-Opens :
    (init : Err) (answer : Err × ℕ) (w : World)
    → w.sock.attached ≡ false
    → w.sock.fd ≡ none
    → Opens answer.1 w (listen init answer w)
unfolding listen ensure_sockplat
listen-Opens init answer w off empty = choose w.sockplat_inited
  where
    go : World → Err × World
    go u = opened tcp_listen false answer (drop_fd u)

    went :
        (u : World)
        → u.pollers ≡ w.pollers
        → u.sock.attached ≡ false
        → u.sock.fd ≡ none
        → Opens answer.1 w (go u)
    went u same off' empty' =
        subst (λ t. Opens answer.1 w (opened tcp_listen false answer t))
          (sym (drop_fresh u off' empty')) (chosen (is_ok answer.0) refl)
      where
        chosen :
            (b : Bool)
            → is_ok answer.0 ≡ b
            → Opens answer.1 w (if b then (ok, hold answer.1 tcp_listen false u) else (answer.0, u))
        chosen true e = λ h. (same, refl)
        chosen false e = λ h. absurd cc

    choose :
        (b : Bool)
        → Opens answer.1 w (
            with_sockplat go
              (if b then (ok, w) else (init, record w { sockplat_inited = is_ok init })))
    choose true = went w refl off empty
    choose false =
        if-Opens answer.1 w (is_ok init) _ _
          (went (record w { sockplat_inited = is_ok init }) refl off empty) (λ h. absurd cc)

bound_ok :
    (r : Err × Server) → is_ok (bound r).0 ≡ true → bound r ≡ (ok, record r.1 { started = true })
bound_ok (err, s) h = go (is_ok err) refl h
  where
    pick : Bool → Err × Server
    pick b = if b then (ok, record s { started = true }) else (err, stop s)

    go :
        (b : Bool)
        → is_ok err ≡ b
        → is_ok (pick b).0 ≡ true
        → pick b ≡ (ok, record s { started = true })
    go true e h' = refl
    go false e h' = absurd cc

-- A start that succeeds has listened, and has put an entry for every poller.
listening_ok :
    (calloc_ok timer : ℕ → Bool) (local : ℕ) (s : Server) (r : Err × World)
    → is_ok (listening calloc_ok timer local s r).0 ≡ true
    → (is_ok r.0 ≡ true)
      × (listening calloc_ok timer local s r ≡ (
        ok,
        record (bind_all calloc_ok timer 0 s.pollers
            (record s { listen_world = r.1; port = if local == 0 then s.port else local })).1 {
              started = true;
            },
      ))
listening_ok calloc_ok timer local s (err, w) h = go (is_ok err) refl h
  where
    all : Err × Server
    all =
        bind_all calloc_ok timer 0 s.pollers
          (record s { listen_world = w; port = if local == 0 then s.port else local })

    pick : Bool → Err × Server
    pick b = if b then bound all else (err, record s { listen_world = w })

    go :
        (b : Bool)
        → is_ok err ≡ b
        → is_ok (pick b).0 ≡ true
        → (is_ok err ≡ true) × (pick b ≡ (ok, record all.1 { started = true }))
    go true e h' = (e, bound_ok all h')
    go false e h' = absurd cc

-- After a stop: no entry for the listening descriptor, and all others as before.
abbrev pub Stopped : ℕ → Server → Server → Type 0
Stopped fd s t =
    (t.started ≡ true)
    × (t.pollers ≡ s.pollers)
    × ((stop t).started ≡ false)
    × Agrees fd s.listen_world.pollers (stop t).listen_world.pollers
    × All (Gone fd (stop t)) s.pollers

-- The stop of a server that is bound to its pollers.
stop-Stopped :
    (fd : ℕ) (s t : Server)
    → t.started ≡ true
    → Kept fd s t
    → ((p : ℕ) → fd ≢ (s.listen_world.pollers p).wake_r)
    → Stopped fd s t
unfolding stop
stop-Stopped fd s t running (agrees, at_fd, same) new =
    let ((later, at_fd', same'), gone, stay) =
      unbind_all-Kept fd 0 t.pollers t (agrees.in_order, at_fd)
        (λ r e. new r (e ∙ agrees.same_wake r)) in
    (
      running,
      same,
      ap (λ b. (if b then stopped else t).started) running,
      subst (λ u. Agrees fd s.listen_world.pollers u.listen_world.pollers) (sym stops)
          (Agrees-trans agrees later),
      subst (λ l. All (Gone fd (stop t)) l) same
          (subst (λ u. All (Gone fd u) t.pollers) (sym stops) gone),
    )
  where
    stopped : Server
    stopped = record (unbind_all 0 t.pollers t) { started = false }

    stops : stop t ≡ stopped
    stops = ap (λ b. if b then stopped else t) running

-- A server that was started, whose listening socket was new, and is stopped again leaves no entry for
-- the listening descriptor with any of its pollers, and all other entries of all pollers as they were.
pub start_stop :
    (calloc_ok timer : ℕ → Bool) (init : Err) (answer : Err × ℕ) (local : ℕ) (s : Server)
    → s.started ≡ false
    → s.listen_world.sock.attached ≡ false
    → s.listen_world.sock.fd ≡ none
    → ((p : ℕ) → IsRegistry (s.listen_world.pollers p))
    → IsNew s.listen_world answer.1
    → is_ok (start_server calloc_ok timer init answer local s).0 ≡ true
    → Stopped answer.1 s (start_server calloc_ok timer init answer local s).1
unfolding start_server
start_stop calloc_ok timer init answer local s idle off empty valid new fine =
    let r = listen init answer s.listen_world in
    let begun = ap (λ b. if b then (state, s) else listening calloc_ok timer local s r) idle in
    let (heard, done) =
      listening_ok calloc_ok timer local s r (subst (λ x. is_ok x.0 ≡ true) begun fine) in
    let (same, at_fd) = listen-Opens init answer s.listen_world off empty heard in
    let ready : Server = record s {
      listen_world = r.1;
      port = if local == 0 then s.port else local;
    } in
    let (agrees, at_fd', names) =
      bind_all-Kept calloc_ok timer answer.1 0 s.pollers ready
        (λ p. subst (λ f. IsRegistry (f p)) (sym same) (valid p), at_fd) in
    subst (λ x. Stopped answer.1 s x.1) (sym (begun ∙ done))
      (stop-Stopped answer.1 s
        (record (bind_all calloc_ok timer 0 s.pollers ready).1 { started = true }) refl
        (
          subst
              (λ f.
                Agrees answer.1 f
                  (bind_all calloc_ok timer 0 s.pollers ready).1.listen_world.pollers)
              same agrees,
          at_fd',
          names,
        )
        new)
