-- ===== src/Net/UdpClient/Started.antt =====
-- src/net/udp_client.c: a client that was started with a peer.
use zero_tool_kit.Prelude.{
  ℕ, ◌≡◌, refl, ap, ◌∙◌, Bool, true, false, Option, none, some, List, ◌∷◌, take, if◌then◌else◌,
}
use zero_tool_kit.Errno.{Err, ok, invalid, platform, state}
use zero_tool_kit.Net.Socket.{
  World, is_ok, udp, bind_udp_ex, attach_poller, attach_fresh, detach_poller, drop_fd, opened, hold,
  with_sockplat, ensure_sockplat, is_some, detach_from,
}
use zero_tool_kit.Net.Socket.Guards.{Moved, refused, is_udp, sendto}
use zero_tool_kit.Net.UdpClient.{
  UdpClient, bind_and_attach, bound_udp, attached_udp, udp_callbacks, start, with_peer, set_peer,
  send, sendto_peer, status_of,
}

-- The socket of a world holds a descriptor for datagrams.
abbrev pub IsBound : ℕ → World → Type 0
IsBound fd w = (w.sock.fd ≡ some fd) × (w.sock.type_of ≡ udp)

abbrev WhenOk : (World → Type 0) → Err × World → Type 0
WhenOk P (err, w) = is_ok err ≡ true → P w

if-WhenOk :
    (P : World → Type 0) (b : Bool) (x y : Err × World)
    → WhenOk P x
    → WhenOk P y
    → WhenOk P (if b then x else y)
if-WhenOk P true x y v u = v
if-WhenOk P false x y v u = u

chosen :
    (P : World → Type 0) (err : Err) (x : World) (y : World)
    → P x
    → WhenOk P (if is_ok err then (ok, x) else (err, y))
chosen P err x y p = go (is_ok err) refl
  where
    go : (b : Bool) → is_ok err ≡ b → WhenOk P (if b then (ok, x) else (err, y))
    go true e = λ h. p
    go false e = λ h. absurd cc

bind_udp_ex-IsBound :
    (init : Err) (answer : Err × ℕ) (w : World)
    → WhenOk (IsBound answer.1) (bind_udp_ex init answer w)
unfolding bind_udp_ex
bind_udp_ex-IsBound init answer w = choose (ensure_sockplat init w)
  where
    go : World → Err × World
    go u = opened udp false answer (drop_fd u)

    went : (u : World) → WhenOk (IsBound answer.1) (go u)
    went u =
        chosen (IsBound answer.1) answer.0 (hold answer.1 udp false (drop_fd u)) (drop_fd u)
          (refl, refl)

    choose : (r : Err × World) → WhenOk (IsBound answer.1) (with_sockplat go r)
    choose (err, u) =
        if-WhenOk (IsBound answer.1) (is_ok err) (go u) (platform, u) (went u) (λ h. absurd cc)

detach_poller-IsBound : (fd : ℕ) (w : World) → IsBound fd w → IsBound fd (detach_poller w)
unfolding detach_poller
detach_poller-IsBound fd w bound = choose w.sock.attached
  where
    from : (p g : Option ℕ) → IsBound fd (detach_from w p g)
    from none g = bound
    from (some p) none = bound
    from (some p) (some g) = bound

    choose : (b : Bool) → IsBound fd (if b then detach_from w w.sock.poller w.sock.fd else w)
    choose true = from w.sock.poller w.sock.fd
    choose false = bound

attach_poller-IsBound :
    (fd : ℕ) (calloc_ok : Bool) (p : ℕ) (self : ℕ) (w : World)
    → IsBound fd w
    → IsBound fd (attach_poller calloc_ok (some p) (some udp_callbacks) self w).1
unfolding attach_poller
attach_poller-IsBound fd calloc_ok p self w bound = choose (is_some w.sock.fd)
  where
    there : Err × World
    there = attach_fresh calloc_ok p udp_callbacks self (detach_poller w)

    either :
        (b : Bool) (x y : Err × World)
        → IsBound fd x.1
        → IsBound fd y.1
        → IsBound fd (if b then x else y).1
    either true x y v u = v
    either false x y v u = u

    choose : (b : Bool) → IsBound fd (if b then there else (invalid, w)).1
    choose true = either _ _ _ (detach_poller-IsBound fd w bound) (detach_poller-IsBound fd w bound)
    choose false = bound

-- What a client is once it is bound.
abbrev IsReady : ℕ → Err × UdpClient → Type 0
IsReady fd (err, c) = is_ok err ≡ true → IsBound fd c.world × (c.started ≡ true)

bind_and_attach-IsReady :
    (init : Err) (answer : Err × ℕ) (calloc_ok : Bool) (self : ℕ) (c : UdpClient)
    → IsReady answer.1 (bind_and_attach init answer calloc_ok self c)
unfolding bind_and_attach
bind_and_attach-IsReady init answer calloc_ok self c =
    choose (bind_udp_ex init answer (if c.started then detach_poller c.world else c.world))
      (bind_udp_ex-IsBound init answer (if c.started then detach_poller c.world else c.world))
  where
    attached : (r : Err × World) → IsBound answer.1 r.1 → IsReady answer.1 (attached_udp c r)
    attached (err, w) bound = go (is_ok err) refl
      where
        go :
            (b : Bool)
            → is_ok err ≡ b
            → IsReady answer.1 (
                if b
                then (ok, record c { world = w; started = true })
                else (err, record c { world = w }))
        go true e = λ h. (bound, refl)
        go false e = λ h. absurd cc

    choose :
        (r : Err × World)
        → WhenOk (IsBound answer.1) r
        → IsReady answer.1 (bound_udp calloc_ok self c r)
    choose (err, w) bound = go (is_ok err) refl
      where
        go :
            (b : Bool)
            → is_ok err ≡ b
            → IsReady answer.1 (
                if b
                then attached_udp c
                    (attach_poller calloc_ok (some c.poller) (some udp_callbacks) self w)
                else (err, record c { world = w }))
        go true e = attached _ (attach_poller-IsBound answer.1 calloc_ok c.poller self w (bound e))
        go false e = λ h. absurd cc

-- After a start that succeeded with a host that is not empty, a send hands the message to the
-- platform with the descriptor that was bound, the first 63 characters of the host and the port,
-- and answers ZTK_OK or the platform's error.
pub start-send :
    (sys : Option ℕ → List ℕ → List ℕ → ℕ → Moved) (init : Err) (answer : Err × ℕ)
    (calloc_ok : Bool) (self x port : ℕ) (host msg : List ℕ) (c : UdpClient)
    → is_ok (start init answer calloc_ok self (some (x ∷ host)) port c).0 ≡ true
    → send sys (start init answer calloc_ok self (some (x ∷ host)) port c).1 msg
      ≡ status_of (sys (some answer.1) msg (take 63 (x ∷ host)) port)
unfolding start send sendto_peer set_peer sendto
start-send sys init answer calloc_ok self x port host msg c =
    choose (bind_and_attach init answer calloc_ok self c)
      (bind_and_attach-IsReady init answer calloc_ok self c)
  where
    sends :
        (d : UdpClient)
        → IsBound answer.1 d.world × (d.started ≡ true)
        → send sys (set_peer (some (x ∷ host)) port d) msg
          ≡ status_of (sys (some answer.1) msg (take 63 (x ∷ host)) port)
    sends d ((at_fd, type), on) =
        ap
          (λ b.
            if b
            then status_of (sendto (λ fd m. sys fd m (take 63 (x ∷ host)) port) d.world.sock msg)
            else state)
          on
        ∙ ap
            (λ t. status_of (
              if is_udp t
              then sys d.world.sock.fd msg (take 63 (x ∷ host)) port
              else refused invalid))
            type
        ∙ ap (λ fd. status_of (sys fd msg (take 63 (x ∷ host)) port)) at_fd

    choose :
        (r : Err × UdpClient)
        → IsReady answer.1 r
        → is_ok (with_peer (x ∷ host) port r).0 ≡ true
        → send sys (with_peer (x ∷ host) port r).1 msg
          ≡ status_of (sys (some answer.1) msg (take 63 (x ∷ host)) port)
    choose (err, d) ready = go (is_ok err) refl
      where
        pick : Bool → Err × UdpClient
        pick b = if b then (ok, set_peer (some (x ∷ host)) port d) else (err, d)

        go :
            (b : Bool)
            → is_ok err ≡ b
            → is_ok (pick b).0 ≡ true
            → send sys (pick b).1 msg
              ≡ status_of (sys (some answer.1) msg (take 63 (x ∷ host)) port)
        go true e h = sends d (ready e)
        go false e h = absurd cc
