-- ===== src/Net/Socket/Dispatch.antt =====
-- src/net/socket.c: `socket_poller_cb`, which callbacks an event makes. The callbacks are listed,
-- not run: the model takes it that they leave this socket alone.
use zero_tool_kit.Prelude.{
  ℕ, ◌≡◌, refl, ◌∙◌, ◌==◌, Bool, true, false, not, ◌&&◌, ◌||◌, Option, none, some, List, [], ◌∷◌,
  ◌++◌, if◌then◌else◌,
}
use zero_tool_kit.Errno.{Err}
use zero_tool_kit.Poller.Select.{has, poll_in, poll_out, poll_err, poll_hup}
use zero_tool_kit.Net.Socket.{
  Socket, World, tcp_connected, is_ok, check_connect, check_at, mod_socket_events, mod_at,
  default_poll_events,
}
use zero_tool_kit.Net.Socket.Tied.{Tied}
use zero_tool_kit.Net.Socket.Each.{mod_socket_events-Tied, check_connect-Tied}

-- A callback that is called.
pub data Called : Type 0 where
  readable writable error : Called

abbrev pub call_if : Bool → Called → List Called
call_if there c = if there then c ∷ [] else []

-- The end of the function, for events without an error.
unfoldable pub data_calls : ℕ → Socket → List Called
data_calls events s =
    call_if (has poll_out events && s.cb.on_writable) writable
    ++ call_if (has poll_in events && s.cb.on_readable) readable

abbrev pub with_calls : ℕ → World → List Called × World
with_calls events w = (data_calls events w.sock, w)

-- The connection is there: the socket no longer waits to be writable.
abbrev pub settled : World → World
settled w =
    let done = record w {
      sock = record w.sock { connect_pending = false; type_of = tcp_connected };
    } in
    if done.sock.attached then (mod_socket_events (default_poll_events done.sock) done).1 else done

abbrev pub after_check : ℕ → Err × World → List Called × World
after_check events (err, w) =
    if is_ok err
    then with_calls events (settled w)
    else if w.sock.cb.on_error
    then (error ∷ [], w)
    else with_calls events w

abbrev pub fd_is : ℕ → Option ℕ → Bool
fd_is fd none = false
fd_is fd (some g) = g == fd

-- `answer` is the platform's to `ztk_sockplat_check_connect` if it is asked.
unfoldable pub dispatch : ℕ → ℕ → Err → World → List Called × World
dispatch fd events answer w =
    if not (fd_is fd w.sock.fd)
    then ([], w)
    else if has poll_err events || has poll_hup events
    then (call_if w.sock.cb.on_error error, w)
    else if has poll_out events && w.sock.connect_pending
    then after_check events (check_connect answer w)
    else with_calls events w

if-Tied : (b : Bool) (x y : List Called × World) → Tied x.1 → Tied y.1 → Tied (if b then x else y).1
if-Tied true x y v u = v
if-Tied false x y v u = u

settled-Tied : (w : World) → Tied w → Tied (settled w)
settled-Tied w v = choose w.sock.attached
  where
    done : World
    done = record w { sock = record w.sock { connect_pending = false; type_of = tcp_connected } }

    choose :
        (b : Bool)
        → Tied (if b then (mod_socket_events (default_poll_events done.sock) done).1 else done)
    choose true = mod_socket_events-Tied (default_poll_events done.sock) done v
    choose false = v

-- Handling an event keeps the object and its entry together.
pub dispatch-Tied :
    (fd events : ℕ) (answer : Err) (w : World) → Tied w → Tied (dispatch fd events answer w).1
unfolding dispatch
dispatch-Tied fd events answer w v = if-Tied (not (fd_is fd w.sock.fd)) _ _ v (
    if-Tied (has poll_err events || has poll_hup events) _ _ v (
      if-Tied (has poll_out events && w.sock.connect_pending) _ _
        (if-Tied (is_ok (check_connect answer w).0) _ _
          (settled-Tied (check_connect answer w).1 (check_connect-Tied answer w v))
          (if-Tied (check_connect answer w).1.sock.cb.on_error _ _ (check_connect-Tied answer w v)
            (check_connect-Tied answer w v)))
        v))

-- Handling an event neither attaches nor detaches.
abbrev Stays {ℓ} : {A : Type ℓ} → World → A × World → Type 0
Stays w (x, t) = t.sock.attached ≡ w.sock.attached

if-Stays {ℓ} :
    {A : Type ℓ} (w : World) (b : Bool) (x y : A × World)
    → Stays w x
    → Stays w y
    → Stays w (if b then x else y)
if-Stays w true x y v u = v
if-Stays w false x y v u = u

mod_socket_events-Stays : (events : ℕ) (w : World) → Stays w (mod_socket_events events w)
unfolding mod_socket_events
mod_socket_events-Stays events w = if-Stays w w.sock.attached _ _ (there w.sock.poller) refl
  where
    there : (p : Option ℕ) → Stays w (mod_at w events p)
    there none = refl
    there (some p) = refl

check_connect-Stays : (answer : Err) (w : World) → Stays w (check_connect answer w)
unfolding check_connect
check_connect-Stays answer w = at w.sock.fd
  where
    at : (fd : Option ℕ) → Stays w (check_at answer w fd)
    at none = refl
    at (some fd) =
        if-Stays w (not w.sock.connect_pending) _ _ refl (if-Stays w (is_ok answer) _ _ refl refl)

settled_attached : (w : World) → (settled w).sock.attached ≡ w.sock.attached
settled_attached w = choose w.sock.attached
  where
    done : World
    done = record w { sock = record w.sock { connect_pending = false; type_of = tcp_connected } }

    choose :
        (b : Bool)
        → (if b
            then (mod_socket_events (default_poll_events done.sock) done).1
            else done).sock.attached
          ≡ w.sock.attached
    choose true = mod_socket_events-Stays (default_poll_events done.sock) done
    choose false = refl

pub dispatch_attached :
    (fd events : ℕ) (answer : Err) (w : World)
    → (dispatch fd events answer w).1.sock.attached ≡ w.sock.attached
unfolding dispatch
dispatch_attached fd events answer w = if-Stays w (not (fd_is fd w.sock.fd)) _ _ refl (
    if-Stays w (has poll_err events || has poll_hup events) _ _ refl (
      if-Stays w (has poll_out events && w.sock.connect_pending) _ _
        (if-Stays w (is_ok (check_connect answer w).0) _ _
          (settled_attached (check_connect answer w).1 ∙ check_connect-Stays answer w)
          (if-Stays w (check_connect answer w).1.sock.cb.on_error _ _ (check_connect-Stays answer w)
            (check_connect-Stays answer w)))
        refl))
