-- ===== src/Net/Socket/Settles.antt =====
-- src/net/socket.c: the event that ends a connection attempt.
use mathlib.Core.Path.{subst}
use zero_tool_kit.Prelude.{
  ℕ, ◌+◌, ◌≡◌, refl, sym, ap, ◌∙◌, ==_refl, Bool, true, false, not, ◌&&◌, ◌||◌, some, List, [], ◌∷◌,
  ◌++◌, if◌then◌else◌, arith,
}
use zero_tool_kit.Errno.{Err, ok, state}
use zero_tool_kit.Poller.Select.{has, poll_in, poll_err, poll_hup, mod_events}
use zero_tool_kit.Poller.Select.Registry.{lookup}
use zero_tool_kit.Net.Socket.{
  World, tcp_connected, is_ok, check_connect, check_at, mod_socket_events, mod_at,
  default_poll_events, socket_poller_cb, events_set,
}
use zero_tool_kit.Net.Socket.Tied.{Tied}
use zero_tool_kit.Net.Socket.Dispatch.{
  Called, writable, readable, call_if, data_calls, with_calls, settled, after_check, fd_is,
  dispatch, dispatch-Tied,
}

third_case {ℓ} :
    {A : Type ℓ} {a b c : Bool} (x y z u : A)
    → a ≡ false
    → b ≡ false
    → c ≡ true
    → (if a then x else if b then y else if c then z else u) ≡ z
third_case {a} {b} {c} x y z u at_a at_b at_c = rw (at_a, at_b, at_c) refl

module _ (fd events : ℕ) (w : World) where
  -- An event that is neither an error nor a hang-up but can be written to.
  pub record IsWritableEvent : Type 0 where
    pub ours : w.sock.fd ≡ some fd
    pub no_error : (has 4 events || has 8 events) ≡ false
    pub can_write : has 2 events ≡ true
    pub waiting : w.sock.connect_pending ≡ true

  checked :
      (answer : Err)
      → IsWritableEvent
      → dispatch fd events answer w ≡ after_check events (check_connect answer w)
  unfolding dispatch
  checked answer h =
      third_case _ _ _ _ (ap not (ap (fd_is fd) h.ours ∙ ==_refl fd)) h.no_error
        (ap (λ b. b && w.sock.connect_pending) h.can_write ∙ h.waiting)

  abbrev done : World
  done = record w { sock = record w.sock { connect_pending = false; type_of = tcp_connected } }

  connected : IsWritableEvent → check_connect ok w ≡ (ok, done)
  unfolding check_connect
  connected h =
      ap (check_at ok w) h.ours
      ∙ ap (λ b. if not b then (ok, w) else if is_ok ok then (ok, done) else (ok, w)) h.waiting

  settled_attached : w.sock.attached ≡ true → settled done ≡ (mod_at done 13 w.sock.poller).1
  unfolding mod_socket_events default_poll_events
  settled_attached on =
      ap (λ b. if b then (mod_socket_events 13 done).1 else done) on
      ∙ ap (λ b. (if b then mod_at done 13 w.sock.poller else (state, done)).1) on

  abbrev modified : ℕ → World
  modified p = (events_set done p 13 (mod_events (w.pollers p) w.sock.fd 13)).1

  abbrev pub IsWatched : World → ℕ → ℕ → Type 0
  IsWatched t q g =
      lookup (t.pollers q) g
      ≡ some (record { fd = g; events = 13; cb = socket_poller_cb; user = w.sock.addr })

  abbrev pub Settled : List Called × World → Type 0
  Settled (calls, t) =
      (calls
        ≡ (if w.sock.cb.on_writable then writable ∷ [] else [])
          ++ (if has 1 events && w.sock.cb.on_readable then readable ∷ [] else []))
      × (t.sock.connect_pending ≡ false)
      × (t.sock.type_of ≡ tcp_connected)
      × (p : ℕ) × (w.sock.poller ≡ some p)
      × (lookup (t.pollers p) fd
          ≡ some (record {
            fd = fd;
            events = poll_in + poll_err + poll_hup;
            cb = socket_poller_cb;
            user = w.sock.addr;
          }))

  -- When the platform says that a pending connection is there, the socket becomes a connected one,
  -- on_writable is called, if there is one, and after it on_readable, if there is one and the event
  -- says readable, and no other callback; and the poller no longer watches the descriptor for being
  -- writable.
  pub connect_settles :
      Tied w → w.sock.attached ≡ true → IsWritableEvent → Settled (dispatch fd events ok w)
  unfolding data_calls
  connect_settles v on h =
      let (p, f, at_p, at_f, there) = v.known on in
      let same : dispatch fd events ok w ≡ with_calls events (modified p) =
        checked ok h
        ∙ ap (after_check events) (connected h)
        ∙ ap (with_calls events) (settled_attached on ∙ ap (λ q. (mod_at done 13 q).1) at_p) in
      let tied : Tied (modified p) = subst (λ r. Tied r.1) same (dispatch-Tied fd events ok w v) in
      let (q, g, at_q, at_g, entry) = tied.known on in
      let eq : q ≡ p = cc in
      let eg : g ≡ fd = ground (arith, h.ours, at_g) in
      subst Settled (sym same) (
        ap
            (λ b.
              call_if (b && w.sock.cb.on_writable) writable
              ++ call_if (has 1 events && w.sock.cb.on_readable) readable)
            h.can_write,
        refl,
        refl,
        p,
        at_p,
        subst (IsWatched (modified p) p) eg (subst (λ q. IsWatched (modified p) q g) eq entry),
      )
