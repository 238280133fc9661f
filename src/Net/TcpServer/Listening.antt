-- ===== src/Net/TcpServer/Listening.antt =====
-- src/net/tcp_server.c: what start and stop leave in the pollers.
use zero_tool_kit.Prelude.{
  ℕ, ◌+◌, ◌≡◌, ◌≢◌, ◌⊎◌, inl, inr, refl, sym, ◌∙◌, ◌==◌, Bool, true, false, not, none, some, List,
  [], ◌∷◌, All, if◌then◌else◌, arith, Bool-cases,
}
use mathlib.Core.Path.{subst}
use zero_tool_kit.Errno.{Err}
use zero_tool_kit.Poller.Select.{Poller, add, del, poll_in, poll_err, poll_hup}
use zero_tool_kit.Poller.Select.Registry.{IsRegistry, lookup, add-IsRegistry, del-IsRegistry}
use zero_tool_kit.Net.Socket.{is_ok, at_poller}
use zero_tool_kit.Net.Socket.Attach.{add-wake_r}
use zero_tool_kit.Net.Socket.Tied.{del-wake_r}
use zero_tool_kit.Net.TcpServer.{
  Server, with_pollers, listen_attach_manager, bind_one, bind_all, unbind_all, mark,
  listen_on_readable,
}
use zero_tool_kit.Net.TcpServer.Agreement.{
  Agrees, Agrees-trans, at_poller-Agrees, add-others, del-others, del_gone,
}

-- A server's pollers agree, and its socket and pollers' names stay.
abbrev pub Kept : ℕ → Server → Server → Type 0
Kept fd s t =
    Agrees fd s.listen_world.pollers t.listen_world.pollers
    × (t.listen_world.sock.fd ≡ some fd)
    × (t.pollers ≡ s.pollers)

abbrev pub Holds : ℕ → Server → Type 0
Holds fd s = ((p : ℕ) → IsRegistry (s.listen_world.pollers p)) × (s.listen_world.sock.fd ≡ some fd)

unbind_one : ℕ → ℕ → Server → Server
unbind_one i p s =
    with_pollers (record s { manager_timers = mark s.manager_timers i false })
      (at_poller s.listen_world.pollers p (del (s.listen_world.pollers p) s.listen_world.sock.fd).1)

unbind_one-Kept : (fd i p : ℕ) (s : Server) → Holds fd s → Kept fd s (unbind_one i p s)
unfolding unbind_one
unbind_one-Kept fd i p s (valid, at_fd) = (
  subst
      (λ d.
        Agrees fd s.listen_world.pollers
          (at_poller s.listen_world.pollers p (del (s.listen_world.pollers p) d).1))
      (sym at_fd)
      (at_poller-Agrees fd s.listen_world.pollers p _ valid
        (del-IsRegistry (s.listen_world.pollers p) (some fd) (valid p))
        (del-wake_r (s.listen_world.pollers p) (some fd))
        (λ g ne. del-others (s.listen_world.pollers p) fd g (valid p) ne)),
  at_fd,
  refl,
)

-- The descriptor is not registered with a poller.
abbrev pub Gone : ℕ → Server → ℕ → Type 0
Gone fd s p = lookup (s.listen_world.pollers p) fd ≡ none

unbind_one-Gone :
    (fd i p q : ℕ) (s : Server)
    → Holds fd s
    → ((r : ℕ) → fd ≢ (s.listen_world.pollers r).wake_r)
    → (q ≡ p) ⊎ Gone fd s q
    → Gone fd (unbind_one i p s) q
unfolding unbind_one
unbind_one-Gone fd i p q s (valid, at_fd) new why = elim (Bool-cases (q == p)) [
  | inl same ↦ rw same (
      subst (λ d. lookup (del (s.listen_world.pollers p) d).1 fd ≡ none) (sym at_fd)
        (del_gone (s.listen_world.pollers p) fd (valid p) (new p)))
  | inr other ↦ rw other (elim why [ inl e ↦ absurd (ground arith) | inr gone ↦ gone ])
]

pub unbind_all-Kept :
    (fd i : ℕ) (ps : List ℕ) (s : Server)
    → Holds fd s
    → ((r : ℕ) → fd ≢ (s.listen_world.pollers r).wake_r)
    → Kept fd s (unbind_all i ps s)
      × All (Gone fd (unbind_all i ps s)) ps
      × ((q : ℕ) → Gone fd s q → Gone fd (unbind_all i ps s) q)
unfolding unbind_all unbind_one
unbind_all-Kept fd i [] s (valid, at_fd) new = (
  (record { in_order = valid; same_wake = λ p. refl; others = λ p g ne. refl }, at_fd, refl),
  tt,
  λ q h. h,
)
unbind_all-Kept fd i (p ∷ ps) s (valid, at_fd) new =
    let (agrees, at_fd', same) = unbind_one-Kept fd i p s (valid, at_fd) in
    let new' = λ (r : ℕ). λ (e : fd ≡ ((unbind_one i p s).listen_world.pollers r).wake_r).
      new r (e ∙ agrees.same_wake r) in
    let ((later, at_fd'', same'), all_gone, stay) =
      unbind_all-Kept fd (i + 1) ps (unbind_one i p s) (agrees.in_order, at_fd') new' in
    (
      (Agrees-trans agrees later, at_fd'', same' ∙ same),
      (stay p (unbind_one-Gone fd i p p s (valid, at_fd) new (inl refl)), all_gone),
      λ q h. stay q (unbind_one-Gone fd i p q s (valid, at_fd) new (inr h)),
    )

bind_one-Kept :
    (calloc_ok timer : ℕ → Bool) (fd i p : ℕ) (s : Server)
    → Holds fd s
    → Kept fd s (bind_one calloc_ok timer i p s).1
unfolding listen_attach_manager
bind_one-Kept calloc_ok timer fd i p s (valid, at_fd) = choose (is_ok answer.0)
  where
    answer : Err × Poller
    answer =
        add (calloc_ok i) (s.listen_world.pollers p) s.listen_world.sock.fd
          (poll_in + poll_err + poll_hup) listen_on_readable (s.bindings + i)

    there : Server
    there = with_pollers s (at_poller s.listen_world.pollers p answer.1)

    kept : Kept fd s there
    kept = (
      subst
          (λ d. Agrees fd s.listen_world.pollers (
            at_poller s.listen_world.pollers p
              (add (calloc_ok i) (s.listen_world.pollers p) d (poll_in + poll_err + poll_hup)
                listen_on_readable (s.bindings + i)).1))
          (sym at_fd)
          (at_poller-Agrees fd s.listen_world.pollers p _ valid
            (add-IsRegistry (calloc_ok i) (s.listen_world.pollers p) (some fd) 13 listen_on_readable
              (s.bindings + i) (valid p))
            (add-wake_r (calloc_ok i) (s.listen_world.pollers p) (some fd) 13 listen_on_readable
              (s.bindings + i))
            (λ g ne.
              add-others (calloc_ok i) (s.listen_world.pollers p) fd 13 listen_on_readable
                (s.bindings + i) g ne)),
      at_fd,
      refl,
    )

    if-Kept :
        (b : Bool) (x y : Err × Server)
        → Kept fd s x.1
        → Kept fd s y.1
        → Kept fd s (if b then x else y).1
    if-Kept true x y v u = v
    if-Kept false x y v u = u

    choose :
        (b : Bool)
        → Kept fd s (if b then listen_attach_manager (timer i) i there else (answer.0, there)).1
    choose true = if-Kept (not there.with_manager) _ _ kept (if-Kept (timer i) _ _ kept kept)
    choose false = kept

pub bind_all-Kept :
    (calloc_ok timer : ℕ → Bool) (fd i : ℕ) (ps : List ℕ) (s : Server)
    → Holds fd s
    → Kept fd s (bind_all calloc_ok timer i ps s).1
unfolding bind_all
bind_all-Kept calloc_ok timer fd i [] s (valid, at_fd) =
    (record { in_order = valid; same_wake = λ p. refl; others = λ p g ne. refl }, at_fd, refl)
bind_all-Kept calloc_ok timer fd i (p ∷ ps) s h =
    let (agrees, at_fd, same) = bind_one-Kept calloc_ok timer fd i p s h in
    let one = bind_one calloc_ok timer i p s in
    let (later, at_fd', same') =
      bind_all-Kept calloc_ok timer fd (i + 1) ps one.1 (agrees.in_order, at_fd) in
    elim (Bool-cases (is_ok one.0)) [
      | inl fine ↦
          subst (λ b. Kept fd s (if b then bind_all calloc_ok timer (i + 1) ps one.1 else one).1)
            (sym fine) (Agrees-trans agrees later, at_fd', same' ∙ same)
      | inr bad ↦
          subst (λ b. Kept fd s (if b then bind_all calloc_ok timer (i + 1) ps one.1 else one).1)
            (sym bad) (agrees, at_fd, same)
    ]
