-- ===== src/Net/Socket/Each.antt =====
-- src/net/socket.c: each call keeps the object and the pollers together.
use mathlib.Core.Path.{subst}
use zero_tool_kit.Prelude.{
  ℕ, ◌≡◌, inl, inr, refl, sym, ap, ◌∙◌, Bool, true, false, not, Option, none, some, if◌then◌else◌,
  arith, Bool-cases, Option-cases,
}
use zero_tool_kit.Errno.{
  Err, ok, nomem, invalid, io, timeout, again, not_impl, platform, state, buffer_too_small,
}
use zero_tool_kit.Poller.Select.{Poller, add, mod_events}
use zero_tool_kit.Poller.Select.Registry.{add-lookup}
use zero_tool_kit.Net.Socket.{
  Callbacks, World, at_poller, detach_poller, detach_from, socket_poller_cb, is_ok, check_connect,
  check_at, attach_poller, attach_fresh, no_callbacks, is_some, mod_at, mod_socket_events,
  default_poll_events,
}
use zero_tool_kit.Net.Socket.Tied.{
  IsTied, Tied, Detached, untied-IsTied, detach_poller-Tied, detach_poller_idle,
}
use zero_tool_kit.Net.Socket.Attach.{at_poller_same, added-IsTied, modified-IsTied}

is_ok-ok : (e : Err) → is_ok e ≡ true → e ≡ ok
is_ok-ok ok h = refl
is_ok-ok nomem h = absurd cc
is_ok-ok invalid h = absurd cc
is_ok-ok io h = absurd cc
is_ok-ok timeout h = absurd cc
is_ok-ok again h = absurd cc
is_ok-ok not_impl h = absurd cc
is_ok-ok platform h = absurd cc
is_ok-ok state h = absurd cc
is_ok-ok buffer_too_small h = absurd cc

-- A call of add that fails leaves the poller as it was.
add_failed :
    (calloc_ok : Bool) (p : Poller) (fd : Option ℕ) (events cb user : ℕ)
    → is_ok (add calloc_ok p fd events cb user).0 ≡ false
    → (add calloc_ok p fd events cb user).1 ≡ p
unfolding add
add_failed calloc_ok p none events cb user h = refl
add_failed calloc_ok p (some fd) events cb user h =
    elim (add-lookup calloc_ok p fd events cb user 0) [
      | inl (fine, why, new) ↦ absurd (ground arith)
      | inr (bad, refused, kept, gone) ↦ kept
    ]

attach_fresh-Tied :
    (calloc_ok : Bool) (p : ℕ) (cb : Callbacks) (user : ℕ) (w : World) (f : ℕ)
    → w.sock.fd ≡ some f
    → Detached w
    → Tied (attach_fresh calloc_ok p cb user w).1
attach_fresh-Tied calloc_ok p cb user w f at_f (v, off) = elim (Bool-cases (is_ok answer.0)) [
  | inl fine ↦
      subst (λ b. Tied (done b).1) (sym fine)
        (subst Added (sym at_f) (added-IsTied calloc_ok p f events fresh) (is_ok-ok answer.0 fine))
  | inr bad ↦
      subst (λ b. Tied (done b).1) (sym bad)
        (subst (λ m. IsTied m w.sock.addr w.sock.fd (some p) w.sock.attached events)
          (sym (
            at_poller_same w.pollers p answer.1 (
              add_failed calloc_ok (w.pollers p) w.sock.fd events socket_poller_cb w.sock.addr
                bad)))
          (untied-IsTied w.sock.fd (some p) events v.not_wake off v))
]
  where
    events : ℕ
    events = default_poll_events w.sock

    answer : Err × Poller
    answer = add calloc_ok (w.pollers p) w.sock.fd events socket_poller_cb w.sock.addr

    there : World
    there = record w {
      pollers = at_poller w.pollers p answer.1;
      sock = record w.sock { cb = cb; user = user; poller = some p; poll_events = events };
    }

    done : Bool → Err × World
    done b =
        if b
        then (ok, record there { sock = record there.sock { attached = true } })
        else (answer.0, there)

    fresh : IsTied w.pollers w.sock.addr (some f) w.sock.poller false w.sock.poll_events
    fresh =
        subst (λ b. IsTied w.pollers w.sock.addr (some f) w.sock.poller b w.sock.poll_events) off
          (subst
            (λ d. IsTied w.pollers w.sock.addr d w.sock.poller w.sock.attached w.sock.poll_events)
            at_f v)

    Added : Option ℕ → Type 0
    Added d =
        (add calloc_ok (w.pollers p) d events socket_poller_cb w.sock.addr).0 ≡ ok
        → IsTied
            (at_poller w.pollers p
              (add calloc_ok (w.pollers p) d events socket_poller_cb w.sock.addr).1)
            w.sock.addr d (some p) true events

detach_poller-fd : (w : World) → (detach_poller w).sock.fd ≡ w.sock.fd
unfolding detach_poller
detach_poller-fd w = elim (Bool-cases w.sock.attached) [
  | inl on ↦
      ap (λ b. (if b then detach_from w w.sock.poller w.sock.fd else w).sock.fd) on
      ∙ kept w.sock.poller w.sock.fd
  | inr off ↦ ap (λ u. u.sock.fd) (detach_poller_idle w off)
]
  where
    kept : (p fd : Option ℕ) → (detach_from w p fd).sock.fd ≡ w.sock.fd
    kept none fd = refl
    kept (some p) none = refl
    kept (some p) (some fd) = refl

pub attach_poller-Tied :
    (calloc_ok : Bool) (p : Option ℕ) (cb : Option Callbacks) (user : ℕ) (w : World)
    → Tied w
    → Tied (attach_poller calloc_ok p cb user w).1
unfolding attach_poller
attach_poller-Tied calloc_ok none cb user w v = v
attach_poller-Tied calloc_ok (some p) cb user w v = elim (Option-cases w.sock.fd) [
  | inl closed ↦
      subst
        (λ d.
          Tied
            (if is_some d
              then attach_fresh calloc_ok p c user (detach_poller w)
              else (invalid, w)).1)
        (sym closed) v
  | inr (f, at_f) ↦
      subst
        (λ d.
          Tied
            (if is_some d
              then attach_fresh calloc_ok p c user (detach_poller w)
              else (invalid, w)).1)
        (sym at_f)
        (attach_fresh-Tied calloc_ok p c user (detach_poller w) f (detach_poller-fd w ∙ at_f)
          (detach_poller-Tied w v))
]
  where
    c : Callbacks
    c = elim cb [ none ↦ no_callbacks | some given ↦ given ]

pub mod_socket_events-Tied : (events : ℕ) (w : World) → Tied w → Tied (mod_socket_events events w).1
unfolding mod_socket_events
mod_socket_events-Tied events w v = elim (Bool-cases w.sock.attached) [
  | inl on ↦
      let (p, f, at_p, at_f, there) = v.known on in
      subst (λ b. Tied (if b then mod_at w events w.sock.poller else (state, w)).1) (sym on)
        (subst (λ q. Tied (mod_at w events q).1) (sym at_p)
          (subst
            (λ d.
              IsTied (at_poller w.pollers p (mod_events (w.pollers p) d events).1) w.sock.addr
                w.sock.fd w.sock.poller w.sock.attached events)
            (sym at_f) (modified-IsTied p f events v at_p at_f there)))
  | inr off ↦
      subst (λ b. Tied (if b then mod_at w events w.sock.poller else (state, w)).1) (sym off) v
]

if-Tied : (b : Bool) (x y : Err × World) → Tied x.1 → Tied y.1 → Tied (if b then x else y).1
if-Tied true x y v u = v
if-Tied false x y v u = u

pub check_connect-Tied : (answer : Err) (w : World) → Tied w → Tied (check_connect answer w).1
unfolding check_connect
check_connect-Tied answer w v = check_at-Tied w.sock.fd
  where
    check_at-Tied : (fd : Option ℕ) → Tied (check_at answer w fd).1
    check_at-Tied none = v
    check_at-Tied (some fd) =
        if-Tied (not w.sock.connect_pending) _ _ v (if-Tied (is_ok answer) _ _ v v)
