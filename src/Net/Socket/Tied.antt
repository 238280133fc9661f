-- ===== src/Net/Socket/Tied.antt =====
-- src/net/socket.c: a socket object and the pollers' entries that point to it.
use mathlib.Core.Path.{subst}
use zero_tool_kit.Prelude.{
  ℕ, ◌==◌, ◌≡◌, ◌≢◌, inl, inr, refl, sym, ap, ap₂, ◌∙◌, Bool, true, false, Option, none, some,
  if◌then◌else◌, arith, Bool-cases,
}
use zero_tool_kit.Errno.{Err, ok, platform}
use zero_tool_kit.Poller.Select.{Entry, Poller, del}
use zero_tool_kit.Poller.Select.Registry.{IsRegistry, lookup, del-lookup, del-IsRegistry}
use zero_tool_kit.Net.Socket.{
  SockType, World, at_poller, detach_poller, detach_from, close_fd, close_at, drop_fd,
  socket_poller_cb, ensure_sockplat, with_sockplat, opened, is_ok,
}

-- The pollers' entries that name the object at `addr` as their user are those that the object
-- knows of: one while it is attached, for its descriptor and with its events, and none otherwise.
pub record IsTied (pollers : ℕ → Poller) (addr : ℕ) (fd poller : Option ℕ) (attached : Bool)
    (events : ℕ) : Type 0 where
  pub registries : (p : ℕ) → IsRegistry (pollers p)
  pub not_wake : (p f : ℕ) → fd ≡ some f → f ≢ (pollers p).wake_r
  pub known :
      attached ≡ true
      → (p : ℕ) × (f : ℕ) × (poller ≡ some p)
        × (fd ≡ some f)
        × (lookup (pollers p) f
            ≡ some (record { fd = f; events = events; cb = socket_poller_cb; user = addr }))
  pub only :
      (p g : ℕ) {e : Entry}
      → lookup (pollers p) g ≡ some e
      → e.user ≡ addr
      → (attached ≡ true) × (poller ≡ some p) × (fd ≡ some g)

abbrev pub Tied : World → Type 0
Tied w = IsTied w.pollers w.sock.addr w.sock.fd w.sock.poller w.sock.attached w.sock.poll_events

-- A descriptor that the platform hands out is not one that is open, such as a wake pipe's.
abbrev pub IsNew : World → ℕ → Type 0
IsNew w fd = (p : ℕ) → fd ≢ (w.pollers p).wake_r

abbrev pub Detached : World → Type 0
Detached w = Tied w × (w.sock.attached ≡ false)

-- A detached object may take any new descriptor.
pub untied-IsTied :
    {pollers : ℕ → Poller} {addr events : ℕ} {fd poller : Option ℕ} {attached : Bool}
    (fd' poller' : Option ℕ) (events' : ℕ)
    → ((p f : ℕ) → fd' ≡ some f → f ≢ (pollers p).wake_r)
    → attached ≡ false
    → IsTied pollers addr fd poller attached events
    → IsTied pollers addr fd' poller' attached events'
untied-IsTied fd' poller' events' new off v = record {
  registries = v.registries;
  not_wake = new;
  known = λ h. absurd cc;
  only = λ p g {e} there mine. let (bad, a, b) = v.only p g {e = e} there mine in absurd cc;
}

pub del-wake_r : (p : Poller) (fd : Option ℕ) → (del p fd).1.wake_r ≡ p.wake_r
unfolding del
del-wake_r p none = refl
del-wake_r p (some fd) = ground arith

-- After the deletion no entry names the object.
detach_from_gone :
    (w : World) (p f q g : ℕ) {e : Entry}
    → w.sock.poller ≡ some p
    → w.sock.fd ≡ some f
    → Tied w
    → lookup (at_poller w.pollers p (del (w.pollers p) (some f)).1 q) g ≡ some e
    → e.user ≢ w.sock.addr
detach_from_gone w p f q g {e} at_p at_f v there mine = elim (Bool-cases (q == p)) [
  | inl same ↦
      let here : lookup (del (w.pollers p) (some f)).1 g ≡ some e =
        subst (λ b. lookup (if b then (del (w.pollers p) (some f)).1 else w.pollers q) g ≡ some e)
          same there in
      elim (del-lookup (w.pollers p) f g (v.registries p)) [
        | inl (fine, other, was, now) ↦ elim (Bool-cases (g == f)) [
          | inl self ↦ absurd (ground arith)
          | inr apart ↦
              let (on, a, b) = v.only p g {e = e} (ground arith) mine in absurd (ground arith)
        ]
        | inr (bad, unchanged, why) ↦
            let (on, a, b) =
              v.only p g {e = e} (ap (λ r. lookup r g) (sym unchanged) ∙ here) mine in
            let alike : f ≡ g = ground arith in
            elim why [
              | inl wake ↦ absurd (v.not_wake p f at_f wake)
              | inr gone ↦ absurd (ground arith)
            ]
      ]
  | inr other ↦
      let here : lookup (w.pollers q) g ≡ some e =
        subst (λ b. lookup (if b then (del (w.pollers p) (some f)).1 else w.pollers q) g ≡ some e)
          other there in
      let (on, a, b) = v.only q g {e = e} here mine in absurd (ground arith)
]

detach_from-Tied :
    (w : World) (p f : ℕ)
    → w.sock.poller ≡ some p
    → w.sock.fd ≡ some f
    → Tied w
    → Tied (detach_from w (some p) (some f))
detach_from-Tied w p f at_p at_f v = record {
  registries = λ q. elim (Bool-cases (q == p)) [
    | inl same ↦ rw same (del-IsRegistry (w.pollers p) (some f) (v.registries p))
    | inr other ↦ rw other (v.registries q)
  ];
  not_wake = λ q g h. elim (Bool-cases (q == p)) [
    | inl same ↦ rw (same, del-wake_r (w.pollers p) (some f)) (v.not_wake p g h)
    | inr other ↦ rw other (v.not_wake q g h)
  ];
  known = λ h. absurd cc;
  only = λ q g {e} there mine. absurd (detach_from_gone w p f q g {e = e} at_p at_f v there mine);
}

pub detach_poller_attached :
    (w : World) (p f : ℕ)
    → w.sock.attached ≡ true
    → w.sock.poller ≡ some p
    → w.sock.fd ≡ some f
    → detach_poller w ≡ detach_from w (some p) (some f)
unfolding detach_poller
detach_poller_attached w p f on at_p at_f =
    ap (λ b. if b then detach_from w w.sock.poller w.sock.fd else w) on
    ∙ ap₂ (detach_from w) at_p at_f

pub detach_poller_idle : (w : World) → w.sock.attached ≡ false → detach_poller w ≡ w
unfolding detach_poller
detach_poller_idle w off = ap (λ b. if b then detach_from w w.sock.poller w.sock.fd else w) off

pub detach_poller-Tied : (w : World) → Tied w → Detached (detach_poller w)
unfolding detach_poller
detach_poller-Tied w v = elim (Bool-cases w.sock.attached) [
  | inl on ↦
      let (p, f, at_p, at_f, there) = v.known on in
      subst Detached (sym (detach_poller_attached w p f on at_p at_f))
        (detach_from-Tied w p f at_p at_f v, refl)
  | inr off ↦ subst Detached (sym (detach_poller_idle w off)) (v, off)
]

detach_from-wake_r :
    (w : World) (poller fd : Option ℕ) (p : ℕ)
    → ((detach_from w poller fd).pollers p).wake_r ≡ (w.pollers p).wake_r
detach_from-wake_r w none fd p = refl
detach_from-wake_r w (some q) none p = refl
detach_from-wake_r w (some q) (some f) p = elim (Bool-cases (p == q)) [
  | inl same ↦
      let e : p ≡ q = ground arith in
      rw same (del-wake_r (w.pollers q) (some f) ∙ ap (λ r. (w.pollers r).wake_r) (sym e))
  | inr other ↦ rw other refl
]

pub detach_poller-wake_r :
    (w : World) (p : ℕ) → ((detach_poller w).pollers p).wake_r ≡ (w.pollers p).wake_r
unfolding detach_poller
detach_poller-wake_r w p = elim (Bool-cases w.sock.attached) [
  | inl on ↦
      ap (λ b. ((if b then detach_from w w.sock.poller w.sock.fd else w).pollers p).wake_r) on
      ∙ detach_from-wake_r w w.sock.poller w.sock.fd p
  | inr off ↦ ap (λ u. (u.pollers p).wake_r) (detach_poller_idle w off)
]

close_at-Tied : (w : World) (fd : Option ℕ) → Detached w → Detached (close_at w fd)
close_at-Tied w none (v, off) = (v, off)
close_at-Tied w (some fd) (v, off) =
    (untied-IsTied none w.sock.poller w.sock.poll_events (λ p f h. absurd cc) off v, off)

pub close_at-wake_r :
    (w : World) (fd : Option ℕ) (p : ℕ) → ((close_at w fd).pollers p).wake_r ≡ (w.pollers p).wake_r
close_at-wake_r w none p = refl
close_at-wake_r w (some fd) p = refl

pub drop_fd-Tied : (w : World) → Tied w → Detached (drop_fd w)
unfolding close_fd
drop_fd-Tied w v = close_at-Tied (detach_poller w) _ (detach_poller-Tied w v)

pub drop_fd-wake_r : (w : World) (p : ℕ) → ((drop_fd w).pollers p).wake_r ≡ (w.pollers p).wake_r
unfolding close_fd
drop_fd-wake_r w p = close_at-wake_r (detach_poller w) _ p ∙ detach_poller-wake_r w p

opened-Tied :
    (type : SockType) (pending : Bool) (answer : Err × ℕ) (w : World)
    → Detached w
    → IsNew w answer.1
    → Tied (opened type pending answer w).1
opened-Tied type pending (err, fd) w (v, off) new = elim (Bool-cases (is_ok err)) [
  | inl fine ↦ rw fine (
      untied-IsTied (some fd) w.sock.poller w.sock.poll_events (λ p f h. ground (arith, new p)) off
        v)
  | inr bad ↦ rw bad v
]

-- What listen, bind, connect and adopt have in common.
pub reopen-Tied :
    (type : SockType) (pending : Bool) (init : Err) (answer : Err × ℕ) (w : World)
    → Tied w
    → IsNew w answer.1
    → Tied (with_sockplat (λ w. opened type pending answer (drop_fd w)) (ensure_sockplat init w)).1
unfolding ensure_sockplat
reopen-Tied type pending init answer w v new = elim (Bool-cases w.sockplat_inited) [
  | inl ready ↦
      subst (λ r. Tied (with_sockplat go r).1)
        (sym (ap (λ b. if b then (ok, w) else (init, u)) ready)) (renew w v new)
  | inr first ↦
      subst (λ r. Tied (with_sockplat go r).1)
        (sym (ap (λ b. if b then (ok, w) else (init, u)) first))
        (elim (Bool-cases (is_ok init)) [
          | inl fine ↦
              subst (λ b. Tied (if b then go u else (platform, u)).1) (sym fine) (renew u v new)
          | inr bad ↦ subst (λ b. Tied (if b then go u else (platform, u)).1) (sym bad) v
        ])
]
  where
    u : World
    u = record w { sockplat_inited = is_ok init }

    go : World → Err × World
    go w' = opened type pending answer (drop_fd w')

    renew : (t : World) → Tied t → IsNew t answer.1 → Tied (go t).1
    renew t v new =
        opened-Tied type pending answer (drop_fd t) (drop_fd-Tied t v)
          (λ p h. new p (h ∙ drop_fd-wake_r t p))
