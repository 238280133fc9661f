-- ===== src/Net/Socket/Attach.antt =====
-- src/net/socket.c: attaching to a poller and changing the events.
use mathlib.Core.Path.{subst}
use zero_tool_kit.Prelude.{
  ℕ, ◌==◌, ◌≡◌, inl, inr, refl, sym, ap, ◌∙◌, fun_ext, Bool, true, false, Option, none, some,
  if◌then◌else◌, arith, Bool-cases, ==_refl,
}
use zero_tool_kit.Errno.{ok}
use zero_tool_kit.Poller.Select.{Poller, add, mod_events}
use zero_tool_kit.Poller.Select.Registry.{
  lookup, add-lookup, mod_events-lookup, add-IsRegistry, mod_events-IsRegistry,
}
use zero_tool_kit.Net.Socket.{at_poller, socket_poller_cb}
use zero_tool_kit.Net.Socket.Tied.{IsTied}

pub add-wake_r :
    (calloc_ok : Bool) (p : Poller) (fd : Option ℕ) (events cb user : ℕ)
    → (add calloc_ok p fd events cb user).1.wake_r ≡ p.wake_r
unfolding add
add-wake_r calloc_ok p none events cb user = refl
add-wake_r calloc_ok p (some fd) events cb user = ground arith

-- A function put back unchanged.
pub at_poller_same :
    (pollers : ℕ → Poller) (p : ℕ) (q : Poller) → q ≡ pollers p → at_poller pollers p q ≡ pollers
at_poller_same pollers p q e = fun_ext (λ r. elim (Bool-cases (r == p)) [
  | inl same ↦ let e' : r ≡ p = ground arith in rw same (e ∙ ap pollers (sym e'))
  | inr other ↦ rw other refl
])

module _ {pollers : ℕ → Poller} {addr events : ℕ} {poller : Option ℕ} (calloc_ok : Bool)
    (p f new_events : ℕ) where
  -- The poller took the entry.
  pub added-IsTied :
      IsTied pollers addr (some f) poller false events
      → (add calloc_ok (pollers p) (some f) new_events socket_poller_cb addr).0 ≡ ok
      → IsTied
          (at_poller pollers p
            (add calloc_ok (pollers p) (some f) new_events socket_poller_cb addr).1)
          addr
          (some f)
          (some p)
          true
          new_events
  added-IsTied v fine = record {
    registries = λ r. elim (Bool-cases (r == p)) [
      | inl same ↦ rw same (
          add-IsRegistry calloc_ok (pollers p) (some f) new_events socket_poller_cb addr
            (v.registries p))
      | inr other ↦ rw other (v.registries r)
    ];
    not_wake = λ r g h. elim (Bool-cases (r == p)) [
      | inl same ↦
          rw (same, add-wake_r calloc_ok (pollers p) (some f) new_events socket_poller_cb addr)
            (v.not_wake p g h)
      | inr other ↦ rw other (v.not_wake r g h)
    ];
    known = λ h. (p, f, refl, refl, rw (==_refl p) (now f ∙ rw (==_refl f) refl));
    only = λ r g {e} there mine. elim (Bool-cases (r == p)) [
      | inl same ↦
          let here =
            subst
              (λ b.
                lookup
                  (if b
                    then (add calloc_ok (pollers p) (some f) new_events socket_poller_cb addr).1
                    else pollers r)
                  g
                ≡ some e)
              same there in
          elim (Bool-cases (g == f)) [
            | inl self ↦ (refl, ground arith, ground arith)
            | inr apart ↦
                let old : lookup (pollers p) g ≡ some e = ground (arith, now g) in
                let (bad, a, b) = v.only p g {e = e} old mine in absurd cc
          ]
      | inr other ↦
          let here : lookup (pollers r) g ≡ some e =
            subst
              (λ b.
                lookup
                  (if b
                    then (add calloc_ok (pollers p) (some f) new_events socket_poller_cb addr).1
                    else pollers r)
                  g
                ≡ some e)
              other there in
          let (bad, a, b) = v.only r g {e = e} here mine in absurd cc
    ];
  }
    where
      now :
          (g : ℕ)
          → lookup (add calloc_ok (pollers p) (some f) new_events socket_poller_cb addr).1 g ≡ (
              if g == f
              then some (record { fd = f; events = new_events; cb = socket_poller_cb; user = addr })
              else lookup (pollers p) g)
      now g = elim (add-lookup calloc_ok (pollers p) f new_events socket_poller_cb addr g) [
        | inl (done, why, new) ↦ new
        | inr (bad, refused, kept, gone) ↦ absurd cc
      ]

mod_events-wake_r :
    (p : Poller) (fd : Option ℕ) (events : ℕ) → (mod_events p fd events).1.wake_r ≡ p.wake_r
unfolding mod_events
mod_events-wake_r p none events = refl
mod_events-wake_r p (some fd) events = ground arith

module _ {pollers : ℕ → Poller} {addr events : ℕ} {fd poller : Option ℕ} {attached : Bool}
    (p f new_events : ℕ) where
  -- The poller changed the events of the object's entry.
  pub modified-IsTied :
      IsTied pollers addr fd poller attached events
      → poller ≡ some p
      → fd ≡ some f
      → lookup (pollers p) f
        ≡ some (record { fd = f; events = events; cb = socket_poller_cb; user = addr })
      → IsTied
          (at_poller pollers p (mod_events (pollers p) (some f) new_events).1)
          addr
          fd
          poller
          attached
          new_events
  modified-IsTied v at_p at_f there = record {
    registries = λ r. elim (Bool-cases (r == p)) [
      | inl same ↦ rw same (mod_events-IsRegistry (pollers p) (some f) new_events (v.registries p))
      | inr other ↦ rw other (v.registries r)
    ];
    not_wake = λ r g h. elim (Bool-cases (r == p)) [
      | inl same ↦ rw (same, mod_events-wake_r (pollers p) (some f) new_events) (v.not_wake p g h)
      | inr other ↦ rw other (v.not_wake r g h)
    ];
    known = λ h. (p, f, at_p, at_f, rw (==_refl p) (now f ∙ rw (==_refl f) refl));
    only = λ r g {e} seen mine. elim (Bool-cases (r == p)) [
      | inl same ↦
          let here =
            subst
              (λ b.
                lookup (if b then (mod_events (pollers p) (some f) new_events).1 else pollers r) g
                ≡ some e)
              same seen in
          let e' : r ≡ p = ground arith in
          elim (Bool-cases (g == f)) [
            | inl self ↦
                let (on, a, b) = v.only p f there refl in
                (on, at_p ∙ ap some (sym e'), ground arith)
            | inr apart ↦
                let old : lookup (pollers p) g ≡ some e = ground (arith, now g) in
                let (on, a, b) = v.only p g {e = e} old mine in (on, a ∙ ap some (sym e'), b)
          ]
      | inr other ↦
          let here : lookup (pollers r) g ≡ some e =
            subst
              (λ b.
                lookup (if b then (mod_events (pollers p) (some f) new_events).1 else pollers r) g
                ≡ some e)
              other seen in
          v.only r g {e = e} here mine
    ];
  }
    where
      now :
          (g : ℕ)
          → lookup (mod_events (pollers p) (some f) new_events).1 g ≡ (
              if g == f
              then some (record { fd = f; events = new_events; cb = socket_poller_cb; user = addr })
              else lookup (pollers p) g)
      now g = elim (mod_events-lookup (pollers p) f new_events g) [
        | inl (e, found, done, new) ↦
            let same : e ≡ record { fd = f; events = events; cb = socket_poller_cb; user = addr } =
              cc in
            new
            ∙ ap
                (λ x.
                  if g == f then some (record x { events = new_events }) else lookup (pollers p) g)
                same
        | inr (bad, kept, gone) ↦ absurd cc
      ]
