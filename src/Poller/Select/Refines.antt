-- ===== src/Poller/Select/Refines.antt =====
-- src/poller/poller_select.c: a poller under any sequence of calls is a finite map.
use zero_tool_kit.Prelude.{
  ℕ, ◌==◌, ◌≡◌, ◌≢◌, ◌⊎◌, inl, inr, refl, ap, ◌∙◌, fun_ext, Bool, true, false, not, ◌&&◌, ◌||◌,
  Option, none, some, List, [], ◌∷◌, if◌then◌else◌, arith, ==_ne,
}
use zero_tool_kit.Poller.Select.{Entry, Poller, create, add, mod_events, del}
use zero_tool_kit.Poller.Select.Registry.{
  IsRegistry, lookup, add-lookup, del-lookup, mod_events-lookup, add-IsRegistry, del-IsRegistry,
  mod_events-IsRegistry, create-IsRegistry,
}

-- A call, with calloc giving memory or not.
pub data Op : Type 0 where
  adds : Bool → ℕ → ℕ → ℕ → ℕ → Op
  mods : ℕ → ℕ → Op
  dels : ℕ → Op

pub apply : Op → Poller → Poller
apply (adds calloc_ok fd events cb user) p = (add calloc_ok p (some fd) events cb user).1
apply (mods fd events) p = (mod_events p (some fd) events).1
apply (dels fd) p = (del p (some fd)).1

pub run : List Op → Poller → Poller
run [] p = p
run (op ∷ ops) p = run ops (apply op p)

-- The map that a poller promises: what is registered for each descriptor.
abbrev pub Registered : Type 0
Registered = ℕ → Option Entry

abbrev pub change_events : ℕ → Option Entry → Option Entry
change_events events none = none
change_events events (some e) = some (record e { events = events })

abbrev pub is_some : Option Entry → Bool
is_some none = false
is_some (some e) = true

-- The wake pipe stays, and without memory only what is there is overwritten.
pub meant : ℕ → Op → Registered → Registered
meant wake_r (adds calloc_ok fd events cb user) m g =
    if g == fd && (calloc_ok || is_some (m fd))
    then some (record { fd = fd; events = events; cb = cb; user = user })
    else m g
meant wake_r (mods fd events) m g = if g == fd then change_events events (m fd) else m g
meant wake_r (dels fd) m g = if g == fd && not (fd == wake_r) then none else m g

pub meant_all : ℕ → List Op → Registered → Registered
meant_all wake_r [] m = m
meant_all wake_r (op ∷ ops) m = meant_all wake_r ops (meant wake_r op m)

room_for :
    (given : Bool) (o : Option Entry) → (given ≡ true) ⊎ (o ≢ none) → (given || is_some o) ≡ true
room_for true o why = refl
room_for false none why = elim why [ inl h ↦ absurd cc | inr h ↦ absurd (h refl) ]
room_for false (some e) why = refl

apply-IsRegistry : (op : Op) (p : Poller) → IsRegistry p → IsRegistry (apply op p)
unfolding apply
apply-IsRegistry (adds calloc_ok fd events cb user) p v =
    add-IsRegistry calloc_ok p (some fd) events cb user v
apply-IsRegistry (mods fd events) p v = mod_events-IsRegistry p (some fd) events v
apply-IsRegistry (dels fd) p v = del-IsRegistry p (some fd) v

apply-wake_r : (op : Op) (p : Poller) → (apply op p).wake_r ≡ p.wake_r
unfolding apply add mod_events del
apply-wake_r (adds calloc_ok fd events cb user) p = ground arith
apply-wake_r (mods fd events) p = ground arith
apply-wake_r (dels fd) p = ground arith

apply-lookup :
    (op : Op) (p : Poller) (g : ℕ)
    → IsRegistry p
    → lookup (apply op p) g ≡ meant p.wake_r op (lookup p) g
unfolding apply meant
apply-lookup (adds calloc_ok fd events cb user) p g v =
    elim (add-lookup calloc_ok p fd events cb user g) [
      | inl (fine, reason, new) ↦
          let given : (calloc_ok || is_some (lookup p fd)) ≡ true =
            room_for calloc_ok (lookup p fd) reason in
          rw given (ground arith)
      | inr (bad, given, same, gone) ↦ ap (λ q. lookup q g) same ∙ ground arith
    ]
apply-lookup (mods fd events) p g v = elim (mod_events-lookup p fd events g) [
  | inl (e, there, fine, new) ↦ rw there (ground arith)
  | inr (bad, same, gone) ↦ ap (λ q. lookup q g) same ∙ ground arith
]
apply-lookup (dels fd) p g v = elim (del-lookup p fd g v) [
  | inl (fine, other, there, new) ↦ new ∙ rw (==_ne fd p.wake_r other) (ground arith)
  | inr (bad, same, inl wake) ↦ ap (λ q. lookup q g) same ∙ ground arith
  | inr (bad, same, inr gone) ↦ ap (λ q. lookup q g) same ∙ ground arith
]

run-lookup :
    (ops : List Op) (p : Poller)
    → IsRegistry p
    → IsRegistry (run ops p) × (lookup (run ops p) ≡ meant_all p.wake_r ops (lookup p))
unfolding run meant_all
run-lookup [] p v = (v, refl)
run-lookup (op ∷ ops) p v =
    let (valid, same) = run-lookup ops (apply op p) (apply-IsRegistry op p v) in
    (
      valid,
      same
          ∙ ap (λ w. meant_all w ops (lookup (apply op p))) (apply-wake_r op p)
          ∙ ap (meant_all p.wake_r ops) (fun_ext (λ g. apply-lookup op p g v)),
    )

-- A poller that was created and then had any calls of add, mod and del, with memory given or
-- refused, holds for every descriptor exactly what the map of these calls holds: no entry is lost,
-- doubled or mixed up, and the wake pipe's entry is the oldest and cannot be removed.
pub IsRegistry-refines :
    (wake_r wake_w : ℕ) (calloc_ok : Bool) (ops : List Op) {p : Poller}
    → create wake_r wake_w calloc_ok ≡ some p
    → IsRegistry (run ops p) × (lookup (run ops p) ≡ meant_all p.wake_r ops (lookup p))
IsRegistry-refines wake_r wake_w calloc_ok ops {p} made =
    run-lookup ops p (create-IsRegistry wake_r wake_w calloc_ok made)
