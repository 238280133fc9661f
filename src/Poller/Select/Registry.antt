-- ===== src/Poller/Select/Registry.antt =====
-- src/poller/poller_select.c: the entries as a map from descriptor to what is registered for it.
use zero_tool_kit.Prelude.{
  ℕ, ◌==◌, ◌≡◌, ◌≢◌, inl, inr, refl, sym, ap, ◌∙◌, Bool, true, false, Option, none, some, List, [],
  ◌∷◌, if◌then◌else◌, arith, Bool-cases, Option-cases, ◌⊎◌,
}
use mathlib.Core.Path.{subst}
use zero_tool_kit.Errno.{ok, nomem, invalid}
use zero_tool_kit.Poller.Select.{
  Entry, Poller, find_entry, create, set_entry, add, mod_events, unlink, del, poll_in,
}

-- No two entries have one descriptor.
abbrev pub Distinct : List Entry → Type 0
Distinct [] = Unit {0}
Distinct (e ∷ es) = (find_entry e.fd es ≡ none) × Distinct es

-- The descriptor of the last entry, `d` where there is none.
abbrev pub last_fd : ℕ → List Entry → ℕ
last_fd d [] = d
last_fd d (e ∷ es) = last_fd e.fd es

-- The oldest entry is that of the wake pipe.
pub record IsRegistry (p : Poller) : Type 0 where
  pub distinct : Distinct p.entries
  pub wake_last : (d : ℕ) → last_fd d p.entries ≡ p.wake_r

pub find_entry-fd : (fd : ℕ) (es : List Entry) {e : Entry} → find_entry fd es ≡ some e → e.fd ≡ fd
find_entry-fd fd [] h = absurd cc
find_entry-fd fd (x ∷ es) {e} h = ground (arith, find_entry-fd fd es {e = e})

module _ (fd : ℕ) (change : Entry → Entry) (keep : (e : Entry) → (change e).fd ≡ e.fd) where
  pub find_entry-set_entry :
      (g : ℕ) (es : List Entry) {e : Entry}
      → find_entry fd es ≡ some e
      → find_entry g (set_entry fd change es)
        ≡ (if g == fd then some (change e) else find_entry g es)
  find_entry-set_entry g [] h = absurd cc
  find_entry-set_entry g (x ∷ es) {e} h = elim (Bool-cases (x.fd == fd)) [
    | inl same ↦ ground (arith, keep x)
    | inr other ↦ ground (arith, find_entry-set_entry g es {e = e})
  ]

  find_entry-set_entry-none :
      (g : ℕ) (es : List Entry)
      → find_entry g es ≡ none
      → find_entry g (set_entry fd change es) ≡ none
  find_entry-set_entry-none g [] h = refl
  find_entry-set_entry-none g (x ∷ es) h = ground (arith, keep x, find_entry-set_entry-none g es)

  pub set_entry-Distinct : (es : List Entry) → Distinct es → Distinct (set_entry fd change es)
  set_entry-Distinct [] d = tt
  set_entry-Distinct (x ∷ es) d = elim (Bool-cases (x.fd == fd)) [
    | inl same ↦ rw same (ap (λ f. find_entry f es) (keep x) ∙ d.0, d.1)
    | inr other ↦ rw other (find_entry-set_entry-none x.fd es d.0, set_entry-Distinct es d.1)
  ]

  pub last_fd-set_entry :
      (d : ℕ) (es : List Entry) → last_fd d (set_entry fd change es) ≡ last_fd d es
  last_fd-set_entry d [] = refl
  last_fd-set_entry d (x ∷ es) = elim (Bool-cases (x.fd == fd)) [
    | inl same ↦ rw same (ap (λ f. last_fd f es) (keep x))
    | inr other ↦ rw other (last_fd-set_entry x.fd es)
  ]

find_entry-unlink-none :
    (fd g : ℕ) (es : List Entry) → find_entry g es ≡ none → find_entry g (unlink fd es) ≡ none
find_entry-unlink-none fd g [] h = refl
find_entry-unlink-none fd g (x ∷ es) h = ground (arith, find_entry-unlink-none fd g es)

pub unlink-Distinct : (fd : ℕ) (es : List Entry) → Distinct es → Distinct (unlink fd es)
unlink-Distinct fd [] d = tt
unlink-Distinct fd (x ∷ es) d = elim (Bool-cases (x.fd == fd)) [
  | inl same ↦ rw same d.1
  | inr other ↦ rw other (find_entry-unlink-none fd x.fd es d.0, unlink-Distinct fd es d.1)
]

pub find_entry-unlink :
    (fd g : ℕ) (es : List Entry)
    → Distinct es
    → find_entry g (unlink fd es) ≡ (if g == fd then none else find_entry g es)
find_entry-unlink fd g [] d = ground arith
find_entry-unlink fd g (x ∷ es) d = elim (Bool-cases (x.fd == fd)) [
  | inl same ↦
      let e : x.fd ≡ fd = ground arith in
      let gone : find_entry fd es ≡ none = ap (λ f. find_entry f es) (sym e) ∙ d.0 in
      elim (Bool-cases (g == fd)) [
        | inl self ↦ let e' : g ≡ fd = ground arith in rw (same, self, e') gone
        | inr else_where ↦ ground arith
      ]
  | inr other ↦ ground (arith, find_entry-unlink fd g es d.1)
]

last_fd-unlink :
    (fd d : ℕ) (es : List Entry)
    → fd ≢ last_fd d es
    → Distinct es
    → last_fd d (unlink fd es) ≡ last_fd d es
last_fd-unlink fd d [] ne h = refl
last_fd-unlink fd d (x ∷ []) ne h = ground arith
last_fd-unlink fd d (x ∷ y ∷ es) ne h = elim (Bool-cases (x.fd == fd)) [
  | inl same ↦ rw same refl
  | inr other ↦ rw other (last_fd-unlink fd x.fd (y ∷ es) ne h.1)
]

-- The three operations as updates of the map, and what they answer.
abbrev pub lookup : Poller → ℕ → Option Entry
lookup p g = find_entry g p.entries

-- Adding to the list at the front.
cons-IsRegistry :
    (p : Poller) (e : Entry)
    → IsRegistry p
    → find_entry e.fd p.entries ≡ none
    → IsRegistry (record p { entries = e ∷ p.entries })
cons-IsRegistry p e v h = record { distinct = (h, v.distinct); wake_last = λ d. v.wake_last e.fd }

set_entry-IsRegistry :
    (p : Poller) (fd : ℕ) (change : Entry → Entry)
    → ((e : Entry) → (change e).fd ≡ e.fd)
    → IsRegistry p
    → IsRegistry (record p { entries = set_entry fd change p.entries })
set_entry-IsRegistry p fd change keep v = record {
  distinct = set_entry-Distinct fd change keep p.entries v.distinct;
  wake_last = λ d. last_fd-set_entry fd change keep d p.entries ∙ v.wake_last d;
}

pub add-IsRegistry :
    (calloc_ok : Bool) (p : Poller) (fd : Option ℕ) (events cb user : ℕ)
    → IsRegistry p
    → IsRegistry (add calloc_ok p fd events cb user).1
unfolding add
add-IsRegistry calloc_ok p none events cb user v = v
add-IsRegistry calloc_ok p (some fd) events cb user v =
    elim (Option-cases (find_entry fd p.entries)) [
      | inl fresh ↦ elim (Bool-cases calloc_ok) [
        | inl given ↦ rw (fresh, given) (cons-IsRegistry p _ v fresh)
        | inr refused ↦ rw (fresh, refused) v
      ]
      | inr (e, there) ↦ rw there (set_entry-IsRegistry p fd _ (λ e. refl) v)
    ]

pub mod_events-IsRegistry :
    (p : Poller) (fd : Option ℕ) (events : ℕ) → IsRegistry p → IsRegistry (mod_events p fd events).1
unfolding mod_events
mod_events-IsRegistry p none events v = v
mod_events-IsRegistry p (some fd) events v = elim (Option-cases (find_entry fd p.entries)) [
  | inl fresh ↦ rw fresh v
  | inr (e, there) ↦ rw there (set_entry-IsRegistry p fd _ (λ e. refl) v)
]

pub del-IsRegistry : (p : Poller) (fd : Option ℕ) → IsRegistry p → IsRegistry (del p fd).1
unfolding del
del-IsRegistry p none v = v
del-IsRegistry p (some fd) v = elim (Bool-cases (fd == p.wake_r)) [
  | inl wake ↦ rw wake v
  | inr other ↦ elim (Option-cases (find_entry fd p.entries)) [
    | inl fresh ↦ rw (other, fresh) v
    | inr (e, there) ↦
        rw (other, there)
          (record {
            distinct = unlink-Distinct fd p.entries v.distinct;
            wake_last = λ d.
                last_fd-unlink fd d p.entries (ground (arith, v.wake_last d)) v.distinct
                ∙ v.wake_last d;
          })
  ]
]

-- What add, mod and del answer, and what is registered afterwards for every descriptor: add
-- registers anew or overwrites, mod and del find what was added, del spares the wake pipe, and a
-- call that answers an error changes nothing.
pub add-lookup :
    (calloc_ok : Bool) (p : Poller) (fd events cb user g : ℕ)
    → let (err, q) = add calloc_ok p (some fd) events cb user in
      ((err ≡ ok)
        × ((calloc_ok ≡ true) ⊎ (lookup p fd ≢ none))
        × (lookup q g ≡ (
            if g == fd
            then some (record { fd = fd; events = events; cb = cb; user = user })
            else lookup p g)))
      ⊎ ((err ≡ nomem) × (calloc_ok ≡ false) × (q ≡ p) × (lookup p fd ≡ none))
unfolding add
add-lookup calloc_ok p fd events cb user g = elim (Option-cases (find_entry fd p.entries)) [
  | inl fresh ↦ elim (Bool-cases calloc_ok) [
    | inl given ↦ rw (fresh, given) (inl (refl, inl refl, ground arith))
    | inr refused ↦ rw (fresh, refused) (inr (refl, refl, refl, refl))
  ]
  | inr (e, there) ↦ rw there (
      inl (
        refl,
        inr (λ h. cc),
        find_entry-set_entry fd _ (λ e. refl) g p.entries {e = e} there
            ∙ ground (arith, find_entry-fd fd p.entries {e = e}),
      ))
]

pub del-lookup :
    (p : Poller) (fd g : ℕ)
    → IsRegistry p
    → let (err, q) = del p (some fd) in
      ((err ≡ ok)
        × (fd ≢ p.wake_r)
        × (lookup p fd ≢ none)
        × (lookup q g ≡ (if g == fd then none else lookup p g)))
      ⊎ ((err ≡ invalid) × (q ≡ p) × ((fd ≡ p.wake_r) ⊎ (lookup p fd ≡ none)))
unfolding del
del-lookup p fd g v = elim (Bool-cases (fd == p.wake_r)) [
  | inl wake ↦ rw wake (inr (refl, refl, inl (ground arith)))
  | inr other ↦ elim (Option-cases (find_entry fd p.entries)) [
    | inl fresh ↦ rw (other, fresh) (inr (refl, refl, inr refl))
    | inr (e, there) ↦
        rw (other, there)
          (inl (refl, ground arith, λ h. cc, find_entry-unlink fd g p.entries v.distinct))
  ]
]

pub mod_events-lookup :
    (p : Poller) (fd events g : ℕ)
    → let (err, q) = mod_events p (some fd) events in
      ((e : Entry) × (lookup p fd ≡ some e)
        × (err ≡ ok)
        × (lookup q g ≡ (if g == fd then some (record e { events = events }) else lookup p g)))
      ⊎ ((err ≡ invalid) × (q ≡ p) × (lookup p fd ≡ none))
unfolding mod_events
mod_events-lookup p fd events g = elim (Option-cases (find_entry fd p.entries)) [
  | inl fresh ↦ rw fresh (inr (refl, refl, refl))
  | inr (e, there) ↦
      rw there
        (inl (e, refl, refl, find_entry-set_entry fd _ (λ e. refl) g p.entries {e = e} there))
]

pub create-IsRegistry :
    (wake_r wake_w : ℕ) (calloc_ok : Bool) {p : Poller}
    → create wake_r wake_w calloc_ok ≡ some p
    → IsRegistry p
unfolding create
create-IsRegistry wake_r wake_w true {p} e =
    let we : Entry = record { fd = wake_r; events = poll_in; cb = 0; user = 0 } in
    let q : Poller = record { wake_r = wake_r; wake_w = some wake_w; entries = we ∷ [] } in
    let same : q ≡ p = cc in
    subst IsRegistry same (record { distinct = (refl, tt); wake_last = λ d. refl })
create-IsRegistry wake_r wake_w false {p} e = absurd cc
