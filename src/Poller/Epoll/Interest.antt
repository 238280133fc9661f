-- ===== src/Poller/Epoll/Interest.antt =====
-- src/poller/poller_epoll.c: the kernel's set and the entries.
use mathlib.Core.Path.{subst}
use zero_tool_kit.Prelude.{
  ℕ, ◌+◌, ◌*◌, ◌/◌, ◌%◌, ◌==◌, ◌≡◌, ◌⊎◌, inl, inr, refl, sym, ap, ◌∙◌, Bool, true, false, Option,
  none, some, if◌then◌else◌, arith, Bool-cases, Option-cases,
}
use zero_tool_kit.Errno.{invalid}
use zero_tool_kit.Poller.Select.{Entry, find_entry, set_entry, unlink}
use zero_tool_kit.Poller.Select.Registry.{
  Distinct, find_entry-set_entry, find_entry-unlink, set_entry-Distinct, unlink-Distinct,
}
use zero_tool_kit.Poller.Epoll.{
  EpollPoller, to_epoll, at_fd, epoll_ctl_wrap, add_found, add, mod_found, mod_events, del_found,
  del,
}

-- EPOLLIN (1) for the first bit of the events, EPOLLOUT (4) for the second, EPOLLERR (8) for the third
-- and EPOLLHUP (16) for the fourth.
abbrev pub kernel_bits : ℕ → ℕ
kernel_bits events = events % 2 + events / 2 % 2 * 4 + events / 4 % 2 * 8 + events / 8 % 2 * 16

to_epoll_lem : (events : ℕ) → to_epoll events ≡ kernel_bits events
unfolding to_epoll
to_epoll_lem events = ground arith

-- What the kernel should hold for an entry.
abbrev pub wanted : Option Entry → Option ℕ
wanted none = none
wanted (some e) = some (kernel_bits e.events)

-- No two entries have one descriptor, and the kernel waits for just what the entries say.
pub record Follows (p : EpollPoller) : Type 0 where
  pub distinct : Distinct p.entries
  pub agrees : (g : ℕ) → p.interest g ≡ wanted (find_entry g p.entries)

wanted-if :
    (g fd : ℕ) (a b : Option Entry)
    → (if g == fd then wanted a else wanted b) ≡ wanted (if g == fd then a else b)
wanted-if g fd a b = elim (Bool-cases (g == fd)) [
  | inl same ↦ rw same refl
  | inr other ↦ rw other refl
]

-- An entry is rewritten and the kernel is told.
set-Follows :
    (p : EpollPoller) (fd events : ℕ) (change : Entry → Entry) {e : Entry}
    → ((x : Entry) → (change x).fd ≡ x.fd)
    → (change e).events ≡ events
    → find_entry fd p.entries ≡ some e
    → Follows p
    → Follows
        (epoll_ctl_wrap true fd
          (to_epoll events)
          (record p { entries = set_entry fd change p.entries })).1
set-Follows p fd events change {e} keep says there v = record {
  distinct = set_entry-Distinct fd change keep p.entries v.distinct;
  agrees = λ g.
      ap (λ old. if g == fd then some (to_epoll events) else old) (v.agrees g)
      ∙ ap (λ n. if g == fd then some n else wanted (find_entry g p.entries)) (to_epoll_lem events)
      ∙ ap (λ n. if g == fd then some (kernel_bits n) else wanted (find_entry g p.entries))
          (sym says)
      ∙ wanted-if g fd (some (change e)) (find_entry g p.entries)
      ∙ ap wanted (sym (find_entry-set_entry fd change keep g p.entries {e = e} there));
}

add-Follows :
    (calloc_ok fine : Bool) (p : EpollPoller) (fd events cb user : ℕ)
    → (fine ≡ true) ⊎ (find_entry fd p.entries ≡ none)
    → Follows p
    → Follows (add calloc_ok fine p fd events cb user).1
unfolding add
add-Follows calloc_ok fine p fd events cb user why v =
    elim (Option-cases (find_entry fd p.entries)) [
      | inl fresh ↦
          subst (λ o. Follows (add_found calloc_ok fine fd events cb user p o).1) (sym fresh)
            (new fresh calloc_ok fine)
      | inr (e, there) ↦
          let told : fine ≡ true = elim why [ inl h ↦ h | inr h ↦ absurd cc ] in
          subst (λ o. Follows (add_found calloc_ok fine fd events cb user p o).1) (sym there)
            (subst (λ b. Follows (add_found calloc_ok b fd events cb user p (some e)).1) (sym told)
              (set-Follows p fd events (λ x. record x { events = events; cb = cb; user = user })
                {e = e} (λ x. refl) refl there v))
    ]
  where
    new :
        find_entry fd p.entries ≡ none
        → (c b : Bool) → Follows (add_found c b fd events cb user p none).1
    new fresh false b = v
    new fresh true false = v
    new fresh true true = record {
      distinct = (fresh, v.distinct);
      agrees = λ g. elim (Bool-cases (g == fd)) [
        | inl same ↦ ground (arith, to_epoll_lem events)
        | inr other ↦ ground (arith, v.agrees g)
      ];
    }

mod_events-Follows :
    (p : EpollPoller) (fd events : ℕ) → Follows p → Follows (mod_events true p fd events).1
unfolding mod_events
mod_events-Follows p fd events v = elim (Option-cases (find_entry fd p.entries)) [
  | inl missing ↦ subst (λ o. Follows (mod_found true fd events p o).1) (sym missing) v
  | inr (e, there) ↦
      subst (λ o. Follows (mod_found true fd events p o).1) (sym there)
        (set-Follows p fd events (λ x. record x { events = events }) {e = e} (λ x. refl) refl there
          v)
]

del-Follows : (p : EpollPoller) (fd : ℕ) → Follows p → Follows (del p fd).1
unfolding del
del-Follows p fd v = choose (fd == p.wake_r)
  where
    gone : Follows (record p { entries = unlink fd p.entries; interest = at_fd p.interest fd none })
    gone = record {
      distinct = unlink-Distinct fd p.entries v.distinct;
      agrees = λ g.
          ap (λ old. if g == fd then none else old) (v.agrees g)
          ∙ wanted-if g fd none (find_entry g p.entries)
          ∙ ap wanted (sym (find_entry-unlink fd g p.entries v.distinct));
    }

    found : (o : Option Entry) → Follows (del_found fd p o).1
    found none = v
    found (some e) = gone

    choose :
        (b : Bool)
        → Follows (if b then (invalid, p) else del_found fd p (find_entry fd p.entries)).1
    choose true = v
    choose false = found (find_entry fd p.entries)

-- A call, in which epoll_ctl does not refuse to change a descriptor that is in the set.
pub data Turn (p : EpollPoller) (q : EpollPoller) : Type 0 where
  does_add :
      (calloc_ok fine : Bool) (fd events cb user : ℕ)
      → (fine ≡ true) ⊎ (find_entry fd p.entries ≡ none)
      → q ≡ (add calloc_ok fine p fd events cb user).1
      → Turn p q
  does_mod : (fd events : ℕ) → q ≡ (mod_events true p fd events).1 → Turn p q
  does_del : (fd : ℕ) → q ≡ (del p fd).1 → Turn p q

pub data Turns (p : EpollPoller) : EpollPoller → Type 0 where
  here : Turns p p
  next : {q r : EpollPoller} → Turns p q → Turn q r → Turns p r

Turn-Follows : (p q : EpollPoller) → Turn p q → Follows p → Follows q
Turn-Follows p q (does_add calloc_ok fine fd events cb user why e) v =
    subst Follows (sym e) (add-Follows calloc_ok fine p fd events cb user why v)
Turn-Follows p q (does_mod fd events e) v = subst Follows (sym e) (mod_events-Follows p fd events v)
Turn-Follows p q (does_del fd e) v = subst Follows (sym e) (del-Follows p fd v)

-- Whatever is added, changed and deleted, with memory given or refused and new descriptors taken or
-- refused by the kernel, the kernel waits for exactly the events of the entries (EPOLLIN for
-- readable, EPOLLOUT for writable, EPOLLERR and EPOLLHUP for the other two) and for no other
-- descriptor, as long as it does not refuse to change a descriptor that it has.
pub Turns-Follows : {p q : EpollPoller} → Follows p → Turns p q → Follows q
Turns-Follows v here = v
Turns-Follows v (next {q} {r} turns turn) = Turn-Follows q r turn (Turns-Follows v turns)
