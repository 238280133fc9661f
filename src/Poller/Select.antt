-- ===== src/Poller/Select.antt =====
-- src/poller/poller_select.c: the poller on select(). The list of entries that `next` links is a
-- list; a callback and a user pointer are numbers, 0 the NULL pointer. A descriptor that a caller
-- gives is an `Option`, `none` a negative one; descriptors in entries are not negative. The sets
-- that select() fills are functions from descriptor to Bool. The system is POSIX.
pub mod Registry
pub mod Refines
pub mod Ready
mod Tests
use zero_tool_kit.Prelude.{
  ℕ, zero, suc, ◌+◌, ◌/◌, ◌%◌, Bool, true, false, not, ◌&&◌, ◌||◌, Option, none, some, List, [],
  ◌∷◌, ◌++◌, length, ltb, leb, ◌==◌, if◌then◌else◌,
}
use zero_tool_kit.Errno.{Err, ok, nomem, invalid, platform}

-- `struct ztk_fd_entry`
pub record Entry : Type 0 where
  pub fd : ℕ
  pub events : ℕ
  pub cb : ℕ
  pub user : ℕ

-- The fields of `ztk_poller` that this backend uses.
pub record Poller : Type 0 where
  pub wake_r : ℕ
  pub wake_w : Option ℕ
  pub entries : List Entry

-- ZTK_POLL_IN, ZTK_POLL_OUT, ZTK_POLL_ERR and ZTK_POLL_HUP, and the test of such a bit.
abbrev pub poll_in : ℕ
poll_in = 1

abbrev pub poll_out : ℕ
poll_out = 2

abbrev pub poll_err : ℕ
poll_err = 4

abbrev pub poll_hup : ℕ
poll_hup = 8

abbrev pub has : ℕ → ℕ → Bool
has bit events = (events / bit) % 2 == 1

abbrev pub find_entry : ℕ → List Entry → Option Entry
find_entry fd [] = none
find_entry fd (e ∷ es) = let rest = find_entry fd es in if e.fd == fd then some e else rest

-- `ztk_poller_create` once the pipe is made: the flag says whether calloc gives the entry.
pub create : ℕ → ℕ → Bool → Option Poller
create wake_r wake_w calloc_ok =
    let we : Entry = record { fd = wake_r; events = poll_in; cb = 0; user = 0 } in
    if calloc_ok
    then some (record { wake_r = wake_r; wake_w = some wake_w; entries = we ∷ [] })
    else none

-- The first entry with the descriptor, rewritten.
abbrev pub set_entry : ℕ → (Entry → Entry) → List Entry → List Entry
set_entry fd change [] = []
set_entry fd change (e ∷ es) =
    let rest = set_entry fd change es in if e.fd == fd then change e ∷ es else e ∷ rest

abbrev pub add_or_set : Bool → ℕ → ℕ → ℕ → ℕ → Poller → Option Entry → Err × Poller
add_or_set calloc_ok fd events cb user p (some e) =
    let change = λ (e : Entry). record e { events = events; cb = cb; user = user } in
    (ok, record p { entries = set_entry fd change p.entries })
add_or_set calloc_ok fd events cb user p none =
    let e : Entry = record { fd = fd; events = events; cb = cb; user = user } in
    if calloc_ok then (ok, record p { entries = e ∷ p.entries }) else (nomem, p)

unfoldable pub add : Bool → Poller → Option ℕ → ℕ → ℕ → ℕ → Err × Poller
add calloc_ok p none events cb user = (invalid, p)
add calloc_ok p (some fd) events cb user =
    add_or_set calloc_ok fd events cb user p (find_entry fd p.entries)

abbrev pub mod_found : ℕ → ℕ → Poller → Option Entry → Err × Poller
mod_found fd events p none = (invalid, p)
mod_found fd events p (some e) =
    (ok, record p { entries = set_entry fd (λ e. record e { events = events }) p.entries })

unfoldable pub mod_events : Poller → Option ℕ → ℕ → Err × Poller
mod_events p none events = (invalid, p)
mod_events p (some fd) events = mod_found fd events p (find_entry fd p.entries)

-- The list without the first entry with the descriptor.
abbrev pub unlink : ℕ → List Entry → List Entry
unlink fd [] = []
unlink fd (e ∷ es) = let rest = unlink fd es in if e.fd == fd then es else e ∷ rest

abbrev pub del_found : ℕ → Poller → Option Entry → Err × Poller
del_found fd p none = (invalid, p)
del_found fd p (some e) = (ok, record p { entries = unlink fd p.entries })

unfoldable pub del : Poller → Option ℕ → Err × Poller
del p none = (invalid, p)
del p (some fd) = if fd == p.wake_r then (invalid, p) else del_found fd p (find_entry fd p.entries)

-- FD_SETSIZE
abbrev pub fd_setsize : ℕ
fd_setsize = 1024

-- The sets of descriptors that select() is asked about.
pub record Sets : Type 0 where
  pub rfds : ℕ → Bool
  pub wfds : ℕ → Bool
  pub efds : ℕ → Bool

abbrev pub fd_set : Bool → ℕ → (ℕ → Bool) → ℕ → Bool
fd_set wanted fd set f = (wanted && f == fd) || set f

pub ask : List Entry → Sets
ask [] = record { rfds = λ f. false; wfds = λ f. false; efds = λ f. false }
ask (e ∷ es) =
    let rest = ask es in
    if leb fd_setsize e.fd then rest else record {
      rfds = fd_set (has poll_in e.events || has poll_hup e.events) e.fd rest.rfds;
      wfds = fd_set (has poll_out e.events) e.fd rest.wfds;
      efds = fd_set (has poll_err e.events) e.fd rest.efds;
    }

-- One call to make, `ready_ev`.
pub record Call : Type 0 where
  pub fd : ℕ
  pub out : ℕ
  pub cb : ℕ
  pub user : ℕ

abbrev pub out_of : Sets → ℕ → ℕ
out_of s fd =
    (if s.rfds fd then poll_in else 0)
    + (if s.wfds fd then poll_out else 0)
    + (if s.efds fd then poll_err else 0)

-- The table `ready` with the count `fired`, and whether the wake pipe was drained and the tasks
-- were run.
pub record Found : Type 0 where
  pub ready : List Call
  pub fired : ℕ
  pub drained : Bool

abbrev pub ready_cap : ℕ
ready_cap = 64

abbrev pub collect_one : Sets → ℕ → Found → Entry → Found
collect_one s wake_r f e =
    if leb fd_setsize e.fd
    then f
    else if e.fd == wake_r && s.rfds e.fd
    then record f { drained = true }
    else if (out_of s e.fd == 0) || (e.cb == 0)
    then f
    else record {
      ready =
          if ltb f.fired ready_cap
          then f.ready ++ (record { fd = e.fd; out = out_of s e.fd; cb = e.cb; user = e.user } ∷ [])
          else f.ready;
      fired = f.fired + 1;
      drained = f.drained;
    }

pub collect : Sets → ℕ → Found → List Entry → Found
collect s wake_r f [] = f
collect s wake_r f (e ∷ es) = collect s wake_r (collect_one s wake_r f e) es

-- What select() answers: an error, which EINTR or EAGAIN make harmless, nothing in time, or the
-- sets that are ready.
pub data Answer : Type 0 where
  failed : Bool → Answer
  timed_out : Answer
  selected : Sets → Answer

-- The result of `ztk_poller_poll`, `none` for -1, whether it ran the tasks, and the calls it made.
pub record Polled : Type 0 where
  pub result : Option ℕ
  pub drained : Bool
  pub calls : List Call

abbrev pub polled_of : Found → Polled
polled_of f = record { result = some f.fired; drained = f.drained; calls = f.ready }

-- `pending` says whether the task queue is there and not empty.
pub poll : Bool → Poller → Answer → Polled
poll pending p (failed harmless) = record {
  result = if harmless then some 0 else none;
  drained = false;
  calls = [];
}
poll pending p timed_out = record { result = some 0; drained = pending; calls = [] }
poll pending p (selected s) =
    polled_of (collect s p.wake_r (record { ready = []; fired = 0; drained = false }) p.entries)

-- The answer of the write to the wake pipe: the byte is taken, the pipe is full, or it fails.
pub data Written : Type 0 where
  taken full failed : Written

pub wake : Poller → Written → Err
wake p w = elim p.wake_w [
  | none ↦ invalid
  | some fd ↦ elim w [ taken ↦ ok | full ↦ ok | failed ↦ platform ]
]
