-- ===== src/Poller/Epoll.antt =====
-- src/poller/poller_epoll.c: the poller on epoll. The entries are those of poller_select.c; `interest`
-- is what the kernel holds for each descriptor, a part of the system that epoll_ctl changes. Whether
-- a call of epoll_ctl succeeds is an argument. Descriptors are not negative here.
pub mod Interest
mod Tests
use zero_tool_kit.Prelude.{
  ℕ, ◌+◌, Bool, true, false, not, Option, none, some, List, [], ◌∷◌, ◌==◌, if◌then◌else◌,
}
use zero_tool_kit.Errno.{Err, ok, nomem, invalid, platform}
use zero_tool_kit.Poller.Select.{
  Entry, find_entry, set_entry, unlink, has, poll_in, poll_out, poll_err, poll_hup,
}

-- The fields of `ztk_poller` that this backend uses.
pub record EpollPoller : Type 0 where
  pub wake_r : ℕ
  pub entries : List Entry
  pub interest : ℕ → Option ℕ

-- EPOLLIN is 1, EPOLLOUT 4, EPOLLERR 8 and EPOLLHUP 16.
pub to_epoll : ℕ → ℕ
to_epoll events =
    (if has poll_in events then 1 else 0)
    + (if has poll_out events then 4 else 0)
    + (if has poll_err events then 8 else 0)
    + (if has poll_hup events then 16 else 0)

abbrev pub at_fd : (ℕ → Option ℕ) → ℕ → Option ℕ → ℕ → Option ℕ
at_fd interest fd new g = if g == fd then new else interest g

-- `epoll_ctl_wrap` for EPOLL_CTL_ADD and EPOLL_CTL_MOD
abbrev pub epoll_ctl_wrap : Bool → ℕ → ℕ → EpollPoller → Err × EpollPoller
epoll_ctl_wrap fine fd ev p =
    if fine then (ok, record p { interest = at_fd p.interest fd (some ev) }) else (platform, p)

abbrev pub add_found : Bool → Bool → ℕ → ℕ → ℕ → ℕ → EpollPoller → Option Entry → Err × EpollPoller
add_found calloc_ok fine fd events cb user p (some e) =
    epoll_ctl_wrap fine fd (to_epoll events) (record p {
      entries = set_entry fd (λ x. record x { events = events; cb = cb; user = user }) p.entries;
    })
add_found calloc_ok fine fd events cb user p none =
    let e : Entry = record { fd = fd; events = events; cb = cb; user = user } in
    if not calloc_ok
    then (nomem, p)
    else if fine
    then epoll_ctl_wrap fine fd (to_epoll events) (record p { entries = e ∷ p.entries })
    else (platform, p)

pub add : Bool → Bool → EpollPoller → ℕ → ℕ → ℕ → ℕ → Err × EpollPoller
add calloc_ok fine p fd events cb user =
    add_found calloc_ok fine fd events cb user p (find_entry fd p.entries)

abbrev pub mod_found : Bool → ℕ → ℕ → EpollPoller → Option Entry → Err × EpollPoller
mod_found fine fd events p none = (invalid, p)
mod_found fine fd events p (some e) =
    epoll_ctl_wrap fine fd (to_epoll events)
      (record p { entries = set_entry fd (λ x. record x { events = events }) p.entries })

pub mod_events : Bool → EpollPoller → ℕ → ℕ → Err × EpollPoller
mod_events fine p fd events = mod_found fine fd events p (find_entry fd p.entries)

-- The answer of EPOLL_CTL_DEL is not looked at; the descriptor is taken out of the set.
abbrev pub del_found : ℕ → EpollPoller → Option Entry → Err × EpollPoller
del_found fd p none = (invalid, p)
del_found fd p (some e) =
    (ok, record p { entries = unlink fd p.entries; interest = at_fd p.interest fd none })

pub del : EpollPoller → ℕ → Err × EpollPoller
del p fd = if fd == p.wake_r then (invalid, p) else del_found fd p (find_entry fd p.entries)
