-- ===== src/Poller/Epoll/Tests.antt =====
-- src/poller/poller_epoll.c: a descriptor that is added and changed, and one that the kernel refuses.
use zero_tool_kit.Prelude.{
  ◌==◌, inl, inr, refl, true, false, none, some, [], ◌∷◌, if◌then◌else◌, arith,
}
use zero_tool_kit.Poller.Select.{poll_in}
use zero_tool_kit.Poller.Epoll.{EpollPoller, add, mod_events, del}
use zero_tool_kit.Poller.Epoll.Interest.{
  Follows, Turns, here, next, does_add, does_mod, does_del, Turns-Follows,
}

-- A new poller waits for its wake pipe.
abbrev fresh : EpollPoller
fresh = record {
  wake_r = 3;
  entries = record { fd = 3; events = poll_in; cb = 0; user = 0 } ∷ [];
  interest = λ g. if g == 3 then some 1 else none;
}

fresh-Follows : Follows fresh
fresh-Follows = record { distinct = (refl, tt); agrees = λ g. ground arith }

abbrev after : EpollPoller
after =
    (del (add true false (mod_events true (add true true fresh 7 1 100 200).1 7 3).1 9 1 100 201).1
      3).1

after-Turns : Turns fresh after
unfolding add mod_events del
after-Turns =
    next
      (next (next (next here (does_add true true 7 1 100 200 (inl refl) refl)) (does_mod 7 3 refl))
        (does_add true false 9 1 100 201 (inr refl) refl))
      (does_del 3 refl)

Turns-Follows_example : Follows after
Turns-Follows_example = Turns-Follows {p = fresh} {q = after} fresh-Follows after-Turns
