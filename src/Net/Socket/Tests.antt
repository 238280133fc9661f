-- ===== src/Net/Socket/Tests.antt =====
-- src/net/socket.c: a socket that connects, is attached, and is told that it is connected.
use zero_tool_kit.Prelude.{◌≡◌, refl, true, false, some, arith}
use zero_tool_kit.Errno.{ok}
use zero_tool_kit.Poller.Select.{add}
use zero_tool_kit.Net.Socket.{
  World, Callbacks, connect, attach_poller, destroy, detach_poller, close_fd, ensure_sockplat,
}
use zero_tool_kit.Net.Socket.Tied.{Tied}
use zero_tool_kit.Net.Socket.Calls.{
  Reach, here, next, does_connect, does_attach, start, IsUnknown, entry_follows, destroy-IsUnknown,
}
use zero_tool_kit.Net.Socket.Once.{closed_once}
use zero_tool_kit.Net.Socket.Dispatch.{dispatch}
use zero_tool_kit.Net.Socket.Sample.{idle_pollers, idle_pollers-IsUnknown}
use zero_tool_kit.Net.Socket.Settles.{Settled, IsWritableEvent, connect_settles}

abbrev all_callbacks : Callbacks
all_callbacks = record { on_readable = true; on_writable = true; on_error = true }

-- A connection attempt on descriptor 7, watched by poller 2.
abbrev connecting : World
connecting =
    (attach_poller true (some 2) (some all_callbacks) 55
      (connect ok true (ok, 7) true (start 100 idle_pollers false)).1).1

connecting-Reach : Reach (start 100 idle_pollers false) connecting
connecting-Reach =
    next (next here (does_connect ok true (ok, 7) true (λ p. omega arith) refl))
      (does_attach true (some 2) (some all_callbacks) 55 refl)

entry_follows_example : Tied connecting
entry_follows_example =
    entry_follows 100 idle_pollers false {t = connecting} idle_pollers-IsUnknown connecting-Reach

connecting-Tied : Tied connecting
connecting-Tied =
    entry_follows 100 idle_pollers false {t = connecting} idle_pollers-IsUnknown connecting-Reach

destroy-IsUnknown_example : IsUnknown (destroy connecting).sock.addr (destroy connecting).pollers
destroy-IsUnknown_example =
    destroy-IsUnknown 100 idle_pollers false {t = connecting} idle_pollers-IsUnknown
      connecting-Reach

closed_once_example : (destroy connecting).closed ≡ connecting.taken
closed_once_example = closed_once 100 idle_pollers false {t = connecting} connecting-Reach

connecting-IsWritableEvent : IsWritableEvent 7 3 connecting
unfolding attach_poller connect ensure_sockplat add detach_poller close_fd
connecting-IsWritableEvent = record {
  ours = refl;
  no_error = refl;
  can_write = refl;
  waiting = refl;
}

connecting_attached : connecting.sock.attached ≡ true
unfolding attach_poller connect ensure_sockplat add detach_poller close_fd
connecting_attached = refl

connect_settles_example : Settled 7 3 connecting (dispatch 7 3 ok connecting)
connect_settles_example =
    connect_settles 7 3 connecting connecting-Tied connecting_attached connecting-IsWritableEvent
