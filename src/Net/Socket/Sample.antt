-- ===== src/Net/Socket/Sample.antt =====
-- src/net/socket.c: pollers before any call, for the tests of the sockets and of what uses them.
use zero_tool_kit.Prelude.{ℕ, refl, some, [], ◌∷◌, arith}
use zero_tool_kit.Poller.Select.{Poller, poll_in}
use zero_tool_kit.Net.Socket.Calls.{IsUnknown}

-- Every poller has its wake pipe only.
abbrev pub idle_pollers : ℕ → Poller
idle_pollers p = record {
  wake_r = 3;
  wake_w = some 4;
  entries = record { fd = 3; events = poll_in; cb = 0; user = 0 } ∷ [];
}

pub idle_pollers-IsUnknown : IsUnknown 100 idle_pollers
idle_pollers-IsUnknown p =
    (record { distinct = (refl, tt); wake_last = λ d. refl }, λ g e there mine. ground arith)
