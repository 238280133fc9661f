-- ===== src/Net/UdpClient/Tests.antt =====
-- src/net/udp_client.c: a client that is started with a peer and sends.
use zero_tool_kit.Prelude.{ℕ, ◌≡◌, refl, true, false, Option, some, List, [], ◌∷◌, take, length}
use zero_tool_kit.Errno.{ok}
use zero_tool_kit.Poller.Select.{add}
use zero_tool_kit.Net.Socket.{
  is_ok, bind_udp_ex, attach_poller, ensure_sockplat, detach_poller, close_fd,
}
use zero_tool_kit.Net.Socket.Guards.{Moved, moved}
use zero_tool_kit.Net.Socket.Sample.{idle_pollers}
use zero_tool_kit.Net.UdpClient.{
  UdpClient, create, start, bind_and_attach, send, status_of, packet, on_packet, on_error,
  on_readable, receive,
}
use zero_tool_kit.Net.UdpClient.Started.{start-send}

abbrev fresh : UdpClient
fresh = create 100 idle_pollers false 2

-- A platform that takes every message.
abbrev takes_all : Option ℕ → List ℕ → List ℕ → ℕ → Moved
takes_all fd msg host port = moved (length msg)

fresh_starts : is_ok (start ok (ok, 9) true 900 (some (49 ∷ 50 ∷ [])) 5004 fresh).0 ≡ true
unfolding start bind_and_attach create bind_udp_ex attach_poller ensure_sockplat detach_poller
    close_fd add
fresh_starts = refl

start-send_example :
    send takes_all (start ok (ok, 9) true 900 (some (49 ∷ 50 ∷ [])) 5004 fresh).1 (1 ∷ 2 ∷ [])
    ≡ status_of (takes_all (some 9) (1 ∷ 2 ∷ []) (take 63 (49 ∷ 50 ∷ [])) 5004)
start-send_example =
    start-send takes_all ok (ok, 9) true 900 49 5004 (50 ∷ []) (1 ∷ 2 ∷ []) fresh fresh_starts

-- An empty datagram is taken for an error, and the next one is not read.
empty_datagram :
    (on_readable true (packet (7 ∷ []) ∷ packet [] ∷ packet (8 ∷ []) ∷ []) fresh).log
    ≡ on_packet (7 ∷ []) ∷ on_error ∷ []
unfolding on_readable receive create
empty_datagram = refl
