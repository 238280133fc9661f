-- ===== src/Net/TcpClient/Tests.antt =====
-- src/net/tcp_client.c: a client that connects, sends and fails.
use zero_tool_kit.Prelude.{
  ℕ, ◌+◌, ◌*◌, ◌≡◌, ◌≢◌, inr, refl, true, false, some, none, List, [], ◌∷◌, ◌++◌, length, arith,
}
use zero_tool_kit.Errno.{ok}
use zero_tool_kit.Net.TcpSession.{Reply, takes}
use zero_tool_kit.Net.Socket.Sample.{idle_pollers, idle_pollers-IsUnknown}
use zero_tool_kit.Net.TcpClient.{Client, create, connect_client, send, bytes}
use zero_tool_kit.Net.TcpClient.States.{IsSpoken, Arrival, arrive}
use zero_tool_kit.Net.TcpClient.Send.{IsWilling, client_send, client_send_succeeds}
use zero_tool_kit.Net.TcpClient.Life.{client_tells}

-- A descriptor that can be written to, then read twice, the end of the stream at last.
abbrev three_events : List Arrival
three_events =
    record { fd = 7; events = 2; check = ok; received = bytes [] }
    ∷ record { fd = 7; events = 1; check = ok; received = bytes (5 ∷ []) }
    ∷ record { fd = 7; events = 1; check = ok; received = bytes [] }
    ∷ []

client_tells_example : IsSpoken [] (
    arrive three_events
      (connect_client ok true (ok, 7) true true 900 (create 100 idle_pollers false 2)).1)
client_tells_example =
    client_tells 100 900 2 idle_pollers false ok true (ok, 7) true true three_events
      idle_pollers-IsUnknown (λ p. omega arith)

-- A socket that takes one byte at every send.
abbrev one_each : ℕ → Reply
one_each k = takes 1

abbrev working : Client
working = record (create 100 idle_pollers false 2) { connected = true }

one_each-IsWilling : IsWilling one_each
one_each-IsWilling = record {
  no_failure = λ k. inr (0, refl);
  soon = λ k. (0, omega arith, λ e. cc);
}

client_send_example :
    ((send (65 * length {A = ℕ} (8 ∷ 9 ∷ []) + 65) one_each working (8 ∷ 9 ∷ [])).status ≢ none)
    × ((send (65 * length {A = ℕ} (8 ∷ 9 ∷ []) + 65) one_each working (8 ∷ 9 ∷ [])).wire
          ++ (send (65 * length {A = ℕ} (8 ∷ 9 ∷ []) + 65) one_each working (8 ∷ 9 ∷ [])).left
        ≡ 8 ∷ 9 ∷ [])
    × ((send (65 * length {A = ℕ} (8 ∷ 9 ∷ []) + 65) one_each working (8 ∷ 9 ∷ [])).status ≡ some ok
        → (send (65 * length {A = ℕ} (8 ∷ 9 ∷ []) + 65) one_each working (8 ∷ 9 ∷ [])).left ≡ [])
client_send_example = client_send one_each working (8 ∷ 9 ∷ []) (λ j e. cc)

working_connected : working.connected ≡ true
unfolding create
working_connected = refl

working_open : working.closing ≡ false
unfolding create
working_open = refl

client_send_succeeds_example :
    ((send (65 * length {A = ℕ} (8 ∷ 9 ∷ []) + 65) one_each working (8 ∷ 9 ∷ [])).status ≡ some ok)
    × ((send (65 * length {A = ℕ} (8 ∷ 9 ∷ []) + 65) one_each working (8 ∷ 9 ∷ [])).wire
        ≡ 8 ∷ 9 ∷ [])
client_send_succeeds_example =
    client_send_succeeds one_each working (8 ∷ 9 ∷ []) one_each-IsWilling working_connected
      working_open (omega arith)
