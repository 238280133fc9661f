-- ===== src/Net/RtpPort/Tests.antt =====
-- Runs of the port pool of src/net/rtp_port.c, and its theorems at concrete inputs.
use zero_tool_kit.Prelude.{◌+◌, ◌%◌, ◌≡◌, ◌≤◌, refl, true, some, [], ◌∷◌, count, arith}
use zero_tool_kit.Net.RtpPort.{RtpPortPool, create_range, fill, pool_push, pool_pop, acquire}
use zero_tool_kit.Net.RtpPort.Leases.{Step, Reach, here, next, acquire_exclusive}

-- The ports 100, 102 and 104.
abbrev three : RtpPortPool
three = record {
  range_start = 100;
  range_end = 104;
  free_ports = 104 ∷ 102 ∷ 100 ∷ [];
  free_cap = 64;
}

-- The same after one acquire.
abbrev two : RtpPortPool
two = record { range_start = 100; range_end = 104; free_ports = 102 ∷ 100 ∷ []; free_cap = 64 }

abbrev one : RtpPortPool
one = record { range_start = 100; range_end = 104; free_ports = 100 ∷ []; free_cap = 64 }

small_range : create_range (λ _. true) true 100 104 ≡ some (some three)
unfolding create_range fill pool_push
small_range = refl

-- A client holds 104.
leased :
    Reach (λ _. true) (record { pool = three; held = [] }) (record { pool = two; held = 104 ∷ [] })
unfolding acquire pool_pop
leased = next here (Step.take_port 104 105 two refl refl)

acquire_exclusive_example :
    (count 102 (104 ∷ []) ≡ 0) × (102 % 2 ≡ 0) × (100 ≤ 102) × (102 ≤ 104) × (103 ≡ 102 + 1)
unfolding acquire pool_pop
acquire_exclusive_example =
    acquire_exclusive (λ _. true) true 100 104 102 103 three one (ground arith) refl small_range
      leased refl
