-- ===== src/Prelude/Words.antt =====
-- Machine words: C's unsigned types as numbers, with the wrap-around written out.
use Prim.Native.Nat.{ℕ, ◌%◌, ◌^◌, ◌+◌, ◌-◌}

abbrev pub u16 : ℕ → ℕ
u16 n = n % 2 ^ 16

abbrev pub u32 : ℕ → ℕ
u32 n = n % 2 ^ 32

abbrev pub u64 : ℕ → ℕ
u64 n = n % 2 ^ 64

-- `a - b` on uint64_t, for `b < 2 ^ 64`: `-` on ℕ stops at 0, so the modulus is added first.
abbrev pub sub64 : ℕ → ℕ → ℕ
sub64 a b = (a + 2 ^ 64 - b) % 2 ^ 64
