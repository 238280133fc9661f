-- ===== src/Util/ByteBuf/Content.antt =====
-- src/util/byte_buf.c: the content of a buffer after each operation.
use zero_tool_kit.Prelude.{
  ℕ, zero, suc, ◌+◌, ◌*◌, ◌-◌, ◌^◌, ◌≤◌, ◌<◌, ◌≡◌, ◌⊎◌, inl, inr, Bool, true, false, some, List,
  get_or, length, ltb, leb, ◌==◌, if◌then◌else◌, u64, arith, refl, Bool-cases, ap, ◌∙◌,
}
use zero_tool_kit.Errno.{ok}
use zero_tool_kit.Util.ByteBuf.{ByteBuf, reserve, grown, append, erase_front, stored}

-- The content and the 0 behind it fit, or nothing was ever allocated.
pub record IsValid (b : ByteBuf) : Type 0 where
  pub room : b.size < b.capacity ⊎ (b.size ≡ 0)
  pub ended : 0 < b.size → b.memory b.size ≡ 0
  pub small : b.capacity < 2 ^ 63

abbrev doubled : ℕ → ℕ → ℕ
doubled zero cap = cap
doubled (suc n) cap = doubled n (cap * 2)

doubled_mono : (n a b : ℕ) → a ≤ b → doubled n a ≤ doubled n b
doubled_mono zero a b h = h
doubled_mono (suc n) a b h = doubled_mono n (a * 2) (b * 2) (omega arith)

grown_lem :
    (n cap need : ℕ)
    → 0 < cap
    → need ≤ doubled n cap
    → need ≤ 2 ^ 63
    → (c : ℕ) × (grown (suc n) cap need ≡ some c) × (need ≤ c) × ((c ≡ cap) ⊎ (c < 2 * need))
unfolding grown
grown_lem zero cap need pos le small = (cap, ground arith, le, inl refl)
grown_lem (suc n) cap need pos le small = elim (Bool-cases (ltb cap need)) [
  | inr enough ↦ (cap, rw enough refl, ground arith, inl refl)
  | inl short ↦
      let e : u64 (cap * 2) ≡ cap * 2 = ground arith in
      let (c, got, fits, bound) = grown_lem n (cap * 2) need (omega arith) le small in
      let step : grown (suc (suc n)) cap need ≡ grown (suc n) (cap * 2) need =
        rw short (ap (λ x. grown (suc n) x need) e) in
      (c, step ∙ got, fits, ground arith)
]

-- What an append of `bytes` to `b` gives: their number is added to the size, the old content is
-- kept, the bytes follow, and a 0 follows them.
pub record Appended (b : ByteBuf) (bytes : List ℕ) (c : ByteBuf) : Type 0 where
  pub valid : IsValid c
  pub size : c.size ≡ b.size + length bytes
  pub kept : (i : ℕ) → i < b.size → c.memory i ≡ b.memory i
  pub added : (i : ℕ) → i < length bytes → c.memory (b.size + i) ≡ get_or bytes i 0

stored-Appended :
    (b : ByteBuf) (bytes : List ℕ)
    → b.size + length bytes < b.capacity
    → b.capacity < 2 ^ 63
    → Appended b bytes (stored b bytes)
stored-Appended b bytes room small = record {
  valid = record { room = ground arith; ended = λ pos. ground arith; small = small };
  size = ground arith;
  kept = λ i inside. ground arith;
  added = λ i inside. rw (offset i) (ground arith);
}
  where
    offset : (i : ℕ) → b.size + i - b.size ≡ i
    offset i = omega arith

-- With memory, an append of some bytes to a valid buffer of up to 2 ^ 61 bytes ends with ZTK_OK,
-- and the buffer then holds its old content, then the bytes, then a 0.
pub append-Appended :
    (realloc : ℕ → Bool) (b : ByteBuf) (bytes : List ℕ)
    → ((n : ℕ) → realloc n ≡ true)
    → IsValid b
    → 0 < length bytes
    → b.size + length bytes < 2 ^ 61
    → (c : ByteBuf) × (append realloc b bytes ≡ some (ok, c)) × Appended b bytes c
unfolding append reserve
append-Appended realloc b bytes mem v some_bytes small =
    let e : u64 (u64 (b.size + length bytes) + 1) ≡ b.size + length bytes + 1 = omega arith in
    let full : (length bytes == 0) ≡ false = ground arith in
    rw (full, e)
      (elim (Bool-cases (ltb b.capacity (b.size + length bytes + 1))) [
        | inr room ↦ rw room (stored b bytes, refl, stored-Appended b bytes (ground arith) v.small)
        | inl short ↦
            let old : ℕ = if b.capacity == 0 then 64 else b.capacity in
            let (c, got, fits, bound) =
              grown_lem 64 old (b.size + length bytes + 1) (ground arith)
                (past old (ground arith) (b.size + length bytes + 1) (omega arith)) (omega arith) in
            let larger : leb c b.capacity ≡ false = ground arith in
            let d : ByteBuf = record b { capacity = c } in
            rw (short, got, larger, mem c)
              (stored d bytes, refl, go (stored-Appended d bytes (omega arith) (ground arith)))
      ])
  where
    past : (old : ℕ) → 0 < old → (need : ℕ) → need < 2 ^ 63 → need ≤ doubled 64 old
    past old pos need le = omega (arith, doubled_mono 64 1 old (omega arith))

    go :
        {c : ℕ}
        → Appended (record b { capacity = c }) bytes (stored (record b { capacity = c }) bytes)
        → Appended b bytes (stored (record b { capacity = c }) bytes)
    go a = record { valid = a.valid; size = a.size; kept = a.kept; added = a.added }

-- Erasing from the front drops that many bytes of the content, or all, and shifts the rest; the
-- buffer stays valid.
pub erase_front_lem :
    (b : ByteBuf) (n i : ℕ)
    → IsValid b
    → i < b.size - n
    → let c = erase_front b n in (c.size ≡ b.size - n) × (c.memory i ≡ b.memory (i + n)) × IsValid c
unfolding erase_front
erase_front_lem b n i v inside = (
  ground arith,
  ground arith,
  record {
    room = ground (arith, v.room);
    ended = λ pos. ground (arith, v.ended);
    small = ground (arith, v.small);
  },
)
