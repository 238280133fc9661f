-- ===== src/Util/ByteBuf.antt =====
-- src/util/byte_buf.c: a growing byte buffer that keeps a 0 behind its content. The memory is a
-- function from index to byte, of which `capacity` bytes exist; what is in memory that was not
-- written is arbitrary, also after realloc. `realloc` says which request is granted.
pub mod Content
mod Tests
use zero_tool_kit.Prelude.{
  ℕ, zero, suc, ◌+◌, ◌*◌, ◌-◌, Bool, true, false, ◌&&◌, Option, none, some, List, [], ◌∷◌, get_or,
  length, ltb, leb, ◌==◌, if◌then◌else◌, u64,
}
use zero_tool_kit.Errno.{Err, ok, nomem}

pub record ByteBuf : Type 0 where
  pub memory : ℕ → ℕ
  pub size : ℕ
  pub capacity : ℕ

-- The two flags say whether calloc and malloc succeed; `memory` is what malloc's memory holds.
pub create : Bool → (ℕ → Bool) → (ℕ → ℕ) → ℕ → Option ByteBuf
create calloc_ok malloc memory initial_capacity =
    let b : ByteBuf = record { memory = memory; size = 0; capacity = initial_capacity } in
    if calloc_ok
    then (if ltb 0 initial_capacity
        then if malloc initial_capacity then some b else none
        else some b)
    else none

pub reserve : (ℕ → Bool) → ByteBuf → ℕ → Err × ByteBuf
reserve realloc b capacity =
    if leb capacity b.capacity
    then (ok, b)
    else if realloc capacity
    then (ok, record b { capacity = capacity })
    else (nomem, b)

-- `while (cap < need_cap) cap *= 2;` on size_t; `none` means that the fuel ran out.
pub grown : ℕ → ℕ → ℕ → Option ℕ
grown zero cap need_cap = none
grown (suc fuel) cap need_cap =
    let more = grown fuel (u64 (cap * 2)) need_cap in if ltb cap need_cap then more else some cap

-- `memcpy` of `bytes` to index `at`.
abbrev pub copied : (ℕ → ℕ) → ℕ → List ℕ → ℕ → ℕ
copied memory at bytes i =
    if leb at i && ltb i (at + length bytes) then get_or bytes (i - at) 0 else memory i

abbrev pub with_byte : (ℕ → ℕ) → ℕ → ℕ → ℕ → ℕ
with_byte memory at byte i = if i == at then byte else memory i

abbrev pub stored : ByteBuf → List ℕ → ByteBuf
stored b bytes =
    let new_size = u64 (b.size + length bytes) in
    record b { memory = with_byte (copied b.memory b.size bytes) new_size 0; size = new_size }

abbrev pub after_reserve : List ℕ → Err × ByteBuf → Err × ByteBuf
after_reserve bytes (Err.ok, b) = (ok, stored b bytes)
after_reserve bytes (e, b) = (e, b)

abbrev pub reserved : (ℕ → Bool) → ByteBuf → List ℕ → Option ℕ → Option (Err × ByteBuf)
reserved realloc b bytes none = none
reserved realloc b bytes (some cap) = some (after_reserve bytes (reserve realloc b cap))

-- 64 doublings take any capacity past every size_t; `none` is a loop that does not end.
pub append : (ℕ → Bool) → ByteBuf → List ℕ → Option (Err × ByteBuf)
append realloc b bytes =
    let need_cap = u64 (u64 (b.size + length bytes) + 1) in
    let growing =
      reserved realloc b bytes (grown 65 (if b.capacity == 0 then 64 else b.capacity) need_cap) in
    if length bytes == 0
    then some (ok, b)
    else if ltb b.capacity need_cap
    then growing
    else some (ok, stored b bytes)

-- A 0 at index 0 where there is memory.
abbrev pub emptied : ByteBuf → ByteBuf
emptied b = record b {
  memory = if b.capacity == 0 then b.memory else with_byte b.memory 0 0;
  size = 0;
}

pub clear : ByteBuf → ByteBuf
clear b = emptied b

-- `memmove` of the content from index `n` to the front, and the 0 behind it.
abbrev pub moved : ByteBuf → ℕ → ByteBuf
moved b n = record b {
  memory =
      with_byte (λ i. if ltb i (b.size - n) then b.memory (i + n) else b.memory i) (b.size - n) 0;
  size = b.size - n;
}

pub erase_front : ByteBuf → ℕ → ByteBuf
erase_front b n = if n == 0 then b else if leb b.size n then emptied b else moved b n
