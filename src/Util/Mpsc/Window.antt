-- ===== src/Util/Mpsc/Window.antt =====
-- src/util/mpsc.c: positions and slots.
use Prim.Native.Nat.{bit_and}
use native.Mathlib.Nat.{add-mod_right}
use zero_tool_kit.Prelude.{
  ℕ, ◌+◌, ◌-◌, ◌%◌, ◌≤◌, ◌<◌, ◌≡◌, ◌≢◌, sym, ap, ◌∙◌, Bool, true, some, arith, bit_and-mask,
  mod-apart,
}
use zero_tool_kit.Util.Mpsc.{Queue, is_pow2, create, slot}

-- The mask takes the remainder by the capacity.
pub record IsMasked (cap mask : ℕ) : Type 0 where
  pub at_least_two : 2 ≤ cap
  pub size : mask + 1 ≡ cap
  pub remainder : (pos : ℕ) → bit_and pos mask ≡ pos % cap

-- A queue that `create` returns has such a mask, is empty, and each cell is free for its own
-- position.
pub create-IsMasked :
    (calloc_queue calloc_cells : Bool) (cap : ℕ) {q : Queue}
    → create calloc_queue calloc_cells cap ≡ some q
    → IsMasked q.cap q.mask × (q.cap ≡ cap) × (q.head ≡ 0) × (q.tail ≡ 0) × (q.seq ≡ λ s. s)
unfolding create
create-IsMasked calloc_queue calloc_cells cap {q} e =
    let power : is_pow2 cap ≡ true = ground arith in
    let two : 2 ≤ cap = ground arith in
    let zero_bits : bit_and cap (cap - 1) ≡ 0 = ground arith in
    let c : q.cap ≡ cap = ground arith in
    let m : q.mask ≡ cap - 1 = ground arith in
    (
      record {
        at_least_two = omega arith;
        size = omega arith;
        remainder =
            λ pos. rw (c, m) (bit_and-mask cap cap pos (omega arith) (omega arith) zero_bits);
      },
      c,
      ground arith,
      ground arith,
      ap (λ r. r) (ground arith),
    )

module _ (cap mask : ℕ) (v : IsMasked cap mask) where
  pub slot-apart : (a b : ℕ) → a < b → b < a + cap → slot mask a ≢ slot mask b
  unfolding slot
  slot-apart a b lt near e = mod-apart a b cap lt near (sym (v.remainder a) ∙ e ∙ v.remainder b)

  pub slot-wraps : (a : ℕ) → slot mask (a + cap) ≡ slot mask a
  unfolding slot
  slot-wraps a = v.remainder (a + cap) ∙ add-mod_right a cap ∙ sym (v.remainder a)
