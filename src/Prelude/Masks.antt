-- ===== src/Prelude/Masks.antt =====
-- Masking with a power of two less one, as ring buffers do it.
use Prim.Native.Nat.{
  ℕ, zero, suc, ◌+◌, ◌-◌, ◌*◌, ◌/◌, ◌%◌, ◌≤◌, ◌<◌, min, bit_and, digits, bit_and-bitwise,
}
use mathlib.Core.Path.{◌≡◌, refl, sym, ap, ◌∙◌}
use mathlib.Core.Logic.{◌≢◌, ◌⊎◌, inl, inr}
use native.Mathlib.Omega.{arith}
use native.Mathlib.Nat.{
  mod-add-div, mod-lt, mod-eq_of_lt, mul-add-mod_self_left, add-mod-mod, mod-eq-sub-mod,
}
use zero_tool_kit.Prelude.Tests.{◌==◌, ltb, ltb→lt, Bool-cases}

-- Fuel beyond the first number changes nothing.
fuel_free :
    (f g x mask : ℕ) → x ≤ f → x ≤ g → digits (λ _. 0) min f x mask ≡ digits (λ _. 0) min g x mask
fuel_free zero zero zero mask le le' = refl
fuel_free zero zero (suc x) mask le le' = refl
fuel_free zero (suc g) zero mask le le' = refl
fuel_free zero (suc g) (suc x) mask le le' = absurd (omega arith)
fuel_free (suc f) zero zero mask le le' = refl
fuel_free (suc f) zero (suc x) mask le le' = absurd (omega arith)
fuel_free (suc f) (suc g) zero mask le le' = refl
fuel_free (suc f) (suc g) (suc x) mask le le' =
    ap (λ h. h * 2 + min (suc x % 2) (mask % 2))
      (fuel_free f g (suc x / 2) (mask / 2) (omega arith) (omega arith))

-- The lowest digit of the conjunction, and the others.
bit_and-halves :
    (x mask : ℕ) → bit_and x mask ≡ bit_and (x / 2) (mask / 2) * 2 + min (x % 2) (mask % 2)
bit_and-halves zero mask = omega (arith, bit_and-bitwise 0 mask, bit_and-bitwise (0 / 2) (mask / 2))
bit_and-halves (suc x) mask =
    bit_and-bitwise (suc x) mask
    ∙ ap (λ h. h * 2 + min (suc x % 2) (mask % 2))
        (fuel_free x (suc x / 2) (suc x / 2) (mask / 2) (omega arith) (omega arith)
          ∙ sym (bit_and-bitwise (suc x / 2) (mask / 2)))

bit_and-none : (fuel x : ℕ) → x ≤ fuel → bit_and x 0 ≡ 0
bit_and-none zero zero le = bit_and-bitwise 0 0
bit_and-none zero (suc x) le = absurd (omega arith)
bit_and-none (suc fuel) zero le = bit_and-bitwise 0 0
bit_and-none (suc fuel) (suc x) le =
    omega (arith, bit_and-halves (suc x) 0, bit_and-none fuel (suc x / 2) (omega arith))

bit_and_same : (fuel x : ℕ) → x ≤ fuel → bit_and x x ≡ x
bit_and_same zero zero le = bit_and-bitwise 0 0
bit_and_same zero (suc x) le = absurd (omega arith)
bit_and_same (suc fuel) zero le = bit_and-bitwise 0 0
bit_and_same (suc fuel) (suc x) le =
    omega (arith, bit_and-halves (suc x) (suc x), bit_and_same fuel (suc x / 2) (omega arith))

-- The remainder by twice `m` from the remainder of the half by `m`.
mod-double : (x m : ℕ) → 0 < m → x % (2 * m) ≡ x / 2 % m * 2 + x % 2
mod-double x m pos =
    let q : ℕ = x / 2 / m in
    let r : ℕ = x / 2 % m * 2 + x % 2 in
    let whole : x ≡ 2 * m * q + r =
      omega (arith, ap (λ (k : ℕ). 2 * k) (mod-add-div (x / 2) m), shift m q) in
    let small : r < 2 * m = omega (arith, mod-lt (x / 2) pos) in
    ap (λ k. k % (2 * m)) whole ∙ mul-add-mod q r ∙ mod-eq_of_lt small
  where
    shift : (m q : ℕ) → 2 * (m * q) ≡ 2 * m * q
    shift m q = grind arith

    mul-add-mod : (q r : ℕ) → (2 * m * q + r) % (2 * m) ≡ r % (2 * m)
    mul-add-mod q r = mul-add-mod_self_left (2 * m) q r

-- A number with `n & (n - 1)` 0 is 1, or twice such a number.
power_half :
    (n : ℕ)
    → 0 < n
    → bit_and n (n - 1) ≡ 0
    → (n ≡ 1) ⊎ ((0 < n / 2) × (n ≡ 2 * (n / 2)) × (bit_and (n / 2) (n / 2 - 1) ≡ 0))
power_half n pos power = elim (Bool-cases (n % 2 == 0)) [
  | inl even ↦
      let e : (n - 1) / 2 ≡ n / 2 - 1 = ground arith in
      let low : bit_and (n / 2) ((n - 1) / 2) ≡ 0 = omega (arith, bit_and-halves n (n - 1)) in
      inr (ground arith, ground arith, rw e at low)
  | inr odd ↦
      let e : (n - 1) / 2 ≡ n / 2 = ground arith in
      let same : bit_and (n / 2) ((n - 1) / 2) ≡ n / 2 =
        ap (bit_and (n / 2)) e ∙ bit_and_same (n / 2) (n / 2) (omega arith) in
      inl (ground (arith, bit_and-halves n (n - 1), same))
]

-- `n & (n - 1)` is 0 just for powers of two (and 0), and then `x & (n - 1)` is the remainder.
pub bit_and-mask :
    (fuel n x : ℕ) → n ≤ fuel → 0 < n → bit_and n (n - 1) ≡ 0 → bit_and x (n - 1) ≡ x % n
bit_and-mask zero n x le pos power = absurd (omega arith)
bit_and-mask (suc fuel) n x le pos power = elim (power_half n pos power) [
  | inl one ↦ rw one (bit_and-none x x (omega arith) ∙ omega arith)
  | inr (pos', even, power') ↦
      let m : ℕ = n / 2 in
      let e : (n - 1) / 2 ≡ m - 1 = omega arith in
      let half : bit_and (x / 2) ((n - 1) / 2) ≡ x / 2 % m =
        ap (bit_and (x / 2)) e ∙ bit_and-mask fuel m (x / 2) (omega arith) pos' power' in
      let parts : bit_and x (n - 1) ≡ x / 2 % m * 2 + x % 2 =
        omega (arith, bit_and-halves x (n - 1), half) in
      parts ∙ sym (mod-double x m pos') ∙ ap (λ k. x % k) (sym even)
]

-- Two positions less than the size apart do not share a slot.
pub mod-apart : (a b n : ℕ) → a < b → b < a + n → a % n ≢ b % n
mod-apart a b n lt near e =
    let d : ℕ = b - a in
    let r : ℕ = a % n in
    let small : r < n = mod-lt a (omega arith) in
    let sum : (d + r) % n ≡ r = add-mod-mod d a n ∙ ap (λ k. k % n) (omega arith) ∙ sym e in
    elim (Bool-cases (ltb (d + r) n)) [
      | inl inside ↦ omega (arith, mod-eq_of_lt (ltb→lt _ _ inside), sum)
      | inr past ↦
          let le : n ≤ d + r = ground arith in
          let less : d + r - n < n = omega arith in
          omega (arith, mod-eq-sub-mod le, mod-eq_of_lt less, sum)
    ]
