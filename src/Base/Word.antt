-- ===== src/Base/Word.antt =====
-- `u32` arithmetic that wraps, and masks of low bits.
use Prim.Native.Nat.{
  ℕ, zero, suc, ◌+◌, ◌-◌, ◌*◌, ◌/◌, ◌%◌, ◌^◌, ◌≤◌, ◌<◌, min, bit_and, digits, bit_and-bitwise,
}
use mathlib.Core.Path.{◌≡◌, refl, sym, ◌∙◌, ap}
use native.Mathlib.Nat.{
  one-le-pow, two-pow-succ, zero-div, div-div-eq-div-mul, mod-lt, mod-eq_of_lt, div-add-mod,
  add-mul-mod_self_left,
}
use native.Mathlib.Omega.{arith}

abbrev pub u32_mod : ℕ
u32_mod = 2 ^ 32

abbrev pub u32_max : ℕ
u32_max = 2 ^ 32 - 1

-- `a.wrapping_add(b)` and `a.wrapping_sub(b)` on `u32`.
abbrev pub add_u32 : ℕ → ℕ → ℕ
add_u32 a b = (a + b) % u32_mod

abbrev pub sub_u32 : ℕ → ℕ → ℕ
sub_u32 a b = (a + u32_mod - b) % u32_mod

-- The digits of `a`, kept where `b` has a one, with fuel.
masked : ℕ → ℕ → ℕ → ℕ
masked n a b = digits (λ b. zero) min n a b

-- One more digit of a remainder.
mod_double : (p x : ℕ) → 0 < p → x / 2 % p * 2 + x % 2 ≡ x % (2 * p)
mod_double p x h =
    let r : ℕ = x / 2 % p * 2 + x % 2 in
    let whole : r + 2 * p * (x / 2 / p) ≡ x = grind (arith, div-add-mod (x / 2) p) in
    let small : r < 2 * p = omega (arith, mod-lt (x / 2) h) in
    sym (mod-eq_of_lt small)
    ∙ sym (add-mul-mod_self_left r (2 * p) (x / 2 / p))
    ∙ ap (λ y. y % (2 * p)) whole

-- The digits of `a` under a mask of `k` ones are its remainder.
masked_pow : (n k a : ℕ) → a ≤ n → masked n a (2 ^ k - 1) ≡ a % 2 ^ k
unfolding masked
masked_pow zero k a h = omega (arith, one-le-pow k 2 (omega arith))
masked_pow (suc n) k zero h = omega (arith, one-le-pow k 2 (omega arith))
masked_pow (suc n) zero (suc a) h = omega (arith, masked_pow n 0 (suc a / 2) (omega arith))
masked_pow (suc n) (suc k) (suc a) h =
    let p : ℕ = 2 ^ k in
    let pos : 0 < p = one-le-pow k 2 (omega arith) in
    let twice : 2 ^ suc k ≡ 2 * p = omega (arith, two-pow-succ k) in
    let half : (2 ^ suc k - 1) / 2 ≡ p - 1 = omega arith in
    let odd : (2 ^ suc k - 1) % 2 ≡ 1 = omega arith in
    rw (half, odd, masked_pow n k (suc a / 2) (omega arith), twice, ← mod_double p (suc a) pos)
      (omega arith)

-- `a & mask`, where `mask + 1` is a power of two, is the remainder.
pub bit_and_mask : (k a : ℕ) → bit_and a (2 ^ k - 1) ≡ a % 2 ^ k
unfolding masked
bit_and_mask k a = bit_and-bitwise a (2 ^ k - 1) ∙ masked_pow a k a (omega arith)

masked_zero : (n a : ℕ) → masked n a 0 ≡ 0
unfolding masked
masked_zero zero a = refl
masked_zero (suc n) zero = refl
masked_zero (suc n) (suc a) = omega (arith, masked_zero n (suc a / 2))

masked_bit : (n k a : ℕ) → a ≤ n → masked n a (2 ^ k) ≡ a / 2 ^ k % 2 * 2 ^ k
unfolding masked
masked_bit zero k zero h = rw zero-div (omega arith)
masked_bit zero k (suc a) h = absurd (omega arith)
masked_bit (suc n) k zero h = rw zero-div (omega arith)
masked_bit (suc n) zero (suc a) h = omega (arith, masked_zero n (suc a / 2))
masked_bit (suc n) (suc k) (suc a) h =
    let p : ℕ = 2 ^ k in
    let pos : 0 < p = one-le-pow k 2 (omega arith) in
    let twice : 2 ^ suc k ≡ 2 * p = omega (arith, two-pow-succ k) in
    let half : 2 ^ suc k / 2 ≡ p = omega arith in
    let even : 2 ^ suc k % 2 ≡ 0 = omega arith in
    rw (half, even, masked_bit n k (suc a / 2) (omega arith), twice)
      (rw div-div-eq-div-mul (grind arith))

-- `a & (1 << k)` is the `k`-th digit, in its place.
pub bit_and_bit : (k a : ℕ) → bit_and a (2 ^ k) ≡ a / 2 ^ k % 2 * 2 ^ k
unfolding masked
bit_and_bit k a = bit_and-bitwise a (2 ^ k) ∙ masked_bit a k a (omega arith)

pub zero-bit_and : (b : ℕ) → bit_and 0 b ≡ 0
zero-bit_and b = bit_and-bitwise 0 b
