-- ===== src/Base/Bits.antt =====
-- Unions of flag words: what a mask does not find in two words, it does not find in their union.
use Prim.Native.Nat.{
  ℕ, zero, suc, ◌+◌, ◌*◌, ◌/◌, ◌%◌, ◌≤◌, min, max, bit_and, bit_or, digits, bit_and-bitwise,
  bit_or-bitwise,
}
use mathlib.Core.Path.{◌≡◌, refl, sym, ◌∙◌, ap}
use native.Mathlib.Omega.{arith}

-- More fuel than digits changes nothing.
digits_fuel :
    (z : ℕ → ℕ) (f : ℕ → ℕ → ℕ) (n m a b : ℕ) → a ≤ n → a ≤ m → digits z f n a b ≡ digits z f m a b
digits_fuel z f zero zero zero b h k = refl
digits_fuel z f zero zero (suc a) b h k = absurd (omega arith)
digits_fuel z f zero (suc m) zero b h k = refl
digits_fuel z f zero (suc m) (suc a) b h k = absurd (omega arith)
digits_fuel z f (suc n) zero zero b h k = refl
digits_fuel z f (suc n) zero (suc a) b h k = absurd (omega arith)
digits_fuel z f (suc n) (suc m) zero b h k = refl
digits_fuel z f (suc n) (suc m) (suc a) b h k =
    let rest = digits_fuel z f n m (suc a / 2) (b / 2) (omega arith) (omega arith) in
    ap (λ x. x * 2 + f (suc a % 2) (b % 2)) rest

-- The lowest digit, and the others.
bit_and_step : (a b : ℕ) → bit_and a b ≡ bit_and (a / 2) (b / 2) * 2 + min (a % 2) (b % 2)
bit_and_step zero b =
    let whole : bit_and 0 b ≡ 0 = bit_and-bitwise 0 b in
    let half : bit_and 0 (b / 2) ≡ 0 = bit_and-bitwise 0 (b / 2) in omega arith
bit_and_step (suc a) b =
    let rest =
      digits_fuel (λ x. zero) min a (suc a / 2) (suc a / 2) (b / 2) (omega arith) (omega arith) in
    bit_and-bitwise (suc a) b
    ∙ ap (λ x. x * 2 + min (suc a % 2) (b % 2)) (rest ∙ sym (bit_and-bitwise (suc a / 2) (b / 2)))

bit_or_step : (a b : ℕ) → bit_or a b ≡ bit_or (a / 2) (b / 2) * 2 + max (a % 2) (b % 2)
bit_or_step zero b =
    let whole : bit_or 0 b ≡ b = bit_or-bitwise 0 b in
    let half : bit_or 0 (b / 2) ≡ b / 2 = bit_or-bitwise 0 (b / 2) in omega arith
bit_or_step (suc a) b =
    let rest =
      digits_fuel (λ x. x) max a (suc a / 2) (suc a / 2) (b / 2) (omega arith) (omega arith) in
    bit_or-bitwise (suc a) b
    ∙ ap (λ x. x * 2 + max (suc a % 2) (b % 2)) (rest ∙ sym (bit_or-bitwise (suc a / 2) (b / 2)))

-- With fuel for the digits of both words.
distribute :
    (n a b c : ℕ) → a ≤ n → b ≤ n → bit_and (bit_or a b) c ≡ bit_or (bit_and a c) (bit_and b c)
distribute zero a b c h k =
    let nothing : a ≡ 0 = omega arith in
    let nothing' : b ≡ 0 = omega arith in
    let none : bit_and 0 c ≡ 0 = bit_and-bitwise 0 c in rw (nothing, nothing', none) refl
distribute (suc n) a b c h k =
    let low = bit_and_step a c in
    let low' = bit_and_step b c in
    let or = bit_or_step a b in
    let half : bit_or a b / 2 ≡ bit_or (a / 2) (b / 2) = omega arith in
    let odd : bit_or a b % 2 ≡ max (a % 2) (b % 2) = omega arith in
    let left : bit_and a c / 2 ≡ bit_and (a / 2) (c / 2) = omega arith in
    let left' : bit_and a c % 2 ≡ min (a % 2) (c % 2) = omega arith in
    let right : bit_and b c / 2 ≡ bit_and (b / 2) (c / 2) = omega arith in
    let right' : bit_and b c % 2 ≡ min (b % 2) (c % 2) = omega arith in
    let rest = distribute n (a / 2) (b / 2) (c / 2) (omega arith) (omega arith) in
    let digit : min (max (a % 2) (b % 2)) (c % 2)
        ≡ max (min (a % 2) (c % 2)) (min (b % 2) (c % 2)) =
      omega arith in
    let whole = bit_or_step (bit_and a c) (bit_and b c) in
    bit_and_step (bit_or a b) c
    ∙ rw (half, odd, rest, digit) (sym (whole ∙ rw (left, left', right, right') refl))

pub bit_and-bit_or : (a b c : ℕ) → bit_and (bit_or a b) c ≡ bit_or (bit_and a c) (bit_and b c)
bit_and-bit_or a b c = distribute (a + b) a b c (omega arith) (omega arith)

pub bit_or_disjoint : (a b c : ℕ) → bit_and a c ≡ 0 → bit_and b c ≡ 0 → bit_and (bit_or a b) c ≡ 0
bit_or_disjoint a b c none none' = rw (bit_and-bit_or a b c, none, none') refl

absorb : (n a b : ℕ) → a ≤ n → b ≤ n → bit_and (bit_or a b) a ≡ a
absorb zero a b h k =
    let nothing : a ≡ 0 = omega arith in
    let nothing' : b ≡ 0 = omega arith in rw (nothing, nothing') (bit_and-bitwise 0 0)
absorb (suc n) a b h k =
    let or = bit_or_step a b in
    let half : bit_or a b / 2 ≡ bit_or (a / 2) (b / 2) = omega arith in
    let odd : bit_or a b % 2 ≡ max (a % 2) (b % 2) = omega arith in
    let rest = absorb n (a / 2) (b / 2) (omega arith) (omega arith) in
    bit_and_step (bit_or a b) a ∙ rw (half, odd, rest) (omega arith)

-- A flag is in every union that it is a part of.
pub bit_or_absorb : (a b : ℕ) → bit_and (bit_or a b) a ≡ a
bit_or_absorb a b = absorb (a + b) a b (omega arith) (omega arith)

zero_union : (n a b : ℕ) → a ≤ n → b ≤ n → bit_or a b ≡ 0 → (a ≡ 0) × (b ≡ 0)
zero_union zero a b h k e = (omega arith, omega arith)
zero_union (suc n) a b h k e =
    let step = bit_or_step a b in
    let (left, right) = zero_union n (a / 2) (b / 2) (omega arith) (omega arith) (omega arith) in
    (omega arith, omega arith)

-- Two words are empty if their union is.
pub bit_or_zero : (a b : ℕ) → bit_or a b ≡ 0 → (a ≡ 0) × (b ≡ 0)
bit_or_zero a b = zero_union (a + b) a b (omega arith) (omega arith)

-- What a mask does not find in a union, it does not find in its parts.
pub bit_or_apart : (a b c : ℕ) → bit_and (bit_or a b) c ≡ 0 → (bit_and a c ≡ 0) × (bit_and b c ≡ 0)
bit_or_apart a b c e = bit_or_zero (bit_and a c) (bit_and b c) (sym (bit_and-bit_or a b c) ∙ e)
