-- ===== src/Base/Int.antt =====
-- Rust's `i32` values, as integers over the native numbers.
use Prim.Native.Nat.{ℕ, suc, ◌-◌, ◌<◌, ◌^◌}
use mathlib.Core.Path.{◌≡◌}
use mathlib.Core.Bool.{Bool, true, false}
use mathlib.Core.Option.{Option, none, some}
use native.Mathlib.Omega.{arith}
use ququmatz.Base.Tests.{ltb, ◌==◌, if◌then◌else◌}

-- `negsuc n` is -(n + 1).
pub data ℤ : Type 0 where
  pos : ℕ → ℤ
  negsuc : ℕ → ℤ

-- `z < 0`
abbrev pub is_neg : ℤ → Bool
is_neg (pos n) = false
is_neg (negsuc n) = true

-- `z` is a value of the type `i32`.
abbrev pub IsI32 : ℤ → Type 0
IsI32 (pos n) = n < 2 ^ 31
IsI32 (negsuc n) = n < 2 ^ 31

-- `-z` on `i32`, which keeps the least value, as a release build does.
abbrev pub neg_i32 : ℤ → ℤ
neg_i32 (pos n) = if n == 0 then pos 0 else negsuc (n - 1)
neg_i32 (negsuc n) = if n == 2 ^ 31 - 1 then negsuc n else pos (suc n)

-- `z as u32`
abbrev pub u32_of_i32 : ℤ → ℕ
u32_of_i32 (pos n) = n
u32_of_i32 (negsuc n) = 2 ^ 32 - suc n

-- `z as u64`, which extends the sign.
abbrev pub u64_of_i32 : ℤ → ℕ
u64_of_i32 (pos n) = n
u64_of_i32 (negsuc n) = 2 ^ 64 - suc n

-- `n as i32`
abbrev pub i32_of_u32 : ℕ → ℤ
i32_of_u32 n = if ltb n (2 ^ 31) then pos n else negsuc (2 ^ 32 - n - 1)

-- `u32::try_from(z).ok()`
abbrev pub try_u32 : ℤ → Option ℕ
try_u32 (pos n) = some n
try_u32 (negsuc n) = none

pub u32_of_i32-i32_of_u32 : (n : ℕ) → n < 2 ^ 32 → u32_of_i32 (i32_of_u32 n) ≡ n
u32_of_i32-i32_of_u32 n h = ground arith
