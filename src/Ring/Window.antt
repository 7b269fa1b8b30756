-- ===== src/Ring/Window.antt =====
-- The cells of a ring between two free-running `u32` positions, in order. Both queues of
-- src/ring/mod.rs index their cells by `position & mask`.
use native.Mathlib.Nat.{
  one-le-pow, two-pow-succ, mod-lt, mod-eq_of_lt, mod-add-mod, mod-eq-sub-mod, mod-mod_of_dvd,
  dvd_refl, dvd-add, zero-add, suc-add, pow-le-pow_right,
}
use native.Mathlib.Decide.{dec_lt}
use Prim.Native.Nat.{◌∣◌}
use mathlib.Core.Path.{ap₂}
use ququmatz.Base.{
  ℕ, zero, suc, ◌+◌, ◌-◌, ◌%◌, ◌^◌, ◌≤◌, ◌<◌, ◌≡◌, ◌≢◌, refl, sym, subst, ap, List, [], ◌∷◌, ◌++◌,
  bit_and, arith, get_or, set, length, get_or-set_self, get_or-set_ne,
}
use ququmatz.Base.Word.{add_u32, u32_mod, bit_and_mask}

pow_dvd_add : (k j : ℕ) → 2 ^ k ∣ 2 ^ (j + k)
pow_dvd_add k zero = rw zero-add (dvd_refl (2 ^ k))
pow_dvd_add k (suc j) =
    rw (suc-add, two-pow-succ) (dvd-add (2 ^ k) (pow_dvd_add k j) (pow_dvd_add k j))

pow_dvd : (k : ℕ) → k ≤ 32 → 2 ^ k ∣ u32_mod
pow_dvd k h =
    subst (λ n. 2 ^ k ∣ 2 ^ n) (let e : 32 - k + k ≡ 32 = omega arith in e) (pow_dvd_add k (32 - k))

-- The cell of a position.
abbrev pub slot : ℕ → ℕ → ℕ
slot mask i = bit_and i mask

-- A mask as the kernel sets it: one less than a power of two, within 32 bits.
pub record IsMask (k mask : ℕ) : Type 0 where
  pub width : k ≤ 31
  pub ones : mask ≡ 2 ^ k - 1

pow_pos : (k : ℕ) → 0 < 2 ^ k
pow_pos k = one-le-pow k 2 (omega arith)

pub slot-mod : {k mask : ℕ} (i : ℕ) → IsMask k mask → slot mask i ≡ i % (mask + 1)
slot-mod {k} {mask} i v =
    let e : mask + 1 ≡ 2 ^ k = omega (arith, pow_pos k) in rw (e, v.ones) (bit_and_mask k i)

pub slot-lt : {k mask : ℕ} (i : ℕ) → IsMask k mask → slot mask i < mask + 1
slot-lt {k} {mask} i v = rw (slot-mod i v) (mod-lt i (omega arith))

pub cap-le : {k mask : ℕ} → IsMask k mask → mask + 1 ≤ 2 ^ 31
cap-le {k} {mask} v = omega (arith, pow_pos k, pow-le-pow_right {n = 2} (omega arith) v.width)

-- Fewer than `c` steps round `c` cells do not come back.
mod_add_ne : (c i j : ℕ) → suc j < c → (i + suc j) % c ≢ i % c
mod_add_ne c i j h =
    let r : ℕ = i % c in
    let low : r < c = mod-lt i (omega arith) in
    let same : (i + suc j) % c ≡ (r + suc j) % c = sym (mod-add-mod i c (suc j)) in
    elim (dec_lt (r + suc j) c) [
      | yes p ↦ omega (arith, same, mod-eq_of_lt p)
      | no p ↦ omega (
        arith,
        same,
        mod-eq-sub-mod {n = r + suc j} {m = c} (omega arith),
        mod-eq_of_lt {n = r + suc j - c} {m = c} (omega arith),
      )
    ]

-- Fewer than `mask + 1` steps lead to another cell, across the wrap of `u32` too.
slot_ne :
    {k mask : ℕ} (i j : ℕ)
    → IsMask k mask
    → suc j < mask + 1
    → slot mask ((i + suc j) % u32_mod) ≢ slot mask i
slot_ne {k} {mask} i j v h =
    let c : mask + 1 ≡ 2 ^ k = omega (arith, pow_pos k) in
    let far : (i + suc j) % u32_mod % (mask + 1) ≡ (i + suc j) % (mask + 1) =
      mod-mod_of_dvd (mask + 1) (i + suc j) (rw c (pow_dvd k (omega arith))) in
    rw (slot-mod ((i + suc j) % u32_mod) v, slot-mod i v, far) (mod_add_ne (mask + 1) i j h)

module _ {ℓ} {A : Type ℓ} (d : A) (mask : ℕ) where
  -- The `n` cells from position `i` on.
  abbrev pub window : List A → ℕ → ℕ → List A
  window cells i zero = []
  window cells i (suc n) = get_or cells (slot mask i) d ∷ window cells (add_u32 i 1) n

  pub length-window : (cells : List A) (i n : ℕ) → length (window cells i n) ≡ n
  length-window cells i zero = refl
  length-window cells i (suc n) = ap suc (length-window cells (add_u32 i 1) n)

  -- A write just past a window that is not full extends it, and changes none of its cells.
  pub window-set :
      {k : ℕ} (cells : List A) (x : A) (n i j : ℕ)
      → IsMask k mask
      → length cells ≡ mask + 1
      → i < u32_mod
      → n < mask + 1
      → j ≡ add_u32 i n
      → window (set cells (slot mask j) x) i (suc n) ≡ window cells i n ++ (x ∷ [])
  window-set cells x zero i j v hl hi hn e =
      let here : j ≡ i = omega arith in
      rw (here, get_or-set_self cells (slot mask i) x d (rw hl (slot-lt i v)))
  window-set cells x (suc n) i j v hl hi hn e =
      ap₂ ◌∷◌ (get_or-set_ne cells (slot mask j) (slot mask i) x d (rw e (slot_ne i n v hn)))
        (window-set cells x n (add_u32 i 1) j v hl (omega arith) (omega arith) (omega arith))
