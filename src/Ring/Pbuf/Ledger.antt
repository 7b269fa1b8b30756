-- ===== src/Ring/Pbuf/Ledger.antt =====
-- src/ring/pbuf.rs: the ledger, a set of buffer numbers kept as the bits of bytes.
use ququmatz.Base.{
  ℕ, zero, suc, ◌-◌, ◌/◌, ◌%◌, ◌^◌, ◌<◌, ◌≡◌, refl, sym, ap, ◌∙◌, Bool, true, false, not, ◌&&◌,
  ◌==◌, if◌then◌else◌, List, length, length-set, get_or-set_self, get_or-set_ne, ltb→lt, get_or,
  ltb, set, bit_and, bit_or, arith,
}
use native.Mathlib.Decide.{ℕ_discrete}
use ququmatz.Ring.Pbuf.{ledger_get, ledger_set}

abbrev same : Bool → Bool → Bool
same true b = b
same false b = not b

-- Over a small range, every value by evaluation.
all_below : ℕ → (ℕ → Bool) → Bool
all_below zero p = true
all_below (suc n) p = p n && all_below n p

all_below_sound : (n : ℕ) (p : ℕ → Bool) → all_below n p ≡ true → (x : ℕ) → x < n → p x ≡ true
unfolding all_below
all_below_sound zero p h x lt = absurd (omega arith)
all_below_sound (suc n) p h x lt =
    let head : p n ≡ true = ground arith in
    let rest = all_below_sound n p (ground arith) in
    elim (ℕ_discrete x n) [ yes e ↦ rw e head | no e ↦ rest x (omega arith) ]

-- Bit `j` of a byte, and the byte with bit `i` written.
abbrev bit : ℕ → ℕ → Bool
bit x j = not (bit_and x (2 ^ j) == 0)

abbrev written : Bool → ℕ → ℕ → ℕ
written v x i = if v then bit_or x (2 ^ i) else bit_and x (255 - 2 ^ i)

abbrev row : Bool → ℕ → ℕ → ℕ → Bool
row v i j x =
    same (bit (written v x i) j) (if i == j then v else bit x j) && ltb (written v x i) 256

table : (v : Bool) → all_below 8 (λ i. all_below 8 (λ j. all_below 256 (row v i j))) ≡ true
unfolding all_below
table true = refl
table false = refl

same_sound : (a b : Bool) → same a b ≡ true → a ≡ b
same_sound true b h = ground arith
same_sound false b h = ground arith

and-both : (a b : Bool) → a && b ≡ true → (a ≡ true) × (b ≡ true)
and-both a b h = ground arith

-- Writing a bit of a byte changes that bit alone, and leaves a byte.
bit-written :
    (v : Bool) (i j x : ℕ)
    → i < 8
    → j < 8
    → x < 256
    → (bit (written v x i) j ≡ (if i == j then v else bit x j)) × (written v x i < 256)
bit-written v i j x hi hj hx =
    let at_i = all_below_sound 8 _ (table v) i hi in
    let at_j = all_below_sound 8 _ at_i j hj in
    let at_x = all_below_sound 256 (row v i j) at_j x hx in
    let (seen, small) =
      and-both (same (bit (written v x i) j) (if i == j then v else bit x j)) _ at_x in
    (same_sound _ _ seen, ltb→lt _ _ small)

pub record IsLedger (delivered : List ℕ) : Type 0 where
  pub bytes : length delivered ≡ 4096
  pub small : (i : ℕ) → get_or delivered i 0 < 256

module _ {delivered : List ℕ} (w : IsLedger delivered) where
  -- On a ledger of 4096 bytes, writing the bit of one buffer below 2 ^ 15 and reading the bit of
  -- another gives the value written if they are the same and what was there before if not.
  pub ledger_get-set :
      (v : Bool) (i j : ℕ)
      → i < 2 ^ 15
      → j < 2 ^ 15
      → ledger_get (ledger_set delivered i v) j ≡ (if i == j then v else ledger_get delivered j)
  unfolding ledger_get ledger_set
  ledger_get-set v i j hi hj =
      let x = get_or delivered (i / 8) 0 in
      let inside : i / 8 < length delivered = omega (arith, w.bytes) in
      elim (ℕ_discrete (i / 8) (j / 8)) [
        | yes e ↦
            let low : (i % 8 == j % 8) ≡ (i == j) = ground arith in
            let new = written v x (i % 8) in
            ap (λ n. bit (get_or (set delivered (i / 8) new) n 0) (j % 8)) (sym e)
            ∙ ap (λ y. bit y (j % 8)) (get_or-set_self delivered (i / 8) new 0 inside)
            ∙ (bit-written v (i % 8) (j % 8) x (omega arith) (omega arith) (w.small (i / 8))).0
            ∙ rw (low, e) refl
        | no e ↦
            let apart : (i == j) ≡ false = ground arith in
            rw apart (ap (λ y. bit y (j % 8)) (get_or-set_ne delivered (i / 8) (j / 8) _ 0 e))
      ]

  pub ledger_set-IsLedger : (v : Bool) (i : ℕ) → i < 2 ^ 15 → IsLedger (ledger_set delivered i v)
  unfolding ledger_set
  ledger_set-IsLedger v i hi =
      let x = get_or delivered (i / 8) 0 in
      let new : ℕ = written v x (i % 8) in
      let fits : new < 256 =
        (bit-written v (i % 8) 0 x (omega arith) (omega arith) (w.small (i / 8))).1 in
      let inside : i / 8 < length delivered = omega (arith, w.bytes) in
      record {
        bytes = length-set delivered (i / 8) new ∙ w.bytes;
        small = λ j. elim (ℕ_discrete (i / 8) j) [
          | yes e ↦ rw (← e) (omega (arith, get_or-set_self delivered (i / 8) new 0 inside))
          | no e ↦ omega (arith, get_or-set_ne delivered (i / 8) j new 0 e, w.small j)
        ];
      }
