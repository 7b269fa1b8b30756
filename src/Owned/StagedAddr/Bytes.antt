-- ===== src/Owned/StagedAddr/Bytes.antt =====
-- src/owned/staged_addr.rs: bytes that are written and read back.
use ququmatz.Base.{
  ℕ, zero, suc, ◌+◌, ◌≤◌, ◌<◌, ◌≡◌, ◌≢◌, refl, ◌⊎◌, inl, inr, List, [], ◌∷◌, length, arith,
}
use ququmatz.Owned.StagedAddr
use ququmatz.Owned.StagedAddr.{write_bytes, read_bytes}

-- Only the bytes that are read matter.
pub read_bytes_within :
    (n at : ℕ) (m m' : StagedAddr.Bytes)
    → ((a : ℕ) → at ≤ a → a < at + n → m a ≡ m' a)
    → read_bytes m at n ≡ read_bytes m' at n
unfolding read_bytes
read_bytes_within zero at m m' same = refl
read_bytes_within (suc n) at m m' same =
    rw
      (
        same at (omega arith) (omega arith),
        read_bytes_within n (at + 1) m m' (λ a le lt. same a (omega arith) (omega arith)),
      )
      refl

write_bytes_behind :
    (b : ℕ) (bs : List ℕ) (m : StagedAddr.Bytes) (at a : ℕ)
    → at + 1 ≤ a
    → write_bytes m at (b ∷ bs) a ≡ write_bytes m (at + 1) bs a
unfolding write_bytes
write_bytes_behind b bs m at a le = ground arith

pub write_bytes_here :
    (b : ℕ) (bs : List ℕ) (m : StagedAddr.Bytes) (at : ℕ) → write_bytes m at (b ∷ bs) at ≡ b
unfolding write_bytes
write_bytes_here b bs m at = ground arith

pub read_bytes-write_bytes :
    (bs : List ℕ) (m : StagedAddr.Bytes) (at : ℕ)
    → read_bytes (write_bytes m at bs) at (length bs) ≡ bs
unfolding read_bytes
read_bytes-write_bytes [] m at = refl
read_bytes-write_bytes (b ∷ bs) m at =
    rw
      (
        write_bytes_here b bs m at,
        read_bytes_within (length bs) (at + 1) (write_bytes m at (b ∷ bs))
            (write_bytes m (at + 1) bs) (λ a le lt. write_bytes_behind b bs m at a le),
        read_bytes-write_bytes bs m (at + 1),
      )
      refl

pub write_bytes_elsewhere :
    (bs : List ℕ) (m : StagedAddr.Bytes) (at a : ℕ)
    → (a < at) ⊎ (at + length bs ≤ a)
    → write_bytes m at bs a ≡ m a
unfolding write_bytes
write_bytes_elsewhere [] m at a away = refl
write_bytes_elsewhere (b ∷ bs) m at a away =
    let rest : (a < at + 1) ⊎ (at + 1 + length bs ≤ a) = elim away [
      | inl l ↦ inl (omega arith)
      | inr g ↦ inr (omega arith)
    ] in
    let other : a ≢ at = λ e. elim away [ inl l ↦ omega arith | inr g ↦ omega arith ] in
    let more = write_bytes_elsewhere bs m (at + 1) a rest in grind arith
