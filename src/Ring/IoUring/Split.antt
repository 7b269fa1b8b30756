-- ===== src/Ring/IoUring/Split.antt =====
-- src/ring/mod.rs: which rings `split` takes apart, and what the halves hold.
use ququmatz.Base.{
  ℕ, ◌/◌, ◌%◌, ◌^◌, ◌≡◌, refl, ◌⊎◌, inl, inr, ok, err, arith, true, ◌↔◌, Bool-cases,
}
use ququmatz.Base.Word.{bit_and_bit}
use ququmatz.Error.{Error, SetupError, InvalidArgKind}
use ququmatz.Ring.Resources.{RingResources, retain}
use ququmatz.Ring.IoUring.{IoUring, Submitter, Completer, split, setup_flags_forbid_split}

-- The `k`-th bit of a word.
abbrev pub bit : ℕ → ℕ → ℕ
bit k flags = flags / 2 ^ k % 2

-- The modes that bind a ring to one thread: DEFER_TASKRUN (bit 13), and SINGLE_ISSUER (bit 12)
-- without SQPOLL (bit 1).
abbrev pub IsBound : ℕ → Type 0
IsBound flags = (bit 13 flags ≡ 1) ⊎ ((bit 12 flags ≡ 1) × (bit 1 flags ≡ 0))

forbid_iff : (flags : ℕ) → (setup_flags_forbid_split flags ≡ true) ↔ IsBound flags
unfolding setup_flags_forbid_split
forbid_iff flags =
    rw (bit_and_bit 13 flags, bit_and_bit 12 flags, bit_and_bit 1 flags) (ground arith)

-- `split` refuses exactly the rings whose setup flags bind them to one thread, and then hands the
-- ring back and takes no share of the resources. Otherwise each half has the ring's positions and
-- descriptor, and the resources have one owner more.
pub split_iff :
    (r : IoUring) (res : RingResources)
    → let (res', out) = split r res in
      (IsBound r.setup_flags
        × (res' ≡ res)
        × (out
            ≡ err (
              r,
              Error.setup
                  (SetupError.invalid_arg (InvalidArgKind.incompatible_split r.setup_flags)),
            )))
      ⊎ ((¬ IsBound r.setup_flags)
          × (res' ≡ retain res)
          × ((a : Submitter) × (b : Completer) × (out ≡ ok (a, b))
              × (a.sq ≡ r.sq)
              × (b.cq ≡ r.cq)
              × (a.fd ≡ r.fd)
              × (b.fd ≡ r.fd)))
unfolding split
split_iff r res = elim (Bool-cases (setup_flags_forbid_split r.setup_flags)) [
  | inl bound ↦ rw (bound, split) (inl ((forbid_iff r.setup_flags).0 bound, refl, refl))
  | inr free ↦
      rw (free, split)
        (inr (
          (λ h. cc (free, (forbid_iff r.setup_flags).1 h)),
          refl,
          (_, _, refl, refl, refl, refl, refl),
        ))
]
