-- ===== src/Owned/Outcomes.antt =====
-- src/owned/timeout.rs and filesupdate.rs: how results are told apart.
use ququmatz.Base.{ℕ, ◌≡◌, ◌≢◌, ◌≤◌, ◌⊎◌, inl, inr, ◌↔◌, refl, true, false, arith}
use ququmatz.Base.Int.{ℤ, pos, negsuc, IsI32, is_neg, neg_i32}
use ququmatz.Error.{errno}
use native.Mathlib.Decide.{ℕ_discrete}
use ququmatz.Owned.Timeout
use ququmatz.Owned.FilesUpdate

-- For a result in the range of an i32: -62 is a timer that expired, -125 a cancelled one, zero or
-- more a count that was reached, and every other negative result a failure with its number.
pub expiry_lem :
    (z : ℤ)
    → IsI32 z
    → ((z ≡ negsuc 61) × (Timeout.from_raw z ≡ Timeout.expired))
      ⊎ ((z ≡ negsuc 124) × (Timeout.from_raw z ≡ Timeout.cancelled))
      ⊎ ((n : ℕ) × (z ≡ pos n) × (Timeout.from_raw z ≡ Timeout.count_reached))
      ⊎ ((n : ℕ) × (z ≡ negsuc n)
          × (n ≢ 61)
          × (n ≢ 124)
          × (Timeout.from_raw z ≡ Timeout.failed (errno (neg_i32 z))))
unfolding Timeout.from_raw
expiry_lem (pos n) h = inr (inr (inl (n, refl, refl)))
expiry_lem (negsuc n) h = elim (ℕ_discrete n 61) [
  | yes e ↦ rw e (inl (refl, refl))
  | no a ↦ elim (ℕ_discrete n 124) [
    | yes e ↦ rw e (inr (inl (refl, refl)))
    | no b ↦ inr (inr (inr (n, refl, a, b, ground arith)))
  ]
]

-- An update of the file table counts no more slots than were asked for, and is complete exactly
-- when there is no error and it counts all of them.
pub update_lem :
    (z : ℤ) (requested : ℕ)
    → let u = FilesUpdate.from_raw z requested in
      (FilesUpdate.installed u ≤ requested)
      × ((FilesUpdate.is_complete u ≡ true)
          ↔ ((is_neg z ≡ false) × (FilesUpdate.installed u ≡ requested)))
unfolding FilesUpdate.from_raw FilesUpdate.installed FilesUpdate.is_complete
update_lem (pos n) requested = (ground arith, ground arith)
update_lem (negsuc n) requested = (omega arith, ground arith)
