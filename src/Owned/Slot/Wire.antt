-- ===== src/Owned/Slot/Wire.antt =====
-- src/owned/slot.rs: the form of a slot in an entry, as the kernel reads it.
use ququmatz.Base.{ℕ, ◌+◌, ◌-◌, ◌≤◌, ◌<◌, ◌≡◌, ◌≢◌, refl, ◌⊎◌, inl, inr, some, none, arith}
use ququmatz.Base.Int.{i32_of_u32, u32_of_i32, u32_of_i32-i32_of_u32}
use ququmatz.Owned.Slot.{SlotTarget, slot_max, file_index_alloc, new, target_exact, raw}
use native.Mathlib.Decide.{dec_lt}

new-none : (index : ℕ) → slot_max < index → new index ≡ none
unfolding new
new-none index h = ground arith

new-some : (index : ℕ) → index ≤ slot_max → new index ≡ some (record { index = index })
unfolding new
new-some index h = ground arith

-- An index above the greatest one makes no target. Any other makes a target whose form in the entry
-- is neither zero nor the value that asks the kernel to choose, and one less than which is the
-- index.
pub raw_lem :
    (index : ℕ)
    → ((slot_max < index) × (target_exact index ≡ none))
      ⊎ ((t : SlotTarget) × (target_exact index ≡ some t)
          × (u32_of_i32 (raw t) ≢ 0)
          × (u32_of_i32 (raw t) ≢ file_index_alloc)
          × (u32_of_i32 (raw t) - 1 ≡ index))
unfolding target_exact raw
raw_lem index = elim (dec_lt slot_max index) [
  | yes h ↦ inl (h, rw (new-none index h, target_exact) refl)
  | no h ↦
      let wire : u32_of_i32 (i32_of_u32 (index + 1)) ≡ index + 1 =
        u32_of_i32-i32_of_u32 (index + 1) (omega arith) in
      inr (
        SlotTarget.exact (record { index = index }),
        rw (new-some index (omega arith), target_exact) refl,
        omega (arith, wire),
        omega (arith, wire),
        omega (arith, wire),
      )
]
