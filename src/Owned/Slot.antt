-- ===== src/Owned/Slot.antt =====
-- src/owned/slot.rs: slots of the registered-file table and their form in an entry.
pub mod Wire
use ququmatz.Base.{ℕ, ◌+◌, ◌-◌, ltb, if◌then◌else◌, Option, some, none, Bool, ◌==◌}
use ququmatz.Base.Int.{ℤ, is_neg, i32_of_u32, u32_of_i32}
use ququmatz.Base.Word.{u32_max}

abbrev pub file_index_alloc : ℕ
file_index_alloc = u32_max

-- `SlotIndex::MAX`
abbrev pub slot_max : ℕ
slot_max = u32_max - 2

pub record SlotIndex : Type 0 where
  pub index : ℕ

-- `SlotIndex::new`
unfoldable pub new : ℕ → Option SlotIndex
new index = if ltb slot_max index then none else some (record { index = index })

pub data SlotTarget : Type 0 where
  auto : SlotTarget
  exact : SlotIndex → SlotTarget

-- `SlotTarget::exact`
unfoldable pub target_exact : ℕ → Option SlotTarget
unfolding new
target_exact index = elim (new index) [ some slot ↦ some (SlotTarget.exact slot) | none ↦ none ]

-- `raw`: zero and the greatest value mean something else to the kernel.
unfoldable pub raw : SlotTarget → ℤ
raw SlotTarget.auto = i32_of_u32 file_index_alloc
raw (SlotTarget.exact slot) = i32_of_u32 (slot.index + 1)

-- `resolve`: the slot that was filled.
unfoldable pub resolve : SlotTarget → ℤ → Option SlotIndex
unfolding new
resolve (SlotTarget.exact slot) result = some slot
resolve SlotTarget.auto result = if is_neg result then none else new (u32_of_i32 result)

pub record DirectSlot : Type 0 where
  pub slot : SlotIndex
  pub ring : ℕ

unfoldable pub belongs_to : DirectSlot → ℕ → Bool
belongs_to s ring = s.ring == ring
