-- ===== src/Owned/Path/Requests.antt =====
-- src/owned/rename.rs and direct.rs: what the kernel reads from the entries of requests with paths.
use ququmatz.Base.{
  Option, none, ◌+◌, ◌-◌, ◌^◌, ◌==◌, if◌then◌else◌, ℕ, ◌≤◌, ◌≡◌, ◌↔◌, refl, ◌∙◌, false, ok, some,
  arith,
}
use ququmatz.Base.Int.{ℤ, pos, negsuc, IsI32, is_neg, u32_of_i32, i32_of_u32, u32_of_i32-i32_of_u32}
use ququmatz.Types.{contains}
use ququmatz.Types.Fs.{DirFd, as_raw, cloexec}
use ququmatz.Owned.{StableBuffer}
use ququmatz.Owned.Event.{Receipt}
use ququmatz.Owned.StagedAddr
use ququmatz.Owned.Path.{OwnedPath, as_bytes, path_ptr}
use ququmatz.Owned.Path.Scan.{scan, IsTerminated}
use ququmatz.Owned.Rename
use ququmatz.Owned.Rename.{RenameMode, replace, no_replace, exchange}
use ququmatz.Owned.Direct
use ququmatz.Owned.Direct.{PreparedDirectOpen, filled}
use ququmatz.Owned.Queue.Kinds.Paths.{directly_opened-IsRedeemable}
use ququmatz.Owned.Slot
use ququmatz.Owned.Slot.{SlotTarget, SlotIndex, DirectSlot, resolve, slot_max}

-- A descriptor that travels in a `u32` field comes back.
i32_of_u32-u32_of_i32 : (z : ℤ) → IsI32 z → i32_of_u32 (u32_of_i32 z) ≡ z
i32_of_u32-u32_of_i32 (pos n) h = ground arith
i32_of_u32-u32_of_i32 (negsuc n) h = ground arith

flags_iff : (mode : RenameMode) → (Rename.flags mode ≡ 0) ↔ (mode ≡ replace)
unfolding Rename.flags
flags_iff replace = (λ e. refl, λ e. refl)
flags_iff no_replace = (λ e. absurd (omega arith), λ e. cc)
flags_iff exchange = (λ e. absurd (omega arith), λ e. cc)

-- From the entry of a rename between two paths that end in their storages, the kernel reads the old
-- path and the new one, the two directories, the second one as an i32 from the length field, no
-- flags exactly when the mode is to replace, and the identity.
pub scan-rename :
    {F T : Type 0} (one : StableBuffer F) (other : StableBuffer T) (m : StagedAddr.Bytes)
    (from_dir : DirFd) (from : OwnedPath F) (to_dir : DirFd) (to : OwnedPath T) (mode : RenameMode)
    (ring id : ℕ)
    → IsTerminated one m from
    → IsTerminated other m to
    → IsI32 (as_raw to_dir)
    → let sqe =
        (Rename.into_pending (Rename.new one other from_dir from to_dir to mode) ring id).0 in
      (scan (one.stable_len from.storage) m sqe.addr ≡ some (as_bytes one m from))
      × (scan (other.stable_len to.storage) m sqe.off ≡ some (as_bytes other m to))
      × (sqe.fd ≡ as_raw from_dir)
      × (i32_of_u32 sqe.len ≡ as_raw to_dir)
      × ((sqe.op_flags ≡ 0) ↔ (mode ≡ replace))
      × (sqe.user_data ≡ id)
unfolding Rename.into_pending Rename.new
scan-rename one other m from_dir from to_dir to mode ring id f t small =
    (f.scanned, t.scanned, refl, i32_of_u32-u32_of_i32 (as_raw to_dir) small, flags_iff mode, refl)

-- When a result says that a slot was filled: the one that was asked for, unless it is an error, or
-- the one that the kernel chose, if it is a slot at all.
abbrev pub Fills : SlotTarget → ℤ → SlotIndex → Type 0
Fills SlotTarget.auto z i = (z ≡ pos i.index) × (i.index ≤ slot_max)
Fills (SlotTarget.exact slot) z i = (is_neg z ≡ false) × (i ≡ slot)

-- How the kernel documents to read the slot of an entry: zero asks for no slot, the greatest number
-- for any that is free, and another one for the slot before it.
unfoldable pub read_target : ℤ → Option SlotTarget
read_target z =
    let n = u32_of_i32 z in
    if n == 0
    then none
    else if n == 2 ^ 32 - 1
    then some SlotTarget.auto
    else some (SlotTarget.exact (record { index = n - 1 }))

-- The index of a slot is one that `SlotIndex::new` makes.
abbrev pub IsTarget : SlotTarget → Type 0
IsTarget SlotTarget.auto = Unit
IsTarget (SlotTarget.exact slot) = slot.index ≤ 2 ^ 32 - 3

read_target-raw :
    (target : SlotTarget) → IsTarget target → read_target (Slot.raw target) ≡ some target
unfolding read_target Slot.raw
read_target-raw SlotTarget.auto h = refl
read_target-raw (SlotTarget.exact slot) h =
    let wire : u32_of_i32 (i32_of_u32 (slot.index + 1)) ≡ slot.index + 1 =
      u32_of_i32-i32_of_u32 (slot.index + 1) (omega arith) in
    let some_slot : (slot.index + 1 == 0) ≡ false = ground arith in
    let chosen : (slot.index + 1 == 2 ^ 32 - 1) ≡ false = ground arith in
    let back : slot.index + 1 - 1 ≡ slot.index = omega arith in
    rw (wire, some_slot, chosen, back) refl

filled_iff :
    (target : SlotTarget) (ring : ℕ) (z : ℤ) (s : DirectSlot)
    → (filled target ring z ≡ some s) ↔ (Fills target z s.slot × (s.ring ≡ ring))
unfolding filled resolve Slot.new
filled_iff SlotTarget.auto ring (pos n) s = (λ e. ground arith, λ h. ground arith)
filled_iff SlotTarget.auto ring (negsuc n) s =
    (λ e. absurd (ground arith), λ h. absurd (ground arith))
filled_iff (SlotTarget.exact slot) ring (pos n) s = (λ e. ground arith, λ h. ground arith)
filled_iff (SlotTarget.exact slot) ring (negsuc n) s =
    (λ e. absurd (ground arith), λ h. absurd (ground arith))

module _ {S : Type 0} (stable : StableBuffer S) where
  -- What `at` has checked and kept when it succeeds.
  at_ok :
      (dir : DirFd) (path : OwnedPath S) (flags mode : ℕ) (target : SlotTarget)
      (p : PreparedDirectOpen S)
      → Direct.at stable dir path flags mode target ≡ ok p
      → (contains flags cloexec ≡ false)
        × (record {
          path = path;
          dir = dir;
          flags = flags;
          mode = mode;
          target = target;
          addr = path_ptr stable path;
        }
            ≡ p)
  unfolding Direct.at
  at_ok dir path flags mode target p e = ground arith

  -- A direct open that is prepared has no flag CLOEXEC; from its entry the kernel reads the path
  -- and the target asked for, whose index, if it has one, is that of a slot; its own receipt
  -- redeems it for the path and a slot, which is the one asked for on any result that is no error,
  -- or the one that the kernel chose if the result is the index of a slot, always of the receipt's
  -- ring, and else none.
  pub scan-direct_open :
      (m : StagedAddr.Bytes) (dir : DirFd) (path : OwnedPath S) (flags mode : ℕ)
      (target : SlotTarget) (p : PreparedDirectOpen S) (receipt : Receipt) (s : DirectSlot)
      → IsTarget target
      → IsTerminated stable m path
      → Direct.at stable dir path flags mode target ≡ ok p
      → let (sqe, ticket) = Direct.into_pending p receipt.ring receipt.id in
        let slot = filled target receipt.ring receipt.result in
        (contains flags cloexec ≡ false)
        × (scan (stable.stable_len path.storage) m sqe.addr ≡ some (as_bytes stable m path))
        × (read_target sqe.splice_fd_in ≡ some target)
        × (Direct.redeem ticket receipt
            ≡ ok (record { path = path; slot = slot; id = receipt.id; result = receipt.result }))
        × ((slot ≡ some s) ↔ (Fills target receipt.result s.slot × (s.ring ≡ receipt.ring)))
  unfolding Direct.into_pending
  scan-direct_open m dir path flags mode target p receipt s slot t e =
      let (plain, same) = at_ok dir path flags mode target p e in
      (
        plain,
        rw (← same) t.scanned,
        rw (← same) (read_target-raw target slot),
        directly_opened-IsRedeemable.own p receipt ∙ rw (← same) refl,
        filled_iff target receipt.ring receipt.result s,
      )
