-- ===== src/Owned/Direct.antt =====
-- src/owned/direct.rs: the opening of a file into a slot of the ring's table.
use ququmatz.Base.{ℕ, if◌then◌else◌, Result, ok, err, Option, some, none}
use ququmatz.Base.Int.{ℤ, is_neg}
use ququmatz.Types.{IoUringSqe, contains}
use ququmatz.Types.Fs.{DirFd, as_raw, cloexec}
use ququmatz.Op
use ququmatz.Op.{openat_direct}
use ququmatz.Owned.{StableBuffer}
use ququmatz.Owned.Event.{Receipt, belongs_to}
use ququmatz.Owned.Path.{OwnedPath, path_ptr}
use ququmatz.Owned.Slot
use ququmatz.Owned.Slot.{SlotTarget, DirectSlot, resolve}

pub record PreparedDirectOpen (S : Type 0) : Type 0 where
  pub path : OwnedPath S
  pub dir : DirFd
  pub flags : ℕ
  pub mode : ℕ
  pub target : SlotTarget
  pub addr : ℕ

pub data DirectOpenError : Type 0 where
  close_on_exec : DirectOpenError

pub record PendingDirectOpen (S : Type 0) : Type 0 where
  pub path : OwnedPath S
  pub ring : ℕ
  pub id : ℕ
  pub dir : DirFd
  pub flags : ℕ
  pub mode : ℕ
  pub target : SlotTarget
  pub addr : ℕ

pub record DirectOpened (S : Type 0) : Type 0 where
  pub path : OwnedPath S
  pub slot : Option DirectSlot
  pub id : ℕ
  pub result : ℤ

-- The slot that a completion of a request for `target` on `ring` fills.
unfoldable pub filled : SlotTarget → ℕ → ℤ → Option DirectSlot
unfolding resolve
filled target ring result = if is_neg result then none else elim (resolve target result) [
  | some index ↦ some (record { slot = index; ring = ring })
  | none ↦ none
]

module _ {S : Type 0} where
  -- `PreparedDirectOpen::at`
  unfoldable pub at :
      StableBuffer S
      → DirFd
      → OwnedPath S
      → ℕ
      → ℕ
      → SlotTarget
      → Result (PreparedDirectOpen S) (OwnedPath S × DirectOpenError)
  unfolding contains
  at stable dir path flags mode target =
      if contains flags cloexec
      then err (path, close_on_exec)
      else ok (record {
        path = path;
        dir = dir;
        flags = flags;
        mode = mode;
        target = target;
        addr = path_ptr stable path;
      })

  unfoldable pub into_pending : PreparedDirectOpen S → ℕ → ℕ → IoUringSqe × PendingDirectOpen S
  unfolding Slot.raw
  into_pending p ring id = (
    Op.user_data (openat_direct (as_raw p.dir) p.addr p.flags p.mode (Slot.raw p.target)) id,
    record {
      path = p.path;
      ring = ring;
      id = id;
      dir = p.dir;
      flags = p.flags;
      mode = p.mode;
      target = p.target;
      addr = p.addr;
    },
  )

  unfoldable pub reclaim_unsubmitted : PendingDirectOpen S → PreparedDirectOpen S
  reclaim_unsubmitted p = record {
    path = p.path;
    dir = p.dir;
    flags = p.flags;
    mode = p.mode;
    target = p.target;
    addr = p.addr;
  }

  unfoldable pub redeem :
      PendingDirectOpen S → Receipt → Result (DirectOpened S) (PendingDirectOpen S × Receipt)
  unfolding filled
  redeem p receipt =
      if belongs_to receipt p.ring p.id
      then ok (record {
        path = p.path;
        slot = filled p.target p.ring receipt.result;
        id = p.id;
        result = receipt.result;
      })
      else err (p, receipt)
