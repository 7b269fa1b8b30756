-- ===== src/Owned/Rename.antt =====
-- src/owned/rename.rs: a rename between two paths.
use ququmatz.Base.{ℕ, if◌then◌else◌, Result, ok, err}
use ququmatz.Base.Int.{ℤ}
use ququmatz.Types.{IoUringSqe}
use ququmatz.Types.Fs.{DirFd, as_raw, noreplace, exchange_flag}
use ququmatz.Op
use ququmatz.Op.{renameat_ptr}
use ququmatz.Owned.{StableBuffer}
use ququmatz.Owned.Event.{Receipt, belongs_to}
use ququmatz.Owned.Path.{OwnedPath, path_ptr}

pub data RenameMode : Type 0 where
  replace no_replace exchange : RenameMode

-- `RenameMode::flags`
unfoldable pub flags : RenameMode → ℕ
flags replace = 0
flags no_replace = noreplace
flags exchange = exchange_flag

pub record PreparedRename (F T : Type 0) : Type 0 where
  pub from : OwnedPath F
  pub to : OwnedPath T
  pub from_dir : DirFd
  pub to_dir : DirFd
  pub mode : RenameMode
  pub from_addr : ℕ
  pub to_addr : ℕ

pub record PendingRename (F T : Type 0) : Type 0 where
  pub from : OwnedPath F
  pub to : OwnedPath T
  pub ring : ℕ
  pub id : ℕ
  pub from_dir : DirFd
  pub to_dir : DirFd
  pub mode : RenameMode
  pub from_addr : ℕ
  pub to_addr : ℕ

pub record RenameCompleted (F T : Type 0) : Type 0 where
  pub from : OwnedPath F
  pub to : OwnedPath T
  pub mode : RenameMode
  pub id : ℕ
  pub result : ℤ

module _ {F T : Type 0} where
  unfoldable pub new :
      StableBuffer F
      → StableBuffer T
      → DirFd
      → OwnedPath F
      → DirFd
      → OwnedPath T
      → RenameMode
      → PreparedRename F T
  new one other from_dir from to_dir to mode = record {
    from = from;
    to = to;
    from_dir = from_dir;
    to_dir = to_dir;
    mode = mode;
    from_addr = path_ptr one from;
    to_addr = path_ptr other to;
  }

  unfoldable pub into_pending : PreparedRename F T → ℕ → ℕ → IoUringSqe × PendingRename F T
  unfolding flags
  into_pending p ring id = (
    Op.user_data
        (renameat_ptr (as_raw p.from_dir) p.from_addr (as_raw p.to_dir) p.to_addr (flags p.mode))
        id,
    record {
      from = p.from;
      to = p.to;
      ring = ring;
      id = id;
      from_dir = p.from_dir;
      to_dir = p.to_dir;
      mode = p.mode;
      from_addr = p.from_addr;
      to_addr = p.to_addr;
    },
  )

  unfoldable pub reclaim_unsubmitted : PendingRename F T → PreparedRename F T
  reclaim_unsubmitted p = record {
    from = p.from;
    to = p.to;
    from_dir = p.from_dir;
    to_dir = p.to_dir;
    mode = p.mode;
    from_addr = p.from_addr;
    to_addr = p.to_addr;
  }

  unfoldable pub redeem :
      PendingRename F T → Receipt → Result (RenameCompleted F T) (PendingRename F T × Receipt)
  redeem p receipt =
      if belongs_to receipt p.ring p.id
      then ok
          (record { from = p.from; to = p.to; mode = p.mode; id = p.id; result = receipt.result })
      else err (p, receipt)
