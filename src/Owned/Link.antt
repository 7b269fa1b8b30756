-- ===== src/Owned/Link.antt =====
-- src/owned/link.rs: symbolic and hard links.
use ququmatz.Base.{ℕ, if◌then◌else◌, Result, ok, err}
use ququmatz.Base.Int.{ℤ}
use ququmatz.Types.{IoUringSqe}
use ququmatz.Types.Fs.{DirFd, as_raw}
use ququmatz.Op
use ququmatz.Op.{symlinkat_ptr, linkat_ptr}
use ququmatz.Owned.{StableBuffer}
use ququmatz.Owned.Event.{Receipt, belongs_to}
use ququmatz.Owned.Path.{OwnedPath, path_ptr}

-- The directory of a symbolic link's path; for a hard link the two directories and the flags.
pub data LinkKind : Type 0 where
  symlink : DirFd → LinkKind
  link : DirFd → DirFd → ℕ → LinkKind

-- `LinkKind::sqe`
abbrev pub sqe : LinkKind → ℕ → ℕ → IoUringSqe
sqe (symlink new_dir) old_addr new_addr = symlinkat_ptr old_addr (as_raw new_dir) new_addr
sqe (link old_dir new_dir flags) old_addr new_addr =
    linkat_ptr (as_raw old_dir) old_addr (as_raw new_dir) new_addr flags

-- The fields `new` are called `dest`, as the accessors are.
pub record PreparedLink (F T : Type 0) : Type 0 where
  pub old : OwnedPath F
  pub dest : OwnedPath T
  pub kind : LinkKind
  pub old_addr : ℕ
  pub new_addr : ℕ

pub record PendingLink (F T : Type 0) : Type 0 where
  pub old : OwnedPath F
  pub dest : OwnedPath T
  pub ring : ℕ
  pub id : ℕ
  pub kind : LinkKind
  pub old_addr : ℕ
  pub new_addr : ℕ

pub record LinkCompleted (F T : Type 0) : Type 0 where
  pub old : OwnedPath F
  pub dest : OwnedPath T
  pub kind : LinkKind
  pub id : ℕ
  pub result : ℤ

module _ {F T : Type 0} where
  unfoldable pub new :
      StableBuffer F → StableBuffer T → OwnedPath F → OwnedPath T → LinkKind → PreparedLink F T
  new one other old dest kind = record {
    old = old;
    dest = dest;
    kind = kind;
    old_addr = path_ptr one old;
    new_addr = path_ptr other dest;
  }

  unfoldable pub into_pending : PreparedLink F T → ℕ → ℕ → IoUringSqe × PendingLink F T
  into_pending p ring id = (
    Op.user_data (sqe p.kind p.old_addr p.new_addr) id,
    record {
      old = p.old;
      dest = p.dest;
      ring = ring;
      id = id;
      kind = p.kind;
      old_addr = p.old_addr;
      new_addr = p.new_addr;
    },
  )

  unfoldable pub reclaim_unsubmitted : PendingLink F T → PreparedLink F T
  reclaim_unsubmitted p = record {
    old = p.old;
    dest = p.dest;
    kind = p.kind;
    old_addr = p.old_addr;
    new_addr = p.new_addr;
  }

  unfoldable pub redeem :
      PendingLink F T → Receipt → Result (LinkCompleted F T) (PendingLink F T × Receipt)
  redeem p receipt =
      if belongs_to receipt p.ring p.id
      then ok
          (record { old = p.old; dest = p.dest; kind = p.kind; id = p.id; result = receipt.result })
      else err (p, receipt)
