-- ===== src/Owned/PathOp.antt =====
-- src/owned/pathop.rs: the removal of a name and the making of a directory.
use ququmatz.Base.{ℕ, if◌then◌else◌, Result, ok, err, some, none}
use ququmatz.Base.Int.{ℤ}
use ququmatz.Types.{IoUringSqe}
use ququmatz.Types.Fs.{DirFd, as_raw, removedir}
use ququmatz.Error.{Error, from_failed_cqe}
use ququmatz.Op
use ququmatz.Op.{unlinkat_ptr, mkdirat_ptr}
use ququmatz.Owned.{StableBuffer}
use ququmatz.Owned.Event.{Receipt, belongs_to}
use ququmatz.Owned.Path.{OwnedPath, path_ptr}

pub data PathOpKind : Type 0 where
  unlink rmdir : PathOpKind
  mkdir : ℕ → PathOpKind

-- `PathOpKind::sqe`
abbrev pub sqe : PathOpKind → DirFd → ℕ → IoUringSqe
sqe unlink dir addr = unlinkat_ptr (as_raw dir) addr 0
sqe rmdir dir addr = unlinkat_ptr (as_raw dir) addr removedir
sqe (mkdir mode) dir addr = mkdirat_ptr (as_raw dir) addr mode

pub record PreparedPathOp (S : Type 0) : Type 0 where
  pub path : OwnedPath S
  pub dir : DirFd
  pub kind : PathOpKind
  pub addr : ℕ

pub record PendingPathOp (S : Type 0) : Type 0 where
  pub path : OwnedPath S
  pub ring : ℕ
  pub id : ℕ
  pub dir : DirFd
  pub kind : PathOpKind
  pub addr : ℕ

pub record PathOpCompleted (S : Type 0) : Type 0 where
  pub path : OwnedPath S
  pub kind : PathOpKind
  pub id : ℕ
  pub result : ℤ

module _ {S : Type 0} where
  unfoldable pub new : StableBuffer S → DirFd → OwnedPath S → PathOpKind → PreparedPathOp S
  new stable dir path kind = record {
    path = path;
    dir = dir;
    kind = kind;
    addr = path_ptr stable path;
  }

  unfoldable pub into_pending : PreparedPathOp S → ℕ → ℕ → IoUringSqe × PendingPathOp S
  into_pending p ring id = (
    Op.user_data (sqe p.kind p.dir p.addr) id,
    record { path = p.path; ring = ring; id = id; dir = p.dir; kind = p.kind; addr = p.addr },
  )

  unfoldable pub reclaim_unsubmitted : PendingPathOp S → PreparedPathOp S
  reclaim_unsubmitted p = record { path = p.path; dir = p.dir; kind = p.kind; addr = p.addr }

  unfoldable pub redeem :
      PendingPathOp S → Receipt → Result (PathOpCompleted S) (PendingPathOp S × Receipt)
  redeem p receipt =
      if belongs_to receipt p.ring p.id
      then ok (record { path = p.path; kind = p.kind; id = p.id; result = receipt.result })
      else err (p, receipt)

  -- `result`
  unfoldable pub result : PathOpCompleted S → Result (Unit {0}) Error
  result c = elim (from_failed_cqe c.result) [ some e ↦ err e | none ↦ ok tt ]
