-- ===== src/Owned/Open.antt =====
-- src/owned/open.rs: the opening of a file.
use ququmatz.Base.{ℕ, if◌then◌else◌, Result, ok, err, Option, some, none}
use ququmatz.Base.Int.{ℤ, try_u32}
use ququmatz.Types.{IoUringSqe}
use ququmatz.Types.Fs.{DirFd, as_raw}
use ququmatz.Error.{Error, from_failed_cqe}
use ququmatz.Op
use ququmatz.Op.{openat_ptr}
use ququmatz.Owned.{StableBuffer}
use ququmatz.Owned.Event.{Receipt, belongs_to}
use ququmatz.Owned.Path.{OwnedPath, path_ptr}

pub record PreparedOpen (S : Type 0) : Type 0 where
  pub path : OwnedPath S
  pub dir : DirFd
  pub flags : ℕ
  pub mode : ℕ
  pub addr : ℕ

pub record PendingOpen (S : Type 0) : Type 0 where
  pub path : OwnedPath S
  pub ring : ℕ
  pub id : ℕ
  pub dir : DirFd
  pub flags : ℕ
  pub mode : ℕ
  pub addr : ℕ

-- A `File` is the number of its descriptor.
pub record Opened (S : Type 0) : Type 0 where
  pub path : OwnedPath S
  pub file : Option ℕ
  pub id : ℕ
  pub result : ℤ

module _ {S : Type 0} where
  -- `PreparedOpen::at`
  unfoldable pub at : StableBuffer S → DirFd → OwnedPath S → ℕ → ℕ → PreparedOpen S
  at stable dir path flags mode = record {
    path = path;
    dir = dir;
    flags = flags;
    mode = mode;
    addr = path_ptr stable path;
  }

  unfoldable pub into_pending : PreparedOpen S → ℕ → ℕ → IoUringSqe × PendingOpen S
  into_pending p ring id = (
    Op.user_data (openat_ptr (as_raw p.dir) p.addr p.flags p.mode) id,
    record {
      path = p.path;
      ring = ring;
      id = id;
      dir = p.dir;
      flags = p.flags;
      mode = p.mode;
      addr = p.addr;
    },
  )

  unfoldable pub reclaim_unsubmitted : PendingOpen S → PreparedOpen S
  reclaim_unsubmitted p = record {
    path = p.path;
    dir = p.dir;
    flags = p.flags;
    mode = p.mode;
    addr = p.addr;
  }

  -- With `claim`: a result that is not negative is the descriptor.
  unfoldable pub redeem : PendingOpen S → Receipt → Result (Opened S) (PendingOpen S × Receipt)
  redeem p receipt =
      if belongs_to receipt p.ring p.id
      then ok (record {
        path = p.path;
        file = try_u32 receipt.result;
        id = p.id;
        result = receipt.result;
      })
      else err (p, receipt)

  -- `result`
  unfoldable pub result : Opened S → Result (Unit {0}) Error
  result c = elim (from_failed_cqe c.result) [ some e ↦ err e | none ↦ ok tt ]
