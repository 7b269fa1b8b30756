-- ===== src/Owned/Request.antt =====
-- src/owned/request.rs: the prepared, pending and completed states of a read or a write.
pub mod Redeem
use ququmatz.Base.{ℕ, Bool, ltb, if◌then◌else◌, Result, ok, err, Option, some, none}
use ququmatz.Base.Int.{ℤ, u32_of_i32}
use ququmatz.Types.{IoUringSqe}
use ququmatz.Error.{Error, from_failed_cqe}
use ququmatz.Op
use ququmatz.Op.{read_ptr, write_ptr}
use ququmatz.Owned.{StableBuffer, clamp_len}
use ququmatz.Owned.Event.{Receipt, belongs_to}

pub data Direction : Type 0 where
  read : Direction
  write : Direction

pub record Prepared (B : Type 0) : Type 0 where
  pub buf : B
  pub fd : ℤ
  pub offset : ℕ
  pub len : ℕ
  pub direction : Direction
  pub addr : ℕ

pub record Pending (B : Type 0) : Type 0 where
  pub buf : B
  pub ring : ℕ
  pub id : ℕ
  pub fd : ℤ
  pub offset : ℕ
  pub len : ℕ
  pub direction : Direction
  pub addr : ℕ

pub record Completed (B : Type 0) : Type 0 where
  pub buf : B
  pub id : ℕ
  pub direction : Direction
  pub result : ℤ

module _ {B : Type 0} where
  unfoldable pub prepare_read : StableBuffer B → ℤ → B → ℕ → Prepared B
  unfolding clamp_len
  prepare_read stable fd buf offset = record {
    buf = buf;
    fd = fd;
    offset = offset;
    len = clamp_len (stable.stable_len buf);
    direction = Direction.read;
    addr = stable.stable_ptr buf;
  }

  unfoldable pub prepare_write : StableBuffer B → ℤ → B → ℕ → Prepared B
  unfolding clamp_len
  prepare_write stable fd buf offset = record {
    buf = buf;
    fd = fd;
    offset = offset;
    len = clamp_len (stable.stable_len buf);
    direction = Direction.write;
    addr = stable.stable_ptr buf;
  }

  -- `with_len`: shorter only.
  unfoldable pub with_len : Prepared B → ℕ → Prepared B
  with_len p len = if ltb len p.len then record p { len = len } else p

  -- The entry of `into_pending`, but for its user data.
  abbrev entry : Direction → Prepared B → IoUringSqe
  entry Direction.read p = read_ptr p.fd p.addr p.len p.offset
  entry Direction.write p = write_ptr p.fd p.addr p.len p.offset

  unfoldable pub into_pending : Prepared B → ℕ → ℕ → IoUringSqe × Pending B
  into_pending p ring id = (
    Op.user_data (entry p.direction p) id,
    record {
      buf = p.buf;
      ring = ring;
      id = id;
      fd = p.fd;
      offset = p.offset;
      len = p.len;
      direction = p.direction;
      addr = p.addr;
    },
  )

  unfoldable pub reclaim_unsubmitted : Pending B → Prepared B
  reclaim_unsubmitted p = record {
    buf = p.buf;
    fd = p.fd;
    offset = p.offset;
    len = p.len;
    direction = p.direction;
    addr = p.addr;
  }

  abbrev pub matches : Pending B → Receipt → Bool
  matches p receipt = belongs_to receipt p.ring p.id

  -- `redeem`: the buffer for its own receipt, and both back for another.
  unfoldable pub redeem : Pending B → Receipt → Result (Completed B) (Pending B × Receipt)
  redeem p receipt =
      if matches p receipt
      then ok (record { buf = p.buf; id = p.id; direction = p.direction; result = receipt.result })
      else err (p, receipt)

  unfoldable pub result : Completed B → Result ℕ Error
  result c = elim (from_failed_cqe c.result) [ some e ↦ err e | none ↦ ok (u32_of_i32 c.result) ]
