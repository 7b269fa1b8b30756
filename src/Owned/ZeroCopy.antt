-- ===== src/Owned/ZeroCopy.antt =====
-- src/owned/zerocopy.rs: a send whose buffer outlives its first completion.
pub mod Lifecycle
use ququmatz.Base.{ℕ, Bool, ltb, if◌then◌else◌, Result, ok, err, Option, some, none}
use ququmatz.Base.Int.{ℤ, u32_of_i32}
use ququmatz.Types.{IoUringSqe}
use ququmatz.Error.{Error, from_failed_cqe}
use ququmatz.Op
use ququmatz.Op.{send_zc_ptr}
use ququmatz.Owned.{StableBuffer, clamp_len}
use ququmatz.Owned.Event.{Receipt, PartialReceipt, belongs_to, partial_belongs_to}

pub record PreparedZc (B : Type 0) : Type 0 where
  pub buf : B
  pub fd : ℤ
  pub len : ℕ
  pub flags : ℕ
  pub addr : ℕ

pub record PendingZc (B : Type 0) : Type 0 where
  pub buf : B
  pub ring : ℕ
  pub id : ℕ
  pub fd : ℤ
  pub len : ℕ
  pub flags : ℕ
  pub addr : ℕ
  pub sent : Option ℤ

pub record ZcCompleted (B : Type 0) : Type 0 where
  pub buf : B
  pub id : ℕ
  pub sent : Option ℤ
  pub notified : ℤ

module _ {B : Type 0} where
  unfoldable pub send : StableBuffer B → ℤ → B → ℕ → PreparedZc B
  unfolding clamp_len
  send stable fd buf flags = record {
    buf = buf;
    fd = fd;
    len = clamp_len (stable.stable_len buf);
    flags = flags;
    addr = stable.stable_ptr buf;
  }

  unfoldable pub with_len : PreparedZc B → ℕ → PreparedZc B
  with_len p len = if ltb len p.len then record p { len = len } else p

  unfoldable pub into_pending : PreparedZc B → ℕ → ℕ → IoUringSqe × PendingZc B
  into_pending p ring id = (
    Op.user_data (send_zc_ptr p.fd p.addr p.len p.flags) id,
    record {
      buf = p.buf;
      ring = ring;
      id = id;
      fd = p.fd;
      len = p.len;
      flags = p.flags;
      addr = p.addr;
      sent = none;
    },
  )

  unfoldable pub reclaim_unsubmitted : PendingZc B → PreparedZc B
  reclaim_unsubmitted p = record {
    buf = p.buf;
    fd = p.fd;
    len = p.len;
    flags = p.flags;
    addr = p.addr;
  }

  abbrev pub matches : PendingZc B → Receipt → Bool
  matches p receipt = belongs_to receipt p.ring p.id

  abbrev pub matches_sent : PendingZc B → PartialReceipt → Bool
  matches_sent p notice = partial_belongs_to notice p.ring p.id

  -- `record_sent`: the byte count is kept, and the buffer stays.
  unfoldable pub record_sent :
      PendingZc B → PartialReceipt → Result (PendingZc B) (PendingZc B × PartialReceipt)
  record_sent p notice =
      if matches_sent p notice then ok (record p { sent = some notice.result }) else err (p, notice)

  unfoldable pub redeem : PendingZc B → Receipt → Result (ZcCompleted B) (PendingZc B × Receipt)
  redeem p receipt =
      if matches p receipt
      then ok (record { buf = p.buf; id = p.id; sent = p.sent; notified = receipt.result })
      else err (p, receipt)

  -- The result that counts: the send's, if it was recorded.
  unfoldable pub raw : ZcCompleted B → ℤ
  raw c = elim c.sent [ some sent ↦ sent | none ↦ c.notified ]

  -- `result`
  unfoldable pub result : ZcCompleted B → Result ℕ Error
  unfolding raw
  result c = elim (from_failed_cqe (raw c)) [ some e ↦ err e | none ↦ ok (u32_of_i32 (raw c)) ]
