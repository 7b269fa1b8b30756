-- ===== src/Owned/SendmsgZc.antt =====
-- src/owned/sendmsg_zc.rs: a message that is sent without a copy, with two completions.
pub mod Reach
use ququmatz.Base.{ℕ, if◌then◌else◌, Result, ok, err, Option, some, none, List, map, length}
use ququmatz.Base.Int.{ℤ, u32_of_i32}
use ququmatz.Types.{IoUringSqe}
use ququmatz.Error.{Error, from_failed_cqe}
use ququmatz.Op
use ququmatz.Op.{sendmsg_zc_ptr}
use ququmatz.Owned.{StableBuffer}
use ququmatz.Owned.Event.{Receipt, PartialReceipt, belongs_to, partial_belongs_to}
use ququmatz.Owned.MsgRegion.{MsgRegion, MsgRegionError, stage, write_descriptors}
use ququmatz.Owned.MsgRegion.Memory.{Writes}
use ququmatz.Owned.Sendmsg.{SendTarget, publish_target, clamped}

pub record PreparedSendmsgZc (B R : Type 0) : Type 0 where
  pub bufs : List B
  pub region : MsgRegion R
  pub fd : ℤ
  pub flags : ℕ
  pub target : SendTarget

pub record PendingSendmsgZc (B R : Type 0) : Type 0 where
  pub bufs : List B
  pub storage : R
  pub hdr : ℕ
  pub vecs : ℕ
  pub name : ℕ
  pub count : ℕ
  pub ring : ℕ
  pub id : ℕ
  pub fd : ℤ
  pub flags : ℕ
  pub target : SendTarget
  pub sent : Option ℤ

pub record SendmsgZcCompleted (B R : Type 0) : Type 0 where
  pub bufs : List B
  pub region : MsgRegion R
  pub sent : Option ℤ
  pub notified : ℤ

module _ {B R : Type 0} where
  module _ (bytes : StableBuffer B) (stable : StableBuffer R) where
    unfoldable pub build :
        Writes
        → ℤ
        → List B
        → R
        → SendTarget
        → ℕ
        → List ℕ
        → Result (PreparedSendmsgZc B R × Writes) (List B × R × MsgRegionError)
    unfolding stage
    build m fd bufs storage target flags lens = elim (stage stable storage (length bufs)) [
      | ok region ↦ ok (
        record { bufs = bufs; region = region; fd = fd; flags = flags; target = target },
        publish_target region (write_descriptors bytes region m 0 bufs lens) target,
      )
      | err (storage', e) ↦ err (bufs, storage', e)
    ]

    unfoldable pub new :
        Writes
        → ℤ
        → List B
        → R
        → SendTarget
        → ℕ
        → Result (PreparedSendmsgZc B R × Writes) (List B × R × MsgRegionError)
    unfolding build
    new m fd bufs storage target flags =
        build m fd bufs storage target flags (map (λ b. bytes.stable_len b) bufs)

  -- `with_lens` changes the descriptors only.
  unfoldable pub with_lens : StableBuffer B → PreparedSendmsgZc B R → Writes → List ℕ → Writes
  unfolding clamped
  with_lens bytes p m lens = write_descriptors bytes p.region m 0 p.bufs (clamped bytes lens p.bufs)

  unfoldable pub into_pending : PreparedSendmsgZc B R → ℕ → ℕ → IoUringSqe × PendingSendmsgZc B R
  into_pending p ring id = (
    Op.user_data (sendmsg_zc_ptr p.fd p.region.hdr p.flags) id,
    record {
      bufs = p.bufs;
      storage = p.region.storage;
      hdr = p.region.hdr;
      vecs = p.region.vecs;
      name = p.region.name;
      count = p.region.count;
      ring = ring;
      id = id;
      fd = p.fd;
      flags = p.flags;
      target = p.target;
      sent = none;
    },
  )

  -- `MsgRegion::from_parts` of what a ticket keeps.
  abbrev region_of : PendingSendmsgZc B R → MsgRegion R
  region_of p = record {
    storage = p.storage;
    hdr = p.hdr;
    vecs = p.vecs;
    name = p.name;
    count = p.count;
  }

  -- `record_sent`, with `matches_sent`: the result is kept, and the buffers stay.
  unfoldable pub record_sent :
      PendingSendmsgZc B R
      → PartialReceipt
      → Result (PendingSendmsgZc B R) (PendingSendmsgZc B R × PartialReceipt)
  record_sent p notice =
      if partial_belongs_to notice p.ring p.id
      then ok (record p { sent = some notice.result })
      else err (p, notice)

  unfoldable pub reclaim_unsubmitted : PendingSendmsgZc B R → PreparedSendmsgZc B R
  reclaim_unsubmitted p = record {
    bufs = p.bufs;
    region = region_of p;
    fd = p.fd;
    flags = p.flags;
    target = p.target;
  }

  unfoldable pub redeem :
      PendingSendmsgZc B R
      → Receipt
      → Result (SendmsgZcCompleted B R) (PendingSendmsgZc B R × Receipt)
  redeem p receipt =
      if belongs_to receipt p.ring p.id
      then ok
          (record { bufs = p.bufs; region = region_of p; sent = p.sent; notified = receipt.result })
      else err (p, receipt)

  -- The result that counts: the send's, if it was recorded.
  unfoldable pub raw : SendmsgZcCompleted B R → ℤ
  raw c = elim c.sent [ some sent ↦ sent | none ↦ c.notified ]

  -- `result`
  unfoldable pub result : SendmsgZcCompleted B R → Result ℕ Error
  unfolding raw
  result c = elim (from_failed_cqe (raw c)) [ some e ↦ err e | none ↦ ok (u32_of_i32 (raw c)) ]
