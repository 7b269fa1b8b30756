-- ===== src/Owned/Sendmsg.antt =====
-- src/owned/sendmsg.rs: a message that is gathered from buffers the request owns.
pub mod Reach
pub mod Sent
use ququmatz.Base.{
  ℕ, ◌==◌, Bool, true, false, min, if◌then◌else◌, Result, ok, err, Option, some, none, List, [],
  ◌∷◌, map, length,
}
use ququmatz.Base.Int.{ℤ, u32_of_i32}
use ququmatz.Types.{IoUringSqe, SockAddrIn}
use ququmatz.Error.{Error, from_failed_cqe}
use ququmatz.Op
use ququmatz.Op.{sendmsg_ptr}
use ququmatz.Owned.{StableBuffer}
use ququmatz.Owned.Event.{Receipt, belongs_to}
use ququmatz.Owned.MsgRegion.{
  MsgRegion, MsgRegionError, stage, write_descriptors, write_name, publish_header,
}
use ququmatz.Owned.MsgRegion.Memory.{Writes}

pub data SendTarget : Type 0 where
  connected : SendTarget
  to : SockAddrIn → SendTarget

pub record PreparedSendmsg (B R : Type 0) : Type 0 where
  pub bufs : List B
  pub region : MsgRegion R
  pub fd : ℤ
  pub flags : ℕ
  pub target : SendTarget

pub record PendingSendmsg (B R : Type 0) : Type 0 where
  pub bufs : List B
  pub storage : R
  pub hdr : ℕ
  pub vecs : ℕ
  pub name : ℕ
  pub count : ℕ
  pub ring : ℕ
  pub id : ℕ
  pub fd : ℤ
  pub flags : ℕ
  pub target : SendTarget

pub record SendmsgCompleted (B R : Type 0) : Type 0 where
  pub bufs : List B
  pub region : MsgRegion R
  pub result : ℤ

-- `clamped` of `with_lens`: each length that is asked for, up to the buffer's own.
unfoldable pub clamped : {B : Type 0} → StableBuffer B → List ℕ → List B → List ℕ
clamped bytes (want ∷ lens) (buf ∷ bufs) = min want (bytes.stable_len buf) ∷ clamped bytes lens bufs
clamped bytes _ _ = []

-- `publish`
abbrev pub publish_target : {R : Type 0} → MsgRegion R → Writes → SendTarget → Writes
publish_target r m connected = publish_header r m false
publish_target r m (to addr) = publish_header r (write_name r m addr) true

module _ {B R : Type 0} where
  module _ (bytes : StableBuffer B) (stable : StableBuffer R) where
    unfoldable pub build :
        Writes
        → ℤ
        → List B
        → R
        → SendTarget
        → ℕ
        → List ℕ
        → Result (PreparedSendmsg B R × Writes) (List B × R × MsgRegionError)
    unfolding stage
    build m fd bufs storage target flags lens = elim (stage stable storage (length bufs)) [
      | ok region ↦ ok (
        record { bufs = bufs; region = region; fd = fd; flags = flags; target = target },
        publish_target region (write_descriptors bytes region m 0 bufs lens) target,
      )
      | err (storage', e) ↦ err (bufs, storage', e)
    ]

    unfoldable pub new :
        Writes
        → ℤ
        → List B
        → R
        → SendTarget
        → ℕ
        → Result (PreparedSendmsg B R × Writes) (List B × R × MsgRegionError)
    unfolding build
    new m fd bufs storage target flags =
        build m fd bufs storage target flags (map (λ b. bytes.stable_len b) bufs)

    -- `with_lens` changes the descriptors only.
    unfoldable pub with_lens : PreparedSendmsg B R → Writes → List ℕ → Writes
    unfolding clamped
    with_lens p m lens = write_descriptors bytes p.region m 0 p.bufs (clamped bytes lens p.bufs)

  unfoldable pub into_pending : PreparedSendmsg B R → ℕ → ℕ → IoUringSqe × PendingSendmsg B R
  into_pending p ring id = (
    Op.user_data (sendmsg_ptr p.fd p.region.hdr p.flags) id,
    record {
      bufs = p.bufs;
      storage = p.region.storage;
      hdr = p.region.hdr;
      vecs = p.region.vecs;
      name = p.region.name;
      count = p.region.count;
      ring = ring;
      id = id;
      fd = p.fd;
      flags = p.flags;
      target = p.target;
    },
  )

  -- `MsgRegion::from_parts` of what a ticket keeps.
  abbrev region_of : PendingSendmsg B R → MsgRegion R
  region_of p = record {
    storage = p.storage;
    hdr = p.hdr;
    vecs = p.vecs;
    name = p.name;
    count = p.count;
  }

  unfoldable pub redeem :
      PendingSendmsg B R → Receipt → Result (SendmsgCompleted B R) (PendingSendmsg B R × Receipt)
  redeem p receipt =
      if belongs_to receipt p.ring p.id
      then ok (record { bufs = p.bufs; region = region_of p; result = receipt.result })
      else err (p, receipt)

  unfoldable pub reclaim_unsubmitted : PendingSendmsg B R → PreparedSendmsg B R
  reclaim_unsubmitted p = record {
    bufs = p.bufs;
    region = region_of p;
    fd = p.fd;
    flags = p.flags;
    target = p.target;
  }

  unfoldable pub result : SendmsgCompleted B R → Result ℕ Error
  result c = elim (from_failed_cqe c.result) [ some e ↦ err e | none ↦ ok (u32_of_i32 c.result) ]

  unfoldable pub into_parts : SendmsgCompleted B R → Result ℕ Error × List B × R
  unfolding result
  into_parts c = (result c, c.bufs, c.region.storage)
