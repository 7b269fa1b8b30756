-- ===== src/Owned/Recvmsg.antt =====
-- src/owned/recvmsg.rs: a message that is scattered into buffers the request owns.
pub mod Peer
pub mod Reach
use ququmatz.Base.{
  ℕ, ◌==◌, Bool, true, false, not, ltb, ◌||◌, if◌then◌else◌, Result, ok, err, Option, some, none,
  List, map, length, ◌>>=◌,
}
use ququmatz.Base.Int.{ℤ, is_neg, u32_of_i32}
use ququmatz.Types.{IoUringSqe, SockAddrIn, default_addr, MsgHdr, contains}
use ququmatz.Error.{Error, from_failed_cqe}
use ququmatz.Op
use ququmatz.Op.{recvmsg_ptr}
use ququmatz.Owned.{StableBuffer}
use ququmatz.Owned.Event.{Receipt, belongs_to}
use ququmatz.Owned.MsgRegion.{
  MsgRegion, MsgRegionError, stage, write_descriptors, write_name, publish_header, header_of,
  staged_name,
}
use ququmatz.Owned.MsgRegion.Memory.{Writes, sock_addr_bytes}
use ququmatz.Owned.Sendmsg.{clamped}

-- `AF_INET_FAMILY` and `RESERVED_NAME_LEN`
abbrev pub af_inet : ℕ
af_inet = 2

abbrev pub reserved_name_len : ℕ
reserved_name_len = sock_addr_bytes

-- `MsgOutFlags`
abbrev pub msg_ctrunc : ℕ
msg_ctrunc = 0x8

abbrev pub msg_trunc : ℕ
msg_trunc = 0x20

pub data PeerWanted : Type 0 where
  unwanted wanted : PeerWanted

pub data PeerAddress : Type 0 where
  no_peer : PeerAddress
  v4 : SockAddrIn → PeerAddress
  truncated_peer : ℕ → ℕ → PeerAddress
  other_peer : ℕ → ℕ → PeerAddress

pub record PreparedRecvmsg (B R : Type 0) : Type 0 where
  pub bufs : List B
  pub region : MsgRegion R
  pub fd : ℤ
  pub flags : ℕ
  pub peer : PeerWanted

pub record PendingRecvmsg (B R : Type 0) : Type 0 where
  pub bufs : List B
  pub storage : R
  pub hdr : ℕ
  pub vecs : ℕ
  pub name : ℕ
  pub count : ℕ
  pub ring : ℕ
  pub id : ℕ
  pub fd : ℤ
  pub flags : ℕ
  pub wanted : PeerWanted

pub record RecvmsgCompleted (B R : Type 0) : Type 0 where
  pub bufs : List B
  pub region : MsgRegion R
  pub result : ℤ
  pub wanted : PeerWanted

pub record Received : Type 0 where
  pub bytes : ℕ
  pub flags : ℕ

-- `Received::truncated` and `Received::control_truncated`
abbrev pub truncated : Received → Bool
truncated r = contains r.flags msg_trunc

abbrev pub control_truncated : Received → Bool
control_truncated r = contains r.flags msg_ctrunc

-- `peer`, of a reported length and the bytes in the slot.
unfoldable pub classify_peer : ℕ → SockAddrIn → PeerAddress
classify_peer reported staged =
    if reported == 0
    then no_peer
    else if ltb reserved_name_len reported
    then truncated_peer reported reserved_name_len
    else if ltb reported reserved_name_len || not (staged.sin_family == af_inet)
    then other_peer staged.sin_family reported
    else v4 staged

-- `publish`
abbrev pub publish_peer : {R : Type 0} → MsgRegion R → Writes → PeerWanted → Writes
publish_peer r m unwanted = publish_header r m false
publish_peer r m wanted = publish_header r (write_name r m default_addr) true

module _ {B R : Type 0} where
  module _ (bytes : StableBuffer B) (stable : StableBuffer R) where
    unfoldable pub build :
        Writes
        → ℤ
        → List B
        → R
        → PeerWanted
        → ℕ
        → List ℕ
        → Result (PreparedRecvmsg B R × Writes) (List B × R × MsgRegionError)
    unfolding stage
    build m fd bufs storage peer flags lens = elim (stage stable storage (length bufs)) [
      | ok region ↦ ok (
        record { bufs = bufs; region = region; fd = fd; flags = flags; peer = peer },
        publish_peer region (write_descriptors bytes region m 0 bufs lens) peer,
      )
      | err (storage', e) ↦ err (bufs, storage', e)
    ]

    unfoldable pub new :
        Writes
        → ℤ
        → List B
        → R
        → PeerWanted
        → ℕ
        → Result (PreparedRecvmsg B R × Writes) (List B × R × MsgRegionError)
    unfolding build
    new m fd bufs storage peer flags =
        build m fd bufs storage peer flags (map (λ b. bytes.stable_len b) bufs)

    unfoldable pub with_lens : PreparedRecvmsg B R → Writes → List ℕ → Writes
    unfolding clamped
    with_lens p m lens = write_descriptors bytes p.region m 0 p.bufs (clamped bytes lens p.bufs)

  unfoldable pub into_pending : PreparedRecvmsg B R → ℕ → ℕ → IoUringSqe × PendingRecvmsg B R
  into_pending p ring id = (
    Op.user_data (recvmsg_ptr p.fd p.region.hdr p.flags) id,
    record {
      bufs = p.bufs;
      storage = p.region.storage;
      hdr = p.region.hdr;
      vecs = p.region.vecs;
      name = p.region.name;
      count = p.region.count;
      ring = ring;
      id = id;
      fd = p.fd;
      flags = p.flags;
      wanted = p.peer;
    },
  )

  abbrev region_of : PendingRecvmsg B R → MsgRegion R
  region_of p = record {
    storage = p.storage;
    hdr = p.hdr;
    vecs = p.vecs;
    name = p.name;
    count = p.count;
  }

  unfoldable pub redeem :
      PendingRecvmsg B R → Receipt → Result (RecvmsgCompleted B R) (PendingRecvmsg B R × Receipt)
  redeem p receipt =
      if belongs_to receipt p.ring p.id
      then ok (record {
        bufs = p.bufs;
        region = region_of p;
        result = receipt.result;
        wanted = p.wanted;
      })
      else err (p, receipt)

  unfoldable pub reclaim_unsubmitted : PendingRecvmsg B R → PreparedRecvmsg B R
  reclaim_unsubmitted p = record {
    bufs = p.bufs;
    region = region_of p;
    fd = p.fd;
    flags = p.flags;
    peer = p.wanted;
  }

  -- `received`; as of `peer`, `none` where the memory it reads was not written whole.
  unfoldable pub received : RecvmsgCompleted B R → Writes → Option (Result Received Error)
  received c m = elim (from_failed_cqe c.result) [
    | some e ↦ some (err e)
    | none ↦ header_of c.region m >>= λ h.
        some (ok (record { bytes = u32_of_i32 c.result; flags = u32_of_i32 h.msg_flags }))
  ]

  unfoldable pub peer : RecvmsgCompleted B R → Writes → Option PeerAddress
  unfolding classify_peer
  peer c m = if is_neg c.result then some no_peer else elim c.wanted [
    | unwanted ↦ some no_peer
    | wanted ↦ header_of c.region m >>= λ h.
        staged_name c.region m >>= λ a. some (classify_peer h.msg_namelen a)
  ]
