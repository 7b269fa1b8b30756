-- ===== src/Owned/Multishot.antt =====
-- src/owned/multishot.rs: a receive that stays armed and fills buffers of a pool.
pub mod Lease
use ququmatz.Base.{ℕ, Bool, true, false, Option, some, none, Result, ok, err, if◌then◌else◌, bit_or}
use ququmatz.Base.Int.{ℤ, try_u32, u32_of_i32}
use ququmatz.Types.{IoUringSqe, zeroed}
use ququmatz.Types.CqeFlags
use ququmatz.Error.{Error, from_failed_cqe}
use ququmatz.Op
use ququmatz.Owned.Event.{Receipt, PartialReceipt, Event, event_belongs_to}

pub record PreparedMultishot : Type 0 where
  pub fd : ℤ
  pub bgid : ℕ
  pub flags : ℕ

pub record MultishotRecv : Type 0 where
  pub ring : ℕ
  pub id : ℕ
  pub bgid : ℕ
  pub fd : ℤ

-- `IORING_RECV_MULTISHOT` and `SqeFlags::BUFFER_SELECT`
abbrev recv_multishot_flag : ℕ
recv_multishot_flag = 2

abbrev buffer_select_flag : ℕ
buffer_select_flag = 32

-- `Sqe::recv_multishot`
abbrev pub recv_multishot : ℤ → ℕ → IoUringSqe
recv_multishot fd flags = record zeroed {
  opcode = 27;
  fd = fd;
  op_flags = flags;
  ioprio = recv_multishot_flag;
}

-- `Sqe::buffer_select`
abbrev pub buffer_select : IoUringSqe → ℕ → IoUringSqe
buffer_select sqe group_id = record sqe {
  flags = bit_or sqe.flags buffer_select_flag;
  buf_index = group_id;
}

unfoldable pub into_pending : PreparedMultishot → ℕ → ℕ → IoUringSqe × MultishotRecv
into_pending p ring id = (
  Op.user_data (buffer_select (recv_multishot p.fd p.flags) p.bgid) id,
  record { ring = ring; id = id; bgid = p.bgid; fd = p.fd },
)

-- `struct Arrival`: the lease on a buffer of the pool.
pub record Arrival : Type 0 where
  pub buf_id : ℕ
  pub len : ℕ

pub record Finished : Type 0 where
  pub receipt : Receipt
  pub last : Option Arrival

pub data Delivery : Type 0 where
  filled : Arrival → Delivery
  empty : ℤ → Delivery
  done : Finished → Delivery

-- `Arrival::claim`: a buffer was chosen and the result is no error.
unfoldable pub claim : Option ℕ → ℤ → Option Arrival
claim buffer_id result = elim buffer_id [
  | none ↦ none
  | some buf_id ↦ elim (try_u32 result) [
    | none ↦ none
    | some len ↦ some (record { buf_id = buf_id; len = len })
  ]
]

unfoldable pub from_event : Event → Delivery
unfolding claim
from_event (Event.partial notice) = elim (claim (CqeFlags.buffer_id notice.flags) notice.result) [
  | some arrival ↦ filled arrival
  | none ↦ empty notice.result
]
from_event (Event.complete receipt) =
    done
      (record { receipt = receipt; last = claim (CqeFlags.buffer_id receipt.flags) receipt.result })

-- `MultishotRecv::record`
unfoldable pub delivery : MultishotRecv → Event → Result Delivery Event
unfolding from_event
delivery t event = if event_belongs_to event t.ring t.id then ok (from_event event) else err event

-- The arrival that a delivery leases, which returns its buffer to the pool when it is dropped.
unfoldable pub leased : Delivery → Option Arrival
leased (filled arrival) = some arrival
leased (empty result) = none
leased (done finished) = finished.last

-- `Delivery::armed`
unfoldable pub armed : Delivery → Bool
armed (filled arrival) = true
armed (empty result) = true
armed (done finished) = false
