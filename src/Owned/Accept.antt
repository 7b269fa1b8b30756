-- ===== src/Owned/Accept.antt =====
-- src/owned/accept.rs: an accept that stays armed and brings connections.
pub mod Kept
use ququmatz.Base.{ℕ, Bool, true, false, if◌then◌else◌, Result, ok, err, Option, some, none}
use ququmatz.Base.Int.{ℤ, try_u32}
use ququmatz.Types.{IoUringSqe}
use ququmatz.Op
use ququmatz.Op.{accept_multishot}
use ququmatz.Owned.Event.{Receipt, Event, event_belongs_to}

pub record PreparedAccept : Type 0 where
  pub fd : ℤ
  pub flags : ℕ

pub record MultishotAccept : Type 0 where
  pub ring : ℕ
  pub id : ℕ
  pub fd : ℤ

pub record AcceptFinished : Type 0 where
  pub receipt : Receipt
  pub last : Option ℕ

pub data Incoming : Type 0 where
  connection : ℕ → Incoming
  empty : ℤ → Incoming
  done : AcceptFinished → Incoming

unfoldable pub into_pending : PreparedAccept → ℕ → ℕ → IoUringSqe × MultishotAccept
into_pending p ring id =
    (Op.user_data (accept_multishot p.fd p.flags) id, record { ring = ring; id = id; fd = p.fd })

-- `claim`: a `Socket` is the number of its descriptor.
abbrev pub claim : MultishotAccept → ℤ → Option ℕ
claim t result = try_u32 result

-- What an event of the ticket's own brings.
abbrev pub from_event : MultishotAccept → Event → Incoming
from_event t (Event.partial notice) = elim (claim t notice.result) [
  | some found ↦ connection found
  | none ↦ empty notice.result
]
from_event t (Event.complete receipt) =
    done (record { receipt = receipt; last = claim t receipt.result })

-- `record`
unfoldable pub record_event : MultishotAccept → Event → Result Incoming Event
record_event t event =
    if event_belongs_to event t.ring t.id then ok (from_event t event) else err event

-- `Incoming::armed`
unfoldable pub armed : Incoming → Bool
armed (connection found) = true
armed (empty result) = true
armed (done finished) = false

-- `Incoming::into_connection`
unfoldable pub into_connection : Incoming → Option ℕ
into_connection (connection found) = some found
into_connection (empty result) = none
into_connection (done finished) = finished.last
