-- ===== src/Owned/DirectAccept.antt =====
-- src/owned/direct_accept.rs: an accept that stays armed and fills slots of the ring's table.

use ququmatz.Base.{ℕ, Bool, true, false, if◌then◌else◌, Result, ok, err, Option, some, none}
use ququmatz.Base.Int.{ℤ}
use ququmatz.Types.{IoUringSqe}
use ququmatz.Op
use ququmatz.Op.{accept_multishot_direct}
use ququmatz.Owned.Event.{Receipt, Event, event_belongs_to}
use ququmatz.Owned.Slot.{SlotTarget, DirectSlot, resolve}

pub record PreparedDirectAccept : Type 0 where
  pub fd : ℤ
  pub flags : ℕ

pub record DirectAccept : Type 0 where
  pub ring : ℕ
  pub id : ℕ
  pub fd : ℤ

pub record DirectAcceptFinished : Type 0 where
  pub receipt : Receipt
  pub last : Option DirectSlot

pub data DirectIncoming : Type 0 where
  installed : DirectSlot → DirectIncoming
  empty : ℤ → DirectIncoming
  done : DirectAcceptFinished → DirectIncoming

unfoldable pub into_pending : PreparedDirectAccept → ℕ → ℕ → IoUringSqe × DirectAccept
into_pending p ring id = (
  Op.user_data (accept_multishot_direct p.fd p.flags) id,
  record { ring = ring; id = id; fd = p.fd },
)

-- `claim`
abbrev pub claim : DirectAccept → ℤ → Option DirectSlot
claim t result = elim (resolve SlotTarget.auto result) [
  | some index ↦ some (record { slot = index; ring = t.ring })
  | none ↦ none
]

-- What an event of the ticket's own brings.
abbrev pub from_event : DirectAccept → Event → DirectIncoming
from_event t (Event.partial notice) = elim (claim t notice.result) [
  | some found ↦ installed found
  | none ↦ empty notice.result
]
from_event t (Event.complete receipt) =
    done (record { receipt = receipt; last = claim t receipt.result })

-- `record`
unfoldable pub record_event : DirectAccept → Event → Result DirectIncoming Event
record_event t event =
    if event_belongs_to event t.ring t.id then ok (from_event t event) else err event

-- `DirectIncoming::armed`
unfoldable pub armed : DirectIncoming → Bool
armed (installed found) = true
armed (empty result) = true
armed (done finished) = false

-- `DirectIncoming::into_slot`
unfoldable pub into_slot : DirectIncoming → Option DirectSlot
into_slot (installed found) = some found
into_slot (empty result) = none
into_slot (done finished) = finished.last
