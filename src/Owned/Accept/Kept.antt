-- ===== src/Owned/Accept/Kept.antt =====
-- src/owned/accept.rs and direct_accept.rs: nothing that the kernel installed is lost.
use ququmatz.Base.{
  ◌≡◌, ◌≤◌, ◌↔◌, refl, arith, ◌⊎◌, inl, inr, Bool-cases, true, false, not, ok, err, some, none,
}
use ququmatz.Base.Int.{ℤ, pos, negsuc, try_u32}
use ququmatz.Owned.Event.{Event, event_belongs_to, event_result, is_terminal}
use ququmatz.Owned.Accept
use ququmatz.Owned.Accept.{MultishotAccept, Incoming, record_event, into_connection}
use ququmatz.Owned.DirectAccept
use ququmatz.Owned.DirectAccept.{DirectAccept, DirectIncoming, into_slot}
use ququmatz.Owned.Slot
use ququmatz.Owned.Slot.{DirectSlot, slot_max, resolve}

armed-from_event :
    (t : MultishotAccept) (event : Event)
    → Accept.armed (Accept.from_event t event) ≡ not (is_terminal event)
unfolding Accept.armed
armed-from_event t (Event.partial notice) =
    elim (try_u32 notice.result)
      as (λ o.
        Accept.armed
          (elim o [ some found ↦ Accept.connection found | none ↦ Accept.empty notice.result ])
        ≡ true) [ some found ↦ refl | none ↦ refl ]
armed-from_event t (Event.complete receipt) = refl

into_connection-from_event :
    (t : MultishotAccept) (event : Event)
    → into_connection (Accept.from_event t event) ≡ try_u32 (event_result event)
unfolding into_connection
into_connection-from_event t (Event.partial notice) =
    elim (try_u32 notice.result)
      as (λ o.
        into_connection
          (elim o [ some found ↦ Accept.connection found | none ↦ Accept.empty notice.result ])
        ≡ o) [ some found ↦ refl | none ↦ refl ]
into_connection-from_event t (Event.complete receipt) = refl

-- An event of another request comes back from an accept. One of its own leaves it armed exactly
-- when it is not terminal, and gives the connection exactly when its result is one and no error,
-- whether or not it is terminal.
pub record_event_lem :
    (t : MultishotAccept) (event : Event)
    → ((event_belongs_to event t.ring t.id ≡ false) × (record_event t event ≡ err event))
      ⊎ ((i : Incoming) × (event_belongs_to event t.ring t.id ≡ true)
          × (record_event t event ≡ ok i)
          × (Accept.armed i ≡ not (is_terminal event))
          × (into_connection i ≡ try_u32 (event_result event)))
unfolding record_event
record_event_lem t event = elim (Bool-cases (event_belongs_to event t.ring t.id)) [
  | inr other ↦ inl (other, rw (other, record_event) refl)
  | inl own ↦ inr (
    Accept.from_event t event,
    own,
    rw (own, record_event) refl,
    armed-from_event t event,
    into_connection-from_event t event,
  )
]

slot_armed-from_event :
    (t : DirectAccept) (event : Event)
    → DirectAccept.armed (DirectAccept.from_event t event) ≡ not (is_terminal event)
unfolding DirectAccept.armed
slot_armed-from_event t (Event.partial notice) =
    elim (DirectAccept.claim t notice.result)
      as (λ o.
        DirectAccept.armed (elim o [
          | some found ↦ DirectAccept.installed found
          | none ↦ DirectAccept.empty notice.result
        ])
        ≡ true) [ some found ↦ refl | none ↦ refl ]
slot_armed-from_event t (Event.complete receipt) = refl

into_slot-from_event :
    (t : DirectAccept) (event : Event)
    → into_slot (DirectAccept.from_event t event) ≡ DirectAccept.claim t (event_result event)
unfolding into_slot
into_slot-from_event t (Event.partial notice) =
    elim (DirectAccept.claim t notice.result)
      as (λ o.
        into_slot (elim o [
          | some found ↦ DirectAccept.installed found
          | none ↦ DirectAccept.empty notice.result
        ])
        ≡ o) [ some found ↦ refl | none ↦ refl ]
into_slot-from_event t (Event.complete receipt) = refl

claim_iff :
    (t : DirectAccept) (z : ℤ) (s : DirectSlot)
    → (DirectAccept.claim t z ≡ some s)
      ↔ ((z ≡ pos s.slot.index) × (s.slot.index ≤ slot_max) × (s.ring ≡ t.ring))
unfolding resolve Slot.new
claim_iff t (pos n) s = (λ e. ground arith, λ (z, small, r). ground arith)
claim_iff t (negsuc n) s = (λ e. absurd (ground arith), λ (z, small, r). absurd (ground arith))

-- What a direct accept makes of an event of its own leaves it armed exactly when the event is not
-- terminal, and gives a slot exactly when the event's result is its index, the index is one of a
-- slot, and the slot is of the accept's ring.
pub into_slot-record_event :
    (t : DirectAccept) (event : Event) (i : DirectIncoming) (s : DirectSlot)
    → DirectAccept.record_event t event ≡ ok i
    → (DirectAccept.armed i ≡ not (is_terminal event))
      × ((into_slot i ≡ some s) ↔ (
          (event_result event ≡ pos s.slot.index) × (s.slot.index ≤ slot_max) × (s.ring ≡ t.ring)))
unfolding DirectAccept.record_event
into_slot-record_event t event i s e =
    let same : DirectAccept.from_event t event ≡ i = ground arith in
    rw (← same) (
      slot_armed-from_event t event,
      rw (into_slot-from_event t event) (claim_iff t (event_result event) s),
    )
