-- ===== src/Owned/Multishot/Lease.antt =====
-- src/owned/multishot.rs: the buffer that a delivery leases, and whether the request stays armed.
use ququmatz.Base.{
  ℕ, ◌*◌, ◌/◌, ◌%◌, ◌^◌, bit_and, ◌==◌, ==_iff, ap, true, false, not, Bool-cases, ◌≡◌, refl, ◌⊎◌,
  inl, inr, ◌↔◌, Option, some, none, ok, err, arith,
}
use ququmatz.Base.Int.{ℤ, pos, negsuc}
use ququmatz.Base.Word.{bit_and_bit}
use ququmatz.Types.{contains}
use ququmatz.Types.CqeFlags
use ququmatz.Owned.Event.{Event, event_belongs_to, event_flags, event_result, is_terminal}
use ququmatz.Owned.Multishot.{
  MultishotRecv, Arrival, Delivery, claim, from_event, delivery, leased, armed,
}

claim_iff :
    (b : Option ℕ) (z : ℤ) (a : Arrival)
    → (claim b z ≡ some a) ↔ ((b ≡ some a.buf_id) × (z ≡ pos a.len))
unfolding claim
claim_iff none z a = ground arith
claim_iff (some n) (pos m) a = ground arith
claim_iff (some n) (negsuc m) a = ground arith

-- The lowest bit says that the kernel chose a buffer, and the upper half of the word which one.
buffer_id_iff :
    (flags n : ℕ)
    → (CqeFlags.buffer_id flags ≡ some n) ↔ ((flags % 2 ≡ 1) × (flags / 2 ^ 16 % 2 ^ 16 ≡ n))
unfolding CqeFlags.buffer_id contains
buffer_id_iff flags n =
    let bit : bit_and flags 1 ≡ flags / 1 % 2 * 1 = bit_and_bit 0 flags in
    let low : bit_and flags 1 ≡ flags % 2 = omega arith in
    elim (Bool-cases (flags % 2 == 1)) [
      | inl odd ↦
          let one : flags % 2 ≡ 1 = (==_iff _ _).0 odd in
          rw (low, odd, CqeFlags.buffer_id) (λ e. (one, cc e), λ h. ap some h.1)
      | inr even ↦ rw (low, even, CqeFlags.buffer_id) (λ e. absurd (cc e), λ h. ground arith)
    ]

claim-buffer_id :
    (flags : ℕ) (z : ℤ) (a : Arrival)
    → (claim (CqeFlags.buffer_id flags) z ≡ some a)
      ↔ (((flags % 2 ≡ 1) × (flags / 2 ^ 16 % 2 ^ 16 ≡ a.buf_id)) × (z ≡ pos a.len))
claim-buffer_id flags z a =
    let (chosen, length) = claim_iff (CqeFlags.buffer_id flags) z a in
    let (bits, back) = buffer_id_iff flags a.buf_id in
    (λ e. let (n, l) = chosen e in (bits n, l), λ h. length (back h.0, h.1))

leased-from_event :
    (event : Event)
    → leased (from_event event)
      ≡ claim (CqeFlags.buffer_id (event_flags event)) (event_result event)
unfolding from_event leased
leased-from_event (Event.complete receipt) = refl
leased-from_event (Event.partial notice) = ground arith

armed-from_event : (event : Event) → armed (from_event event) ≡ not (is_terminal event)
unfolding from_event armed
armed-from_event (Event.complete receipt) = refl
armed-from_event (Event.partial notice) = ground arith

-- An event of another request comes back. One of the ticket's own leases a buffer exactly when the
-- lowest bit of the event's flags is set, the upper 16 of their 32 bits are the buffer's number,
-- and the result is its length and no error, whether or not it is terminal; the ticket stays armed
-- exactly when the event is not terminal.
pub delivery_lem :
    (t : MultishotRecv) (event : Event) (a : Arrival)
    → ((event_belongs_to event t.ring t.id ≡ false) × (delivery t event ≡ err event))
      ⊎ ((d : Delivery) × (event_belongs_to event t.ring t.id ≡ true)
          × (delivery t event ≡ ok d)
          × (armed d ≡ not (is_terminal event))
          × ((leased d ≡ some a) ↔ (
              ((event_flags event % 2 ≡ 1) × (event_flags event / 2 ^ 16 % 2 ^ 16 ≡ a.buf_id))
              × (event_result event ≡ pos a.len))))
unfolding delivery
delivery_lem t event a = elim (Bool-cases (event_belongs_to event t.ring t.id)) [
  | inr other ↦ inl (other, rw (other, delivery) refl)
  | inl own ↦ inr (
    from_event event,
    own,
    rw (own, delivery) refl,
    armed-from_event event,
    rw (leased-from_event event) (claim-buffer_id (event_flags event) (event_result event) a),
  )
]
