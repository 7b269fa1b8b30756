-- ===== src/Owned/ZeroCopy/Lifecycle.antt =====
-- src/owned/zerocopy.rs: a send from its ticket to its buffer.
use ququmatz.Base.{ℕ, ◌≡◌, ◌≢◌, refl, ◌⊎◌, ok, err, some, none, arith, Result}
use ququmatz.Base.Int.{ℤ, u32_of_i32}
use ququmatz.Error.{Error, from_failed_cqe}
use ququmatz.Owned.{same_request}
use ququmatz.Owned.Event.{Receipt, PartialReceipt}
use ququmatz.Owned.Request.Redeem.{same_request_iff}
use ququmatz.Owned.ZeroCopy.{
  PreparedZc, PendingZc, ZcCompleted, into_pending, record_sent, redeem, raw, result,
}

-- How the results of completions are read.
abbrev pub reading : ℤ → Result ℕ Error
reading z = elim (from_failed_cqe z) [ some e ↦ err e | none ↦ ok (u32_of_i32 z) ]

module _ {B : Type 0} where
  -- For a zero-copy send with a partial event and then a receipt, both of the send's ring and
  -- identity: the event is recorded, the receipt redeems the ticket for the buffer that was sent,
  -- and the result read is the event's and not the receipt's.
  pub send_notified :
      (p : PreparedZc B) (ring id : ℕ) (notice : PartialReceipt) (receipt : Receipt)
      → notice.ring ≡ ring
      → notice.id ≡ id
      → receipt.ring ≡ ring
      → receipt.id ≡ id
      → (t : PendingZc B) × (done : ZcCompleted B) × (record_sent (into_pending p ring id).1 notice
          ≡ ok t)
        × (redeem t receipt ≡ ok done)
        × (done.buf ≡ p.buf)
        × (result done ≡ reading notice.result)
  unfolding into_pending record_sent redeem raw result
  send_notified p ring id notice receipt nr ni rr ri =
      let first = (same_request_iff notice.ring notice.id ring id).1 (ni, nr) in
      let last = (same_request_iff receipt.ring receipt.id ring id).1 (ri, rr) in
      let t : PendingZc B = record (into_pending p ring id).1 { sent = some notice.result } in
      let done : ZcCompleted B = record {
        buf = p.buf;
        id = id;
        sent = some notice.result;
        notified = receipt.result;
      } in
      (t, done, rw (first, record_sent) refl, rw (last, redeem) refl, refl, refl)

  -- For a zero-copy send whose first completion is terminal, a receipt of its ring and identity
  -- redeems the ticket for the buffer that was sent, and the result read is the receipt's own.
  pub send_copied :
      (p : PreparedZc B) (ring id : ℕ) (receipt : Receipt)
      → receipt.ring ≡ ring
      → receipt.id ≡ id
      → (done : ZcCompleted B) × (redeem (into_pending p ring id).1 receipt ≡ ok done)
        × (done.buf ≡ p.buf)
        × (result done ≡ reading receipt.result)
  unfolding into_pending redeem raw result
  send_copied p ring id receipt rr ri =
      let last = (same_request_iff receipt.ring receipt.id ring id).1 (ri, rr) in
      let done : ZcCompleted B = record {
        buf = p.buf;
        id = id;
        sent = none;
        notified = receipt.result;
      } in
      (done, rw (last, redeem) refl, refl, refl)

  -- A partial event and a receipt that are each of another ring or another request leave a zero-
  -- copy ticket as it is and come back with it.
  pub foreign_unchanged :
      (t : PendingZc B) (notice : PartialReceipt) (receipt : Receipt)
      → (notice.ring ≢ t.ring) ⊎ (notice.id ≢ t.id)
      → (receipt.ring ≢ t.ring) ⊎ (receipt.id ≢ t.id)
      → (record_sent t notice ≡ err (t, notice)) × (redeem t receipt ≡ err (t, receipt))
  unfolding record_sent redeem same_request
  foreign_unchanged t notice receipt hn hr = ground arith
