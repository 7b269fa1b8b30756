-- ===== src/Owned/Request/Redeem.antt =====
-- src/owned/request.rs: redeeming a ticket.
use ququmatz.Base.{ℕ, ◌≡◌, ◌↔◌, ok, true, arith}
use ququmatz.Owned.{same_request}
use ququmatz.Owned.Event.{Receipt}
use ququmatz.Owned.Request.{Pending, Completed, redeem}

pub same_request_iff :
    (own_ring own_id ring id : ℕ)
    → (same_request own_ring own_id ring id ≡ true) ↔ ((own_id ≡ id) × (own_ring ≡ ring))
unfolding same_request
same_request_iff own_ring own_id ring id = ground arith

module _ {B : Type 0} where
  pub redeem_ok :
      (p : Pending B) (receipt : Receipt) (done : Completed B)
      → redeem p receipt ≡ ok done
      → (receipt.id ≡ p.id)
        × (receipt.ring ≡ p.ring)
        × (done.buf ≡ p.buf)
        × (done.id ≡ p.id)
        × (done.result ≡ receipt.result)
  unfolding redeem same_request
  redeem_ok p receipt done h = ground arith
