-- ===== src/Owned/Futex/Waits.antt =====
-- src/owned/futex.rs: what a receipt says of the waiting on a futex.
use ququmatz.Base.{◌≡◌, ◌↔◌, refl, ok, arith}
use ququmatz.Base.Int.{ℤ, pos, negsuc}
use ququmatz.Owned.{same_request}
use ququmatz.Owned.Event.{Receipt}
use ququmatz.Owned.Futex.{
  PreparedFutexWait, woken, value_mismatch, FutexDone, from_raw, wait_into_pending, redeem, outcome,
}

own :
    (p : PreparedFutexWait) (receipt : Receipt)
    → redeem (wait_into_pending p receipt.ring receipt.id).1 receipt
      ≡ ok (record { id = receipt.id; result = receipt.result })
unfolding wait_into_pending redeem same_request
own p receipt = ground arith

woken_iff : (z : ℤ) → (from_raw z ≡ woken) ↔ (z ≡ pos 0)
unfolding from_raw
woken_iff (pos n) = (λ e. ground arith, λ e. ground arith)
woken_iff (negsuc n) = (λ e. absurd (ground arith), λ e. absurd (ground arith))

mismatch_iff : (z : ℤ) → (from_raw z ≡ value_mismatch) ↔ (z ≡ negsuc 10)
unfolding from_raw
mismatch_iff (pos n) = (λ e. absurd (ground arith), λ e. absurd (ground arith))
mismatch_iff (negsuc n) = (λ e. ground arith, λ e. ground arith)

-- A wait that is prepared and redeemed with its own receipt gives an outcome which is that it was
-- woken exactly when the result is zero, and a mismatch of the value exactly when it is -11; its
-- entry names the word, the value and the mask asked for, and the identity.
pub outcome-redeem :
    (p : PreparedFutexWait) (receipt : Receipt)
    → let (sqe, ticket) = wait_into_pending p receipt.ring receipt.id in
      let done : FutexDone = record { id = receipt.id; result = receipt.result } in
      (redeem ticket receipt ≡ ok done)
      × ((outcome done ≡ woken) ↔ (receipt.result ≡ pos 0))
      × ((outcome done ≡ value_mismatch) ↔ (receipt.result ≡ negsuc 10))
      × (sqe.addr ≡ p.uaddr)
      × (sqe.off ≡ p.val)
      × (sqe.addr3 ≡ p.mask)
      × (sqe.user_data ≡ receipt.id)
unfolding wait_into_pending redeem outcome same_request
outcome-redeem p receipt =
    (own p receipt, woken_iff receipt.result, mismatch_iff receipt.result, refl, refl, refl, refl)
