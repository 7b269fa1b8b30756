-- ===== src/Owned/Sendmsg/Sent.antt =====
-- src/owned/sendmsg.rs, queue.rs: a message from its preparation through the queue to its receipt.
use ququmatz.Base.{
  ℕ, ◌≡◌, ap, subst, inl, inr, Result, ok, err, some, List, [], ◌∷◌, ◌++◌, map, arith,
}
use ququmatz.Base.Int.{ℤ}
use ququmatz.Error.{Error}
use ququmatz.Ring.{Shared}
use ququmatz.Ring.Sq.Queue.{IsValid, contents}
use ququmatz.Owned.{StableBuffer, same_request}
use ququmatz.Owned.Event.{Receipt}
use ququmatz.Owned.MsgRegion.Memory.{Writes}
use ququmatz.Owned.MsgRegion.Chase.{message, described_by}
use ququmatz.Owned.Queue.{OwnedSubmitter, push_request, push_sendmsg, sent_message}
use ququmatz.Owned.Queue.Push.{push_request_refines, sent_message-IsLawful}
use ququmatz.Owned.Sendmsg.{SendTarget, PreparedSendmsg, PendingSendmsg, new, into_pending, redeem}
use ququmatz.Owned.Sendmsg.Reach.{target_name, message-new}

module _ {B R : Type 0} (bytes : StableBuffer B) (stable : StableBuffer R) where
  -- The ticket's own receipt gives back what was pushed.
  redeem_own :
      (p : PreparedSendmsg B R) (ring id : ℕ) (receipt : Receipt)
      → receipt.ring ≡ ring
      → receipt.id ≡ id
      → redeem (into_pending p ring id).1 receipt
        ≡ ok (record { bufs = p.bufs; region = p.region; result = receipt.result })
  unfolding redeem into_pending same_request
  redeem_own p ring id receipt r i = ground arith

  same_ticket :
      {r : Result (PendingSendmsg B R) (PreparedSendmsg B R × Error)} (t u : PendingSendmsg B R)
      → r ≡ ok t
      → r ≡ ok u
      → t ≡ u
  same_ticket t u e f = ground arith

  not_both :
      {r : Result (PendingSendmsg B R) (PreparedSendmsg B R × Error)}
      (x : PreparedSendmsg B R × Error) (u : PendingSendmsg B R)
      → r ≡ err x
      → r ≡ ok u
      → ⊥
  not_both x u e f = ground arith

  -- When a message is prepared and then pushed on a valid submission queue that accepts it, the
  -- queue gains its entry at its end, under the identity of the request; the kernel, which follows
  -- the entry's address, reads exactly the buffers at their lengths and the address of the peer;
  -- and the receipt of that identity on that ring redeems the ticket for the buffers, the storage
  -- and the result.
  pub push_sendmsg-message :
      (k : ℕ) (o o' : OwnedSubmitter) (shared shared' : Shared) (m m' : Writes) (fd : ℤ)
      (bufs : List B) (s : R) (target : SendTarget) (flags : ℕ) (p : PreparedSendmsg B R)
      (ticket : PendingSendmsg B R) (receipt : Receipt)
      → new bytes stable m fd bufs s target flags ≡ ok (p, m')
      → IsValid k o.inner.sq shared
      → push_sendmsg o shared p ≡ (o', shared', ok ticket)
      → receipt.ring ≡ o.ring
      → receipt.id ≡ o.ids
      → let sqe = (into_pending p o.ring o.ids).0 in
        (contents o'.inner.sq shared' ≡ contents o.inner.sq shared ++ (sqe ∷ []))
        × (sqe.user_data ≡ o.ids)
        × (message m' sqe.addr
            ≡ some
                (described_by bytes bufs (map (λ b. bytes.stable_len b) bufs), target_name target))
        × (redeem ticket receipt
            ≡ ok (record { bufs = p.bufs; region = p.region; result = receipt.result }))
  unfolding push_sendmsg
  push_sendmsg-message k o o' shared shared' m m' fd bufs s target flags p ticket receipt made v e r
        i =
      let (ids, ring, outcome) =
        push_request_refines sent_message k o shared p sent_message-IsLawful v in
      let half : (push_request sent_message o shared p).0 ≡ o' = ap (λ x. x.0) e in
      let cells : (push_request sent_message o shared p).1 ≡ shared' = ap (λ x. x.1) e in
      let answer : (push_request sent_message o shared p).2 ≡ ok ticket = ap (λ x. x.2) e in
      elim outcome [
        | inl (full, same, kept, refused) ↦ absurd (not_both _ ticket refused answer)
        | inr (room, done, tagged, more, valid) ↦ (
          rw (← half, ← cells) more,
          tagged,
          message-new bytes stable m m' fd bufs s target flags o.ring o.ids p made,
          subst
              (λ t.
                redeem t receipt
                ≡ ok (record { bufs = p.bufs; region = p.region; result = receipt.result }))
              (same_ticket _ ticket done answer) (redeem_own p o.ring o.ids receipt r i),
        )
      ]
