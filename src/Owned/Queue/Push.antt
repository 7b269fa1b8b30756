-- ===== src/Owned/Queue/Push.antt =====
-- src/owned/queue.rs: the push of an owned request, and the identities that it uses up.
use ququmatz.Base.{
  ℕ, zero, suc, ◌+◌, ◌-◌, ◌%◌, ◌^◌, ◌<◌, ◌≡◌, ◌≢◌, refl, ◌∙◌, [], ◌∷◌, ◌++◌, ◌⊎◌, inl, inr, ok, err,
  arith,
}
use ququmatz.Error.{Error, SubmitError}
use ququmatz.Ring.{Shared}
use ququmatz.Ring.Sq.Queue.{IsValid, queued, contents, push_refines}
use ququmatz.Owned.{next_id}
use ququmatz.Owned.Request
use ququmatz.Owned.ZeroCopy
use ququmatz.Owned.Sendmsg
use ququmatz.Owned.Recvmsg
use ququmatz.Owned.FilesUpdate
use ququmatz.Owned.StagedAddr
use ququmatz.Owned.StagedAddr.{AddrOp}
use ququmatz.Owned.StagedValue
use ququmatz.Owned.StagedValue.{ValueOp}
use ququmatz.Owned.Queue.{
  OwnedSubmitter, Submission, push_request, plain, zero_copy, sent_message, received_message,
  staged_value, staged_addr, updated_files,
}

-- What every request owes to the queue: its entry carries the identity, and taking back a ticket
-- that was not submitted undoes its making.
pub record IsLawful {P T : Type 0} (request : Submission P T) : Type 0 where
  pub tagged : (p : P) (ring id : ℕ) → (request.into_pending p ring id).0.user_data ≡ id
  pub back : (p : P) (ring id : ℕ) → request.reclaim (request.into_pending p ring id).1 ≡ p

module _ {B : Type 0} where
  plain_tagged :
      (p : Request.Prepared B) (ring id : ℕ) → (Request.into_pending p ring id).0.user_data ≡ id
  unfolding Request.into_pending
  plain_tagged p ring id = elim p.direction [
    | Request.Direction.read ↦ refl
    | Request.Direction.write ↦ refl
  ]

  pub plain-IsLawful : IsLawful (plain {B = B})
  unfolding Request.into_pending Request.reclaim_unsubmitted
  plain-IsLawful = record { tagged = plain_tagged; back = λ p ring id. refl }

  pub zero_copy-IsLawful : IsLawful (zero_copy {B = B})
  unfolding ZeroCopy.into_pending ZeroCopy.reclaim_unsubmitted
  zero_copy-IsLawful = record { tagged = λ p ring id. refl; back = λ p ring id. refl }

module _ {B R : Type 0} where
  pub sent_message-IsLawful : IsLawful (sent_message {B = B} {R = R})
  unfolding Sendmsg.into_pending Sendmsg.reclaim_unsubmitted
  sent_message-IsLawful = record { tagged = λ p ring id. refl; back = λ p ring id. refl }

  pub received_message-IsLawful : IsLawful (received_message {B = B} {R = R})
  unfolding Recvmsg.into_pending Recvmsg.reclaim_unsubmitted
  received_message-IsLawful = record { tagged = λ p ring id. refl; back = λ p ring id. refl }

pub staged_value-IsLawful :
    {S C I V O E : Type 0} (op : ValueOp C I V O E) → IsLawful (staged_value {S = S} op)
unfolding StagedValue.into_pending StagedValue.reclaim_unsubmitted
staged_value-IsLawful op = record { tagged = λ p ring id. refl; back = λ p ring id. refl }

pub updated_files-IsLawful : {S : Type 0} → IsLawful (updated_files {S = S})
unfolding FilesUpdate.into_pending FilesUpdate.reclaim_unsubmitted
updated_files-IsLawful = record { tagged = λ p ring id. refl; back = λ p ring id. refl }

pub staged_addr-IsLawful : {S O E : Type 0} (op : AddrOp O E) → IsLawful (staged_addr {S = S} op)
unfolding StagedAddr.into_pending StagedAddr.reclaim_unsubmitted
staged_addr-IsLawful op = record { tagged = λ p ring id. refl; back = λ p ring id. refl }

-- For a request whose entry carries its identity and whose ticket can be taken back, on a valid
-- submission queue, a push uses up one identity and either finds the queue full, changes nothing
-- else and gives the request back as it came, or gives the ticket and queues the entry, tagged with
-- the identity, behind the others.
pub push_request_refines :
    {P T : Type 0} (request : Submission P T) (k : ℕ) (o : OwnedSubmitter) (m : Shared) (p : P)
    → IsLawful request
    → IsValid k o.inner.sq m
    → let (o', m', r) = push_request request o m p in
      let (sqe, ticket) = request.into_pending p o.ring o.ids in
      (o'.ids ≡ (o.ids + 1) % 2 ^ 64)
      × (o'.ring ≡ o.ring)
      × (((queued o.inner.sq m ≡ o.inner.sq.sq_mask + 1)
            × (o'.inner ≡ o.inner)
            × (m' ≡ m)
            × (r ≡ err (p, Error.submit SubmitError.queue_full)))
          ⊎ ((queued o.inner.sq m < o.inner.sq.sq_mask + 1)
              × (r ≡ ok ticket)
              × (sqe.user_data ≡ o.ids)
              × (contents o'.inner.sq m' ≡ contents o.inner.sq m ++ (sqe ∷ []))
              × IsValid k o'.inner.sq m'))
unfolding push_request next_id
push_request_refines request k o m p law v =
    let sqe = (request.into_pending p o.ring o.ids).0 in
    elim (push_refines v sqe) [
      | inl (full, s, m', r) ↦ (
        refl,
        refl,
        inl (
          full,
          rw (s, push_request) refl,
          m',
          rw (r, push_request) (rw (law.back p o.ring o.ids) refl),
        ),
      )
      | inr (room, r, more, valid) ↦ (
        refl,
        refl,
        inr (room, rw (r, push_request) refl, law.tagged p o.ring o.ids, more, valid),
      )
    ]

-- The identity that the counter gives out at its i-th call.
abbrev pub issued : ℕ → ℕ → ℕ
issued zero s = (next_id s).0
issued (suc i) s = issued i (next_id s).1

issued_mod : (i s : ℕ) → s < 2 ^ 64 → issued i s ≡ (s + i) % 2 ^ 64
unfolding next_id
issued_mod zero s h = omega arith
issued_mod (suc i) s h = issued_mod i ((s + 1) % 2 ^ 64) (omega arith) ∙ omega arith

-- Two calls of one source of identities, whose counter is below 2 ^ 64, give different identities
-- if they are fewer than 2 ^ 64 calls apart.
pub issued_distinct : (i j s : ℕ) → s < 2 ^ 64 → i < j → j - i < 2 ^ 64 → issued i s ≢ issued j s
issued_distinct i j s h lt near e = omega (arith, issued_mod i s h, issued_mod j s h)
