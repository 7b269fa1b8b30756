-- ===== src/Owned/Queue/Cycle.antt =====
-- src/owned/queue.rs: a request from its push to its receipt, whatever its kind.
use ququmatz.Base.{
  ℕ, zero, suc, ◌+◌, ◌<◌, ◌≡◌, ◌≢◌, refl, ◌∙◌, ◌⊎◌, inl, inr, false, Result, ok, err, some, none,
  List, [], ◌∷◌, ◌++◌, map, length, arith,
}
use mathlib.Core.List.{map-append}
use ququmatz.Base.Int.{ℤ}
use ququmatz.Types.{IoUringCqe, contains}
use ququmatz.Types.CqeFlags
use ququmatz.Ring.{Shared}
use ququmatz.Ring.Sq.Queue
use ququmatz.Ring.Cq.{of_cqe}
use ququmatz.Ring.Cq.Unread
use ququmatz.Ring.Cq.Unread.{unread}
use ququmatz.Owned.Event.{Receipt, Event}
use ququmatz.Owned.Queue.{
  OwnedSubmitter, OwnedCompleter, Submission, push_request, reap_event, event_of,
}
use ququmatz.Owned.Queue.Push.{IsLawful, push_request_refines}
use ququmatz.Owned.Queue.Reap.{reap_event_refines}

-- What every ticket owes to the completion side: its own receipt gives `done`, and any other leaves
-- it as it is.
pub record IsRedeemable {P T D : Type 0} (request : Submission P T)
    (redeem : T → Receipt → Result D (T × Receipt)) (done : P → ℕ → ℕ → ℤ → D) : Type 0 where
  pub own :
      (p : P) (receipt : Receipt)
      → redeem (request.into_pending p receipt.ring receipt.id).1 receipt
        ≡ ok (done p receipt.ring receipt.id receipt.result)
  pub foreign :
      (p : P) (ring id : ℕ) (receipt : Receipt)
      → (receipt.ring ≢ ring) ⊎ (receipt.id ≢ id)
      → redeem (request.into_pending p ring id).1 receipt
        ≡ err ((request.into_pending p ring id).1, receipt)

-- A program that reaps `n` events, and what it gets.
abbrev pub reaped : ℕ → OwnedCompleter → Shared → List Event
reaped zero o m = []
reaped (suc n) o m =
    let (o', found) = reap_event o m in
    let rest = reaped n o' m in elim found [ some event ↦ event ∷ rest | none ↦ [] ]

-- As many events as there are unread entries are those of the entries, in order.
reaped-unread :
    (es : List IoUringCqe) {k : ℕ} (o : OwnedCompleter) (m : Shared)
    → Unread.IsValid k o.inner.cq m
    → unread o.inner.cq m ≡ es
    → reaped (length es) o m ≡ map (λ e. event_of o.ring (of_cqe e)) es
reaped-unread [] o m v u = refl
reaped-unread (e ∷ es) o m v u = elim (reap_event_refines o m v) [
  | inl (empty, found, same) ↦ absurd (cc (u, empty))
  | inr (x, oldest, found, same, valid) ↦
      let o1 = (reap_event o m).0 in
      let first : e ≡ x = cc (u, oldest) in
      let behind : unread o1.inner.cq m ≡ es = cc (u, oldest) in
      let rest = reaped-unread es o1 m valid behind in
      rw (found, reaped) (rw (rest, same, first) refl)
]

module _ {P T D : Type 0} (request : Submission P T) (redeem : T → Receipt → Result D (T × Receipt))
    (done : P → ℕ → ℕ → ℤ → D) where
  -- The event of an entry without `MORE`.
  terminal_event :
      (ring id : ℕ) (e : IoUringCqe)
      → e.user_data ≡ id
      → contains e.flags CqeFlags.more ≡ false
      → event_of ring (of_cqe e)
        ≡ Event.complete (record { ring = ring; id = id; result = e.res; flags = e.flags })
  unfolding event_of
  terminal_event ring id e tagged last = rw (last, ← tagged) refl

  -- For a request of any kind that keeps what it owes to the queue and to its receipts, pushed on a
  -- valid submission queue with room: the push gives a ticket; when later the unread entries of the
  -- completion half of the same ring have an entry with the request's identity and without MORE
  -- among them, reaping as many events as there are entries gives their events in order, the
  -- receipt of that entry in its place; this receipt redeems the ticket with the entry's result,
  -- and a receipt of another ring or identity leaves it as it is.
  pub redeem-push_request :
      (k j : ℕ) (o : OwnedSubmitter) (m : Shared) (p : P) (c : OwnedCompleter) (later : Shared)
      (before after : List IoUringCqe) (e : IoUringCqe) (other : Receipt)
      → IsLawful request
      → IsRedeemable request redeem done
      → Queue.IsValid k o.inner.sq m
      → Queue.queued o.inner.sq m < o.inner.sq.sq_mask + 1
      → Unread.IsValid j c.inner.cq later
      → c.ring ≡ o.ring
      → unread c.inner.cq later ≡ before ++ (e ∷ after)
      → e.user_data ≡ o.ids
      → contains e.flags CqeFlags.more ≡ false
      → (other.ring ≢ o.ring) ⊎ (other.id ≢ o.ids)
      → let ticket = (request.into_pending p o.ring o.ids).1 in
        let receipt : Receipt = record {
          ring = o.ring;
          id = o.ids;
          result = e.res;
          flags = e.flags;
        } in
        ((push_request request o m p).2 ≡ ok ticket)
        × (reaped (length (before ++ (e ∷ after))) c later
            ≡ map (λ x. event_of o.ring (of_cqe x)) before
              ++ (Event.complete receipt ∷ map (λ x. event_of o.ring (of_cqe x)) after))
        × (redeem ticket receipt ≡ ok (done p o.ring o.ids e.res))
        × (redeem ticket other ≡ err (ticket, other))
  redeem-push_request k j o m p c later before after e other law owed v room w same u tagged last
        away =
      let receipt : Receipt = record {
        ring = o.ring;
        id = o.ids;
        result = e.res;
        flags = e.flags;
      } in
      let (ids, ring, outcome) = push_request_refines request k o m p law v in
      let event = terminal_event o.ring o.ids e tagged last in
      let all_events = reaped-unread (before ++ (e ∷ after)) c later w u in
      let taken : (push_request request o m p).2 ≡ ok (request.into_pending p o.ring o.ids).1 =
        elim outcome [
          | inl (full, kept, memory, refused) ↦ absurd (omega arith)
          | inr (free, accepted, marked, more, valid) ↦ accepted
        ] in
      (
        taken,
        all_events ∙ rw (same, map-append) (rw event refl),
        owed.own p receipt,
        owed.foreign p o.ring o.ids other away,
      )
