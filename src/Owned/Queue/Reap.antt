-- ===== src/Owned/Queue/Reap.antt =====
-- src/owned/queue.rs: what `reap` and `reap_event` make of the unread entries.
use ququmatz.Base.{
  ℕ, zero, suc, ◌<◌, ◌≡◌, refl, ap, ◌∙◌, false, List, [], ◌∷◌, ◌⊎◌, inl, inr, Option, some, none,
  ok, length, arith, true, ◌/◌, ◌%◌, ◌*◌, ◌==◌, bit_and, if◌then◌else◌, Bool-cases, ==_iff,
}
use ququmatz.Types.{IoUringCqe, contains}
use ququmatz.Base.Word.{bit_and_bit}
use ququmatz.Types.CqeFlags
use ququmatz.Ring.{Shared}
use ququmatz.Ring.Cq.{Completion, of_cqe}
use ququmatz.Ring.Cq.Unread.{IsValid, unread, complete_refines}
use ququmatz.Owned.Event.{Receipt, PartialReceipt, Event}
use ququmatz.Owned.Request.{Pending, Completed, redeem}
use ququmatz.Owned.Request.Redeem.{redeem_ok}
use ququmatz.Owned.Queue.{OwnedCompleter, reap_event, event_of, reap}

pub reap_event_refines :
    {k : ℕ} (o : OwnedCompleter) (m : Shared)
    → IsValid k o.inner.cq m
    → let (o', found) = reap_event o m in
      ((unread o.inner.cq m ≡ []) × (found ≡ none) × (o' ≡ o))
      ⊎ ((e : IoUringCqe) × (unread o.inner.cq m ≡ e ∷ unread o'.inner.cq m)
          × (found ≡ some (event_of o.ring (of_cqe e)))
          × (o'.ring ≡ o.ring)
          × IsValid k o'.inner.cq m)
unfolding reap_event
reap_event_refines o m v = elim (complete_refines v) [
  | inl (empty, none_found, same) ↦
      inl (empty, rw (none_found, reap_event) refl, rw (same, reap_event) refl)
  | inr (e, oldest, found, valid) ↦ inr (e, oldest, rw (found, reap_event) refl, refl, valid)
]

-- The first entry without `MORE`, as a receipt, and the entries behind it.
abbrev pub first_terminal : ℕ → List IoUringCqe → List IoUringCqe × Option Receipt
first_terminal ring [] = ([], none)
first_terminal ring (e ∷ es) =
    if e.flags / 2 % 2 == 0
    then (es, some (record { ring = ring; id = e.user_data; result = e.res; flags = e.flags }))
    else first_terminal ring es

-- The second bit of the flags is `MORE`.
event_of_lem :
    (ring : ℕ) (e : IoUringCqe)
    → ((e.flags / 2 % 2 == 0) ≡ true)
        × (event_of ring (of_cqe e)
            ≡ Event.complete
                (record { ring = ring; id = e.user_data; result = e.res; flags = e.flags }))
      ⊎ (((e.flags / 2 % 2 == 0) ≡ false)
          × ((notice : PartialReceipt) × (event_of ring (of_cqe e) ≡ Event.partial notice)))
unfolding event_of contains
event_of_lem ring e =
    let bit : bit_and e.flags 2 ≡ e.flags / 2 % 2 * 2 = bit_and_bit 1 e.flags in
    elim (Bool-cases (e.flags / 2 % 2 == 0)) [
      | inl none_set ↦
          let zero_bit : e.flags / 2 % 2 ≡ 0 = (==_iff _ _).0 none_set in
          inl (none_set, rw (bit, zero_bit, event_of) refl)
      | inr set ↦
          let one_bit : e.flags / 2 % 2 ≡ 1 = ground arith in
          let notice : PartialReceipt = record {
            ring = ring;
            id = e.user_data;
            result = e.res;
            flags = e.flags;
          } in
          inr (set, (notice, rw (bit, one_bit, event_of) refl))
    ]

-- On a valid completion queue with fewer unread entries than rounds, `reap` stops with the first
-- entry whose flags do not have the bit MORE, the second one, as its receipt, with the entry's
-- identity, result and flags and the half's ring, or with none if there is none, and takes away
-- that entry and those before it.
pub reap_refines :
    (es : List IoUringCqe) {k : ℕ} (fuel : ℕ) (o : OwnedCompleter) (m : Shared)
    → IsValid k o.inner.cq m
    → unread o.inner.cq m ≡ es
    → length es < fuel
    → (o' : OwnedCompleter) × (reap fuel o m ≡ some (o', (first_terminal o.ring es).1))
      × (unread o'.inner.cq m ≡ (first_terminal o.ring es).0)
      × (o'.ring ≡ o.ring)
      × IsValid k o'.inner.cq m
unfolding reap reap_event
reap_refines es zero o m v u h = absurd (omega arith)
reap_refines [] (suc fuel) o m v u h = elim (reap_event_refines o m v) [
  | inl (empty, found, same) ↦ (o, rw (found, same, reap) refl, u, refl, v)
  | inr (x, oldest, found, same, valid) ↦ absurd (cc (u, oldest))
]
reap_refines (e ∷ es) (suc fuel) o m v u h = elim (reap_event_refines o m v) [
  | inl (empty, found, same) ↦ absurd (cc (u, empty))
  | inr (x, oldest, found, same, valid) ↦
      let o1 = (reap_event o m).0 in
      let first : e ≡ x = cc (u, oldest) in
      let behind : unread o1.inner.cq m ≡ es = cc (u, oldest) in
      elim (event_of_lem o.ring e) [
        | inl (last, terminal) ↦
            let receipt : Receipt = record {
              ring = o.ring;
              id = e.user_data;
              result = e.res;
              flags = e.flags;
            } in
            let seen : (reap_event o m).1 ≡ some (Event.complete receipt) =
              found ∙ rw (← first) (ap some terminal) in
            (o1, rw (seen, last, reap) refl, rw last behind, same, valid)
        | inr (on, (notice, more)) ↦
            let seen : (reap_event o m).1 ≡ some (Event.partial notice) =
              found ∙ rw (← first) (ap some more) in
            let (o', done, left, ring, valid') =
              reap_refines es fuel o1 m valid behind (omega arith) in
            (
              o',
              rw (seen, on, reap) (rw (← same) done),
              rw on (rw (← same) left),
              ring ∙ same,
              valid',
            )
      ]
]

-- The event of an entry without `MORE`.
event_of-complete :
    (ring : ℕ) (c : Completion) (receipt : Receipt)
    → event_of ring c ≡ Event.complete receipt
    → (contains c.flags CqeFlags.more ≡ false)
      × (receipt.ring ≡ ring)
      × (receipt.id ≡ c.user_data)
      × (receipt.result ≡ c.result)
unfolding event_of
event_of-complete ring c receipt h = ground arith

-- On a valid completion queue, if reaping an event gives a receipt and that receipt redeems a
-- ticket, then the oldest unread entry carries the ticket's identity and not the flag MORE, the
-- half that reaped it is of the ticket's ring, and the completed request has the ticket's buffer
-- and the entry's result.
pub redeem_reaped :
    {B : Type 0} {k : ℕ} (o o' : OwnedCompleter) (m : Shared) (receipt : Receipt) (p : Pending B)
    (done : Completed B)
    → IsValid k o.inner.cq m
    → reap_event o m ≡ (o', some (Event.complete receipt))
    → redeem p receipt ≡ ok done
    → (e : IoUringCqe) × (unread o.inner.cq m ≡ e ∷ unread o'.inner.cq m)
      × (contains e.flags CqeFlags.more ≡ false)
      × (e.user_data ≡ p.id)
      × (o.ring ≡ p.ring)
      × (done.buf ≡ p.buf)
      × (done.result ≡ e.res)
redeem_reaped o o' m receipt p done v reaped redeemed =
    let (own, ring, buf, id, result) = redeem_ok p receipt done redeemed in
    elim (reap_event_refines o m v) [
      | inl (empty, found, same) ↦ absurd (cc (found, reaped))
      | inr (e, oldest, found, same, valid) ↦
          let made : event_of o.ring (of_cqe e) ≡ Event.complete receipt = cc (found, reaped) in
          let (less, r, i, z) = event_of-complete o.ring (of_cqe e) receipt made in
          (e, cc (oldest, reaped), less, cc (i, own), cc (r, ring), buf, cc (result, z))
    ]
