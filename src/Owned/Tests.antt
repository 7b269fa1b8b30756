-- ===== src/Owned/Tests.antt =====
-- The properties of the owned requests at concrete inputs. A buffer is the number of its address.
use ququmatz.Base.{
  ◌/◌, ◌%◌, ◌^◌, ℕ, ◌+◌, ◌^◌, ◌<◌, ◌≡◌, refl, ◌⊎◌, ◌↔◌, true, false, not, ok, err, some, [], ◌∷◌,
  ◌++◌, arith,
}
use ququmatz.Base.Int.{pos}
use ququmatz.Types.{contains, IoUringCqe, zeroed}
use ququmatz.Types.CqeFlags
use ququmatz.Error.{Error, SubmitError}
use ququmatz.Ring.{Shared}
use ququmatz.Ring.Window.{IsMask}
use ququmatz.Ring.Sq.Queue
use ququmatz.Ring.Cq
use ququmatz.Ring.Cq.Unread
use ququmatz.Owned.{same_request}
use ququmatz.Owned.Event.{Receipt, Event, event_belongs_to, event_flags, event_result, is_terminal}
use ququmatz.Owned.Request.{Prepared, Pending, Completed, redeem}
use ququmatz.Owned.Request
use ququmatz.Owned.Queue.{
  OwnedSubmitter, OwnedCompleter, push_request, plain, reap_event, event_of, reap,
}
use ququmatz.Owned.Queue.Push.{plain-IsLawful, push_request_refines}
use ququmatz.Owned.Queue.Reap.{first_terminal, reap_refines, redeem_reaped}
use ququmatz.Owned.Multishot.{MultishotRecv, Arrival, Delivery, delivery, leased, armed}
use ququmatz.Owned.Multishot.Lease.{delivery_lem}

-- A ring of two entries, with a partial and then a terminal completion of request 7 unread.
abbrev first_cqe : IoUringCqe
first_cqe = record { user_data = 7; res = pos 5; flags = 2 }

abbrev last_cqe : IoUringCqe
last_cqe = record { user_data = 7; res = pos 0; flags = 8 }

abbrev memory : Shared
memory = record {
  sq_head = 0;
  sq_tail = 0;
  sq_flags = 0;
  sqes = zeroed ∷ zeroed ∷ [];
  cq_head = 0;
  cq_tail = 2;
  cqes = first_cqe ∷ last_cqe ∷ [];
}

two_cells-IsMask : IsMask 1 1
two_cells-IsMask = record { width = omega arith; ones = refl }

abbrev submitter : OwnedSubmitter
submitter = record {
  inner = record {
    fd = 3;
    sq = record { sq_mask = 1; sq_tail_local = 0; sq_submitted = 0 };
    features = 0;
  };
  ring = 1;
  ids = 7;
}

submitter-IsValid : Queue.IsValid 1 submitter.inner.sq memory
submitter-IsValid = record {
  mask = two_cells-IsMask;
  cells = refl;
  head = omega arith;
  tail = omega arith;
  local = omega arith;
  fits = omega arith;
  published = omega arith;
}

abbrev completer_at : ℕ → OwnedCompleter
completer_at n = record {
  inner = record { fd = 3; cq = record { cq_mask = 1; cq_head_local = n } };
  ring = 1;
}

completer-IsValid : Unread.IsValid 1 (completer_at 0).inner.cq memory
completer-IsValid = record {
  mask = two_cells-IsMask;
  cells = refl;
  head = omega arith;
  tail = omega arith;
  local = omega arith;
  behind = omega arith;
  fits = omega arith;
}

later-IsValid : Unread.IsValid 1 (completer_at 1).inner.cq memory
later-IsValid = record {
  mask = two_cells-IsMask;
  cells = refl;
  head = omega arith;
  tail = omega arith;
  local = omega arith;
  behind = omega arith;
  fits = omega arith;
}

abbrev prepared : Prepared ℕ
prepared = record {
  buf = 4096;
  fd = pos 4;
  offset = 0;
  len = 16;
  direction = Request.Direction.read;
  addr = 4096;
}

push_request_refines_example :
    let (o', m', r) = push_request plain submitter memory prepared in
    let (sqe, ticket) = Request.into_pending prepared 1 7 in
    (o'.ids ≡ 8)
    × (o'.ring ≡ 1)
    × (((Queue.queued submitter.inner.sq memory ≡ 2)
          × (o'.inner ≡ submitter.inner)
          × (m' ≡ memory)
          × (r ≡ err (prepared, Error.submit SubmitError.queue_full)))
        ⊎ ((Queue.queued submitter.inner.sq memory < 2)
            × (r ≡ ok ticket)
            × (sqe.user_data ≡ 7)
            × (Queue.contents o'.inner.sq m'
                ≡ Queue.contents submitter.inner.sq memory ++ (sqe ∷ []))
            × Queue.IsValid 1 o'.inner.sq m'))
push_request_refines_example =
    push_request_refines plain 1 submitter memory prepared plain-IsLawful submitter-IsValid

reap_refines_example :
    (o' : OwnedCompleter) × (reap 3 (completer_at 0) memory
      ≡ some (o', (first_terminal 1 (first_cqe ∷ last_cqe ∷ [])).1))
    × (Unread.unread o'.inner.cq memory ≡ (first_terminal 1 (first_cqe ∷ last_cqe ∷ [])).0)
    × (o'.ring ≡ 1)
    × Unread.IsValid 1 o'.inner.cq memory
reap_refines_example =
    reap_refines (first_cqe ∷ last_cqe ∷ []) 3 (completer_at 0) memory completer-IsValid refl
      (omega arith)

abbrev receipt : Receipt
receipt = record { ring = 1; id = 7; result = pos 0; flags = 8 }

abbrev ticket : Pending ℕ
ticket = record {
  buf = 4096;
  ring = 1;
  id = 7;
  fd = pos 4;
  offset = 0;
  len = 16;
  direction = Request.Direction.read;
  addr = 4096;
}

abbrev done : Completed ℕ
done = record { buf = 4096; id = 7; direction = Request.Direction.read; result = pos 0 }

reaps : reap_event (completer_at 1) memory ≡ (completer_at 2, some (Event.complete receipt))
unfolding reap_event event_of Cq.complete contains
reaps = refl

redeems : redeem ticket receipt ≡ ok done
unfolding redeem same_request
redeems = refl

redeem_reaped_example :
    (e : IoUringCqe) × (Unread.unread (completer_at 1).inner.cq memory
      ≡ e ∷ Unread.unread (completer_at 2).inner.cq memory)
    × (contains e.flags CqeFlags.more ≡ false)
    × (e.user_data ≡ 7)
    × ((completer_at 1).ring ≡ ticket.ring)
    × (done.buf ≡ ticket.buf)
    × (done.result ≡ e.res)
redeem_reaped_example =
    redeem_reaped (completer_at 1) (completer_at 2) memory receipt ticket done later-IsValid reaps
      redeems

-- The last completion of a receive, which carries a buffer.
delivery_lem_example :
    let t : MultishotRecv = record { ring = 1; id = 7; bgid = 0; fd = pos 4 } in
    let event = Event.complete (record { ring = 1; id = 7; result = pos 5; flags = 2 ^ 16 + 1 }) in
    let a : Arrival = record { buf_id = 1; len = 5 } in
    ((event_belongs_to event 1 7 ≡ false) × (delivery t event ≡ err event))
    ⊎ ((d : Delivery) × (event_belongs_to event 1 7 ≡ true)
        × (delivery t event ≡ ok d)
        × (armed d ≡ not (is_terminal event))
        × ((leased d ≡ some a) ↔ (
            ((event_flags event % 2 ≡ 1) × (event_flags event / 2 ^ 16 % 2 ^ 16 ≡ 1))
            × (event_result event ≡ pos 5))))
delivery_lem_example =
    delivery_lem (record { ring = 1; id = 7; bgid = 0; fd = pos 4 })
      (Event.complete (record { ring = 1; id = 7; result = pos 5; flags = 2 ^ 16 + 1 }))
      (record { buf_id = 1; len = 5 })
