-- ===== src/Owned/Queue/Tests.antt =====
-- The properties of further requests at concrete inputs: two buffers, an array of 32 bytes at 4096,
-- and a ring of two entries on which an open is pushed and completed.
use ququmatz.Base.{
  List, ℕ, ◌*◌, ◌%◌, ◌≤◌, ◌≡◌, ◌↔◌, inr, refl, not, ok, err, some, [], ◌∷◌, ◌++◌, map, arith,
}
use ququmatz.Base.Int.{pos}
use ququmatz.Types.{IoUringCqe, contains, zeroed, default_cqe}
use ququmatz.Types.Fs.{cwd}
use ququmatz.Ring.{Shared}
use ququmatz.Ring.Window.{IsMask}
use ququmatz.Ring.Sq.Queue
use ququmatz.Ring.Cq.{of_cqe}
use ququmatz.Ring.Cq.Unread
use ququmatz.Owned.{same_request}
use ququmatz.Owned.Event.{Receipt, PartialReceipt, Event, event_result, is_terminal}
use ququmatz.Owned.Request.{Direction}
use ququmatz.Owned.MsgRegion.{
  stage, bytes_for, name_offset, write_descriptors, publish_header, msg_hdr_align,
}
use ququmatz.Owned.MsgRegion.Memory.{Writes, descriptor, io_vec_bytes}
use ququmatz.Owned.MsgRegion.Chase.{message, vectors, described_by}
use ququmatz.Owned.MsgRegion.Tests.{buffers, storage, somebody, region, sent}
use ququmatz.Owned.Sendmsg.{to}
use ququmatz.Owned.ZeroCopy.Lifecycle.{reading}
use ququmatz.Owned.Vectored
use ququmatz.Owned.Vectored.{PreparedVectored}
use ququmatz.Owned.Vectored.Reach.{IsCut, vectors-whole}
use ququmatz.Owned.SendmsgZc
use ququmatz.Owned.SendmsgZc.{PreparedSendmsgZc, PendingSendmsgZc, SendmsgZcCompleted}
use ququmatz.Owned.SendmsgZc.Reach.{notified-new}
use ququmatz.Owned.DirectAccept
use ququmatz.Owned.DirectAccept.{DirectAccept, DirectIncoming}
use ququmatz.Owned.Accept.Kept.{into_slot-record_event}
use ququmatz.Owned.Slot
use ququmatz.Owned.Slot.{DirectSlot, slot_max, resolve}
use ququmatz.Owned.Open
use ququmatz.Owned.Open.{PreparedOpen}
use ququmatz.Owned.Queue.{OwnedSubmitter, OwnedCompleter, push_request, event_of}
use ququmatz.Owned.Queue.Requests.{opened}
use ququmatz.Owned.Queue.Cycle.{reaped, redeem-push_request}
use ququmatz.Owned.Queue.Kinds.Paths.{opened_done, opened-IsLawful, opened-IsRedeemable}

abbrev array : ℕ × ℕ
array = (4096, 32)

abbrev gathered : PreparedVectored (ℕ × ℕ) (ℕ × ℕ)
gathered = record {
  bufs = (100, 5) ∷ (200, 7) ∷ [];
  vecs = array;
  fd = pos 4;
  offset = 0;
  direction = Direction.write;
  array = 4096;
}

abbrev named : Writes
named =
    (4112, descriptor (record { base = 200; len = 7 }))
    ∷ (4096, descriptor (record { base = 100; len = 5 }))
    ∷ []

gathered-whole :
    Vectored.whole buffers buffers [] (pos 4) ((100, 5) ∷ (200, 7) ∷ []) array 0 Direction.write
    ≡ ok (gathered, named)
unfolding Vectored.whole Vectored.build Vectored.write_array write_descriptors
gathered-whole = refl

vectors-whole_example :
    let sqe = (Vectored.into_pending gathered 1 9).0 in
    (vectors named sqe.len sqe.addr
      ≡ some (described_by buffers ((100, 5) ∷ (200, 7) ∷ []) (5 ∷ 7 ∷ [])))
    × ((cut : List ℕ) × (vectors
            (Vectored.with_lens buffers gathered named (3 ∷ 99 ∷ []))
            sqe.len
            sqe.addr
          ≡ some (described_by buffers ((100, 5) ∷ (200, 7) ∷ []) cut))
        × IsCut (3 ∷ 99 ∷ []) (5 ∷ 7 ∷ []) cut)
    × (sqe.addr % msg_hdr_align ≡ 0)
    × (sqe.addr ≡ 4096)
    × (io_vec_bytes * sqe.len ≤ 32)
vectors-whole_example =
    vectors-whole buffers buffers [] named (pos 4) ((100, 5) ∷ (200, 7) ∷ []) array 0
      Direction.write 1 9 gathered (3 ∷ 99 ∷ []) gathered-whole (omega arith) refl

abbrev uncopied : PreparedSendmsgZc (ℕ × ℕ) (ℕ × ℕ)
uncopied = record {
  bufs = (100, 5) ∷ (200, 7) ∷ [];
  region = region;
  fd = pos 4;
  flags = 0;
  target = to somebody;
}

uncopied-new :
    SendmsgZc.new buffers buffers [] (pos 4) ((100, 5) ∷ (200, 7) ∷ []) storage (to somebody) 0
    ≡ ok (uncopied, sent)
unfolding SendmsgZc.new SendmsgZc.build stage bytes_for name_offset write_descriptors publish_header
uncopied-new = refl

abbrev notice : PartialReceipt
notice = record { ring = 1; id = 9; result = pos 12; flags = 2 }

abbrev receipt : Receipt
receipt = record { ring = 1; id = 9; result = pos 0; flags = 8 }

notified-new_example :
    let (sqe, ticket) = SendmsgZc.into_pending uncopied 1 9 in
    (message sent sqe.addr
      ≡ some (described_by buffers ((100, 5) ∷ (200, 7) ∷ []) (5 ∷ 7 ∷ []), some somebody))
    × ((t : PendingSendmsgZc (ℕ × ℕ) (ℕ × ℕ)) × (done : SendmsgZcCompleted (ℕ × ℕ) (ℕ × ℕ))
        × (SendmsgZc.record_sent ticket notice ≡ ok t)
        × (SendmsgZc.redeem t receipt ≡ ok done)
        × (done.bufs ≡ uncopied.bufs)
        × (done.region ≡ uncopied.region)
        × (SendmsgZc.result done ≡ reading (pos 12)))
notified-new_example =
    notified-new buffers buffers [] sent (pos 4) ((100, 5) ∷ (200, 7) ∷ []) storage (to somebody) 0
      1 9 uncopied notice receipt uncopied-new refl refl refl refl

abbrev last : Event
last = Event.complete (record { ring = 1; id = 9; result = pos 6; flags = 0 })

abbrev slot_listener : DirectAccept
slot_listener = record { ring = 1; id = 9; fd = pos 3 }

abbrev sixth : DirectSlot
sixth = record { slot = record { index = 6 }; ring = 1 }

abbrev recorded : DirectIncoming
recorded =
    DirectAccept.done (record {
      receipt = record { ring = 1; id = 9; result = pos 6; flags = 0 };
      last = some sixth;
    })

slot_recorded : DirectAccept.record_event slot_listener last ≡ ok recorded
unfolding DirectAccept.record_event resolve Slot.new same_request
slot_recorded = refl

into_slot-record_event_example :
    (DirectAccept.armed recorded ≡ not (is_terminal last))
    × ((DirectAccept.into_slot recorded ≡ some sixth)
        ↔ ((event_result last ≡ pos 6) × (6 ≤ slot_max) × (sixth.ring ≡ slot_listener.ring)))
into_slot-record_event_example =
    into_slot-record_event slot_listener last recorded sixth slot_recorded

-- The ring before the push, and after another completion and that of the open.
abbrev memory : Shared
memory = record {
  sq_head = 0;
  sq_tail = 0;
  sq_flags = 0;
  sqes = zeroed ∷ zeroed ∷ [];
  cq_head = 0;
  cq_tail = 0;
  cqes = default_cqe ∷ default_cqe ∷ [];
}

abbrev foreign_cqe : IoUringCqe
foreign_cqe = record { user_data = 4; res = pos 1; flags = 0 }

abbrev own_cqe : IoUringCqe
own_cqe = record { user_data = 9; res = pos 5; flags = 0 }

abbrev later : Shared
later = record memory { cq_tail = 2; cqes = foreign_cqe ∷ own_cqe ∷ [] }

abbrev submitter : OwnedSubmitter
submitter = record {
  inner = record {
    fd = 3;
    sq = record { sq_mask = 1; sq_tail_local = 0; sq_submitted = 0 };
    features = 0;
  };
  ring = 1;
  ids = 9;
}

abbrev completer : OwnedCompleter
completer = record {
  inner = record { fd = 3; cq = record { cq_mask = 1; cq_head_local = 0 } };
  ring = 1;
}

two_cells-IsMask : IsMask 1 1
two_cells-IsMask = record { width = omega arith; ones = refl }

submitter-IsValid : Queue.IsValid 1 submitter.inner.sq memory
submitter-IsValid = record {
  mask = two_cells-IsMask;
  cells = refl;
  head = omega arith;
  tail = omega arith;
  local = omega arith;
  fits = omega arith;
  published = omega arith;
}

completer-IsValid : Unread.IsValid 1 completer.inner.cq later
completer-IsValid = record {
  mask = two_cells-IsMask;
  cells = refl;
  head = omega arith;
  tail = omega arith;
  local = omega arith;
  behind = omega arith;
  fits = omega arith;
}

abbrev file : PreparedOpen ℕ
file = record { path = record { storage = 64; len = 2 }; dir = cwd; flags = 0; mode = 0; addr = 64 }

redeem-push_request_example :
    let ticket = (Open.into_pending file 1 9).1 in
    let own : Receipt = record { ring = 1; id = 9; result = pos 5; flags = 0 } in
    let other : Receipt = record { ring = 1; id = 4; result = pos 1; flags = 0 } in
    ((push_request opened submitter memory file).2 ≡ ok ticket)
    × (reaped 2 completer later
        ≡ map (λ x. event_of 1 (of_cqe x)) (foreign_cqe ∷ []) ++ (Event.complete own ∷ []))
    × (Open.redeem ticket own ≡ ok (opened_done file 1 9 (pos 5)))
    × (Open.redeem ticket other ≡ err (ticket, other))
unfolding contains
redeem-push_request_example =
    redeem-push_request opened Open.redeem opened_done 1 1 submitter memory file completer later
      (foreign_cqe ∷ []) [] own_cqe (record { ring = 1; id = 4; result = pos 1; flags = 0 })
      opened-IsLawful opened-IsRedeemable submitter-IsValid (omega arith) completer-IsValid refl
      refl refl refl (inr (omega arith))
