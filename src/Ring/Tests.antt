-- ===== src/Ring/Tests.antt =====
-- The properties of the ring at concrete inputs: a ring of two entries and two completions.
use mathlib.Core.List.{append-nil}
use ququmatz.Base.{◌-◌, ◌^◌, ◌<◌, ◌≡◌, refl, sym, ◌⊎◌, ok, err, some, none, [], ◌∷◌, ◌++◌, arith}
use ququmatz.Base.Int.{pos}
use ququmatz.Types.{IoUringSqe, IoUringCqe, zeroed}
use ququmatz.Error.{Error, SubmitError, SetupError, InvalidArgKind}
use ququmatz.Ring.{Shared, SqSide, CqSide, World}
use ququmatz.Ring.Window.{IsMask}
use ququmatz.Ring.Syscall.{Enter}
use ququmatz.Ring.Sq
use ququmatz.Ring.Sq.Queue
use ququmatz.Ring.Cq.{Completion, of_cqe, complete, into_result}
use ququmatz.Ring.Cq.Unread
use ququmatz.Ring.Steps.{State, pushes, completes, here, next, after_push, after_complete}
use ququmatz.Ring.Steps.Fifo.{IsFifo, Reach-IsFifo}
use ququmatz.Ring.Resources.{MappedRegion, RingResources, retain, teardown}
use ququmatz.Ring.Resources.Once.{retains, releases, run, owners, run-Outcome}
use ququmatz.Ring.IoUring as Whole
use ququmatz.Ring.IoUring.{IoUring, Submitter, Completer, submit, submit_and_wait, split}
use ququmatz.Ring.IoUring.Accounting.{
  IsCounting, IsDocumented, Counted, submit-Counted, submit_and_wait-Waited,
}
use ququmatz.Ring.IoUring.Accounting
use ququmatz.Ring.IoUring.Split.{IsBound, split_iff}
use ququmatz.Ring.Ops.{await_tag, own_result}
use ququmatz.Ring.Ops.Own.{IsPosting, drained, await_tag-own, await_tag_ok}

abbrev request : IoUringSqe
request = record zeroed { opcode = 22; user_data = 5 }

abbrev stray_cqe : IoUringCqe
stray_cqe = record { user_data = 4; res = pos 1; flags = 0 }

abbrev own_cqe : IoUringCqe
own_cqe = record { user_data = 9; res = pos 3; flags = 0 }

-- Positions that have gone round: one free submission cell, two unread completions.
abbrev memory : Shared
memory = record {
  sq_head = 2 ^ 32 - 1;
  sq_tail = 0;
  sq_flags = 0;
  sqes = zeroed ∷ request ∷ [];
  cq_head = 2 ^ 32 - 1;
  cq_tail = 1;
  cqes = own_cqe ∷ stray_cqe ∷ [];
}

abbrev sq : SqSide
sq = record { sq_mask = 1; sq_tail_local = 0; sq_submitted = 2 ^ 32 - 1 }

abbrev cq : CqSide
cq = record { cq_mask = 1; cq_head_local = 2 ^ 32 - 1 }

two_cells-IsMask : IsMask 1 1
two_cells-IsMask = record { width = omega arith; ones = refl }

sq-IsValid : Queue.IsValid 1 sq memory
sq-IsValid = record {
  mask = two_cells-IsMask;
  cells = refl;
  head = omega arith;
  tail = omega arith;
  local = omega arith;
  fits = omega arith;
  published = omega arith;
}

cq-IsValid : Unread.IsValid 1 cq memory
cq-IsValid = record {
  mask = two_cells-IsMask;
  cells = refl;
  head = omega arith;
  tail = omega arith;
  local = omega arith;
  behind = omega arith;
  fits = omega arith;
}

abbrev ring : IoUring
ring = record { fd = 3; sq = sq; cq = cq; features = 0; setup_flags = 2; do_tag_next = 0 }

abbrev world : World (Unit {0})
world = record { kernel = tt; shared = memory }

-- A kernel that takes every entry and posts nothing.
abbrev takes_all : Enter (Unit {0})
takes_all k m fd n min_complete flags = (k, m, pos n)

takes_all-IsDocumented : IsDocumented takes_all
takes_all-IsDocumented k m fd n min_complete flags = omega arith

takes_all-IsPosting : IsPosting takes_all 1
takes_all-IsPosting k m fd n min_complete flags c v =
    (n, [], refl, sym (append-nil (Unread.unread c m)), v)

-- The queues.
push_refines_example :
    let (s', m', r) = Sq.push sq memory request in
    ((Queue.queued sq memory ≡ 2)
      × (s' ≡ sq)
      × (m' ≡ memory)
      × (r ≡ err (Error.submit SubmitError.queue_full)))
    ⊎ ((Queue.queued sq memory < 2)
        × (r ≡ ok tt)
        × (Queue.contents s' m' ≡ Queue.contents sq memory ++ (request ∷ []))
        × Queue.IsValid 1 s' m')
push_refines_example = Queue.push_refines sq-IsValid request

complete_refines_example :
    let (c', r) = complete cq memory in
    ((Unread.unread cq memory ≡ []) × (r ≡ none) × (c' ≡ cq))
    ⊎ ((e : IoUringCqe) × (Unread.unread cq memory ≡ e ∷ Unread.unread c' memory)
        × (r ≡ some (of_cqe e))
        × Unread.IsValid 1 c' memory)
complete_refines_example = Unread.complete_refines cq-IsValid

-- Steps: a push, its publication, the kernel's take and a reap.
abbrev at_first : State
at_first = record {
  sq = sq;
  cq = cq;
  mem = memory;
  pushed = request ∷ [];
  taken = [];
  posted = stray_cqe ∷ own_cqe ∷ [];
  reaped = [];
}

at_first-IsFifo : IsFifo 1 1 at_first
at_first-IsFifo = record {
  sq_valid = sq-IsValid;
  cq_valid = cq-IsValid;
  sq_order = refl;
  cq_order = refl;
}

Reach-IsFifo_example : IsFifo 1 1 (after_complete (after_push at_first request))
Reach-IsFifo_example =
    Reach-IsFifo at_first-IsFifo (next (next here (pushes request refl)) (completes refl))

-- The calls of the kernel.
counting : IsCounting sq
counting = record { local = omega arith; behind = omega arith }

submit_and_wait-Waited_example :
    let (r', w', res) = submit_and_wait takes_all ring world 1 in Accounting.Waited sq r'.sq res
submit_and_wait-Waited_example =
    submit_and_wait-Waited takes_all takes_all-IsDocumented ring world 1 counting

await_tag-own_example :
    (r' : IoUring) × (w' : World (Unit {0})) × (await_tag takes_all 2 ring world 9 none
      ≡ some (r', w', own_result 9 (drained none (stray_cqe ∷ [])) (of_cqe own_cqe)))
await_tag-own_example =
    await_tag-own takes_all 1 takes_all-IsPosting (stray_cqe ∷ []) [] own_cqe 2 9 none ring world
      cq-IsValid refl (omega arith, tt) refl (omega arith)

abbrev after_stray : IoUring
after_stray = record ring { cq = record { cq_mask = 1; cq_head_local = 0 } }

abbrev after_own : IoUring
after_own = record ring { cq = record { cq_mask = 1; cq_head_local = 1 } }

finds_own : await_tag takes_all 1 after_stray world 9 none ≡ some (after_own, world, ok 3)
unfolding await_tag own_result Whole.complete
finds_own = refl

await_tag_ok_example :
    let (r1, found) = Whole.complete after_stray memory in
    (c : Completion) × (found ≡ some c)
    × (after_own ≡ r1)
    × (c.user_data ≡ 9)
    × (into_result c ≡ ok 3)
    × (world ≡ world)
await_tag_ok_example = await_tag_ok takes_all 1 after_stray world 9 after_own world 3 finds_own

-- The resources: a second owner is made, and both go.
abbrev region : MappedRegion
region = record { addr = 4096; len = 4096 }

abbrev resources : RingResources
resources = record {
  refcount = 1;
  fd = 3;
  sq_ring = region;
  cq_ring = record { addr = 0; len = 0 };
  sqes_region = region;
  self_page = region;
}

run-Outcome_example :
    run (some resources) (retains ∷ releases ∷ releases ∷ []) ≡ (none, teardown resources)
unfolding owners
run-Outcome_example =
    run-Outcome (retains ∷ releases ∷ releases ∷ []) resources 0 (omega arith) (omega arith) refl

split_iff_example :
    let (res', out) = split ring resources in
    (IsBound 2
      × (res' ≡ resources)
      × (out
          ≡ err (ring, Error.setup (SetupError.invalid_arg (InvalidArgKind.incompatible_split 2)))))
    ⊎ ((¬ IsBound 2)
        × (res' ≡ retain resources)
        × ((a : Submitter) × (b : Completer) × (out ≡ ok (a, b))
            × (a.sq ≡ sq)
            × (b.cq ≡ cq)
            × (a.fd ≡ 3)
            × (b.fd ≡ 3)))
split_iff_example = split_iff ring resources
