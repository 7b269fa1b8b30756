-- ===== src/Ring/Steps.antt =====
-- The program and the kernel as interleaved steps on one ring, with the history of both queues.
pub mod Fifo
use ququmatz.Base.{
  ℕ, ◌+◌, ◌<◌, ◌≡◌, ◌≢◌, List, [], ◌∷◌, ◌++◌, Option, none, some, Result, ok, err, get_or, set,
}
use ququmatz.Base.Word.{add_u32, sub_u32}
use ququmatz.Types.{IoUringSqe, IoUringCqe, zeroed}
use ququmatz.Error.{Error}
use ququmatz.Ring.{Shared, SqSide, CqSide}
use ququmatz.Ring.Window.{slot}
use ququmatz.Ring.Sq.{push, flush_sq_tail}
use ququmatz.Ring.Cq.{Completion, complete, flush_cq_head}

-- Both halves of a ring, the shared memory, and what has gone through each queue, oldest first.
pub record State : Type 0 where
  pub sq : SqSide
  pub cq : CqSide
  pub mem : Shared
  pub pushed : List IoUringSqe
  pub taken : List IoUringSqe
  pub posted : List IoUringCqe
  pub reaped : List Completion

abbrev pub accepted : IoUringSqe → Result (Unit {0}) Error → List IoUringSqe
accepted x (ok u) = x ∷ []
accepted x (err e) = []

abbrev pub found : Option Completion → List Completion
found none = []
found (some c) = c ∷ []

abbrev pub after_push : State → IoUringSqe → State
after_push t x =
    let (s, m, r) = push t.sq t.mem x in
    record t { sq = s; mem = m; pushed = t.pushed ++ accepted x r }

abbrev pub after_complete : State → State
after_complete t =
    let (c, r) = complete t.cq t.mem in record t { cq = c; reaped = t.reaped ++ found r }

-- The kernel takes the oldest published entry: by `io_uring_enter`, or its polling thread.
abbrev pub after_take : State → State
after_take t =
    let m = t.mem in
    record t {
      mem = record m { sq_head = add_u32 m.sq_head 1 };
      taken = t.taken ++ (get_or m.sqes (slot t.sq.sq_mask m.sq_head) zeroed ∷ []);
    }

-- The kernel posts a completion into a cell that the published head has freed.
abbrev pub after_post : State → IoUringCqe → State
after_post t e =
    let m = t.mem in
    record t {
      mem = record m {
        cq_tail = add_u32 m.cq_tail 1;
        cqes = set m.cqes (slot t.cq.cq_mask m.cq_tail) e;
      };
      posted = t.posted ++ (e ∷ []);
    }

-- `submitted` is the bookkeeping of the submit calls, whatever they count.
pub data Step (t u : State) : Type 0 where
  pushes : (x : IoUringSqe) → u ≡ after_push t x → Step t u
  publishes : u ≡ record t { mem = flush_sq_tail t.sq t.mem } → Step t u
  submitted : (n : ℕ) → u ≡ record t { sq = record (t.sq) { sq_submitted = n } } → Step t u
  completes : u ≡ after_complete t → Step t u
  syncs : u ≡ record t { mem = flush_cq_head t.cq t.mem } → Step t u
  takes : t.mem.sq_head ≢ t.mem.sq_tail → u ≡ after_take t → Step t u
  posts :
      (e : IoUringCqe)
      → sub_u32 t.mem.cq_tail t.mem.cq_head < t.cq.cq_mask + 1
      → u ≡ after_post t e
      → Step t u
  flags : (n : ℕ) → u ≡ record t { mem = record (t.mem) { sq_flags = n } } → Step t u

pub data Reach (t : State) : State → Type 0 where
  here : Reach t t
  next : {u v : State} → Reach t u → Step u v → Reach t v
