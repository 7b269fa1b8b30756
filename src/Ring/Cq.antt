-- ===== src/Ring/Cq.antt =====
-- src/ring/mod.rs: the completion queue, as `IoUring` and `Completer` drive it.
pub mod Unread
use ququmatz.Base.{
  ℕ, ◌+◌, ◌==◌, if◌then◌else◌, Bool, Result, ok, err, Option, none, some, bit_and, get_or, not,
}
use ququmatz.Base.Int.{ℤ, is_neg, neg_i32, u32_of_i32}
use ququmatz.Base.Word.{add_u32, sub_u32}
use ququmatz.Types.{IoUringCqe, default_cqe}
use ququmatz.Types.CqeFlags
use ququmatz.Types.EnterFlags
use ququmatz.Error.{Error, CompletionError, errno}
use ququmatz.Ring.{Shared, CqSide, World}
use ququmatz.Ring.Window.{slot}
use ququmatz.Ring.Syscall.{Enter, io_uring_enter}

pub record Completion : Type 0 where
  pub user_data : ℕ
  pub result : ℤ
  pub flags : ℕ

unfoldable pub into_result : Completion → Result ℕ Error
into_result c =
    if is_neg c.result
    then err (Error.completion (CompletionError.failed (errno (neg_i32 c.result))))
    else ok (u32_of_i32 c.result)

unfoldable pub is_err : Completion → Bool
is_err c = is_neg c.result

unfoldable pub buffer_id : Completion → Option ℕ
unfolding CqeFlags.buffer_id
buffer_id c = CqeFlags.buffer_id c.flags

abbrev pub of_cqe : IoUringCqe → Completion
of_cqe e = record { user_data = e.user_data; result = e.res; flags = e.flags }

-- `complete`: the oldest unread entry, if the tail is ahead.
unfoldable pub complete : CqSide → Shared → CqSide × Option Completion
complete c m = if c.cq_head_local == m.cq_tail then (c, none) else (
  record c { cq_head_local = add_u32 c.cq_head_local 1 },
  some (of_cqe (get_or m.cqes (slot c.cq_mask c.cq_head_local) default_cqe)),
)

-- `flush_cq_head` and `sync_cq`
unfoldable pub flush_cq_head : CqSide → Shared → Shared
flush_cq_head c m = record m { cq_head = c.cq_head_local }

unfoldable pub cq_capacity : CqSide → ℕ
cq_capacity c = c.cq_mask + 1

unfoldable pub cq_overflow : Shared → Bool
cq_overflow m = not (bit_and m.sq_flags 2 == 0)

-- The lower bound that `size_hint` of the iterators reports.
unfoldable pub size_hint : CqSide → Shared → ℕ
size_hint c m = sub_u32 m.cq_tail c.cq_head_local

module _ {S : Type 0} (enter : Enter S) where
  -- `Completer::wait`
  unfoldable pub wait : CqSide → World S → ℕ → ℕ → World S × Result (Unit {0}) Error
  unfolding flush_cq_head
  wait c w fd min_complete =
      let (w', r) =
        io_uring_enter enter (record w { shared = flush_cq_head c w.shared }) fd 0 min_complete
          EnterFlags.getevents in
      elim r [ ok n ↦ (w', ok tt) | err e ↦ (w', err (Error.syscall e)) ]
