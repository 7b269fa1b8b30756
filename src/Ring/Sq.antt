-- ===== src/Ring/Sq.antt =====
-- src/ring/mod.rs: the submission queue, as `IoUring` and `Submitter` drive it.
pub mod Queue
use ququmatz.Base.{ℕ, ◌+◌, ◌%◌, Bool, not, ltb, ◌==◌, if◌then◌else◌, Result, ok, err, bit_and, set}
use ququmatz.Base.Word.{add_u32, sub_u32, u32_mod}
use ququmatz.Types.{IoUringSqe}
use ququmatz.Types.EnterFlags
use ququmatz.Error.{Error, SubmitError, Errno}
use ququmatz.Ring.{Shared, SqSide, World}
use ququmatz.Ring.Window.{slot}
use ququmatz.Ring.Syscall.{Enter, io_uring_enter}

-- `push`: the entry goes into the cell of the local tail, unless all cells are taken.
unfoldable pub push : SqSide → Shared → IoUringSqe → SqSide × Shared × Result (Unit {0}) Error
push s m sqe =
    let next_tail = add_u32 s.sq_tail_local 1 in
    if ltb (s.sq_mask + 1) (sub_u32 next_tail m.sq_head)
    then (s, m, err (Error.submit SubmitError.queue_full))
    else (
      record s { sq_tail_local = next_tail },
      record m { sqes = set m.sqes (slot s.sq_mask s.sq_tail_local) sqe },
      ok tt,
    )

unfoldable pub flush_sq_tail : SqSide → Shared → Shared
flush_sq_tail s m = record m { sq_tail = s.sq_tail_local }

unfoldable pub sq_need_wakeup : Shared → Bool
sq_need_wakeup m = not (bit_and m.sq_flags 1 == 0)

unfoldable pub sq_capacity : SqSide → ℕ
sq_capacity s = s.sq_mask + 1

-- A `u32` subtraction.
unfoldable pub sq_space_left : SqSide → Shared → ℕ
unfolding sq_capacity
sq_space_left s m = sub_u32 (sq_capacity s) (sub_u32 s.sq_tail_local m.sq_head)

unfoldable pub to_submit : SqSide → ℕ
to_submit s = sub_u32 s.sq_tail_local s.sq_submitted

module _ {S : Type 0} where
  -- What each caller does with the result of an enter: count what the kernel took (`ret as u32`).
  unfoldable pub record_submitted :
      SqSide → World S → Result ℕ Errno → SqSide × World S × Result ℕ Error
  record_submitted s w (err e) = (s, w, err (Error.syscall e))
  record_submitted s w (ok ret) =
      let consumed = ret % u32_mod in
      (record s { sq_submitted = add_u32 s.sq_submitted consumed }, w, ok consumed)

module _ {S : Type 0} (enter : Enter S) where
  -- One enter that may submit, and its bookkeeping.
  unfoldable pub enter_submit : SqSide → World S → ℕ → ℕ → ℕ → ℕ → SqSide × World S × Result ℕ Error
  unfolding record_submitted
  enter_submit s w fd n min_complete flags =
      let (w', r) = io_uring_enter enter w fd n min_complete flags in record_submitted s w' r

  -- The common part of `submit`: `to_submit` is read before the tail is published.
  unfoldable pub submit : SqSide → World S → ℕ → SqSide × World S × Result ℕ Error
  unfolding to_submit flush_sq_tail
  submit s w fd =
      let n = to_submit s in
      let w' : World S = record w { shared = flush_sq_tail s w.shared } in
      if n == 0 then (s, w', ok 0) else enter_submit s w' fd n 0 EnterFlags.empty

  -- `Submitter::submit_and_wait`
  unfoldable pub submit_and_wait : SqSide → World S → ℕ → ℕ → SqSide × World S × Result ℕ Error
  unfolding to_submit flush_sq_tail
  submit_and_wait s w fd min_complete =
      enter_submit s (record w { shared = flush_sq_tail s w.shared }) fd (to_submit s) min_complete
        EnterFlags.getevents

  unfoldable pub submit_sqpoll : SqSide → World S → ℕ → SqSide × World S × Result (Unit {0}) Error
  unfolding flush_sq_tail sq_need_wakeup
  submit_sqpoll s w fd =
      let s' : SqSide = record s { sq_submitted = s.sq_tail_local } in
      let w' : World S = record w { shared = flush_sq_tail s w.shared } in
      if sq_need_wakeup w'.shared then woken s' w' else (s', w', ok tt)
    where
      woken : SqSide → World S → SqSide × World S × Result (Unit {0}) Error
      woken s' w' =
          let (w2, r) = io_uring_enter enter w' fd 0 0 EnterFlags.sq_wakeup in
          elim r [ ok n ↦ (s', w2, ok tt) | err e ↦ (s', w2, err (Error.syscall e)) ]
