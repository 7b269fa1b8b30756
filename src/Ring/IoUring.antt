-- ===== src/Ring/IoUring.antt =====
-- src/ring/mod.rs: `IoUring`, `Submitter` and `Completer`, over the two halves.
pub mod Accounting
pub mod Split
use ququmatz.Base.{
  ℕ, ◌+◌, ◌-◌, ◌/◌, ◌^◌, ◌==◌, not, ltb, if◌then◌else◌, Bool, ◌&&◌, ◌||◌, Result, ok, err, Option,
  List, bit_and, bit_or,
}
use ququmatz.Base.Word.{sub_u32, add_u32}
use ququmatz.Types.{IoUringSqe}
use ququmatz.Types.EnterFlags
use ququmatz.Types.SetupFlags
use ququmatz.Error.{Error, SetupError, InvalidArgKind}
use ququmatz.Ring.{Shared, SqSide, CqSide, World}
use ququmatz.Ring.Syscall.{Enter}
use ququmatz.Ring.Sq
use ququmatz.Ring.Cq
use ququmatz.Ring.Cq.{Completion}
use ququmatz.Ring.Resources.{RingResources, Cleanup, retain, release}

-- `struct IoUring`; the pointers are the shared memory of the world.
pub record IoUring : Type 0 where
  pub fd : ℕ
  pub sq : SqSide
  pub cq : CqSide
  pub features : ℕ
  pub setup_flags : ℕ
  pub do_tag_next : ℕ

pub record Submitter : Type 0 where
  pub fd : ℕ
  pub sq : SqSide
  pub features : ℕ

pub record Completer : Type 0 where
  pub fd : ℕ
  pub cq : CqSide

unfoldable pub push : IoUring → Shared → IoUringSqe → IoUring × Shared × Result (Unit {0}) Error
unfolding Sq.push
push r m sqe = let (s, m', res) = Sq.push r.sq m sqe in (record r { sq = s }, m', res)

unfoldable pub complete : IoUring → Shared → IoUring × Option Completion
unfolding Cq.complete
complete r m = let (c, res) = Cq.complete r.cq m in (record r { cq = c }, res)

-- The backpressure test: the completion queue is more than three quarters full.
unfoldable pub nearly_full : IoUring → Shared → Bool
nearly_full r m =
    let cap = r.cq.cq_mask + 1 in ltb (cap - cap / 4) (sub_u32 m.cq_tail r.cq.cq_head_local)

module _ {S : Type 0} (enter : Enter S) where
  -- After an enter that succeeded, `submit` also publishes the completion head.
  unfoldable pub submit : IoUring → World S → IoUring × World S × Result ℕ Error
  unfolding Sq.to_submit Sq.flush_sq_tail Cq.flush_cq_head
  submit r w =
      let n = Sq.to_submit r.sq in
      let w1 : World S = record w { shared = Sq.flush_sq_tail r.sq w.shared } in
      let (s, w2, res) = Sq.enter_submit enter r.sq w1 r.fd n 0 EnterFlags.empty in
      if n == 0 then (r, w1, ok 0) else (
        record r { sq = s },
        elim res [ ok c ↦ record w2 { shared = Cq.flush_cq_head r.cq w2.shared } | err e ↦ w2 ],
        res,
      )

  -- The second enter of `submit_and_wait`, when the completion queue is nearly full.
  unfoldable pub wait_again : IoUring → World S → ℕ → ℕ → IoUring × World S × Result ℕ Error
  wait_again r w first min_complete =
      let (s, w', res) = Sq.enter_submit enter r.sq w r.fd 0 min_complete EnterFlags.getevents in
      (record r { sq = s }, w', elim res [ ok second ↦ ok (add_u32 first second) | err e ↦ err e ])

  unfoldable pub flush_and_wait : IoUring → World S → ℕ → IoUring × World S × Result ℕ Error
  unfolding wait_again
  flush_and_wait r w min_complete =
      let (s, w', res) = Sq.enter_submit enter r.sq w r.fd (Sq.to_submit r.sq) 0 EnterFlags.empty in
      elim res [
        | ok first ↦ wait_again (record r { sq = s }) w' first min_complete
        | err e ↦ (record r { sq = s }, w', err e)
      ]

  unfoldable pub submit_and_wait : IoUring → World S → ℕ → IoUring × World S × Result ℕ Error
  unfolding Sq.flush_sq_tail Cq.flush_cq_head flush_and_wait nearly_full
  submit_and_wait r w min_complete =
      let w1 : World S = record w {
        shared = Sq.flush_sq_tail r.sq (Cq.flush_cq_head r.cq w.shared);
      } in
      let (s, w2, res) =
        Sq.enter_submit enter r.sq w1 r.fd (Sq.to_submit r.sq) min_complete EnterFlags.getevents in
      if nearly_full r w1.shared
      then flush_and_wait r w1 min_complete
      else (record r { sq = s }, w2, res)

-- `setup_flags_forbid_split`: the modes that bind the ring to its creating thread.
unfoldable pub setup_flags_forbid_split : ℕ → Bool
setup_flags_forbid_split flags =
    let sqpoll = not (bit_and flags SetupFlags.sqpoll == 0) in
    let single_issuer = not (bit_and flags SetupFlags.single_issuer == 0) in
    let defer_taskrun = not (bit_and flags SetupFlags.defer_taskrun == 0) in
    defer_taskrun || (single_issuer && not sqpoll)

unfoldable pub can_split : IoUring → Bool
unfolding setup_flags_forbid_split
can_split r = not (setup_flags_forbid_split r.setup_flags)

-- `split`: both halves hold a share of the resources, or the ring comes back as it was.
unfoldable pub split :
    IoUring → RingResources → RingResources × Result (Submitter × Completer) (IoUring × Error)
unfolding setup_flags_forbid_split
split r res =
    if setup_flags_forbid_split r.setup_flags
    then (
      res,
      err (
        r,
        Error.setup (SetupError.invalid_arg (InvalidArgKind.incompatible_split r.setup_flags)),
      ),
    )
    else (
      retain res,
      ok (record { fd = r.fd; sq = r.sq; features = r.features }, record { fd = r.fd; cq = r.cq }),
    )

-- `Drop for IoUring`, and `Drop for Completer`
unfoldable pub drop_ring :
    CqSide → Shared → RingResources → Shared × Option RingResources × List Cleanup
unfolding Cq.flush_cq_head
drop_ring c m res = let (left, out) = release res in (Cq.flush_cq_head c m, left, out)
