-- ===== src/Ring/Ops.antt =====
-- src/ring/ops.rs: one synchronous submission, which waits for its own completion.
pub mod Own
use ququmatz.Base.{
  ℕ, zero, suc, ◌+◌, ◌-◌, ◌%◌, ◌^◌, ◌==◌, if◌then◌else◌, Result, ok, err, Option, none, some,
  bit_and, bit_or,
}
use ququmatz.Types.{IoUringSqe}
use ququmatz.Error.{Error, CompletionError}
use ququmatz.Ring.{Shared, World}
use ququmatz.Ring.Syscall.{Enter}
use ququmatz.Ring.Cq.{Completion, into_result}
use ququmatz.Ring.IoUring.{IoUring, push, complete, submit_and_wait}

abbrev pub do_tag_marker : ℕ
do_tag_marker = 2 ^ 63

-- `next_do_tag`: `!DO_TAG_MARKER` is all bits but the highest.
unfoldable pub next_do_tag : IoUring → IoUring × ℕ
next_do_tag r =
    let tag = r.do_tag_next in
    (
      record r {
        do_tag_next = bit_or do_tag_marker (bit_and ((tag + 1) % 2 ^ 64) (do_tag_marker - 1));
      },
      tag,
    )

-- `stray.get_or_insert(x)`
abbrev pub first_stray : Option ℕ → ℕ → Option ℕ
first_stray none x = some x
first_stray (some y) x = some y

-- What the tagged completion gives: its own result, unless another one was drained before it.
unfoldable pub own_result : ℕ → Option ℕ → Completion → Result ℕ Error
unfolding into_result
own_result tag none c = into_result c
own_result tag (some found) c =
    err (Error.completion (CompletionError.unexpected_completion tag found))

module _ {S : Type 0} (enter : Enter S) where
  -- The loop of `run_one`, for `fuel` rounds; `none` means that the rounds ran out.
  unfoldable pub await_tag :
      ℕ → IoUring → World S → ℕ → Option ℕ → Option (IoUring × World S × Result ℕ Error)
  await_tag zero r w tag stray = none
  await_tag (suc fuel) r w tag stray =
      let (r1, found) = complete r w.shared in
      elim found [
        | none ↦ some (r1, w, err (Error.completion CompletionError.no_completion))
        | some c ↦
            let (r2, w2, res) = submit_and_wait enter r1 w 1 in
            let stray' = first_stray stray c.user_data in
            let rest = await_tag fuel r2 w2 tag stray' in
            let next : Option (IoUring × World S × Result ℕ Error) = elim res [
              | ok n ↦ rest
              | err e ↦ some (r2, w2, err e)
            ] in
            if c.user_data == tag then some (r1, w, own_result tag stray c) else next
      ]

  -- `run_one`
  unfoldable pub run_one :
      ℕ → IoUring → World S → IoUringSqe → Option (IoUring × World S × Result ℕ Error)
  unfolding next_do_tag
  run_one fuel r w sqe =
      let (r1, tag) = next_do_tag r in
      let (r2, m, pushed) = push r1 w.shared (record sqe { user_data = tag }) in
      let w2 : World S = record w { shared = m } in
      let (r3, w3, sent) = submit_and_wait enter r2 w2 1 in
      elim pushed [
        | err e ↦ some (r2, w2, err e)
        | ok u ↦ elim sent [ err e ↦ some (r3, w3, err e) | ok n ↦ await_tag fuel r3 w3 tag none ]
      ]
