-- ===== src/Ring/Ops/Own.antt =====
-- src/ring/ops.rs: the loop of `run_one` among the completions of others.
use mathlib.Core.List.{append_assoc}
use ququmatz.Base.{
  ap, ◌∙◌, subst, Bool-cases, Option-cases, inl, inr, ℕ, zero, suc, ◌<◌, ◌≡◌, ◌≢◌, refl, ◌==◌,
  ==_iff, false, Result, ok, Option, none, some, List, [], ◌∷◌, ◌++◌, length, arith,
}
use ququmatz.Types.{IoUringCqe}
use ququmatz.Error.{Error}
use ququmatz.Base.Int.{pos}
use ququmatz.Ring.{Shared, SqSide, CqSide, World}
use ququmatz.Ring.Syscall.{Enter, check, io_uring_enter}
use ququmatz.Ring.Sq.{enter_submit, record_submitted, to_submit, flush_sq_tail}
use ququmatz.Types.EnterFlags
use ququmatz.Ring.Cq
use ququmatz.Ring.Cq.{Completion, of_cqe, into_result}
use ququmatz.Ring.Cq.Unread
use ququmatz.Ring.Cq.Unread.{unread}
use ququmatz.Ring.Cq.{flush_cq_head}
use ququmatz.Ring.IoUring.{
  IoUring, complete, submit_and_wait, wait_again, flush_and_wait, nearly_full,
}
use ququmatz.Ring.Ops.{await_tag, own_result, first_stray}

-- None of the completions carries the tag.
abbrev pub Others : ℕ → List IoUringCqe → Type 0
Others tag [] = Unit {0}
Others tag (e ∷ es) = (e.user_data ≢ tag) × Others tag es

-- The first of the completions drained, unless one was seen before.
abbrev pub drained : Option ℕ → List IoUringCqe → Option ℕ
drained stray [] = stray
drained stray (e ∷ es) = drained (first_stray stray e.user_data) es

-- The kernel, when an enter does not fail: it takes no more entries than it is given, and of what
-- the program sees as unread it changes nothing, and may post more.
abbrev pub IsPosting : {S : Type 0} → Enter S → ℕ → Type 0
IsPosting {S} enter k =
    (s : S) (m : Shared) (fd n min_complete flags : ℕ) (c : CqSide)
    → Unread.IsValid k c m
    → let (s', m', z) = enter s m fd n min_complete flags in
      (taken : ℕ) × (more : List IoUringCqe) × (z ≡ pos taken)
      × (unread c m' ≡ unread c m ++ more)
      × Unread.IsValid k c m'

-- What a call leaves: success, and the unread completions with others behind them.
abbrev Waited : {S : Type 0} → ℕ → CqSide → Shared → CqSide → World S → Result ℕ Error → Type 0
Waited k c m c' w res =
    (n : ℕ) × (more : List IoUringCqe) × (res ≡ ok n)
    × (unread c' w.shared ≡ unread c m ++ more)
    × Unread.IsValid k c' w.shared

-- The ring's `complete`, from the completion half's.
complete-some :
    (r : IoUring) (m : Shared) {c : CqSide} {x : Completion}
    → Cq.complete r.cq m ≡ (c, some x)
    → complete r m ≡ (record r { cq = c }, some x)
unfolding complete
complete-some r m found = rw found refl

-- A round that reaps another's completion and waits on.
abbrev Continues :
    {S : Type 0} → Enter S → ℕ → IoUring → World S → ℕ → Option ℕ → ℕ → ℕ → IoUring → Type 0
Continues enter fuel r w tag stray x n r1 =
    let (r2, w2, res) = submit_and_wait enter r1 w 1 in
    res ≡ ok n
    → await_tag enter (suc fuel) r w tag stray
      ≡ await_tag enter fuel r2 w2 tag (first_stray stray x)

round_lem :
    {S : Type 0} (enter : Enter S) (fuel : ℕ) (r : IoUring) (w : World S) (tag : ℕ)
    (stray : Option ℕ) {x : Completion} {n : ℕ}
    → let (r1, found) = complete r w.shared in
      found ≡ some x
      → (x.user_data == tag) ≡ false
      → Continues enter fuel r w tag stray x.user_data n r1
unfolding await_tag
round_lem enter fuel r w tag stray found miss sent = rw (found, await_tag) (rw miss (rw sent refl))

await_tag-round :
    {S : Type 0} (enter : Enter S) (fuel : ℕ) (r : IoUring) (w : World S) (tag : ℕ)
    (stray : Option ℕ) {r1 : IoUring} {x : Completion} {n : ℕ}
    → complete r w.shared ≡ (r1, some x)
    → (x.user_data == tag) ≡ false
    → Continues enter fuel r w tag stray x.user_data n r1
await_tag-round enter fuel r w tag stray {x = x} {n = n} found miss =
    subst (λ p. Continues enter fuel r w tag stray x.user_data n p.0) found
      (round_lem enter fuel r w tag stray (ap (λ p. p.1) found) miss)

module _ {S : Type 0} (enter : Enter S) (k : ℕ) (posting : IsPosting enter k) where
  enter_submit-Waited :
      (s : SqSide) (w : World S) (fd n min_complete flags : ℕ) (c : CqSide)
      → Unread.IsValid k c w.shared
      → let (s', w', res) = enter_submit enter s w fd n min_complete flags in
        Waited k c w.shared c w' res
  unfolding enter_submit io_uring_enter check record_submitted
  enter_submit-Waited s w fd n min_complete flags c v =
      let (taken, more, e, u, v') = posting w.kernel w.shared fd n min_complete flags c v in
      rw (e, check, record_submitted) (_, more, refl, u, v')

  -- A second enter behind a first one that left `more`.
  wait_again-Waited :
      (r : IoUring) (w : World S) (first : ℕ) (c : CqSide) (m : Shared) (more : List IoUringCqe)
      → unread r.cq w.shared ≡ unread c m ++ more
      → Unread.IsValid k r.cq w.shared
      → let (r', w', res) = wait_again enter r w first 1 in Waited k c m r'.cq w' res
  unfolding wait_again
  wait_again-Waited r w first c m more u v =
      let (n, more', e, u', v') = enter_submit-Waited r.sq w r.fd 0 1 EnterFlags.getevents r.cq v in
      rw (e, wait_again)
        (
          _,
          more ++ more',
          refl,
          u' ∙ ap (λ l. l ++ more') u ∙ append_assoc (unread c m) more more',
          v',
        )

  flush_and_wait-Waited :
      (r : IoUring) (w : World S)
      → Unread.IsValid k r.cq w.shared
      → let (r', w', res) = flush_and_wait enter r w 1 in Waited k r.cq w.shared r'.cq w' res
  unfolding flush_and_wait
  flush_and_wait-Waited r w v =
      let n = to_submit r.sq in
      let s' : SqSide = (enter_submit enter r.sq w r.fd n 0 EnterFlags.empty).0 in
      let (first, more, e, u, v') = enter_submit-Waited r.sq w r.fd n 0 EnterFlags.empty r.cq v in
      rw (e, flush_and_wait)
        (wait_again-Waited (record r { sq = s' }) _ first r.cq w.shared more u v')

  -- What the waits see after both flushes.
  flushed :
      (r : IoUring) (m : Shared)
      → Unread.IsValid k r.cq m
      → let m' = flush_sq_tail r.sq (flush_cq_head r.cq m) in
        Unread.IsValid k r.cq m' × (unread r.cq m' ≡ unread r.cq m)
  unfolding flush_sq_tail flush_cq_head
  flushed r m v =
      let (v1, u1) = Unread.flush_cq_head-IsValid v in Unread.IsValid-frame refl refl refl v1

  submit_and_wait-Waited :
      (r : IoUring) (w : World S)
      → Unread.IsValid k r.cq w.shared
      → let (r', w', res) = submit_and_wait enter r w 1 in Waited k r.cq w.shared r'.cq w' res
  unfolding submit_and_wait
  submit_and_wait-Waited r w v =
      let m = flush_sq_tail r.sq (flush_cq_head r.cq w.shared) in
      let w1 : World S = record w { shared = m } in
      let (v1, u1) = flushed r w.shared v in
      elim (Bool-cases (nearly_full r m)) [
        | inl high ↦
            let (n, more, e, u, v') = flush_and_wait-Waited r w1 v1 in
            rw (high, submit_and_wait) (n, more, e, u ∙ ap (λ l. l ++ more) u1, v')
        | inr low ↦
            let (n, more, e, u, v') =
              enter_submit-Waited r.sq w1 r.fd (to_submit r.sq) 1 EnterFlags.getevents r.cq v1 in
            rw (low, submit_and_wait) (n, more, e, u ∙ ap (λ l. l ++ more) u1, v')
      ]

  -- Given a kernel whose enters do not fail and only add completions, if a completion with the tag
  -- is unread behind others without it, then one round more than there are others is enough: the
  -- loop of the blocking calls stops and gives the result that goes with that completion and the
  -- first of the others, whatever is unread behind it.
  pub await_tag-own :
      (pre post : List IoUringCqe) (e : IoUringCqe) (fuel tag : ℕ) (stray : Option ℕ) (r : IoUring)
      (w : World S)
      → Unread.IsValid k r.cq w.shared
      → unread r.cq w.shared ≡ pre ++ (e ∷ post)
      → Others tag pre
      → e.user_data ≡ tag
      → length pre < fuel
      → (r' : IoUring) × (w' : World S) × (await_tag enter fuel r w tag stray
          ≡ some (r', w', own_result tag (drained stray pre) (of_cqe e)))
  unfolding await_tag
  await_tag-own pre post e zero tag stray r w v u o t h = absurd (omega arith)
  await_tag-own [] post e (suc fuel) tag stray r w v u o t h =
      let (c, found, rest, valid) = Unread.complete_cons v e post u in
      rw (complete-some r w.shared found, await_tag, (==_iff e.user_data tag).1 t) (_, _, refl)
  await_tag-own (x ∷ pre) post e (suc fuel) tag stray r w v u o t h =
      let (c, found, rest, valid) = Unread.complete_cons v x (pre ++ (e ∷ post)) u in
      let r1 : IoUring = record r { cq = c } in
      let out = submit_and_wait enter r1 w 1 in
      let (n, more, sent, u', v') = submit_and_wait-Waited r1 w valid in
      let miss : (x.user_data == tag) ≡ false = ground (arith, o.0) in
      let (r', w', ih) =
        await_tag-own pre (post ++ more) e fuel tag (first_stray stray x.user_data) out.0 out.1 v'
          (u' ∙ ap (λ l. l ++ more) rest ∙ append_assoc pre (e ∷ post) more) o.1 t (omega arith) in
      (
        r',
        w',
        await_tag-round enter fuel r w tag stray (complete-some r w.shared found) miss sent ∙ ih,
      )

-- With a kernel of which nothing is known.
module _ {S : Type 0} (enter : Enter S) where
  stray-not-ok :
      (fuel : ℕ) (r : IoUring) (w : World S) (tag x : ℕ) (r' : IoUring) (w' : World S) (n : ℕ)
      → await_tag enter fuel r w tag (some x) ≢ some (r', w', ok n)
  unfolding await_tag own_result
  stray-not-ok zero r w tag x r' w' n h = cc
  stray-not-ok (suc fuel) r w tag x r' w' n h =
      let r1 = (complete r w.shared).0 in
      let out = submit_and_wait enter r1 w 1 in
      let ih = stray-not-ok fuel out.0 out.1 tag x r' w' n in ground arith

  -- Whatever the kernel does, if the loop of the blocking calls succeeds with no stray completion
  -- before it, then the first completion that it reaped carries the tag and the result is that
  -- completion's, no other call of the kernel having been made.
  pub await_tag_ok :
      (fuel : ℕ) (r : IoUring) (w : World S) (tag : ℕ) (r' : IoUring) (w' : World S) (n : ℕ)
      → await_tag enter fuel r w tag none ≡ some (r', w', ok n)
      → let (r1, found) = complete r w.shared in
        (c : Completion) × (found ≡ some c)
        × (r' ≡ r1)
        × (c.user_data ≡ tag)
        × (into_result c ≡ ok n)
        × (w' ≡ w)
  unfolding await_tag own_result
  await_tag_ok zero r w tag r' w' n h = absurd cc
  await_tag_ok (suc fuel) r w tag r' w' n h =
      let r1 = (complete r w.shared).0 in
      let out = submit_and_wait enter r1 w 1 in
      elim (Option-cases (complete r w.shared).1) [
        | inl empty ↦ ground arith
        | inr (x, found) ↦
            let ne = stray-not-ok fuel out.0 out.1 tag x.user_data r' w' n in
            let all : (r' ≡ r1) × (x.user_data ≡ tag) × (into_result x ≡ ok n) × (w' ≡ w) =
              ground arith in
            (x, found, all.0, all.1, all.2, all.3)
      ]
