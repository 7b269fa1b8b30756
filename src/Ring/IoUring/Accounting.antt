-- ===== src/Ring/IoUring/Accounting.antt =====
-- src/ring/mod.rs: the count of entries still to submit, across the submit calls.
use ququmatz.Base.{
  ℕ, ◌+◌, ◌≤◌, ◌<◌, ◌%◌, ◌≡◌, refl, inl, inr, Result, ok, err, arith, lt→ltb, Bool-cases,
  Result-cases, ◌==◌,
}
use ququmatz.Base.Int.{ℤ, pos, negsuc}
use ququmatz.Base.Word.{add_u32, u32_mod}
use ququmatz.Types.EnterFlags
use ququmatz.Error.{Error, Errno}
use ququmatz.Ring.{Shared, SqSide, World}
use ququmatz.Ring.Syscall.{Enter, io_uring_enter, check}
use ququmatz.Ring.Cq.{flush_cq_head}
use ququmatz.Ring.Sq.{flush_sq_tail, to_submit, enter_submit, record_submitted}
use ququmatz.Ring.Sq
use ququmatz.Ring.IoUring.{
  IoUring, submit, submit_and_wait, wait_again, flush_and_wait, nearly_full,
}

-- What `io_uring_enter(2)` documents: an error number, or how many of the `n` entries it consumed.
abbrev pub Consumes : ℕ → ℤ → Type 0
Consumes n (pos r) = r ≤ n
Consumes n (negsuc e) = e < 4095

abbrev pub IsDocumented : {S : Type 0} → Enter S → Type 0
IsDocumented {S} enter =
    (k : S) (m : Shared) (fd n min_complete flags : ℕ)
    → Consumes n (enter k m fd n min_complete flags).2

-- Positions are `u32`, and no more entries are outstanding than a ring can hold.
pub record IsCounting (s : SqSide) : Type 0 where
  pub local : s.sq_tail_local < u32_mod
  pub behind : s.sq_submitted < u32_mod

-- How the count changes: by what is reported, and by nothing on an error.
abbrev pub Counted : SqSide → SqSide → Result ℕ Error → Type 0
Counted s t (ok c) =
    (c ≤ to_submit s)
    × (to_submit t + c ≡ to_submit s)
    × (t.sq_tail_local ≡ s.sq_tail_local)
    × IsCounting t
Counted s t (err e) = t ≡ s

-- A count that `check` lets through is one that the call reports.
abbrev Bounded : ℕ → Result ℕ Errno → Type 0
Bounded n (ok c) = c ≤ n
Bounded n (err e) = Unit {0}

check-Bounded : (n : ℕ) (z : ℤ) → Consumes n z → Bounded n (check z)
unfolding check
check-Bounded n (pos r) h = h
check-Bounded n (negsuc e) h = rw (lt→ltb e 4095 h) tt

record_submitted-Counted :
    {S : Type 0} (s : SqSide) (w : World S) (n : ℕ) (r : Result ℕ Errno)
    → IsCounting s
    → n ≤ to_submit s
    → Bounded n r
    → let (t, w', r') = record_submitted s w r in Counted s t r'
unfolding record_submitted to_submit
record_submitted-Counted s w n (ok c) v h b =
    let small : c % u32_mod ≡ c = omega (arith, v.local) in
    rw small (omega (arith, v.local, v.behind))
record_submitted-Counted s w n (err e) v h b = refl

nothing-Counted : (s : SqSide) → IsCounting s → Counted s s (ok 0)
nothing-Counted s v = omega arith

-- After an error in the second of two enters, what the first one took stays counted.
abbrev pub Waited : SqSide → SqSide → Result ℕ Error → Type 0
Waited s t (ok c) = Counted s t (ok c)
Waited s t (err e) =
    (to_submit t ≤ to_submit s) × (t.sq_tail_local ≡ s.sq_tail_local) × IsCounting t

Counted-Waited : (s t : SqSide) (r : Result ℕ Error) → IsCounting s → Counted s t r → Waited s t r
Counted-Waited s t (ok c) v h = h
Counted-Waited s t (err e) v h = rw h (omega arith, refl, v)

module _ {S : Type 0} (enter : Enter S) (documented : IsDocumented enter) where
  enter_submit-Counted :
      (s : SqSide) (w : World S) (fd n min_complete flags : ℕ)
      → IsCounting s
      → n ≤ to_submit s
      → let (t, w', r) = enter_submit enter s w fd n min_complete flags in Counted s t r
  unfolding enter_submit io_uring_enter
  enter_submit-Counted s w fd n min_complete flags v h =
      record_submitted-Counted s _ n _ v h
        (check-Bounded n _ (documented w.kernel w.shared fd n min_complete flags))

  -- `Submitter::submit`
  pub sq_submit-Counted :
      (s : SqSide) (w : World S) (fd : ℕ)
      → IsCounting s
      → let (t, w', r) = Sq.submit enter s w fd in Counted s t r
  unfolding Sq.submit
  sq_submit-Counted s w fd v = elim (Bool-cases (to_submit s == 0)) [
    | inl zero ↦ rw (zero, Sq.submit) (nothing-Counted s v)
    | inr some ↦
        rw (some, Sq.submit) (enter_submit-Counted s _ fd (to_submit s) 0 _ v (omega arith))
  ]

  -- With u32 positions and a kernel that consumes no more entries than an enter asks for, `submit`
  -- reports a count that together with the entries still to submit makes up those to submit before;
  -- on an error nothing of the submission side changes.
  pub submit-Counted :
      (r : IoUring) (w : World S)
      → IsCounting r.sq
      → let (r', w', res) = submit enter r w in Counted r.sq r'.sq res
  unfolding submit
  submit-Counted r w v = elim (Bool-cases (to_submit r.sq == 0)) [
    | inl zero ↦ rw (zero, submit) (nothing-Counted r.sq v)
    | inr some ↦
        rw (some, submit) (enter_submit-Counted r.sq _ r.fd (to_submit r.sq) 0 _ v (omega arith))
  ]

to_submit-lt : (s : SqSide) → to_submit s < u32_mod
unfolding to_submit
to_submit-lt s = omega arith

abbrev joined : ℕ → Result ℕ Error → Result ℕ Error
joined first r = elim r [ ok second ↦ ok (add_u32 first second) | err e ↦ err e ]

-- Two enters, one after the other.
joined-Waited :
    (s t u : SqSide) (first : ℕ) (r : Result ℕ Error)
    → Counted s t (ok first)
    → Counted t u r
    → Waited s u (joined first r)
joined-Waited s t u first (ok second) h h2 =
    let fits : add_u32 first second ≡ first + second = omega (arith, to_submit-lt s) in
    rw fits (omega arith)
joined-Waited s t u first (err e) h h2 = rw h2 (omega arith)

module _ {S : Type 0} (enter : Enter S) (documented : IsDocumented enter) where
  wait_again-Waited :
      (s : SqSide) (r : IoUring) (w : World S) (first min_complete : ℕ)
      → Counted s r.sq (ok first)
      → let (r', w', res) = wait_again enter r w first min_complete in Waited s r'.sq res
  unfolding wait_again
  wait_again-Waited s r w first min_complete h = joined-Waited s r.sq _ first _ h (
      enter_submit-Counted enter documented r.sq w r.fd 0 min_complete EnterFlags.getevents h.3
        (omega arith))

  flush_and_wait-Waited :
      (r : IoUring) (w : World S) (min_complete : ℕ)
      → IsCounting r.sq
      → let (r', w', res) = flush_and_wait enter r w min_complete in Waited r.sq r'.sq res
  unfolding flush_and_wait
  flush_and_wait-Waited r w min_complete v =
      let n = to_submit r.sq in
      let s' : SqSide = (enter_submit enter r.sq w r.fd n 0 EnterFlags.empty).0 in
      let one =
        enter_submit-Counted enter documented r.sq w r.fd n 0 EnterFlags.empty v (omega arith) in
      elim (Result-cases (enter_submit enter r.sq w r.fd n 0 EnterFlags.empty).2) [
        | inl (first, e) ↦
            rw (e, flush_and_wait)
              (wait_again-Waited r.sq (record r { sq = s' }) _ first min_complete (rw e at one))
        | inr (x, e) ↦ rw (e, flush_and_wait) (Counted-Waited r.sq _ (err x) v (rw e at one))
      ]

  -- With u32 positions and a kernel that consumes no more entries than each enter asks for,
  -- `submit_and_wait`, with its one enter or its two, reports a count that together with the
  -- entries still to submit makes up those to submit before; after an error the number still to
  -- submit has not grown; the local tail is the same.
  pub submit_and_wait-Waited :
      (r : IoUring) (w : World S) (min_complete : ℕ)
      → IsCounting r.sq
      → let (r', w', res) = submit_and_wait enter r w min_complete in Waited r.sq r'.sq res
  unfolding submit_and_wait
  submit_and_wait-Waited r w min_complete v =
      let m = flush_sq_tail r.sq (flush_cq_head r.cq w.shared) in
      let w1 : World S = record w { shared = m } in
      elim (Bool-cases (nearly_full r m)) [
        | inl yes' ↦ rw (yes', submit_and_wait) (flush_and_wait-Waited r w1 min_complete v)
        | inr no' ↦
            rw (no', submit_and_wait)
              (Counted-Waited r.sq _ _ v (
                enter_submit-Counted enter documented r.sq w1 r.fd (to_submit r.sq) min_complete
                  EnterFlags.getevents v (omega arith)))
      ]
