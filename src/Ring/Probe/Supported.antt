-- ===== src/Ring/Probe/Supported.antt =====
-- src/ring/probe.rs: a probe answers for each opcode what the kernel implements.
use ququmatz.Base.{
  ℕ, zero, suc, ◌+◌, ◌≡◌, ◌≤◌, ◌<◌, refl, ◌∙◌, Bool, true, false, not, ◌&&◌, ◌||◌, ◌==◌, ltb, leb,
  List, [], ◌∷◌, length, take, get_or, bit_and, arith, ap, Bool-cases, inl, inr, ==_iff, ◌⊎◌,
  Result-cases, ok, err,
}
use ququmatz.Base.Int.{ℤ}
use ququmatz.Error.{Error, Errno}
use ququmatz.Ring.Syscall.{check}
use ququmatz.Ring.Probe.{
  Probe, ProbeOp, no_op, any, empty_probe, probe_slots, interrogate, implements, supported_flag,
  reported, supports_raw,
}

-- What the kernel documents of a probe that it filled: one entry for each opcode from 0 on, at most
-- as many as there are slots.
pub record IsFilled (implemented : ℕ → Bool) (p : Probe) : Type 0 where
  pub room : p.ops_len ≤ length p.ops
  pub numbered : (i : ℕ) → i < p.ops_len → (get_or p.ops i no_op).op ≡ i
  pub flagged :
      (i : ℕ) → i < p.ops_len → not (bit_and (get_or p.ops i no_op).flags 1 == 0) ≡ implemented i

-- No opcode is from `i` on and below it.
none_between : (i raw : ℕ) (b : Bool) → false ≡ (leb i raw && ltb raw (i + 0)) && b
none_between i raw b = ground arith

or_false : (b : Bool) → b || false ≡ b
or_false true = refl
or_false false = refl

-- An opcode is the first one, or between the next and the end, when it is between the first one and
-- the end.
between :
    (i n raw : ℕ) (f : ℕ → Bool)
    → ((i == raw) && f i) || ((leb (i + 1) raw && ltb raw (i + 1 + n)) && f raw)
      ≡ (leb i raw && ltb raw (i + suc n)) && f raw
between i n raw f = elim (Bool-cases (i == raw)) [
  | inl same ↦
      let e : i ≡ raw = (==_iff i raw).0 same in
      let yes : leb raw raw ≡ true = ground arith in
      let yes' : ltb raw (raw + suc n) ≡ true = ground arith in
      let no : leb (raw + 1) raw ≡ false = ground arith in
      let self : (raw == raw) ≡ true = ground arith in
      rw (e, yes, yes', no, self) (or_false (f raw))
  | inr other ↦
      let same : leb (i + 1) raw ≡ leb i raw = ground arith in
      let same' : i + 1 + n ≡ i + suc n = omega arith in rw (other, same, same') refl
]

any-implements :
    (f : ℕ → Bool) (raw : ℕ) (xs : List ProbeOp) (n i : ℕ)
    → n ≤ length xs
    → ((j : ℕ) → j < n → (get_or xs j no_op).op ≡ i + j)
    → ((j : ℕ) → j < n → not (bit_and (get_or xs j no_op).flags supported_flag == 0) ≡ f (i + j))
    → any (implements raw) (take n xs) ≡ (leb i raw && ltb raw (i + n)) && f raw
any-implements f raw xs zero i h num flag = none_between i raw (f raw)
any-implements f raw [] (suc n) i h num flag = absurd (omega arith)
any-implements f raw (x ∷ xs) (suc n) i h num flag =
    let rest =
      any-implements f raw xs n (i + 1) (omega arith)
        (λ j l. num (suc j) (omega arith) ∙ omega arith)
        (λ j l. flag (suc j) (omega arith) ∙ ap f (omega arith)) in
    let number : x.op ≡ i = num 0 (omega arith) ∙ omega arith in
    let first : not (bit_and x.flags supported_flag == 0) ≡ f i =
      flag 0 (omega arith) ∙ ap f (omega arith) in
    rw (number, first, rest) (between i n raw f)

supports_raw_lem :
    (implemented : ℕ → Bool) (p : Probe) (raw : ℕ)
    → IsFilled implemented p
    → supports_raw p raw ≡ ltb raw (reported p) && implemented raw
unfolding supports_raw
supports_raw_lem f p raw h =
    let least : leb 0 raw ≡ true = ground arith in
    let end : 0 + p.ops_len ≡ p.ops_len = omega arith in
    any-implements f raw p.ops p.ops_len 0 h.room (λ j l. h.numbered j l ∙ omega arith)
      (λ j l. h.flagged j l ∙ ap f (omega arith))
    ∙ rw (least, end) refl

-- On a kernel that fills a probe as documented, one entry for each opcode from 0 on and at most as
-- many as there are slots, asking it gives the error of the call if the call failed, and else the
-- probe that the kernel filled, which supports an opcode exactly when it is among the reported ones
-- and the kernel implements it.
pub supports-interrogate :
    {S : Type 0} (register : S → ℕ → ℕ → Probe → ℕ → S × Probe × ℤ) (implemented : ℕ → Bool) (s : S)
    (fd raw : ℕ)
    → ((n : ℕ)
        → check (register s fd 8 empty_probe probe_slots).2 ≡ ok n
        → IsFilled implemented (register s fd 8 empty_probe probe_slots).1)
    → let (s', p, ret) = register s fd 8 empty_probe probe_slots in
      ((e : Errno) × (check ret ≡ err e)
        × (interrogate register s fd ≡ (s', err (Error.syscall e))))
      ⊎ ((n : ℕ) × (check ret ≡ ok n)
          × (interrogate register s fd ≡ (s', ok p))
          × (supports_raw p raw ≡ ltb raw p.ops_len && implemented raw))
unfolding interrogate
supports-interrogate register implemented s fd raw law =
    elim (Result-cases (check (register s fd 8 empty_probe probe_slots).2)) [
      | inl (n, done) ↦
          rw (done, interrogate)
            (inr (n, refl, refl, supports_raw_lem implemented _ raw (law n done)))
      | inr (e, failed) ↦ rw (failed, interrogate) (inl (e, refl, refl))
    ]
