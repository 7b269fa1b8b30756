-- ===== src/Ring/Resources/Once.antt =====
-- src/ring/resources.rs: the calls of all owners of one allocation, in any order.
use mathlib.Core.List.{append-nil}
use ququmatz.Base.{
  ℕ, zero, suc, ◌+◌, ◌-◌, ◌<◌, ◌^◌, ◌≡◌, refl, List, [], ◌∷◌, ◌++◌, Option, none, some, arith,
  length,
}
use ququmatz.Ring.Resources.{RingResources, Cleanup, retain, release, teardown}

-- What the holders of a share do: make another owner (`split`, a buffer pool), or drop one.
pub data Share : Type 0 where
  retains releases : Share

-- The calls on one allocation, with the system calls that they make; `none` once it is freed.
unfoldable pub run : Option RingResources → List Share → Option RingResources × List Cleanup
run r [] = (r, [])
run none (o ∷ os) = (none, [])
run (some r) (retains ∷ os) = run (some (retain r)) os
run (some r) (releases ∷ os) =
    let (r', out) = release r in let (r2, more) = run r' os in (r2, out ++ more)

-- The number of owners after the calls, or `none` if one is made with no owner left.
unfoldable pub owners : ℕ → List Share → Option ℕ
owners n [] = some n
owners zero (o ∷ os) = none
owners (suc n) (retains ∷ os) = owners (suc (suc n)) os
owners (suc n) (releases ∷ os) = owners n os

-- What a history leaves of resources that started as `r`.
abbrev pub Outcome : RingResources → ℕ → Option RingResources × List Cleanup → Type 0
Outcome r zero out = out ≡ (none, teardown r)
Outcome r (suc n) out = out ≡ (some (record r { refcount = suc n }), [])

-- The count itself is no part of the outcome.
Outcome-count :
    (r : RingResources) (c n : ℕ) (out : Option RingResources × List Cleanup)
    → Outcome (record r { refcount = c }) n out
    → Outcome r n out
unfolding teardown
Outcome-count r c zero out h = h
Outcome-count r c (suc n) out h = h

Outcome-here :
    (r : RingResources) (n : ℕ) → 0 < r.refcount → r.refcount ≡ n → Outcome r n (some r, [])
Outcome-here r zero h e = absurd (omega arith)
Outcome-here r (suc n) h e = λ i. (some (record r { refcount = e i }), [])

pub release_last : (r : RingResources) → r.refcount ≡ 1 → release r ≡ (none, teardown r)
unfolding release
release_last r e = ground arith

release_shared :
    (r : RingResources) (c : ℕ)
    → r.refcount ≡ suc (suc c)
    → suc c < 2 ^ 64
    → release r ≡ (some (record r { refcount = suc c }), [])
unfolding release
release_shared r c e h = ground arith

retain_lem :
    (r : RingResources)
    → suc r.refcount < 2 ^ 64
    → retain r ≡ record r { refcount = suc r.refcount }
unfolding retain
retain_lem r h = ground arith

owners_zero : (os : List Share) (n : ℕ) → owners 0 os ≡ some n → (os ≡ []) × (n ≡ 0)
unfolding owners
owners_zero [] n h = (refl, ground arith)
owners_zero (o ∷ os) n h = absurd (cc)

run_count :
    (os : List Share) (r : RingResources) (c n : ℕ)
    → r.refcount ≡ suc c
    → suc c + length os < 2 ^ 64
    → owners (suc c) os ≡ some n
    → Outcome r n (run (some r) os)
unfolding run owners
run_count [] r c n e small h = Outcome-here r n (omega arith) (ground arith)
run_count (retains ∷ os) r c n e small h =
    let more : RingResources = record r { refcount = suc r.refcount } in
    rw (retain_lem r (omega arith)) (
      Outcome-count r (suc r.refcount) n _
        (run_count os more (suc c) n (omega arith) (omega arith) h))
run_count (releases ∷ os) r zero n e small h =
    let (none_left, gone) = owners_zero os n h in
    rw (release_last r e, none_left, gone) (rw append-nil refl)
run_count (releases ∷ os) r (suc c) n e small h = rw (release_shared r c e (omega arith)) (
    Outcome-count r (suc c) n _
      (run_count os (record r { refcount = suc c }) c n refl (omega arith) h))

-- For any calls that the owners of the shared resources make, fewer than 2 ^ 64 counted with the
-- first owners: while an owner is left nothing is released and the count is the number of owners;
-- when the last one has gone, the mappings and the descriptor have been released once each, in the
-- order of `release`.
pub run-Outcome :
    (os : List Share) (r : RingResources) (n : ℕ)
    → 0 < r.refcount
    → r.refcount + length os < 2 ^ 64
    → owners r.refcount os ≡ some n
    → Outcome r n (run (some r) os)
run-Outcome os r n pos small h =
    let e : r.refcount ≡ suc (r.refcount - 1) = omega arith in
    run_count os r (r.refcount - 1) n e (omega arith) (rw e at h)
