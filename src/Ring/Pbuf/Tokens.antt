-- ===== src/Ring/Pbuf/Tokens.antt =====
-- src/ring/pbuf.rs: acknowledging and recycling as steps of a pool and the tokens that are out.
use ququmatz.Base.{
  ℕ, ◌+◌, ◌/◌, ◌%◌, ◌^◌, ◌<◌, ◌≤◌, ◌≡◌, ◌⊎◌, refl, ap, ◌∙◌, sym, Bool, true, false, ◌==◌,
  if◌then◌else◌, List, [], ◌∷◌, ◌++◌, some, ok, err, arith, replicate, length-replicate,
  get_or-replicate,
}
use native.Mathlib.Decide.{ℕ_discrete}
use ququmatz.Base.Word.{zero-bit_and}
use ququmatz.Ring.Pbuf.{
  ProvidedBufferRing, BufRing, AcknowledgedBuffer, AcknowledgeError, out_of_range,
  already_acknowledged, ledger_get, ledger_set, acknowledge, recycle, recycle_acknowledged,
  recycle_raw,
}
use ququmatz.Ring.Pbuf.Ledger.{IsLedger, ledger_get-set, ledger_set-IsLedger}

-- A pool, its ring's memory and the tokens that are out.
pub record Pool : Type 0 where
  pub ring : ProvidedBufferRing
  pub memory : BufRing
  pub tokens : List AcknowledgedBuffer

-- The calls on a pool that concern tokens. A token that is recycled is used up.
pub data Step : Pool → Pool → Type 0 where
  acknowledged :
      (p p' : ProvidedBufferRing) (m : BufRing) (ts : List AcknowledgedBuffer) (id len : ℕ)
      (t : AcknowledgedBuffer)
      → acknowledge p id len ≡ (p', ok t)
      → Step
          (record { ring = p; memory = m; tokens = ts })
          (record { ring = p'; memory = m; tokens = t ∷ ts })
  refused :
      (p p' : ProvidedBufferRing) (m : BufRing) (ts : List AcknowledgedBuffer) (id len : ℕ)
      (e : AcknowledgeError)
      → acknowledge p id len ≡ (p', err e)
      → Step
          (record { ring = p; memory = m; tokens = ts })
          (record { ring = p'; memory = m; tokens = ts })
  recycled :
      (p p' : ProvidedBufferRing) (m m' : BufRing) (before after : List AcknowledgedBuffer)
      (t : AcknowledgedBuffer)
      → recycle_acknowledged p m t ≡ some (p', m')
      → Step
          (record { ring = p; memory = m; tokens = before ++ (t ∷ after) })
          (record { ring = p'; memory = m'; tokens = before ++ after })

pub data Reach (s : Pool) : Pool → Type 0 where
  start : Reach s s
  further : {t u : Pool} → Reach s t → Step t u → Reach s u

-- How many tokens of a buffer are out.
abbrev pub count : ℕ → List AcknowledgedBuffer → ℕ
count id [] = 0
count id (t ∷ ts) = (if t.buf_id == id then 1 else 0) + count id ts

count-append :
    (id : ℕ) (ts us : List AcknowledgedBuffer) → count id (ts ++ us) ≡ count id ts + count id us
count-append id [] us = omega arith
count-append id (t ∷ ts) us = omega (arith, count-append id ts us)

-- The ledger marks a buffer when its one token is out, and does not when none is.
pub record IsTracked (s : Pool) : Type 0 where
  pub entries : s.ring.entries ≤ 2 ^ 15
  pub ledger : IsLedger s.ring.delivered
  pub marked :
      (id : ℕ) → id < 2 ^ 15 → count id s.tokens ≡ (if ledger_get s.ring.delivered id then 1 else 0)

pub acknowledge_ok :
    (p p' : ProvidedBufferRing) (id len : ℕ) (t : AcknowledgedBuffer)
    → acknowledge p id len ≡ (p', ok t)
    → (id < p.entries)
      × (len ≤ p.buf_size)
      × (ledger_get p.delivered id ≡ false)
      × (t.buf_id ≡ id)
      × (p' ≡ record p { delivered = ledger_set p.delivered id true })
unfolding acknowledge
acknowledge_ok p p' id len t h = ground arith

acknowledge_err :
    (p p' : ProvidedBufferRing) (id len : ℕ) (e : AcknowledgeError)
    → acknowledge p id len ≡ (p', err e)
    → p' ≡ p
unfolding acknowledge
acknowledge_err p p' id len e h = ground arith

recycle_acknowledged-some :
    (p p' : ProvidedBufferRing) (m m' : BufRing) (t : AcknowledgedBuffer)
    → recycle_acknowledged p m t ≡ some (p', m')
    → (t.buf_id < p.entries)
      × (p'.entries ≡ p.entries)
      × (p'.delivered ≡ ledger_set p.delivered t.buf_id false)
unfolding recycle_acknowledged recycle recycle_raw
recycle_acknowledged-some p p' m m' t h = ground arith

-- The counts of one buffer over the two steps that change the ledger.
gained :
    (a j c : ℕ) (held_a held_j held' : Bool)
    → (a ≡ j → held_a ≡ held_j)
    → held_a ≡ false
    → held' ≡ (if a == j then true else held_j)
    → c ≡ (if held_j then 1 else 0)
    → (if a == j then 1 else 0) + c ≡ (if held' then 1 else 0)
gained a j c held_a held_j held' agree free seen old = elim (ℕ_discrete a j) [
  | yes e ↦ let alike : held_a ≡ held_j = agree e in ground arith
  | no e ↦ ground arith
]

lost :
    (a j c d : ℕ) (held held' : Bool)
    → held' ≡ (if a == j then false else held)
    → c + ((if a == j then 1 else 0) + d) ≡ (if held then 1 else 0)
    → c + d ≡ (if held' then 1 else 0)
lost a j c d held held' seen old = ground arith

Step-IsTracked : {s u : Pool} → IsTracked s → Step s u → IsTracked u
Step-IsTracked v (acknowledged p p' m ts id len t h) =
    let (inside, short, free, own, next) = acknowledge_ok p p' id len t h in
    let low : id < 2 ^ 15 = omega (arith, v.entries) in
    rw next (record {
      entries = v.entries;
      ledger = ledger_set-IsLedger v.ledger true id low;
      marked = λ j hj.
          let seen = ledger_get-set v.ledger true id j low hj in
          let old = v.marked j hj in
          rw own (gained id j (count j ts) _ _ _ (ap (ledger_get p.delivered)) free seen old);
    })
Step-IsTracked v (refused p p' m ts id len e h) = rw (acknowledge_err p p' id len e h) v
Step-IsTracked v (recycled p p' m m' before after t h) =
    let (inside, same, next) = recycle_acknowledged-some p p' m m' t h in
    let low : t.buf_id < 2 ^ 15 = omega (arith, v.entries) in
    record {
      entries = rw same v.entries;
      ledger = rw next (ledger_set-IsLedger v.ledger false t.buf_id low);
      marked = λ j hj.
          let seen = ledger_get-set v.ledger false t.buf_id j low hj in
          let old = v.marked j hj in
          rw next (
            count-append j before after
            ∙ lost t.buf_id j (count j before) (count j after) _ _ seen
                (sym (count-append j before (t ∷ after)) ∙ old));
    }

Reach-IsTracked : {s u : Pool} → IsTracked s → Reach s u → IsTracked u
Reach-IsTracked v start = v
Reach-IsTracked v (further r st) = Step-IsTracked (Reach-IsTracked v r) st

-- A pool as registration leaves it: no token is out and no bit of the ledger is set.
pub record IsFresh (s : Pool) : Type 0 where
  pub entries : s.ring.entries ≤ 2 ^ 15
  pub none_out : s.tokens ≡ []
  pub clear : s.ring.delivered ≡ replicate 4096 0

zeroes-IsLedger : IsLedger (replicate 4096 0)
zeroes-IsLedger = record {
  bytes = length-replicate {A = ℕ} 4096 0;
  small = λ i. omega (arith, get_or-replicate {A = ℕ} 4096 i 0);
}

zeroes-clear : (id : ℕ) → ledger_get (replicate 4096 0) id ≡ false
unfolding ledger_get
zeroes-clear id =
    rw (get_or-replicate {A = ℕ} 4096 (id / 8) 0) (ground (arith, zero-bit_and (2 ^ (id % 8))))

IsFresh-IsTracked : {s : Pool} → IsFresh s → IsTracked s
IsFresh-IsTracked f = record {
  entries = f.entries;
  ledger = rw f.clear zeroes-IsLedger;
  marked = λ id h. rw (f.none_out, f.clear, zeroes-clear id) refl;
}

-- However a fresh pool is used by acknowledging and recycling, for a buffer below 2 ^ 15 the next
-- acknowledgement has one of three outcomes: out of range, with at most one token of the buffer
-- out; already acknowledged, with exactly one out; or a token, with none out before.
pub one_token :
    (s u : Pool) (id len : ℕ)
    → IsFresh s
    → Reach s u
    → id < 2 ^ 15
    → (((u.ring.entries ≤ id) ⊎ (u.ring.buf_size < len))
        × (count id u.tokens ≤ 1)
        × (acknowledge u.ring id len ≡ (u.ring, err (out_of_range id len))))
      ⊎ ((count id u.tokens ≡ 1)
          × (acknowledge u.ring id len ≡ (u.ring, err (already_acknowledged id))))
      ⊎ ((count id u.tokens ≡ 0)
          × ((acknowledge u.ring id len).1 ≡ ok (record { buf_id = id; len = len })))
unfolding acknowledge
one_token s u id len f r h =
    let v = Reach-IsTracked (IsFresh-IsTracked f) r in let seen = v.marked id h in ground arith
