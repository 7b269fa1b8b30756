-- ===== src/Ring/Pbuf/Circulation.antt =====
-- src/ring/pbuf.rs: the way of the buffers between the ring and their leases.
pub mod Fresh
use ququmatz.Base.{
  ℕ, zero, suc, ◌+◌, ◌*◌, ◌-◌, ◌%◌, ◌^◌, ◌≤◌, ◌<◌, ◌≡◌, ◌≢◌, refl, ap, sym, subst, ◌∙◌, Bool, ltb,
  leb, ◌==◌, ◌&&◌, if◌then◌else◌, Option, some, none, List, [], ◌∷◌, ◌++◌, length, length-append,
  length-set, replicate, get_or, set, ◌>>=◌, arith,
}
use ququmatz.Base.Word.{add_u32, u32_mod}
use ququmatz.Ring.Window.{IsMask, window, window-set, slot, cap-le}
use ququmatz.Ring.Pbuf.{
  ProvidedBufferRing, BufRing, IoUringBuf, recycle_raw, recycle, commit, recycle_and_commit,
  populate,
}
use ququmatz.Ring.Pbuf.Register.{new_pool}
use ququmatz.Ring.Pbuf.Register.Fill.{no_buf, buffers, new_pool-offered}

-- A pool, the kernel's position in its ring, and the numbers of the buffers that are on lease.
pub record Circuit : Type 0 where
  pub ring : ProvidedBufferRing
  pub memory : BufRing
  pub head : ℕ
  pub leases : List ℕ

-- The first buffer on offer goes on lease.
abbrev pub lease_next : Circuit → Circuit
lease_next c = record c {
  head = add_u32 c.head 1;
  leases = (get_or c.memory.bufs (slot c.ring.mask c.head) no_buf).bid ∷ c.leases;
}

-- The kernel fills the first buffer that the ring offers, which the completion leases; a lease that
-- ends puts its buffer back.
pub data Step : Circuit → Circuit → Type 0 where
  taken : (c : Circuit) → c.head % 2 ^ 16 ≢ c.memory.tail → Step c (lease_next c)
  returned :
      (p p' : ProvidedBufferRing) (m m' : BufRing) (head id : ℕ) (before after : List ℕ)
      → recycle_and_commit p m id ≡ some (p', m')
      → Step
          (record { ring = p; memory = m; head = head; leases = before ++ (id ∷ after) })
          (record { ring = p'; memory = m'; head = head; leases = before ++ after })

pub data Reach (s : Circuit) : Circuit → Type 0 where
  start : Reach s s
  further : {t u : Circuit} → Reach s t → Step t u → Reach s u

abbrev pub count : ℕ → List ℕ → ℕ
count id [] = 0
count id (x ∷ xs) = (if x == id then 1 else 0) + count id xs

abbrev pub offers : ℕ → List IoUringBuf → ℕ
offers id [] = 0
offers id (b ∷ bs) = (if b.bid == id then 1 else 0) + offers id bs

-- Each entry names the bytes of its buffer.
abbrev pub AllWhole : ProvidedBufferRing → List IoUringBuf → Type 0
AllWhole p [] = Unit
AllWhole p (b ∷ bs) =
    ((b.addr ≡ p.bufs_addr + b.bid * p.buf_size) × (b.len ≡ p.buf_size)) × AllWhole p bs

count-append : (id : ℕ) (xs ys : List ℕ) → count id (xs ++ ys) ≡ count id xs + count id ys
count-append id [] ys = omega arith
count-append id (x ∷ xs) ys = omega (arith, count-append id xs ys)

offers-append :
    (id : ℕ) (xs ys : List IoUringBuf) → offers id (xs ++ ys) ≡ offers id xs + offers id ys
offers-append id [] ys = omega arith
offers-append id (x ∷ xs) ys = omega (arith, offers-append id xs ys)

AllWhole-append :
    (p : ProvidedBufferRing) (xs ys : List IoUringBuf)
    → AllWhole p xs
    → AllWhole p ys
    → AllWhole p (xs ++ ys)
AllWhole-append p [] ys a b = b
AllWhole-append p (x ∷ xs) ys (h, a) b = (h, AllWhole-append p xs ys a b)

abbrev pub one_below : ℕ → ℕ → ℕ
one_below id n = if ltb id n then 1 else 0

-- Each buffer is in one place: on the ring, with its own bytes, or on lease.
pub record IsCirculating (k : ℕ) (c : Circuit) : Type 0 where
  pub is_mask : IsMask k c.ring.mask
  pub entries : c.ring.entries ≡ c.ring.mask + 1
  pub few : c.ring.entries ≤ 2 ^ 15
  pub cells : length c.memory.bufs ≡ c.ring.mask + 1
  pub position : c.head < u32_mod
  pub free : ℕ
  pub all : free + length c.leases ≡ c.ring.entries
  pub tail : c.ring.tail_local ≡ add_u32 c.head free
  pub published : c.memory.tail ≡ c.ring.tail_local % 2 ^ 16
  pub whole : AllWhole c.ring (window no_buf c.ring.mask c.memory.bufs c.head free)
  pub once :
      (id : ℕ)
      → offers id (window no_buf c.ring.mask c.memory.bufs c.head free) + count id c.leases
        ≡ one_below id c.ring.entries

taken-IsCirculating :
    {k : ℕ} (c : Circuit) (n : ℕ)
    → (v : IsCirculating k c) → v.free ≡ n
    → c.head % 2 ^ 16 ≢ c.memory.tail
    → IsCirculating k (lease_next c)
taken-IsCirculating c zero v e ne = absurd (ne (omega (arith, v.published, v.tail, v.position)))
taken-IsCirculating {k} c (suc n) v e ne =
    let w = λ (f : ℕ). window no_buf c.ring.mask c.memory.bufs c.head f in
    let whole : AllWhole c.ring (w (suc n)) = subst (λ f. AllWhole c.ring (w f)) e v.whole in
    let once : (id : ℕ) → offers id (w (suc n)) + count id c.leases ≡ one_below id c.ring.entries =
      λ id.
        subst (λ f. offers id (w f) + count id c.leases ≡ one_below id c.ring.entries) e
          (v.once id) in
    record {
      is_mask = v.is_mask;
      entries = v.entries;
      few = v.few;
      cells = v.cells;
      position = omega arith;
      free = n;
      all = omega (arith, v.all);
      tail = omega (arith, v.tail, v.all, v.few, v.position);
      published = v.published;
      whole = whole.1;
      once = λ id. omega (arith, once id);
    }

-- What a buffer that is put back does to the pool and to its memory.
recycle_and_commit-some :
    (p p' : ProvidedBufferRing) (m m' : BufRing) (id : ℕ)
    → recycle_and_commit p m id ≡ some (p', m')
    → let b : IoUringBuf = record {
      addr = p.bufs_addr + id * p.buf_size;
      len = p.buf_size;
      bid = id;
    } in
      let tail = add_u32 p.tail_local 1 in
      (id < p.entries)
      × (p' ≡ record p { tail_local = tail })
      × (m' ≡ record { bufs = set m.bufs (slot p.mask p.tail_local) b; tail = tail % 2 ^ 16 })
unfolding recycle_and_commit recycle recycle_raw commit
recycle_and_commit-some p p' m m' id h = ground arith

AllWhole-tail :
    (p : ProvidedBufferRing) (tail : ℕ) (xs : List IoUringBuf)
    → AllWhole p xs
    → AllWhole (record p { tail_local = tail }) xs
AllWhole-tail p tail [] a = a
AllWhole-tail p tail (x ∷ xs) (h, a) = (h, AllWhole-tail p tail xs a)

-- A buffer on lease is put back behind the others.
returned-IsCirculating :
    {k : ℕ} (p : ProvidedBufferRing) (m : BufRing) (head id : ℕ) (before after : List ℕ)
    → IsCirculating k
        (record { ring = p; memory = m; head = head; leases = before ++ (id ∷ after) })
    → let b : IoUringBuf = record {
      addr = p.bufs_addr + id * p.buf_size;
      len = p.buf_size;
      bid = id;
    } in
      let tail = add_u32 p.tail_local 1 in
      IsCirculating k (record {
        ring = record p { tail_local = tail };
        memory = record { bufs = set m.bufs (slot p.mask p.tail_local) b; tail = tail % 2 ^ 16 };
        head = head;
        leases = before ++ after;
      })
returned-IsCirculating {k} p m head id before after v =
    let b : IoUringBuf = record {
      addr = p.bufs_addr + id * p.buf_size;
      len = p.buf_size;
      bid = id;
    } in
    let tail = add_u32 p.tail_local 1 in
    let n = v.free in
    let old = window no_buf p.mask m.bufs head n in
    let one_more = length-append before (id ∷ after) in
    let rest = length-append before after in
    let grown : window no_buf p.mask (set m.bufs (slot p.mask p.tail_local) b) head (suc n)
        ≡ old ++ (b ∷ []) =
      window-set no_buf p.mask m.bufs b n head p.tail_local v.is_mask v.cells v.position
        (omega (arith, v.all, v.entries, one_more)) v.tail in
    record {
      is_mask = v.is_mask;
      entries = v.entries;
      few = v.few;
      cells = length-set m.bufs (slot p.mask p.tail_local) b ∙ v.cells;
      position = v.position;
      free = suc n;
      all = omega (arith, v.all, one_more, rest);
      tail = omega (arith, v.tail, v.position);
      published = refl;
      whole = subst (AllWhole (record p { tail_local = tail })) (sym grown) (
          AllWhole-tail p tail (old ++ (b ∷ []))
            (AllWhole-append p old (b ∷ []) v.whole ((refl, refl), tt)));
      once = λ x.
          subst (λ ws. offers x ws + count x (before ++ after) ≡ one_below x p.entries) (sym grown)
            (let a = offers-append x old (b ∷ []) in
              let c = count-append x before (id ∷ after) in
              let d = count-append x before after in let e = v.once x in omega arith);
    }

Step-IsCirculating : {k : ℕ} (c d : Circuit) → Step c d → IsCirculating k c → IsCirculating k d
Step-IsCirculating {k} _ _ (taken c ne) v = taken-IsCirculating c v.free v refl ne
Step-IsCirculating {k} _ _ (returned p p' m m' head id before after h) v =
    let (low, ring, memory) = recycle_and_commit-some p p' m m' id h in
    rw (ring, memory) (returned-IsCirculating p m head id before after v)

pub Reach-IsCirculating :
    {k : ℕ} (c d : Circuit) → IsCirculating k c → Reach c d → IsCirculating k d
Reach-IsCirculating c _ v start = v
Reach-IsCirculating c d v (further {t} r s) = Step-IsCirculating t d s (Reach-IsCirculating c t v r)
