-- ===== src/Ring/Pbuf/Register/Fill.antt =====
-- src/ring/pbuf.rs: what the loop of the registration puts into the ring.
use mathlib.Core.List.{append_assoc, append-nil}
use ququmatz.Base.{
  ℕ, zero, suc, ◌+◌, ◌*◌, ◌-◌, ◌%◌, ◌^◌, ◌≤◌, ◌<◌, ◌≡◌, ◌∙◌, ap, refl, sym, List, [], ◌∷◌, ◌++◌,
  length, length-set, replicate, arith,
}
use ququmatz.Ring.Window.{IsMask, window, window-set, slot, cap-le}
use ququmatz.Ring.Pbuf.{ProvidedBufferRing, BufRing, IoUringBuf, populate, recycle_raw, commit}
use ququmatz.Ring.Pbuf.Register.{new_pool}

abbrev pub no_buf : IoUringBuf
no_buf = record { addr = 0; len = 0; bid = 0 }

-- The buffers of a region, `n` of them from number `i` on.
abbrev pub buffers : ℕ → ℕ → ℕ → ℕ → List IoUringBuf
buffers base size zero i = []
buffers base size (suc n) i =
    record { addr = base + i * size; len = size; bid = i } ∷ buffers base size n (i + 1)

-- What the kernel finds in the first `n` entries.
abbrev pub offered : ProvidedBufferRing → BufRing → ℕ → List IoUringBuf
offered p m n = window no_buf p.mask m.bufs 0 n

recycle_raw-offered :
    {k : ℕ} (i : ℕ) (p : ProvidedBufferRing) (m : BufRing) (b : IoUringBuf)
    → IsMask k p.mask
    → length m.bufs ≡ p.mask + 1
    → p.tail_local ≡ i
    → i < p.mask + 1
    → let (p', m') = recycle_raw p m b.addr b.len b.bid in
      (offered p' m' (i + 1) ≡ offered p m i ++ (b ∷ []))
      × (length m'.bufs ≡ p.mask + 1)
      × (p'.tail_local ≡ i + 1)
unfolding recycle_raw
recycle_raw-offered i p m b v cells at h =
    let e : i + 1 ≡ suc i = omega arith in
    (
      rw e (
          window-set no_buf p.mask m.bufs b i 0 p.tail_local v cells (omega arith) h
            (omega (arith, cap-le v))),
      length-set m.bufs (slot p.mask p.tail_local) b ∙ cells,
      omega (arith, cap-le v),
    )

populate-offered :
    {k : ℕ} (n i : ℕ) (p : ProvidedBufferRing) (m : BufRing)
    → IsMask k p.mask
    → length m.bufs ≡ p.mask + 1
    → p.tail_local ≡ i
    → i + n ≤ p.mask + 1
    → p.mask < 2 ^ 15
    → let (p', m') = populate n i p m in
      (window no_buf p.mask m'.bufs 0 (i + n) ≡ offered p m i ++ buffers p.bufs_addr p.buf_size n i)
      × (p'.tail_local ≡ i + n)
unfolding populate recycle_raw
populate-offered zero i p m v cells at h small =
    let e : i + 0 ≡ i = omega arith in (rw e (sym (append-nil (offered p m i))), omega arith)
populate-offered (suc n) i p m v cells at h small =
    let b : IoUringBuf = record {
      addr = p.bufs_addr + i * p.buf_size;
      len = p.buf_size;
      bid = i;
    } in
    let (step, cells', at') = recycle_raw-offered i p m b v cells at (omega arith) in
    let next = recycle_raw p m b.addr b.len b.bid in
    let (rest, tail) = populate-offered n (i + 1) next.0 next.1 v cells' at' (omega arith) small in
    let whole : i % 2 ^ 16 ≡ i = omega arith in
    let e : i + suc n ≡ i + 1 + n = omega arith in
    let last = buffers p.bufs_addr p.buf_size n (i + 1) in
    (
      rw (e, whole, populate)
          (rest ∙ ap (λ l. l ++ last) step ∙ append_assoc (offered p m i) (b ∷ []) last),
      rw (e, whole, populate) tail,
    )

-- For a power of two of buffers, at most 2 ^ 15, and ring memory of as many entries, a new pool's
-- ring offers every buffer once, in order, each at its offset and with its number, and the
-- published tail and the local one are their number.
pub new_pool-offered :
    {k : ℕ} (bgid count buf_size bufs_addr : ℕ) (m : BufRing)
    → IsMask k (count - 1)
    → 0 < count
    → count ≤ 2 ^ 15
    → length m.bufs ≡ count
    → let (p, m') = new_pool bgid count buf_size bufs_addr m in
      (window no_buf (count - 1) m'.bufs 0 count ≡ buffers bufs_addr buf_size count 0)
      × (m'.tail ≡ count)
      × (p.tail_local ≡ count)
unfolding new_pool commit
new_pool-offered bgid count buf_size bufs_addr m v pos top cells =
    let empty : ProvidedBufferRing = record {
      bgid = bgid;
      mask = count - 1;
      entries = count;
      bufs_addr = bufs_addr;
      buf_size = buf_size;
      tail_local = 0;
      delivered = replicate 4096 0;
    } in
    let (all, tail) =
      populate-offered count 0 empty m v (omega (arith, cells)) refl (omega arith) (omega arith) in
    let e : 0 + count ≡ count = omega arith in
    (rw e at all, omega (arith, tail), omega (arith, tail))
