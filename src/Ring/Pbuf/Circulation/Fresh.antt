-- ===== src/Ring/Pbuf/Circulation/Fresh.antt =====
-- src/ring/pbuf.rs: the buffers of a new pool, from its registration on.
use ququmatz.Base.{
  ℕ, zero, suc, ◌+◌, ◌*◌, ◌-◌, ◌%◌, ◌^◌, ◌≤◌, ◌<◌, ◌≡◌, refl, ap, ◌∙◌, ltb, leb, ◌&&◌,
  if◌then◌else◌, [], length, length-set, replicate, arith,
}
use ququmatz.Ring.Window.{IsMask, window, slot}
use ququmatz.Ring.Pbuf.{ProvidedBufferRing, BufRing, IoUringBuf, recycle_raw, commit, populate}
use ququmatz.Ring.Pbuf.Register.{new_pool}
use ququmatz.Ring.Pbuf.Register.Fill.{no_buf, buffers, new_pool-offered}
use ququmatz.Ring.Pbuf.Circulation.{
  Circuit, Reach, AllWhole, offers, IsCirculating, Reach-IsCirculating,
}

-- A new pool offers each buffer once.
offers-buffers :
    (id base size n i : ℕ)
    → offers id (buffers base size n i) ≡ (if leb i id && ltb id (i + n) then 1 else 0)
offers-buffers id base size zero i = ground arith
offers-buffers id base size (suc n) i =
    let e = offers-buffers id base size n (i + 1) in ground arith

AllWhole-buffers :
    (p : ProvidedBufferRing) (n i : ℕ) → AllWhole p (buffers p.bufs_addr p.buf_size n i)
AllWhole-buffers p zero i = tt
AllWhole-buffers p (suc n) i = ((refl, refl), AllWhole-buffers p n (i + 1))

populate-kept :
    (n i : ℕ) (p : ProvidedBufferRing) (m : BufRing)
    → let (p', m') = populate n i p m in
      (p' ≡ record p { tail_local = p'.tail_local }) × (length m'.bufs ≡ length m.bufs)
unfolding populate recycle_raw
populate-kept zero i p m = (refl, refl)
populate-kept (suc n) i p m =
    let b : IoUringBuf = record {
      addr = p.bufs_addr + i * p.buf_size;
      len = p.buf_size;
      bid = i % 2 ^ 16;
    } in
    let (p1, m1) = recycle_raw p m b.addr b.len b.bid in
    let (same, cells) = populate-kept n (i + 1) p1 m1 in
    (same, cells ∙ length-set m.bufs (slot p.mask p.tail_local) b)

-- A pool of which the fields are known, and all of whose buffers are on offer.
full-IsCirculating :
    {k : ℕ} (n : ℕ) (p : ProvidedBufferRing) (m : BufRing)
    → IsMask k (n - 1)
    → 0 < n
    → n ≤ 2 ^ 15
    → p.mask ≡ n - 1
    → p.entries ≡ n
    → length m.bufs ≡ n
    → p.tail_local ≡ n
    → m.tail ≡ n
    → window no_buf (n - 1) m.bufs 0 n ≡ buffers p.bufs_addr p.buf_size n 0
    → IsCirculating k (record { ring = p; memory = m; head = 0; leases = [] })
full-IsCirculating {k} n p m v pos few mask entries cells tail published offer =
    let offer' : window no_buf p.mask m.bufs 0 n ≡ buffers p.bufs_addr p.buf_size n 0 =
      rw (mask) offer in
    record {
      is_mask = rw (mask) v;
      entries = omega arith;
      few = omega arith;
      cells = omega arith;
      position = omega arith;
      free = n;
      all = omega arith;
      tail = omega arith;
      published = omega arith;
      whole = rw (offer') (AllWhole-buffers p n 0);
      once =
          λ id. rw (offer') (let e = offers-buffers id p.bufs_addr p.buf_size n 0 in ground arith);
    }

-- A new pool of a power of two of buffers, at most 2 ^ 15, keeps each buffer in exactly one place,
-- whatever the kernel takes and the program returns: on the ring, in an entry with the buffer's own
-- bytes, or on lease. The published tail is the local one, and the entries on offer are those
-- between the kernel's position and it.
pub new_pool-IsCirculating :
    {k : ℕ} (bgid n size addr : ℕ) (m : BufRing) (c : Circuit)
    → IsMask k (n - 1)
    → 0 < n
    → n ≤ 2 ^ 15
    → length m.bufs ≡ n
    → let (p, m') = new_pool bgid n size addr m in
      Reach (record { ring = p; memory = m'; head = 0; leases = [] }) c → IsCirculating k c
unfolding new_pool commit
new_pool-IsCirculating {k} bgid n size addr m c v pos few cells r =
    let empty : ProvidedBufferRing = record {
      bgid = bgid;
      mask = n - 1;
      entries = n;
      bufs_addr = addr;
      buf_size = size;
      tail_local = 0;
      delivered = replicate 4096 0;
    } in
    let (p, m') = new_pool bgid n size addr m in
    let (same, kept) = populate-kept n 0 empty m in
    let (offer, published, tail) = new_pool-offered bgid n size addr m v pos few cells in
    let begin : IsCirculating k (record { ring = p; memory = m'; head = 0; leases = [] }) =
      full-IsCirculating n p m' v pos few (ap (λ q. q.mask) same) (ap (λ q. q.entries) same)
        (kept ∙ cells) tail published
        (rw (ap (λ q. q.bufs_addr) same, ap (λ q. q.buf_size) same) offer) in
    Reach-IsCirculating (record { ring = p; memory = m'; head = 0; leases = [] }) c begin r
