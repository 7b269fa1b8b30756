-- ===== src/Owned/Vectored/Reach.antt =====
-- src/owned/vectored.rs: what the kernel reaches from the entry of a vectored request.
use mathlib.Core.List.{map}
use ququmatz.Base.{
  ℕ, ◌+◌, ◌*◌, ◌%◌, ◌^◌, ◌≤◌, ◌<◌, ◌≡◌, refl, ◌∙◌, ap, ok, some, List, [], ◌∷◌, ◌⊎◌, length, arith,
}
use ququmatz.Base.Int.{ℤ}
use ququmatz.Owned.{StableBuffer}
use ququmatz.Owned.Request.{Direction}
use ququmatz.Owned.MsgRegion.{write_descriptors, msg_hdr_align}
use ququmatz.Owned.MsgRegion.Memory.{Writes, io_vec_bytes}
use ququmatz.Owned.MsgRegion.Chase.{vectors, described_by, vectors-write_descriptors}
use ququmatz.Owned.Sendmsg.{clamped}
use ququmatz.Owned.Sendmsg.Reach.{length-map, length-clamped}
use ququmatz.Owned.Vectored.{
  PreparedVectored, array_region, write_array, build, whole, with_lens, into_pending, entry,
}

-- Each length is the one that is asked for if the buffer has as much, and the buffer's own if not.
abbrev pub IsCut : List ℕ → List ℕ → List ℕ → Type 0
IsCut [] [] [] = Unit
IsCut (want ∷ wants) (own ∷ owns) (n ∷ ns) =
    (((want ≤ own) × (n ≡ want)) ⊎ ((own < want) × (n ≡ own))) × IsCut wants owns ns
IsCut _ _ _ = ⊥

clamped-IsCut :
    {B : Type 0} (bytes : StableBuffer B) (lens : List ℕ) (bufs : List B)
    → length lens ≡ length bufs
    → IsCut lens (map (λ b. bytes.stable_len b) bufs) (clamped bytes lens bufs)
unfolding clamped
clamped-IsCut bytes [] [] e = tt
clamped-IsCut bytes [] (b ∷ bs) e = absurd (omega arith)
clamped-IsCut bytes (n ∷ ns) [] e = absurd (omega arith)
clamped-IsCut bytes (n ∷ ns) (b ∷ bs) e = (omega arith, clamped-IsCut bytes ns bs (omega arith))

module _ {B V : Type 0} (bytes : StableBuffer B) (stable : StableBuffer V) where
  -- What `build` has checked and written when it succeeds.
  build_ok :
      (m m' : Writes) (fd : ℤ) (bufs : List B) (vecs : V) (offset : ℕ) (d : Direction)
      (lens : List ℕ) (p : PreparedVectored B V)
      → build bytes stable m fd bufs vecs offset d lens ≡ ok (p, m')
      → (io_vec_bytes * length bufs ≤ stable.stable_len vecs)
        × (stable.stable_ptr vecs % msg_hdr_align ≡ 0)
        × (record {
          bufs = bufs;
          vecs = vecs;
          fd = fd;
          offset = offset;
          direction = d;
          array = stable.stable_ptr vecs;
        }
            ≡ p)
        × (write_array bytes p m lens ≡ m')
  unfolding build
  build_ok m m' fd bufs vecs offset d lens p e = ground arith

  -- The array that is written describes the buffers, over whatever was there.
  vectors-write_array :
      (p : PreparedVectored B V) (m : Writes) (lens : List ℕ)
      → length lens ≡ length p.bufs
      → vectors (write_array bytes p m lens) (length p.bufs) p.array
        ≡ some (described_by bytes p.bufs lens)
  unfolding write_array
  vectors-write_array p m lens e =
      let r = array_region p.vecs p.array (length p.bufs) in
      let start : p.array ≡ p.array + 0 * io_vec_bytes = omega arith in
      ap (vectors (write_descriptors bytes r m 0 p.bufs lens) (length p.bufs)) start
      ∙ vectors-write_descriptors bytes r m 0 p.bufs lens e

  -- The place and the number that an entry carries, in either direction.
  entry_addr :
      (d : Direction) (fd : ℤ) (a n off : ℕ)
      → ((entry d fd a n off).addr ≡ a) × ((entry d fd a n off).len ≡ n)
  entry_addr Direction.read fd a n off = (refl, refl)
  entry_addr Direction.write fd a n off = (refl, refl)

  -- When a vectored request of fewer than 2 ^ 32 buffers is prepared, the kernel that reads as many
  -- descriptors as its entry says from the address in it finds each buffer in order with its whole
  -- length; after new lengths are given, one for each buffer, it finds these, each as it is if the
  -- buffer has as much, and the buffer's own if not; the address is that of the array's storage,
  -- aligned, and the descriptors lie in it.
  pub vectors-whole :
      (m m' : Writes) (fd : ℤ) (bufs : List B) (vecs : V) (offset : ℕ) (d : Direction) (ring id : ℕ)
      (p : PreparedVectored B V) (lens : List ℕ)
      → whole bytes stable m fd bufs vecs offset d ≡ ok (p, m')
      → length bufs < 2 ^ 32
      → length lens ≡ length bufs
      → let sqe = (into_pending p ring id).0 in
        (vectors m' sqe.len sqe.addr
          ≡ some (described_by bytes bufs (map (λ b. bytes.stable_len b) bufs)))
        × ((cut : List ℕ) × (vectors (with_lens bytes p m' lens) sqe.len sqe.addr
              ≡ some (described_by bytes bufs cut))
            × IsCut lens (map (λ b. bytes.stable_len b) bufs) cut)
        × (sqe.addr % msg_hdr_align ≡ 0)
        × (sqe.addr ≡ stable.stable_ptr vecs)
        × (io_vec_bytes * sqe.len ≤ stable.stable_len vecs)
  unfolding whole with_lens into_pending
  vectors-whole m m' fd bufs vecs offset d ring id p lens e small n =
      let all_lens = map (λ b. bytes.stable_len b) bufs in
      let (room, aligned, same, written) = build_ok m m' fd bufs vecs offset d all_lens p e in
      let base = stable.stable_ptr vecs in
      let q : PreparedVectored B V = record {
        bufs = bufs;
        vecs = vecs;
        fd = fd;
        offset = offset;
        direction = d;
        array = base;
      } in
      let nr : length bufs % 2 ^ 32 ≡ length bufs = omega arith in
      let (at, many) = entry_addr d fd base (length bufs) offset in
      rw (← written, ← same, nr, at, many)
        (
          vectors-write_array q m all_lens (length-map (λ b. bytes.stable_len b) bufs),
          (
            clamped bytes lens bufs,
            vectors-write_array q (write_array bytes q m all_lens) (clamped bytes lens bufs)
                (length-clamped bytes lens bufs n),
            clamped-IsCut bytes lens bufs n,
          ),
          aligned,
          refl,
          room,
        )
