-- ===== src/Owned/MsgRegion/Chase.antt =====
-- src/owned/msgregion.rs: how the kernel follows the pointers of a staged message.
use ququmatz.Base.{
  ℕ, zero, suc, ◌+◌, ◌*◌, ◌%◌, ◌==◌, ◌≤◌, ◌<◌, ◌≡◌, ◌≢◌, refl, if◌then◌else◌, Result, ok, err,
  Option, some, none, List, [], ◌∷◌, length, ◌>>=◌, ◌⊎◌, inl, inr, arith,
}
use native.Mathlib.Decide.{dec_lt, ℕ_discrete}
use ququmatz.Types.{IoVec, SockAddrIn, MsgHdr}
use ququmatz.Owned.{StableBuffer}
use ququmatz.Owned.MsgRegion.{
  MsgRegion, MsgRegionError, stage, write_descriptors, bytes_for, name_offset, max_iov,
  msg_hdr_align, region_too_small, region_misaligned, too_many_descriptors,
}
use ququmatz.Owned.MsgRegion.Memory.{
  Writes, Cell, descriptor, load, as_header, as_descriptor, as_address, msg_hdr_bytes, io_vec_bytes,
  sock_addr_bytes, cell_bytes, load_here, load_beside,
}

-- The descriptors from an address on, as many as a header says.
unfoldable pub vectors : Writes → ℕ → ℕ → Option (List IoVec)
vectors m zero a = some []
vectors m (suc n) a =
    let rest = vectors m n (a + io_vec_bytes) in
    do v ← as_descriptor (load m a io_vec_bytes); vs ← rest; some (v ∷ vs)

-- The name of a header that has one.
unfoldable pub peer_name : Writes → MsgHdr → Option (Option SockAddrIn)
peer_name m h =
    if h.msg_namelen == 0 then some none else elim (as_address (load m h.msg_name h.msg_namelen)) [
      | some a ↦ some (some a)
      | none ↦ none
    ]

-- All that is reached from the address of a header.
unfoldable pub message : Writes → ℕ → Option (List IoVec × Option SockAddrIn)
unfolding vectors peer_name
message m a = do
  h ← as_header (load m a msg_hdr_bytes)
  vs ← vectors m h.msg_iovlen h.msg_iov
  name ← peer_name m h
  some (vs, name)

-- What buffers and lengths describe, pair by pair.
unfoldable pub described_by : {B : Type 0} → StableBuffer B → List B → List ℕ → List IoVec
described_by stable [] lens = []
described_by stable (b ∷ bs) [] = []
described_by stable (b ∷ bs) (n ∷ ns) =
    record { base = stable.stable_ptr b; len = n } ∷ described_by stable bs ns

module _ {R B : Type 0} (stable : StableBuffer B) (r : MsgRegion R) where
  -- The descriptors are written to their own bytes only.
  pub load-write_descriptors :
      (m : Writes) (i : ℕ) (bufs : List B) (lens : List ℕ) (a n : ℕ)
      → (a + n ≤ r.vecs + i * io_vec_bytes) ⊎ (r.vecs + (i + length bufs) * io_vec_bytes ≤ a)
      → load (write_descriptors stable r m i bufs lens) a n ≡ load m a n
  unfolding write_descriptors
  load-write_descriptors m i [] lens a n h = refl
  load-write_descriptors m i (b ∷ bs) [] a n h = refl
  load-write_descriptors m i (b ∷ bs) (x ∷ xs) a n h =
      let at = r.vecs + i * io_vec_bytes in
      let v : IoVec = record { base = stable.stable_ptr b; len = x } in
      let outer : (a + n ≤ r.vecs + (i + 1) * io_vec_bytes)
          ⊎ (r.vecs + (i + 1 + length bs) * io_vec_bytes ≤ a) =
        elim h [ inl l ↦ inl (omega arith) | inr g ↦ inr (omega arith) ] in
      let inner : (a + n ≤ at) ⊎ (at + io_vec_bytes ≤ a) = elim h [
        | inl l ↦ inl l
        | inr g ↦ inr (omega arith)
      ] in
      rw (load-write_descriptors ((at, descriptor v) ∷ m) (i + 1) bs xs a n outer)
        (load_beside m at a n (descriptor v) inner)

  pub vectors-write_descriptors :
      (m : Writes) (i : ℕ) (bufs : List B) (lens : List ℕ)
      → length lens ≡ length bufs
      → vectors (write_descriptors stable r m i bufs lens) (length bufs) (r.vecs + i * io_vec_bytes)
        ≡ some (described_by stable bufs lens)
  unfolding vectors write_descriptors described_by
  vectors-write_descriptors m i [] lens e = refl
  vectors-write_descriptors m i (b ∷ bs) [] e = absurd (omega arith)
  vectors-write_descriptors m i (b ∷ bs) (x ∷ xs) e =
      let at = r.vecs + i * io_vec_bytes in
      let v : IoVec = record { base = stable.stable_ptr b; len = x } in
      let m' = (at, descriptor v) ∷ m in
      let step : r.vecs + i * io_vec_bytes + io_vec_bytes ≡ r.vecs + (i + 1) * io_vec_bytes =
        omega arith in
      rw
        (
          load-write_descriptors m' (i + 1) bs xs at io_vec_bytes (inl (omega arith)),
          load_here m at (descriptor v),
          step,
          vectors-write_descriptors m' (i + 1) bs xs (omega arith),
        )
        refl

-- A write beside the descriptors is passed over.
pub vectors_beside :
    (m : Writes) (at : ℕ) (cell : Cell) (n a : ℕ)
    → (a + n * io_vec_bytes ≤ at) ⊎ (at + cell_bytes cell ≤ a)
    → vectors ((at, cell) ∷ m) n a ≡ vectors m n a
unfolding vectors
vectors_beside m at cell zero a h = refl
vectors_beside m at cell (suc n) a h =
    let here : (a + io_vec_bytes ≤ at) ⊎ (at + cell_bytes cell ≤ a) = elim h [
      | inl l ↦ inl (omega arith)
      | inr g ↦ inr g
    ] in
    let next : (a + io_vec_bytes + n * io_vec_bytes ≤ at)
        ⊎ (at + cell_bytes cell ≤ a + io_vec_bytes) =
      elim h [ inl l ↦ inl (omega arith) | inr g ↦ inr (omega arith) ] in
    rw
      (
        load_beside m at a io_vec_bytes cell here,
        vectors_beside m at cell n (a + io_vec_bytes) next,
      )
      refl

-- A region in its storage: three aligned parts, end to end, and all inside.
pub record IsStaged {R : Type 0} (stable : StableBuffer R) (storage : R) (count : ℕ)
    (r : MsgRegion R) : Type 0 where
  pub same : r.storage ≡ storage
  pub start : r.hdr ≡ stable.stable_ptr storage
  pub vecs_next : r.vecs ≡ r.hdr + msg_hdr_bytes
  pub name_next : r.name ≡ r.vecs + count * io_vec_bytes
  pub inside : r.name + sock_addr_bytes ≤ stable.stable_ptr storage + stable.stable_len storage
  pub hdr_aligned : r.hdr % msg_hdr_align ≡ 0
  pub vecs_aligned : r.vecs % msg_hdr_align ≡ 0
  pub name_aligned : r.name % msg_hdr_align ≡ 0
  pub counted : r.count ≡ count
  pub few : count ≤ max_iov

module _ {R : Type 0} (stable : StableBuffer R) where
  -- Why a storage is refused.
  unfoldable pub Refused : R → ℕ → MsgRegionError → Type 0
  Refused s n (too_many_descriptors got max) = (got ≡ n) × (max ≡ max_iov) × (max_iov < n)
  Refused s n (region_too_small needed got) =
      (needed ≡ msg_hdr_bytes + n * io_vec_bytes + sock_addr_bytes)
      × (got ≡ stable.stable_len s)
      × (got < needed)
  Refused s n (region_misaligned needed) =
      (needed ≡ msg_hdr_align) × (stable.stable_ptr s % msg_hdr_align ≢ 0)

  unfoldable pub Staged : R → ℕ → Result (MsgRegion R) (R × MsgRegionError) → Type 0
  Staged s n (ok r) = IsStaged stable s n r
  Staged s n (err (s', e)) = (s' ≡ s) × Refused s n e

  -- Staging a message in a storage either gives a region of at most 1024 descriptors whose header,
  -- descriptors and address lie end to end from the start of the storage, aligned and inside it, or
  -- gives the storage back with the reason: too many descriptors, too few bytes, or a start that is
  -- not aligned.
  pub stage-Staged : (s : R) (n : ℕ) → Staged s n (stage stable s n)
  unfolding Staged Refused stage bytes_for name_offset
  stage-Staged s n =
      let base = stable.stable_ptr s in
      let got = stable.stable_len s in
      let needed = bytes_for n in
      elim (dec_lt max_iov n) [
        | yes many ↦
            let out : stage stable s n ≡ err (s, too_many_descriptors n max_iov) = ground arith in
            rw (out) (refl, (refl, refl, many))
        | no few ↦ elim (dec_lt got needed) [
          | yes small ↦
              let out : stage stable s n ≡ err (s, region_too_small needed got) = ground arith in
              rw (out) (refl, (omega arith, refl, small))
          | no room ↦ elim (ℕ_discrete (base % msg_hdr_align) 0) [
            | yes aligned ↦
                let r : MsgRegion R = record {
                  storage = s;
                  hdr = base;
                  vecs = base + msg_hdr_bytes;
                  name = base + name_offset n;
                  count = n;
                } in
                let out : stage stable s n ≡ ok r = ground arith in
                rw (out) (record {
                  same = refl;
                  start = refl;
                  vecs_next = refl;
                  name_next = omega arith;
                  inside = omega arith;
                  hdr_aligned = aligned;
                  vecs_aligned = omega arith;
                  name_aligned = omega arith;
                  counted = refl;
                  few = omega arith;
                })
            | no off ↦
                let out : stage stable s n ≡ err (s, region_misaligned msg_hdr_align) =
                  ground arith in
                rw (out) (refl, (refl, off))
          ]
        ]
      ]
