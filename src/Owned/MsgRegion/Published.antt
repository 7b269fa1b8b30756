-- ===== src/Owned/MsgRegion/Published.antt =====
-- src/owned/msgregion.rs: what is reached from a header once it is published.
use ququmatz.Base.{
  ℕ, ◌+◌, ◌*◌, ◌≤◌, ◌≡◌, refl, sym, subst, true, false, Option, some, none, List, ◌∷◌, length, ◌⊎◌,
  inl, inr, arith,
}
use ququmatz.Types.{IoVec, SockAddrIn, MsgHdr, default_hdr}
use ququmatz.Owned.{StableBuffer}
use ququmatz.Owned.MsgRegion.{MsgRegion, write_descriptors, write_name, publish_header}
use ququmatz.Owned.MsgRegion.Memory.{
  Writes, header, address, load, msg_hdr_bytes, io_vec_bytes, sock_addr_bytes, load_here,
  load_beside,
}
use ququmatz.Owned.MsgRegion.Chase.{
  vectors, peer_name, message, described_by, load-write_descriptors, vectors-write_descriptors,
  vectors_beside, IsStaged,
}

module _ {R : Type 0} where
  -- `publish` of the requests, with the address that is staged for the kernel, if one is.
  abbrev pub publish : MsgRegion R → Writes → Option SockAddrIn → Writes
  publish r m none = publish_header r m false
  publish r m (some a) = publish_header r (write_name r m a) true

  abbrev published : MsgRegion R → Option SockAddrIn → MsgHdr
  published r none = record default_hdr { msg_iov = r.vecs; msg_iovlen = r.count }
  published r (some a) = record default_hdr {
    msg_name = r.name;
    msg_namelen = sock_addr_bytes;
    msg_iov = r.vecs;
    msg_iovlen = r.count;
  }

  -- The header and the address stand where they are looked for.
  record IsPublished (m : Writes) (r : MsgRegion R) (name : Option SockAddrIn) : Type 0 where
    head : load m r.hdr msg_hdr_bytes ≡ some (header (published r name))
    addr : peer_name m (published r name) ≡ some name

  publish-IsPublished :
      (stable : StableBuffer R) (s : R) (n : ℕ) (m : Writes) (r : MsgRegion R)
      (name : Option SockAddrIn)
      → IsStaged stable s n r
      → IsPublished (publish r m name) r name
  unfolding publish_header peer_name
  publish-IsPublished stable s n m r none st = record {
    head = load_here m r.hdr (header (published r none));
    addr = refl;
  }
  publish-IsPublished stable s n m r (some a) st =
      let h = header (published r (some a)) in
      let m' = (r.name, address a) ∷ m in
      let beside : (r.name + sock_addr_bytes ≤ r.hdr) ⊎ (r.hdr + msg_hdr_bytes ≤ r.name) =
        inr (omega (arith, st.vecs_next, st.name_next)) in
      record {
        head = load_here m' r.hdr h;
        addr =
            rw
              (load_beside m' r.hdr r.name sock_addr_bytes h beside, load_here m r.name (address a))
              refl;
      }

  vectors-publish :
      (stable : StableBuffer R) (s : R) (n : ℕ) (m : Writes) (r : MsgRegion R)
      (name : Option SockAddrIn)
      → IsStaged stable s n r
      → vectors (publish r m name) n r.vecs ≡ vectors m n r.vecs
  unfolding publish_header
  vectors-publish stable s n m r none st =
      vectors_beside m r.hdr (header (published r none)) n r.vecs
        (inr (omega (arith, st.vecs_next)))
  vectors-publish stable s n m r (some a) st =
      let outer =
        vectors_beside ((r.name, address a) ∷ m) r.hdr (header (published r (some a))) n r.vecs
          (inr (omega (arith, st.vecs_next))) in
      rw (outer) (vectors_beside m r.name (address a) n r.vecs (inl (omega (arith, st.name_next))))

  message-IsPublished :
      (m : Writes) (r : MsgRegion R) (name : Option SockAddrIn) (vs : List IoVec) (n : ℕ)
      → IsPublished m r name
      → r.count ≡ n
      → vectors m n r.vecs ≡ some vs
      → message m r.hdr ≡ some (vs, name)
  unfolding message
  message-IsPublished m r none vs n p f e =
      let e' : vectors m r.count r.vecs ≡ some vs =
        subst (λ c. vectors m c r.vecs ≡ some vs) (sym f) e in
      rw (p.head, e') refl
  message-IsPublished m r (some a) vs n p f e =
      let e' : vectors m r.count r.vecs ≡ some vs =
        subst (λ c. vectors m c r.vecs ≡ some vs) (sym f) e in
      rw (p.head, e', p.addr) refl

  module _ {B : Type 0} (stable : StableBuffer R) (bytes : StableBuffer B) where
    -- Descriptors that are written again leave the rest.
    rewrite-IsPublished :
        (s : R) (m : Writes) (r : MsgRegion R) (name : Option SockAddrIn) (bufs : List B)
        (lens : List ℕ)
        → IsStaged stable s (length bufs) r
        → IsPublished m r name
        → IsPublished (write_descriptors bytes r m 0 bufs lens) r name
    unfolding peer_name
    rewrite-IsPublished s m r none bufs lens st p = record {
      head =
          rw
            (load-write_descriptors bytes r m 0 bufs lens r.hdr msg_hdr_bytes
              (inl (omega (arith, st.vecs_next))))
            (p.head);
      addr = refl;
    }
    rewrite-IsPublished s m r (some a) bufs lens st p = record {
      head =
          rw
            (load-write_descriptors bytes r m 0 bufs lens r.hdr msg_hdr_bytes
              (inl (omega (arith, st.vecs_next))))
            (p.head);
      addr =
          rw
            (load-write_descriptors bytes r m 0 bufs lens r.name sock_addr_bytes
              (inr (omega (arith, st.name_next))))
            (p.addr);
    }

    vectors_written :
        (m : Writes) (r : MsgRegion R) (bufs : List B) (lens : List ℕ)
        → length lens ≡ length bufs
        → vectors (write_descriptors bytes r m 0 bufs lens) (length bufs) r.vecs
          ≡ some (described_by bytes bufs lens)
    vectors_written m r bufs lens e =
        let first : r.vecs + 0 * io_vec_bytes ≡ r.vecs = omega arith in
        subst
          (λ a.
            vectors (write_descriptors bytes r m 0 bufs lens) (length bufs) a
            ≡ some (described_by bytes bufs lens))
          first (vectors-write_descriptors bytes r m 0 bufs lens e)

    pub message-publish :
        (s : R) (m : Writes) (r : MsgRegion R) (name : Option SockAddrIn) (bufs : List B)
        (lens : List ℕ)
        → IsStaged stable s (length bufs) r
        → length lens ≡ length bufs
        → message (publish r (write_descriptors bytes r m 0 bufs lens) name) r.hdr
          ≡ some (described_by bytes bufs lens, name)
    message-publish s m r name bufs lens st e =
        let m' = write_descriptors bytes r m 0 bufs lens in
        let vs = vectors_written m r bufs lens e in
        let kept = vectors-publish stable s (length bufs) m' r name st in
        message-IsPublished (publish r m' name) r name (described_by bytes bufs lens) (length bufs)
          (publish-IsPublished stable s (length bufs) m' r name st) st.counted (rw (kept) vs)

    pub message-rewrite :
        (s : R) (m : Writes) (r : MsgRegion R) (name : Option SockAddrIn) (bufs : List B)
        (lens : List ℕ)
        → IsStaged stable s (length bufs) r
        → length lens ≡ length bufs
        → message (write_descriptors bytes r (publish r m name) 0 bufs lens) r.hdr
          ≡ some (described_by bytes bufs lens, name)
    message-rewrite s m r name bufs lens st e =
        let m' = publish r m name in
        let vs = vectors_written m' r bufs lens e in
        message-IsPublished (write_descriptors bytes r m' 0 bufs lens) r name
          (described_by bytes bufs lens) (length bufs)
          (rewrite-IsPublished s m' r name bufs lens st
            (publish-IsPublished stable s (length bufs) m r name st))
          st.counted vs
