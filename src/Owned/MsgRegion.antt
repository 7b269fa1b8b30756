-- ===== src/Owned/MsgRegion.antt =====
-- src/owned/msgregion.rs: the header, the descriptors and the address of a message, in one storage.
pub mod Memory
pub mod Chase
pub mod Published
pub mod Tests
use ququmatz.Base.{
  ℕ, zero, suc, ◌+◌, ◌*◌, ◌%◌, ◌==◌, Bool, true, false, not, ltb, if◌then◌else◌, Result, ok, err,
  Option, List, [], ◌∷◌,
}
use ququmatz.Types.{IoVec, SockAddrIn, MsgHdr, default_hdr}
use ququmatz.Owned.{StableBuffer}
use ququmatz.Owned.MsgRegion.Memory.{
  Writes, header, descriptor, address, load, as_header, as_descriptor, as_address, msg_hdr_bytes,
  io_vec_bytes, sock_addr_bytes,
}

abbrev pub max_iov : ℕ
max_iov = 1024

-- `align_of::<MsgHdr>()`, the alignment of its pointers.
abbrev pub msg_hdr_align : ℕ
msg_hdr_align = 8

pub data MsgRegionError : Type 0 where
  region_too_small : ℕ → ℕ → MsgRegionError
  region_misaligned : ℕ → MsgRegionError
  too_many_descriptors : ℕ → ℕ → MsgRegionError

pub record MsgRegion (R : Type 0) : Type 0 where
  pub storage : R
  pub hdr : ℕ
  pub vecs : ℕ
  pub name : ℕ
  pub count : ℕ

unfoldable pub name_offset : ℕ → ℕ
name_offset count = msg_hdr_bytes + io_vec_bytes * count

unfoldable pub bytes_for : ℕ → ℕ
unfolding name_offset
bytes_for count = name_offset count + sock_addr_bytes

module _ {R : Type 0} where
  unfoldable pub stage : StableBuffer R → R → ℕ → Result (MsgRegion R) (R × MsgRegionError)
  unfolding bytes_for name_offset
  stage stable storage count =
      let needed = bytes_for count in
      let got = stable.stable_len storage in
      let base = stable.stable_ptr storage in
      if ltb max_iov count
      then err (storage, too_many_descriptors count max_iov)
      else if ltb got needed
      then err (storage, region_too_small needed got)
      else if not (base % msg_hdr_align == 0)
      then err (storage, region_misaligned msg_hdr_align)
      else ok (record {
        storage = storage;
        hdr = base;
        vecs = base + msg_hdr_bytes;
        name = base + name_offset count;
        count = count;
      })

  abbrev pub write_descriptor : MsgRegion R → Writes → ℕ → ℕ → ℕ → Writes
  write_descriptor r m index base len =
      (r.vecs + index * io_vec_bytes, descriptor (record { base = base; len = len })) ∷ m

  -- `descriptor`; `none` where the bytes were not written as one.
  abbrev pub descriptor_at : MsgRegion R → Writes → ℕ → Option IoVec
  descriptor_at r m index = as_descriptor (load m (r.vecs + index * io_vec_bytes) io_vec_bytes)

  abbrev pub write_name : MsgRegion R → Writes → SockAddrIn → Writes
  write_name r m addr = (r.name, address addr) ∷ m

  abbrev pub staged_name : MsgRegion R → Writes → Option SockAddrIn
  staged_name r m = as_address (load m r.name sock_addr_bytes)

  unfoldable pub publish_header : MsgRegion R → Writes → Bool → Writes
  publish_header r m named =
      let hdr : MsgHdr =
        if named
        then record default_hdr { msg_name = r.name; msg_namelen = sock_addr_bytes }
        else default_hdr in
      (r.hdr, header (record hdr { msg_iov = r.vecs; msg_iovlen = r.count })) ∷ m

  -- `header`
  abbrev pub header_of : MsgRegion R → Writes → Option MsgHdr
  header_of r m = as_header (load m r.hdr msg_hdr_bytes)

  -- The loop of `write_descriptors` in `sendmsg` and `recvmsg`: from descriptor `i` on.
  unfoldable pub write_descriptors :
      {B : Type 0} → StableBuffer B → MsgRegion R → Writes → ℕ → List B → List ℕ → Writes
  write_descriptors stable r m i [] lens = m
  write_descriptors stable r m i (buf ∷ bufs) [] = m
  write_descriptors stable r m i (buf ∷ bufs) (len ∷ lens) =
      write_descriptors stable r (write_descriptor r m i (stable.stable_ptr buf) len) (i + 1) bufs
        lens
