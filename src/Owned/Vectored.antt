-- ===== src/Owned/Vectored.antt =====
-- src/owned/vectored.rs: reads and writes of several buffers, through an array that names them.
pub mod Reach
use ququmatz.Base.{
  ℕ, ◌+◌, ◌*◌, ◌%◌, ◌^◌, ◌==◌, not, ltb, if◌then◌else◌, Result, ok, err, Option, some, none, List,
  [], ◌∷◌, map, length,
}
use ququmatz.Base.Int.{ℤ, u32_of_i32}
use ququmatz.Types.{IoUringSqe, IoVec}
use ququmatz.Error.{Error, from_failed_cqe}
use ququmatz.Op
use ququmatz.Op.{readv_ptr, writev_ptr}
use ququmatz.Owned.{StableBuffer}
use ququmatz.Owned.Event.{Receipt, belongs_to}
use ququmatz.Owned.Request.{Direction}
use ququmatz.Owned.MsgRegion.{MsgRegion, msg_hdr_align, write_descriptors}
use ququmatz.Owned.MsgRegion.Memory.{Writes, io_vec_bytes}
use ququmatz.Owned.Sendmsg.{clamped}

pub data VectoredError : Type 0 where
  array_too_small : ℕ → ℕ → VectoredError
  array_misaligned : ℕ → VectoredError

pub record PreparedVectored (B V : Type 0) : Type 0 where
  pub bufs : List B
  pub vecs : V
  pub fd : ℤ
  pub offset : ℕ
  pub direction : Direction
  pub array : ℕ

pub record PendingVectored (B V : Type 0) : Type 0 where
  pub bufs : List B
  pub vecs : V
  pub ring : ℕ
  pub id : ℕ
  pub fd : ℤ
  pub offset : ℕ
  pub direction : Direction
  pub array : ℕ

pub record VectoredCompleted (B V : Type 0) : Type 0 where
  pub bufs : List B
  pub vecs : V
  pub result : ℤ
  pub direction : Direction

-- The entry of a direction.
abbrev pub entry : Direction → ℤ → ℕ → ℕ → ℕ → IoUringSqe
entry Direction.read fd array nr offset = readv_ptr fd array nr offset
entry Direction.write fd array nr offset = writev_ptr fd array nr offset

-- The array as a region, of which `write_descriptors` reads the place of its descriptors only.
abbrev pub array_region : {V : Type 0} → V → ℕ → ℕ → MsgRegion V
array_region vecs array n = record {
  storage = vecs;
  hdr = array;
  vecs = array;
  name = array;
  count = n;
}

module _ {B V : Type 0} where
  module _ (bytes : StableBuffer B) where
    -- `write_array`: the loop is that of a message's descriptors.
    unfoldable pub write_array : PreparedVectored B V → Writes → List ℕ → Writes
    unfolding write_descriptors
    write_array p m lens =
        write_descriptors bytes (array_region p.vecs p.array (length p.bufs)) m 0 p.bufs lens

    -- `with_lens` changes the array only.
    unfoldable pub with_lens : PreparedVectored B V → Writes → List ℕ → Writes
    unfolding clamped write_array
    with_lens p m lens = write_array p m (clamped bytes lens p.bufs)

  module _ (bytes : StableBuffer B) (stable : StableBuffer V) where
    unfoldable pub build :
        Writes
        → ℤ
        → List B
        → V
        → ℕ
        → Direction
        → List ℕ
        → Result (PreparedVectored B V × Writes) (List B × V × VectoredError)
    unfolding write_array
    build m fd bufs vecs offset direction lens =
        let needed = io_vec_bytes * length bufs in
        let got = stable.stable_len vecs in
        let base = stable.stable_ptr vecs in
        let prepared : PreparedVectored B V = record {
          bufs = bufs;
          vecs = vecs;
          fd = fd;
          offset = offset;
          direction = direction;
          array = base;
        } in
        if ltb got needed
        then err (bufs, vecs, array_too_small needed got)
        else if not (base % msg_hdr_align == 0)
        then err (bufs, vecs, array_misaligned msg_hdr_align)
        else ok (prepared, write_array bytes prepared m lens)

    -- `readv` and `writev`
    unfoldable pub whole :
        Writes
        → ℤ
        → List B
        → V
        → ℕ
        → Direction
        → Result (PreparedVectored B V × Writes) (List B × V × VectoredError)
    unfolding build
    whole m fd bufs vecs offset direction =
        build m fd bufs vecs offset direction (map (λ b. bytes.stable_len b) bufs)

  unfoldable pub into_pending : PreparedVectored B V → ℕ → ℕ → IoUringSqe × PendingVectored B V
  into_pending p ring id = (
    Op.user_data (entry p.direction p.fd p.array (length p.bufs % 2 ^ 32) p.offset) id,
    record {
      bufs = p.bufs;
      vecs = p.vecs;
      ring = ring;
      id = id;
      fd = p.fd;
      offset = p.offset;
      direction = p.direction;
      array = p.array;
    },
  )

  unfoldable pub redeem :
      PendingVectored B V → Receipt → Result (VectoredCompleted B V) (PendingVectored B V × Receipt)
  redeem p receipt =
      if belongs_to receipt p.ring p.id
      then ok (record {
        bufs = p.bufs;
        vecs = p.vecs;
        result = receipt.result;
        direction = p.direction;
      })
      else err (p, receipt)

  unfoldable pub reclaim_unsubmitted : PendingVectored B V → PreparedVectored B V
  reclaim_unsubmitted p = record {
    bufs = p.bufs;
    vecs = p.vecs;
    fd = p.fd;
    offset = p.offset;
    direction = p.direction;
    array = p.array;
  }

  -- `result`
  unfoldable pub result : VectoredCompleted B V → Result ℕ Error
  result c = elim (from_failed_cqe c.result) [ some e ↦ err e | none ↦ ok (u32_of_i32 c.result) ]
