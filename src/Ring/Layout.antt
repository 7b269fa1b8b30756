-- ===== src/Ring/Layout.antt =====
-- src/ring/layout.rs: the sizes of a ring's mappings, and the pointers into them.
pub mod Array
pub mod Bounds
use ququmatz.Base.{ℕ, zero, suc, ◌+◌, ◌*◌, ◌^◌, Bool, ltb, if◌then◌else◌, Result, ok, err, bit_and}
use ququmatz.Types.{IoUringParams, contains}
use ququmatz.Error.{Error}
use ququmatz.Ring.Resources.{MappedRegion, SetupGuard, no_region}
use ququmatz.Ring.Kernel.{Kernel, ring_file}
use ququmatz.Ring.NoMmap.{cqe_bytes, u32_bytes, sqe_bytes, has_sq_array}

unfoldable pub ring_bytes : ℕ → ℕ → ℕ → ℕ
ring_bytes offset count elem_size = offset + count * elem_size

-- `RingOffset`
abbrev pub offset_sq_ring : ℕ
offset_sq_ring = 0

abbrev pub offset_cq_ring : ℕ
offset_cq_ring = 0x08000000

abbrev pub offset_sqes : ℕ
offset_sqes = 0x10000000

-- `Features::SINGLE_MMAP`
abbrev pub feature_single_mmap : ℕ
feature_single_mmap = 2 ^ 0

-- What `map_rings` returns.
pub record MappedRings : Type 0 where
  pub sq_ring_ptr : ℕ
  pub mmap_sz : ℕ
  pub cq_ring_ptr : ℕ
  pub cq_ring_region : MappedRegion
  pub sqes_ptr : ℕ
  pub sqes_sz : ℕ

unfoldable pub sq_ring_size : IoUringParams → ℕ → ℕ
unfolding ring_bytes
sq_ring_size params setup_flags =
    ring_bytes params.sq_off.array (if has_sq_array setup_flags then params.sq_entries else 0)
      u32_bytes

unfoldable pub cq_ring_size : IoUringParams → ℕ
unfolding ring_bytes
cq_ring_size params = ring_bytes params.cq_off.cqes params.cq_entries cqe_bytes

unfoldable pub sqes_size : IoUringParams → ℕ
unfolding ring_bytes
sqes_size params = ring_bytes 0 params.sq_entries sqe_bytes

-- `mmap_sz`: one mapping for both rings has the greater size.
unfoldable pub mmap_size : IoUringParams → ℕ → ℕ → ℕ
unfolding sq_ring_size cq_ring_size
mmap_size params features setup_flags =
    let sq = sq_ring_size params setup_flags in
    let cq = cq_ring_size params in
    if contains features feature_single_mmap then (if ltb sq cq then cq else sq) else sq

-- What `parse_sq` and `parse_cq` return.
pub record SqParts : Type 0 where
  pub sq_head : ℕ
  pub sq_tail : ℕ
  pub sq_mask : ℕ
  pub sq_flags : ℕ
  pub sqes : ℕ
  pub sq_tail_local : ℕ

pub record CqParts : Type 0 where
  pub cq_head : ℕ
  pub cq_tail : ℕ
  pub cq_mask : ℕ
  pub cqes : ℕ
  pub cq_head_local : ℕ

module _ {S : Type 0} (k : Kernel S) where
  -- `map_rings` behind both rings.
  unfoldable pub map_sqes :
      S
      → ℕ
      → IoUringParams
      → SetupGuard
      → MappedRegion
      → ℕ
      → MappedRegion
      → S × SetupGuard × Result MappedRings Error
  unfolding sqes_size
  map_sqes s fd params guard sq_ring cq_ring_ptr cq_ring_region =
      let n = sqes_size params in
      let (s', r) = k.mmap s (ring_file fd offset_sqes) n in
      elim r [
        | err e ↦ (s', guard, err (Error.syscall e))
        | ok ptr ↦ (
          s',
          record guard { sqes = record { addr = ptr; len = n } },
          ok (record {
            sq_ring_ptr = sq_ring.addr;
            mmap_sz = sq_ring.len;
            cq_ring_ptr = cq_ring_ptr;
            cq_ring_region = cq_ring_region;
            sqes_ptr = ptr;
            sqes_sz = n;
          }),
        )
      ]

  -- `map_rings` behind the submission ring, where the completion ring is a mapping of its own.
  unfoldable pub map_cq :
      S → ℕ → IoUringParams → SetupGuard → MappedRegion → S × SetupGuard × Result MappedRings Error
  unfolding cq_ring_size map_sqes
  map_cq s fd params guard sq_ring =
      let n = cq_ring_size params in
      let (s', r) = k.mmap s (ring_file fd offset_cq_ring) n in
      elim r [
        | err e ↦ (s', guard, err (Error.syscall e))
        | ok ptr ↦
            let region : MappedRegion = record { addr = ptr; len = n } in
            map_sqes s' fd params (record guard { cq_ring = region }) sq_ring ptr region
      ]

  unfoldable pub map_rings :
      S → ℕ → IoUringParams → ℕ → ℕ → SetupGuard → S × SetupGuard × Result MappedRings Error
  unfolding mmap_size map_cq map_sqes
  map_rings s fd params features setup_flags guard =
      let n = mmap_size params features setup_flags in
      let (s', r) = k.mmap s (ring_file fd offset_sq_ring) n in
      elim r [
        | err e ↦ (s', guard, err (Error.syscall e))
        | ok ptr ↦
            let region : MappedRegion = record { addr = ptr; len = n } in
            let guard' = record guard { sq_ring = region } in
            if contains features feature_single_mmap
            then map_sqes s' fd params guard' region ptr no_region
            else map_cq s' fd params guard' region
      ]

  -- The loop of `parse_sq`: `sq_array[i] = i`, for `n` indices from `i` on.
  unfoldable pub fill_sq_array : S → ℕ → ℕ → ℕ → S
  fill_sq_array s base zero i = s
  fill_sq_array s base (suc n) i = fill_sq_array (k.store s (base + i * u32_bytes) i) base n (i + 1)

  unfoldable pub parse_sq : S → ℕ → ℕ → IoUringParams → Bool → S × SqParts
  unfolding fill_sq_array
  parse_sq s base sqes params with_array =
      let off = params.sq_off in
      let s' = if with_array then fill_sq_array s (base + off.array) params.sq_entries 0 else s in
      (
        s',
        record {
          sq_head = base + off.head;
          sq_tail = base + off.tail;
          sq_mask = k.load s (base + off.ring_mask);
          sq_flags = base + off.flags;
          sqes = sqes;
          sq_tail_local = k.load s' (base + off.tail);
        },
      )

  unfoldable pub parse_cq : S → ℕ → IoUringParams → CqParts
  parse_cq s base params =
      let off = params.cq_off in
      record {
        cq_head = base + off.head;
        cq_tail = base + off.tail;
        cq_mask = k.load s (base + off.ring_mask);
        cqes = base + off.cqes;
        cq_head_local = k.load s (base + off.head);
      }
