-- ===== src/Ring/Pbuf/Register.antt =====
-- src/ring/pbuf.rs: `register_provided_buffers_on`, which maps two regions and registers one.
pub mod Fill
pub mod Leak
pub mod Drop
use ququmatz.Base.{
  ℕ, zero, suc, ◌+◌, ◌*◌, ◌-◌, ◌^◌, ◌<◌, ◌≤◌, ◌≡◌, ◌≢◌, ◌⊎◌, inl, inr, refl, Bool, Bool-cases,
  Result-cases, true, false, not, ◌==◌, ltb, leb, if◌then◌else◌, Result, ok, err, List, [], ◌∷◌,
  replicate, bit_and, Option, arith,
}
use ququmatz.Error.{Error, Errno, SetupError, InvalidArgKind}
use ququmatz.Ring.Resources.{RingResources, Cleanup, retain, release}
use ququmatz.Ring.Pbuf.{ProvidedBufferRing, BufRing, IoUringBuf, populate, commit}

-- `struct IoUringBufReg`
pub record IoUringBufReg : Type 0 where
  pub ring_addr : ℕ
  pub ring_entries : ℕ
  pub bgid : ℕ
  pub flags : ℕ

-- The calls of the kernel that the registration uses; `mmap` always asks for fresh memory here.
pub record Memory (S : Type 0) : Type 0 where
  pub mmap : S → ℕ → S × Result ℕ Errno
  pub munmap : S → ℕ → ℕ → S
  pub register : S → IoUringBufReg → S × Result ℕ Errno
  pub unregister : S → ℕ → S

-- The fields of `ProvidedBufferRing` that only its registration and its `drop` use.
pub record PoolRegions : Type 0 where
  pub ring_addr : ℕ
  pub ring_len : ℕ
  pub bufs_len : ℕ

-- A registered pool: its fields, the memory of its ring, and the share that it has retained.
pub record Registered : Type 0 where
  pub pool : ProvidedBufferRing
  pub memory : BufRing
  pub regions : PoolRegions
  pub resources : RingResources

abbrev pub max_pbuf_ring_entries : ℕ
max_pbuf_ring_entries = 2 ^ 15

-- `size_of::<IoUringBuf>()`
abbrev pub buf_bytes : ℕ
buf_bytes = 16

-- `is_power_of_two` of a number that is not zero.
abbrev pub is_power_of_two : ℕ → Bool
is_power_of_two n = bit_and n (n - 1) == 0

-- `checked_ring_bytes`, on a target whose `usize` has `bits` bits.
unfoldable pub checked_ring_bytes : ℕ → ℕ → ℕ → Result ℕ InvalidArgKind
checked_ring_bytes bits count elem_size =
    if ltb (count * elem_size) (2 ^ bits)
    then ok (count * elem_size)
    else err InvalidArgKind.buffer_ring_size_overflow

abbrev invalid : InvalidArgKind → Error
invalid kind = Error.setup (SetupError.invalid_arg kind)

-- The tests before anything is mapped, and the size of the ring.
unfoldable pub validated : ℕ → ℕ → ℕ → Result ℕ Error
unfolding checked_ring_bytes
validated bits count buf_size =
    if count == 0
    then err (invalid InvalidArgKind.buffer_count_zero)
    else if buf_size == 0
    then err (invalid InvalidArgKind.buffer_size_zero)
    else if not (is_power_of_two count)
    then err (invalid InvalidArgKind.buffer_count_not_power_of_two)
    else if ltb max_pbuf_ring_entries count
    then err (invalid InvalidArgKind.buffer_count_too_large)
    else elim (checked_ring_bytes bits count buf_bytes) [
      | ok bytes ↦ ok bytes
      | err kind ↦ err (invalid kind)
    ]

-- The pool as the registration makes it: its ring holds every buffer, and the tail is published.
unfoldable pub new_pool : ℕ → ℕ → ℕ → ℕ → BufRing → ProvidedBufferRing × BufRing
unfolding populate commit
new_pool bgid count buf_size bufs_addr m =
    let empty : ProvidedBufferRing = record {
      bgid = bgid;
      mask = count - 1;
      entries = count;
      bufs_addr = bufs_addr;
      buf_size = buf_size;
      tail_local = 0;
      delivered = replicate 4096 0;
    } in
    let (p, m') = populate count 0 empty m in (p, commit p m')

module _ {S : Type 0} (os : Memory S) where
  -- From the second region on, behind a ring of `ring_bytes` at `ring_addr`.
  unfoldable pub register_mapped :
      ℕ → RingResources → S → ℕ → ℕ → ℕ → ℕ → ℕ → ℕ → BufRing → S × Result Registered Error
  unfolding new_pool checked_ring_bytes retain
  register_mapped bits resources s ring_addr ring_bytes bgid count buf_size flags m =
      elim (checked_ring_bytes bits count buf_size) [
        | err kind ↦ (os.munmap s ring_addr ring_bytes, err (invalid kind))
        | ok bufs_bytes ↦
            let (s1, second) = os.mmap s bufs_bytes in
            elim second [
              | err e ↦
                  (os.munmap s1 ring_addr ring_bytes, err (Error.setup (SetupError.syscall e)))
              | ok bufs_addr ↦
                  let reg : IoUringBufReg = record {
                    ring_addr = ring_addr;
                    ring_entries = count;
                    bgid = bgid;
                    flags = flags;
                  } in
                  let (s2, done) = os.register s1 reg in
                  elim done [
                    | err e ↦ (
                      os.munmap (os.munmap s2 bufs_addr bufs_bytes) ring_addr ring_bytes,
                      err (Error.setup (SetupError.syscall e)),
                    )
                    | ok ret ↦
                        let (pool, memory) = new_pool bgid count buf_size bufs_addr m in
                        let done : Registered = record {
                          pool = pool;
                          memory = memory;
                          regions = record {
                            ring_addr = ring_addr;
                            ring_len = ring_bytes;
                            bufs_len = bufs_bytes;
                          };
                          resources = retain resources;
                        } in
                        (s2, ok done)
                  ]
            ]
      ]

  -- `register_provided_buffers_on`; `m` is the fresh memory of the ring.
  unfoldable pub register_provided_buffers_on :
      ℕ → RingResources → S → ℕ → ℕ → ℕ → ℕ → BufRing → S × Result Registered Error
  unfolding validated register_mapped
  register_provided_buffers_on bits resources s bgid count buf_size flags m =
      elim (validated bits count buf_size) [
        | err e ↦ (s, err e)
        | ok ring_bytes ↦
            let (s1, first) = os.mmap s ring_bytes in
            elim first [
              | err e ↦ (s1, err (Error.setup (SetupError.syscall e)))
              | ok ring_addr ↦
                  register_mapped bits resources s1 ring_addr ring_bytes bgid count buf_size flags m
            ]
      ]

  -- `Drop for ProvidedBufferRing`
  unfoldable pub drop_pool : S → Registered → S × Option RingResources × List Cleanup
  unfolding release
  drop_pool s r =
      let s1 = os.unregister s r.pool.bgid in
      let s2 = os.munmap s1 r.pool.bufs_addr r.regions.bufs_len in
      let s3 = os.munmap s2 r.regions.ring_addr r.regions.ring_len in
      let (resources, calls) = release r.resources in (s3, resources, calls)
