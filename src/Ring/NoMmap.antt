-- ===== src/Ring/NoMmap.antt =====
-- src/ring/no_mmap.rs: the memory of a ring that the kernel pins instead of allocating.
pub mod Sizes
use ququmatz.Base.{
  ℕ, zero, suc, ◌+◌, ◌-◌, ◌*◌, ◌/◌, ◌%◌, ◌^◌, Bool, not, ◌&&◌, ltb, leb, if◌then◌else◌, Result, ok,
  err, List, [], ◌∷◌,
}
use ququmatz.Base.Word.{u32_max}
use ququmatz.Types.{IoUringParams, contains}
use ququmatz.Types.SetupFlags
use ququmatz.Error.{Error}
use ququmatz.Ring.Resources.{MappedRegion, Cleanup}
use ququmatz.Ring.Resources
use ququmatz.Ring.Kernel.{Kernel, anonymous, perform}

abbrev pub page_size : ℕ
page_size = 4096

abbrev pub ioring_max_entries : ℕ
ioring_max_entries = 32768

abbrev pub ioring_max_cq_entries : ℕ
ioring_max_cq_entries = 2 * ioring_max_entries

abbrev pub rings_header_slack : ℕ
rings_header_slack = 128

-- The sizes of `IoUringCqe`, `u32` and `IoUringSqe`.
abbrev pub cqe_bytes : ℕ
cqe_bytes = 16

abbrev pub u32_bytes : ℕ
u32_bytes = 4

abbrev pub sqe_bytes : ℕ
sqe_bytes = 64

-- The least of `p`, `2 * p`, … that is not below `n`, among as many as the fuel allows.
unfoldable pub double_until : ℕ → ℕ → ℕ → ℕ
double_until zero p n = p
double_until (suc fuel) p n = let rest = double_until fuel (2 * p) n in if leb n p then p else rest

-- `next_power_of_two` on `u32`, which is zero in a release build where the power has no room.
unfoldable pub next_power_of_two : ℕ → ℕ
unfolding double_until
next_power_of_two n = double_until 32 1 n % 2 ^ 32

abbrev pub clamped : Bool → ℕ → ℕ → ℕ
clamped clamp limit n = if ltb limit n && clamp then limit else n

unfoldable pub predict_entries : ℕ → IoUringParams → ℕ × ℕ
unfolding next_power_of_two
predict_entries requested params =
    let clamp = contains params.flags SetupFlags.clamp in
    let sq_entries = next_power_of_two (clamped clamp ioring_max_entries requested) in
    let cqsize = contains params.flags SetupFlags.cqsize in
    let explicit = next_power_of_two (clamped clamp ioring_max_cq_entries params.cq_entries) in
    let doubled = sq_entries * 2 in
    (
      sq_entries,
      (if cqsize && ltb 0 params.cq_entries
          then (if ltb explicit sq_entries then sq_entries else explicit)
          else (if ltb u32_max doubled then u32_max else doubled)),
    )

-- `next_multiple_of` a page
unfoldable pub page_align : ℕ → ℕ
page_align len = (len + (page_size - 1)) / page_size * page_size

unfoldable pub ring_region_size : ℕ → ℕ → Bool → ℕ
unfolding page_align
ring_region_size sq_entries cq_entries has_sq_array =
    let sq_array : ℕ = if has_sq_array then sq_entries * u32_bytes else 0 in
    page_align (rings_header_slack * 2 + cq_entries * cqe_bytes + sq_array) + page_size

unfoldable pub sqes_region_size : ℕ → ℕ
unfolding page_align
sqes_region_size sq_entries = page_align (sq_entries * sqe_bytes)

pub record NoMmapRegions : Type 0 where
  pub ring_region : MappedRegion
  pub sqes_region : MappedRegion

abbrev pub has_sq_array : ℕ → Bool
has_sq_array flags = not (contains flags SetupFlags.no_sqarray)

-- The addresses in the parameters, crosswise as the kernel names them.
abbrev pub described : IoUringParams → ℕ → ℕ → IoUringParams
described params ring sqes = record params {
  cq_off = record (params.cq_off) { user_addr = ring };
  sq_off = record (params.sq_off) { user_addr = sqes };
}

-- `Drop for NoMmapGuard`
unfoldable pub drop_no_mmap_guard : NoMmapRegions → List Cleanup
drop_no_mmap_guard g = Resources.munmap g.sqes_region ∷ Resources.munmap g.ring_region ∷ []

module _ {S : Type 0} (k : Kernel S) where
  unfoldable pub alloc_anon : S → ℕ → S × Result MappedRegion Error
  alloc_anon s len =
      let (s', r) = k.mmap s anonymous len in
      (
        s',
        elim r [ ok addr ↦ ok (record { addr = addr; len = len }) | err e ↦ err (Error.syscall e) ],
      )

  -- `NoMmapGuard::alloc` behind the ring's region.
  unfoldable pub alloc_sqes :
      S → MappedRegion → ℕ → IoUringParams → S × Result (NoMmapRegions × IoUringParams) Error
  unfolding alloc_anon sqes_region_size
  alloc_sqes s ring len params =
      let (s', r) = alloc_anon s len in
      elim r [
        | ok sqes ↦ (
          s',
          ok (
            record { ring_region = ring; sqes_region = sqes },
            described params ring.addr sqes.addr,
          ),
        )
        | err e ↦ (k.munmap s' ring.addr ring.len, err e)
      ]

  -- `NoMmapGuard::alloc`
  unfoldable pub alloc : S → ℕ → IoUringParams → S × Result (NoMmapRegions × IoUringParams) Error
  unfolding alloc_anon predict_entries ring_region_size alloc_sqes sqes_region_size
  alloc s entries params =
      let (sq_entries, cq_entries) = predict_entries entries params in
      let len = ring_region_size sq_entries cq_entries (has_sq_array params.flags) in
      let (s', r) = alloc_anon s len in
      elim r [
        | ok ring ↦ alloc_sqes s' ring (sqes_region_size sq_entries) params
        | err e ↦ (s', err e)
      ]
