-- ===== src/Ring/Setup.antt =====
-- src/ring/mod.rs: `IoUring::from_params`, from parameters to a ring, with its clean-up on the way.
pub mod Stages
pub mod Owned
pub mod Machine
pub mod Tests
use ququmatz.Base.{
  ℕ, ◌+◌, ◌-◌, ◌==◌, Bool, not, if◌then◌else◌, Result, ok, err, Option, some, none, bit_and, bit_or,
}
use ququmatz.Base.Word.{u32_max}
use ququmatz.Types.{IoUringParams, contains}
use ququmatz.Types.SetupFlags
use ququmatz.Error.{Error, SetupError, InvalidArgKind}
use ququmatz.Ring.Resources.{
  MappedRegion, SetupGuard, RingResources, no_region, new_guard, drop_guard,
}
use ququmatz.Ring.Kernel.{Kernel, anonymous, perform}
use ququmatz.Ring.NoMmap.{NoMmapRegions, drop_no_mmap_guard, alloc, has_sq_array, page_size}
use ququmatz.Ring.Layout.{MappedRings, SqParts, CqParts, map_rings, parse_sq, parse_cq}
use ququmatz.Ring.IoUring.{IoUring}
use ququmatz.Ring.Ops.{do_tag_marker}

-- `SetupFlags::SUPPORTED_MASK`
abbrev pub supported_mask : ℕ
supported_mask = bit_or SetupFlags.iopoll (
    bit_or SetupFlags.sqpoll (
      bit_or SetupFlags.sq_aff (
        bit_or SetupFlags.cqsize (
          bit_or SetupFlags.clamp (
            bit_or SetupFlags.attach_wq (
              bit_or SetupFlags.r_disabled (
                bit_or SetupFlags.submit_all (
                  bit_or SetupFlags.coop_taskrun (
                    bit_or SetupFlags.taskrun_flag (
                      bit_or SetupFlags.single_issuer (
                        bit_or SetupFlags.defer_taskrun
                          (bit_or SetupFlags.no_mmap SetupFlags.no_sqarray))))))))))))

-- The flags outside the mask; the complement of a `u32` is its difference from the greatest.
unfoldable pub unsupported : ℕ → ℕ
unsupported flags = bit_and flags (u32_max - supported_mask)

-- The ring, its shared resources, and the addresses that the fields of `IoUring` point at.
pub record NewRing : Type 0 where
  pub ring : IoUring
  pub resources : RingResources
  pub sq_parts : SqParts
  pub cq_parts : CqParts

module _ {S : Type 0} (k : Kernel S) where
  -- `RingResources::alloc`: the page that holds the resources.
  unfoldable pub alloc_resources :
      S → ℕ → MappedRegion → MappedRegion → MappedRegion → S × Result RingResources Error
  alloc_resources s fd sq_ring cq_ring sqes_region =
      let (s', r) = k.mmap s anonymous page_size in
      (
        s',
        elim r [
          | err e ↦ err (Error.syscall e)
          | ok addr ↦ ok (record {
            refcount = 1;
            fd = fd;
            sq_ring = sq_ring;
            cq_ring = cq_ring;
            sqes_region = sqes_region;
            self_page = record { addr = addr; len = page_size };
          })
        ],
      )

  -- From the mapped rings on; a failure drops the guard.
  unfoldable pub finish :
      S → ℕ → IoUringParams → ℕ → SetupGuard → MappedRings → S × Result NewRing Error
  unfolding parse_sq parse_cq alloc_resources drop_guard perform
  finish s fd params setup_flags guard m =
      let (s1, sq) = parse_sq k s m.sq_ring_ptr m.sqes_ptr params (has_sq_array setup_flags) in
      let cq = parse_cq k s1 m.cq_ring_ptr params in
      let (s2, r) =
        alloc_resources s1 fd (record { addr = m.sq_ring_ptr; len = m.mmap_sz }) m.cq_ring_region
          (record { addr = m.sqes_ptr; len = m.sqes_sz }) in
      elim r [
        | err e ↦ (perform k s2 (drop_guard guard), err e)
        | ok resources ↦ (
          s2,
          ok (record {
            ring = record {
              fd = fd;
              sq = record {
                sq_mask = sq.sq_mask;
                sq_tail_local = sq.sq_tail_local;
                sq_submitted = sq.sq_tail_local;
              };
              cq = record { cq_mask = cq.cq_mask; cq_head_local = cq.cq_head_local };
              features = params.features;
              setup_flags = setup_flags;
              do_tag_next = do_tag_marker;
            };
            resources = resources;
            sq_parts = sq;
            cq_parts = cq;
          }),
        )
      ]

  -- With memory of the program's own, which the kernel has pinned: the guard takes it over.
  unfoldable pub finish_pinned :
      S → ℕ → IoUringParams → ℕ → NoMmapRegions → S × Result NewRing Error
  unfolding finish new_guard
  finish_pinned s fd params setup_flags regions =
      let ring = regions.ring_region in
      let sqes = regions.sqes_region in
      let guard : SetupGuard = record (new_guard fd) { sq_ring = ring; sqes = sqes } in
      finish s fd params setup_flags guard (record {
        sq_ring_ptr = ring.addr;
        mmap_sz = ring.len;
        cq_ring_ptr = ring.addr;
        cq_ring_region = no_region;
        sqes_ptr = sqes.addr;
        sqes_sz = sqes.len;
      })

  -- With memory of the kernel's.
  unfoldable pub finish_mapped : S → ℕ → IoUringParams → ℕ → S × Result NewRing Error
  unfolding map_rings new_guard finish drop_guard perform
  finish_mapped s fd params setup_flags =
      let (s1, guard, r) = map_rings k s fd params params.features setup_flags (new_guard fd) in
      elim r [
        | err e ↦ (perform k s1 (drop_guard guard), err e)
        | ok m ↦ finish s1 fd params setup_flags guard m
      ]

  -- The setup call, with the regions that it pins where there are any.
  unfoldable pub enter_setup :
      S → ℕ → IoUringParams → ℕ → Option NoMmapRegions → S × Result NewRing Error
  unfolding finish_pinned finish_mapped drop_no_mmap_guard perform
  enter_setup s entries params setup_flags pinned =
      let (s1, params', r) = k.setup s entries params in
      elim pinned [
        | none ↦ elim r [
          | err e ↦ (s1, err (Error.syscall e))
          | ok fd ↦ finish_mapped s1 fd params' setup_flags
        ]
        | some regions ↦ elim r [
          | err e ↦ (perform k s1 (drop_no_mmap_guard regions), err (Error.syscall e))
          | ok fd ↦ finish_pinned s1 fd params' setup_flags regions
        ]
      ]

  -- The setup call on memory of the program's own.
  unfoldable pub enter_pinned : S → ℕ → IoUringParams → S × Result NewRing Error
  unfolding alloc enter_setup
  enter_pinned s entries params =
      let (s1, r) = alloc k s entries params in
      elim r [
        | err e ↦ (s1, err e)
        | ok (regions, params') ↦ enter_setup s1 entries params' params.flags (some regions)
      ]

  -- `from_params`
  unfoldable pub from_params : S → ℕ → IoUringParams → S × Result NewRing Error
  unfolding unsupported enter_setup enter_pinned
  from_params s entries params =
      let bad = unsupported params.flags in
      if not (bad == 0)
      then (
        s,
        err (Error.setup (SetupError.invalid_arg (InvalidArgKind.unsupported_setup_flags bad))),
      )
      else if contains params.flags SetupFlags.no_mmap
      then enter_pinned s entries params
      else enter_setup s entries params params.flags none
