-- ===== src/Ring/Setup/Tests.antt =====
-- The properties of the setup of a ring at concrete inputs, on a small kernel.
use ququmatz.Base.{
  bit_and, ◌↔◌, ℕ, ◌+◌, ◌*◌, ◌%◌, ◌≤◌, ◌≡◌, refl, true, false, ok, if◌then◌else◌, List, some, none,
  [], ◌∷◌, arith,
}
use ququmatz.Types.{IoUringParams, default_params, contains}
use ququmatz.Types.SetupFlags
use ququmatz.Ring.Window.{IsMask, slot}
use ququmatz.Ring.Resources.{no_region, new_guard, release}
use ququmatz.Ring.Kernel.{perform}
use ququmatz.Ring.Kernel.Debt.{Owes}
use ququmatz.Ring.NoMmap.{
  NoMmapRegions, alloc, alloc_sqes, alloc_anon, predict_entries, next_power_of_two, double_until,
  ring_region_size, sqes_region_size, page_align, page_size, sqe_bytes, cqe_bytes, u32_bytes,
  rings_header_slack, has_sq_array, described,
}
use ququmatz.Ring.NoMmap.Sizes.{alloc-room}
use ququmatz.Ring.Layout.{
  MappedRings, map_rings, parse_sq, map_sqes, map_cq, parse_cq, fill_sq_array, mmap_size,
  sq_ring_size, cq_ring_size, sqes_size, ring_bytes,
}
use ququmatz.Ring.Layout.Array.{parse_sq-array}
use ququmatz.Ring.Layout.Bounds.{Within, cq_region, map_rings-Within}
use ququmatz.Ring.Ops.{do_tag_marker}
use ququmatz.Ring.Setup.{
  NewRing, from_params, unsupported, enter_setup, enter_pinned, finish_mapped, finish,
  alloc_resources,
}
use ququmatz.Ring.Setup.Stages.{Settled}
use ququmatz.Ring.Setup.Owned.{from_params-Settled, from_params-release}
use ququmatz.Ring.Setup.Machine.{
  map_one, filled, kernel, holdings, machine, kernel-IsDocumented, kernel-IsMemory,
}
use ququmatz.Ring.Builder
use ququmatz.Ring.Builder.{IoUringBuilder, Setting, sqpoll, clamp, no_sqarray, configure, build}
use ququmatz.Ring.Builder.Settings.{NoneAsks, last_idle, last_cpu, last_cq_entries, last_wq_fd}
use ququmatz.Ring.Builder.Flags.{build-configure}

-- The kernel's rings and the entries, but not the page of the resources.
from_params-Settled_example :
    Settled holdings (machine 2) (from_params kernel (machine 2) 2 default_params)
from_params-Settled_example =
    from_params-Settled kernel holdings kernel-IsDocumented (machine 2) 2 default_params

abbrev two_entries : NewRing
two_entries = record {
  ring = record {
    fd = 3;
    sq = record { sq_mask = 1; sq_tail_local = 0; sq_submitted = 0 };
    cq = record { cq_mask = 3; cq_head_local = 0 };
    features = 1;
    setup_flags = 0;
    do_tag_next = do_tag_marker;
  };
  resources = record {
    refcount = 1;
    fd = 3;
    sq_ring = record { addr = 12288; len = 200 };
    cq_ring = no_region;
    sqes_region = record { addr = 8192; len = 128 };
    self_page = record { addr = 4096; len = 4096 };
  };
  sq_parts = record {
    sq_head = 12288;
    sq_tail = 12292;
    sq_mask = 1;
    sq_flags = 12300;
    sqes = 8192;
    sq_tail_local = 0;
  };
  cq_parts = record {
    cq_head = 12304;
    cq_tail = 12308;
    cq_mask = 3;
    cqes = 12352;
    cq_head_local = 0;
  };
}

from_params-two_entries : (from_params kernel (machine 3) 2 default_params).1 ≡ ok two_entries
unfolding from_params unsupported enter_setup enter_pinned finish_mapped map_rings map_sqes map_cq
    finish parse_sq parse_cq alloc_resources new_guard fill_sq_array mmap_size sq_ring_size
    cq_ring_size sqes_size ring_bytes map_one contains
from_params-two_entries = refl

from_params-release_example :
    let (left, calls) = release two_entries.resources in
    (left ≡ none)
    × Owes holdings
        (machine 3)
        (perform kernel (from_params kernel (machine 3) 2 default_params).0 calls)
        []
from_params-release_example =
    from_params-release kernel holdings kernel-IsDocumented (machine 3) 2 default_params two_entries
      from_params-two_entries

abbrev params : IoUringParams
params = filled default_params

one-IsMask : IsMask 1 1
one-IsMask = record { width = omega arith; ones = refl }

parse_sq-array_example :
    let (done, parts) = parse_sq kernel (machine 3) 12288 8192 params true in
    (parts ≡ (parse_sq kernel (machine 3) 12288 8192 params false).1)
    × (kernel.load done (12288 + 192 + slot 1 5 * 4) ≡ slot 1 5)
parse_sq-array_example =
    parse_sq-array kernel kernel-IsMemory (machine 3) 12288 8192 1 1 params 5 one-IsMask refl
      (omega arith)

abbrev rings : MappedRings
rings = record {
  sq_ring_ptr = 12288;
  mmap_sz = 200;
  cq_ring_ptr = 12288;
  cq_ring_region = no_region;
  sqes_ptr = 8192;
  sqes_sz = 128;
}

map_rings_two : (map_rings kernel (machine 3) 3 params 1 0 (new_guard 3)).2 ≡ ok rings
unfolding map_rings map_sqes map_cq new_guard mmap_size sq_ring_size cq_ring_size sqes_size
    ring_bytes map_one contains
map_rings_two = refl

map_rings-Within_example :
    Within (record { addr = 8192; len = 128 }) (8192 + 1 * sqe_bytes) sqe_bytes
    × Within (record { addr = 12288; len = 200 }) (12288 + 192 + 1 * u32_bytes) u32_bytes
    × Within (cq_region rings) (12288 + 64 + 3 * cqe_bytes) cqe_bytes
unfolding contains
map_rings-Within_example =
    map_rings-Within kernel holdings kernel-IsDocumented (machine 3) 3 params 1 0 (new_guard 3)
      rings 1 3 map_rings_two refl (omega arith) (omega arith)

abbrev pinned : NoMmapRegions
pinned = record {
  ring_region = record { addr = 8192; len = 8192 };
  sqes_region = record { addr = 4096; len = 4096 };
}

alloc_two :
    (alloc kernel (machine 2) 2 default_params).1 ≡ ok (pinned, described default_params 8192 4096)
unfolding alloc alloc_sqes alloc_anon predict_entries next_power_of_two double_until
    ring_region_size sqes_region_size page_align map_one contains
alloc_two = refl

alloc-room_example :
    let (sq, cq) = predict_entries 2 default_params in
    let indices : ℕ = if has_sq_array 0 then sq * u32_bytes else 0 in
    (8192 % page_size ≡ 0)
    × (4096 % page_size ≡ 0)
    × (2 * rings_header_slack + cq * cqe_bytes + indices + page_size ≤ 8192)
    × (sq * sqe_bytes ≤ 4096)
    × (described default_params 8192 4096).cq_off.user_addr ≡ pinned.ring_region.addr
    × (described default_params 8192 4096).sq_off.user_addr ≡ pinned.sqes_region.addr
alloc-room_example =
    alloc-room kernel (machine 2) 2 default_params (described default_params 8192 4096) pinned
      alloc_two

abbrev builder : IoUringBuilder
builder = record { entries = 2; params = default_params }

abbrev settings : List Setting
settings = sqpoll 10 ∷ clamp ∷ no_sqarray ∷ []

new-builder : Builder.new 2 ≡ some builder
unfolding Builder.new
new-builder = refl

build-configure_example :
    let q = (configure settings builder).params in
    (build kernel (machine 3) (configure settings builder) ≡ (
      if contains q.flags SetupFlags.no_mmap
      then enter_pinned kernel (machine 3) 2 q
      else enter_setup kernel (machine 3) 2 q q.flags none))
    × ((bit_and q.flags 256 ≡ 0) ↔ NoneAsks 256 settings)
    × (q ≡ record default_params {
      flags = q.flags;
      sq_thread_idle = last_idle settings 0;
      sq_thread_cpu = last_cpu settings 0;
      cq_entries = last_cq_entries settings 0;
      wq_fd = last_wq_fd settings 0;
    })
build-configure_example =
    build-configure kernel (machine 3) 2 builder settings 256 new-builder (tt, (tt, (tt, tt)))
