-- ===== src/Ring/Resources.antt =====
-- src/ring/resources.rs: who releases the ring's descriptor and mappings, and when.
pub mod Once
use ququmatz.Base.{
  ℕ, ◌+◌, ◌-◌, ◌%◌, ◌^◌, ◌==◌, ltb, if◌then◌else◌, List, [], ◌∷◌, ◌++◌, Option, none, some,
}

pub record MappedRegion : Type 0 where
  pub addr : ℕ
  pub len : ℕ

-- The system calls of a cleanup; their results are ignored.
pub data Cleanup : Type 0 where
  munmap : MappedRegion → Cleanup
  close : ℕ → Cleanup

pub record RingResources : Type 0 where
  pub refcount : ℕ
  pub fd : ℕ
  pub sq_ring : MappedRegion
  pub cq_ring : MappedRegion
  pub sqes_region : MappedRegion
  pub self_page : MappedRegion

-- `fetch_add` on `usize` wraps.
unfoldable pub retain : RingResources → RingResources
retain r = record r { refcount = (r.refcount + 1) % 2 ^ 64 }

abbrev pub unmap_some : MappedRegion → List Cleanup
unmap_some r = if ltb 0 r.len then munmap r ∷ [] else []

-- What the last owner does.
unfoldable pub teardown : RingResources → List Cleanup
teardown r =
    munmap r.sqes_region
    ∷ (unmap_some r.cq_ring ++ (munmap r.sq_ring ∷ close r.fd ∷ munmap r.self_page ∷ []))

-- `release`: `none` when the page that holds the resources is gone.
unfoldable pub release : RingResources → Option RingResources × List Cleanup
unfolding teardown
release r =
    if r.refcount == 1
    then (none, teardown r)
    else (some (record r { refcount = (r.refcount + 2 ^ 64 - 1) % 2 ^ 64 }), [])

-- `SetupGuard`, which undoes a setup that fails half-way.
pub record SetupGuard : Type 0 where
  pub fd : ℕ
  pub sq_ring : MappedRegion
  pub cq_ring : MappedRegion
  pub sqes : MappedRegion

abbrev pub no_region : MappedRegion
no_region = record { addr = 0; len = 0 }

unfoldable pub new_guard : ℕ → SetupGuard
new_guard fd = record { fd = fd; sq_ring = no_region; cq_ring = no_region; sqes = no_region }

unfoldable pub drop_guard : SetupGuard → List Cleanup
drop_guard g =
    unmap_some g.sqes ++ (unmap_some g.cq_ring ++ (unmap_some g.sq_ring ++ (close g.fd ∷ [])))
