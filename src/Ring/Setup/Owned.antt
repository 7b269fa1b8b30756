-- ===== src/Ring/Setup/Owned.antt =====
-- src/ring/mod.rs: what `IoUring::from_params` has made when it returns, and how it is given back.
use ququmatz.Base.{
  ℕ, ◌≡◌, ◌≢◌, refl, subst, sym, not, ◌==◌, Bool, true, false, if◌then◌else◌, Result, ok, err,
  Result-cases, none, some, inl, inr, [], ◌∷◌, arith,
}
use ququmatz.Types.{IoUringParams, contains}
use ququmatz.Types.SetupFlags
use ququmatz.Error.{Error, SetupError, InvalidArgKind}
use ququmatz.Ring.Resources.{
  MappedRegion, SetupGuard, Cleanup, RingResources, unmap_some, no_region, new_guard, drop_guard,
  teardown, release,
}
use ququmatz.Ring.Resources
use ququmatz.Ring.Resources.Once.{release_last}
use ququmatz.Ring.Kernel.{Kernel, Holdings, IsDocumented, perform, anonymous}
use ququmatz.Ring.Kernel.Debt.{
  unmaps, closes, Owes, Owes-same, Owes-perform, Owes-mmap, Owes-mmap_err, Owes-nothing, Owes-setup,
  Owes-setup_err,
}
use ququmatz.Ring.NoMmap.{
  NoMmapRegions, alloc_anon, alloc_sqes, alloc, drop_no_mmap_guard, sqes_region_size,
  predict_entries, ring_region_size, has_sq_array,
}
use ququmatz.Ring.Layout.{map_rings}
use ququmatz.Ring.Setup.{
  NewRing, finish, finish_pinned, finish_mapped, enter_setup, enter_pinned, from_params,
  unsupported,
}
use ququmatz.Ring.Setup.Stages.{
  unmap_some_lem, unmap_rings, Mapped, Settled, map_rings-Mapped, finish-Settled,
}

module _ {S : Type 0} (k : Kernel S) (h : Holdings S) (doc : IsDocumented k h) where
  -- Where the allocation of the program's own memory stands.
  unfoldable Allocated : S → S × Result (NoMmapRegions × IoUringParams) Error → Type 0
  Allocated s (t, err e) = Owes h s t []
  Allocated s (t, ok (g, p)) =
      Owes h s t (drop_no_mmap_guard g) × (g.ring_region.len ≢ 0) × (g.sqes_region.len ≢ 0)

  Allocated-err : (s t : S) (e : Error) → Owes h s t [] → Allocated s (t, err e)
  unfolding Allocated
  Allocated-err s t e o = o

  alloc_sqes-Allocated :
      (s t : S) (ring : MappedRegion) (len : ℕ) (p : IoUringParams)
      → ring.len ≢ 0
      → Owes h s t (Resources.munmap ring ∷ [])
      → Allocated s (alloc_sqes k t ring len p)
  unfolding Allocated alloc_sqes alloc_anon drop_no_mmap_guard perform
  alloc_sqes-Allocated s t ring len p n o = elim (Result-cases (k.mmap t anonymous len).1) [
    | inl (a, e) ↦
        rw (e, alloc_sqes, e)
          (Owes-mmap h k doc s t _ anonymous len a e o, n, doc.mmap_pos t anonymous len a e)
    | inr (c, e) ↦
        rw (e, alloc_sqes, e)
          (Owes-perform h k doc s (k.mmap t anonymous len).0 (Resources.munmap ring ∷ [])
            (Owes-mmap_err h k doc s t _ anonymous len c e o))
  ]

  alloc-Allocated : (s : S) (entries : ℕ) (p : IoUringParams) → Allocated s (alloc k s entries p)
  unfolding alloc alloc_anon
  alloc-Allocated s entries p =
      let (n, m) = predict_entries entries p in
      let len = ring_region_size n m (has_sq_array p.flags) in
      let here = Owes-nothing h s in
      elim (Result-cases (k.mmap s anonymous len).1) [
        | inl (a, e) ↦
            let t = (k.mmap s anonymous len).0 in
            let ring : MappedRegion = record { addr = a; len = len } in
            let out : alloc k s entries p ≡ alloc_sqes k t ring (sqes_region_size n) p =
              rw (e, alloc) refl in
            subst (Allocated s) (sym out) (
              alloc_sqes-Allocated s t ring (sqes_region_size n) p
                (doc.mmap_pos s anonymous len a e) (Owes-mmap h k doc s s _ anonymous len a e here))
        | inr (c, e) ↦
            let t = (k.mmap s anonymous len).0 in
            let out : alloc k s entries p ≡ (t, err (Error.syscall c)) = rw (e, alloc) refl in
            subst (Allocated s) (sym out) (
              Allocated-err s t (Error.syscall c)
                (Owes-mmap_err h k doc s s _ anonymous len c e here))
      ]

  finish_pinned-Settled :
      (s t : S) (fd : ℕ) (p : IoUringParams) (flags : ℕ) (g : NoMmapRegions)
      → g.ring_region.len ≢ 0
      → g.sqes_region.len ≢ 0
      → Owes h s t (Resources.close fd ∷ drop_no_mmap_guard g)
      → Settled h s (finish_pinned k t fd p flags g)
  unfolding finish_pinned new_guard drop_no_mmap_guard drop_guard unmap_rings unmaps closes
  finish_pinned-Settled s t fd p flags g n m o =
      let ring = g.ring_region in
      let sqes = g.sqes_region in
      let undo = Resources.munmap sqes ∷ Resources.munmap ring ∷ Resources.close fd ∷ [] in
      let o' : Owes h s t undo = Owes-same h s t _ undo (λ r. omega arith) (λ x. omega arith) o in
      finish-Settled k h doc s t fd p flags
        (record { fd = fd; sq_ring = ring; cq_ring = no_region; sqes = sqes })
        (record {
          sq_ring_ptr = ring.addr;
          mmap_sz = ring.len;
          cq_ring_ptr = ring.addr;
          cq_ring_region = no_region;
          sqes_ptr = sqes.addr;
          sqes_sz = sqes.len;
        })
        (rw (unmap_some_lem sqes m, unmap_some_lem ring n) o') o'

  finish_mapped-Settled :
      (s t : S) (fd : ℕ) (p : IoUringParams) (flags : ℕ)
      → Owes h s t (Resources.close fd ∷ [])
      → Settled h s (finish_mapped k t fd p flags)
  unfolding finish_mapped Settled Mapped
  finish_mapped-Settled s t fd p flags o =
      let out = map_rings k t fd p p.features flags (new_guard fd) in
      go out (map_rings-Mapped k h doc s t fd p p.features flags o)
    where
      go :
          (out : _)
          → Mapped h s fd out
          → Settled h s (elim out.2 [
            | err e ↦ (perform k out.0 (drop_guard out.1), err e)
            | ok m ↦ finish k out.0 fd p flags out.1 m
          ])
      go (t1, guard, err e) m = Owes-perform h k doc s t1 (drop_guard guard) m
      go (t1, guard, ok rings) m = finish-Settled k h doc s t1 fd p flags guard rings m.0 m.1

  enter_mapped-Settled :
      (s : S) (entries : ℕ) (p : IoUringParams) (flags : ℕ)
      → Settled h s (enter_setup k s entries p flags none)
  unfolding enter_setup Settled
  enter_mapped-Settled s entries p flags =
      let here = Owes-nothing h s in
      elim (Result-cases (k.setup s entries p).2) [
        | inl (fd, e) ↦
            let (t, p', r) = k.setup s entries p in
            let out : enter_setup k s entries p flags none ≡ finish_mapped k t fd p' flags =
              rw (e, enter_setup) refl in
            rw (out) (
              finish_mapped-Settled s t fd p' flags (Owes-setup h k doc s s [] entries p fd e here))
        | inr (c, e) ↦ rw (e, enter_setup) (Owes-setup_err h k doc s s [] entries p c e here)
      ]

  enter_on_pinned-Settled :
      (s t : S) (entries : ℕ) (p : IoUringParams) (flags : ℕ) (g : NoMmapRegions)
      → g.ring_region.len ≢ 0
      → g.sqes_region.len ≢ 0
      → Owes h s t (drop_no_mmap_guard g)
      → Settled h s (enter_setup k t entries p flags (some g))
  unfolding enter_setup Settled
  enter_on_pinned-Settled s t entries p flags g n m o =
      let undo = drop_no_mmap_guard g in
      elim (Result-cases (k.setup t entries p).2) [
        | inl (fd, e) ↦
            let (t', p', r) = k.setup t entries p in
            let out : enter_setup k t entries p flags (some g) ≡ finish_pinned k t' fd p' flags g =
              rw (e, enter_setup) refl in
            rw (out) (
              finish_pinned-Settled s t' fd p' flags g n m
                (Owes-setup h k doc s t undo entries p fd e o))
        | inr (c, e) ↦
            rw (e, enter_setup)
              (Owes-perform h k doc s (k.setup t entries p).0 undo
                (Owes-setup_err h k doc s t undo entries p c e o))
      ]

  enter_pinned-Settled :
      (s : S) (entries : ℕ) (p : IoUringParams) → Settled h s (enter_pinned k s entries p)
  unfolding enter_pinned Settled Allocated
  enter_pinned-Settled s entries p = go (alloc k s entries p) (alloc-Allocated s entries p)
    where
      go :
          (out : S × Result (NoMmapRegions × IoUringParams) Error)
          → Allocated s out
          → Settled h s (elim out.1 [
            | err e ↦ (out.0, err e)
            | ok (regions, p') ↦ enter_setup k out.0 entries p' p.flags (some regions)
          ])
      go (t, err e) o = o
      go (t, ok (g, p')) o = enter_on_pinned-Settled s t entries p' p.flags g o.1 o.2 o.0

  -- On a kernel whose calls make and undo what their manual pages say, the setup of a ring either
  -- fails, and then as many mappings of each region are held and as often is each descriptor open
  -- as before it, at whichever call it failed; or it gives a ring with one owner, and what is held
  -- and open besides is what the ring's teardown gives back.
  pub from_params-Settled :
      (s : S) (entries : ℕ) (p : IoUringParams) → Settled h s (from_params k s entries p)
  unfolding from_params Settled
  from_params-Settled s entries p =
      pick (not (unsupported p.flags == 0)) (contains p.flags SetupFlags.no_mmap)
    where
      pick :
          (bad pinned : Bool)
          → Settled h s (
              if bad
              then (
                s,
                err (
                    Error.setup (
                      SetupError.invalid_arg
                        (InvalidArgKind.unsupported_setup_flags (unsupported p.flags)))),
              )
              else if pinned
              then enter_pinned k s entries p
              else enter_setup k s entries p p.flags none)
      pick true pinned = Owes-nothing h s
      pick false true = enter_pinned-Settled s entries p
      pick false false = enter_mapped-Settled s entries p p.flags

  -- On a kernel whose calls make and undo what their manual pages say, a ring that is set up and
  -- then released by its only owner leaves as many mappings of each region and as often each
  -- descriptor open as there were before.
  pub from_params-release :
      (s : S) (entries : ℕ) (p : IoUringParams) (n : NewRing)
      → (from_params k s entries p).1 ≡ ok n
      → let (left, calls) = release n.resources in
        (left ≡ none) × Owes h s (perform k (from_params k s entries p).0 calls) []
  unfolding Settled
  from_params-release s entries p n e =
      let (one, o) : (n.resources.refcount ≡ 1)
          × Owes h s (from_params k s entries p).0 (teardown n.resources) =
        subst (λ r. Settled h s ((from_params k s entries p).0, r)) e
          (from_params-Settled s entries p) in
      rw (release_last n.resources one)
        (refl, Owes-perform h k doc s (from_params k s entries p).0 (teardown n.resources) o)
