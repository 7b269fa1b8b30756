-- ===== src/Ring/Setup/Stages.antt =====
-- src/ring/mod.rs, layout.rs, no_mmap.rs: the debts behind the stages of a ring's setup.
use ququmatz.Base.{
  ℕ, zero, suc, ◌+◌, ◌*◌, ◌≡◌, ◌≢◌, refl, Bool, true, false, if◌then◌else◌, Result, ok, err,
  Result-cases, inl, inr, List, [], ◌∷◌, ◌++◌, arith,
}
use ququmatz.Types.{IoUringParams, contains}
use ququmatz.Error.{Error}
use ququmatz.Ring.Resources.{
  MappedRegion, SetupGuard, Cleanup, RingResources, unmap_some, no_region, new_guard, drop_guard,
  teardown,
}
use ququmatz.Ring.Resources
use ququmatz.Ring.Kernel.{Kernel, Holdings, IsDocumented, ring_file, anonymous}
use ququmatz.Ring.Kernel.Debt.{
  unmaps, closes, unmaps-append, closes-append, Owes, Owes-same, Owes-perform, Owes-mmap,
  Owes-mmap_err, Owes-store,
}
use ququmatz.Ring.Layout.{
  MappedRings, map_sqes, map_cq, map_rings, sqes_size, cq_ring_size, mmap_size, offset_sqes,
  offset_cq_ring, offset_sq_ring, feature_single_mmap, fill_sq_array, parse_sq,
}
use ququmatz.Ring.NoMmap.{page_size, has_sq_array}
use ququmatz.Ring.Setup.{NewRing, alloc_resources, finish}

pub unmap_some_lem : (r : MappedRegion) → r.len ≢ 0 → unmap_some r ≡ Resources.munmap r ∷ []
unmap_some_lem r h = ground arith

-- The calls that undo what `map_rings` returns.
unfoldable pub unmap_rings : ℕ → MappedRegion → MappedRegion → MappedRegion → List Cleanup
unmap_rings fd sq_ring cq_ring sqes =
    Resources.munmap sqes
    ∷ (unmap_some cq_ring ++ (Resources.munmap sq_ring ∷ Resources.close fd ∷ []))

module _ {S : Type 0} (h : Holdings S) where
  -- Where the mapping stands: the guard owes what was made, and so does a result.
  unfoldable pub Mapped : S → ℕ → S × SetupGuard × Result MappedRings Error → Type 0
  Mapped s fd (t, g, err e) = Owes h s t (drop_guard g)
  Mapped s fd (t, g, ok m) =
      Owes h s t (drop_guard g)
      × Owes h s t (
          unmap_rings fd (record { addr = m.sq_ring_ptr; len = m.mmap_sz }) m.cq_ring_region
            (record { addr = m.sqes_ptr; len = m.sqes_sz }))

  -- Where a setup stands at its end: on an error nothing is owed, and a ring owes its teardown.
  unfoldable pub Settled : S → S × Result NewRing Error → Type 0
  Settled s (t, err e) = Owes h s t []
  Settled s (t, ok n) = (n.resources.refcount ≡ 1) × Owes h s t (teardown n.resources)

module _ {S : Type 0} (k : Kernel S) (h : Holdings S) (doc : IsDocumented k h) where
  map_sqes-Mapped :
      (s t : S) (fd : ℕ) (p : IoUringParams) (sq cq : MappedRegion) (cq_ptr : ℕ)
      → sq.len ≢ 0
      → Owes h s t (unmap_some cq ++ (Resources.munmap sq ∷ Resources.close fd ∷ []))
      → Mapped h s fd (
          map_sqes k t fd p
            (record { fd = fd; sq_ring = sq; cq_ring = cq; sqes = no_region })
            sq
            cq_ptr
            cq)
  unfolding Mapped map_sqes drop_guard unmap_rings
  map_sqes-Mapped s t fd p sq cq cq_ptr n o =
      let len = sqes_size p in
      elim (Result-cases (k.mmap t (ring_file fd offset_sqes) len).1) [
        | inl (a, e) ↦
            let o' = Owes-mmap h k doc s t _ _ len a e o in
            let m = doc.mmap_pos t (ring_file fd offset_sqes) len a e in
            rw (e, map_sqes, unmap_some_lem sq n, unmap_some_lem (record { addr = a; len = len }) m)
              (o', o')
        | inr (c, e) ↦
            rw (e, map_sqes, unmap_some_lem sq n) (Owes-mmap_err h k doc s t _ _ len c e o)
      ]

  map_cq-Mapped :
      (s t : S) (fd : ℕ) (p : IoUringParams) (sq : MappedRegion)
      → sq.len ≢ 0
      → Owes h s t (Resources.munmap sq ∷ Resources.close fd ∷ [])
      → Mapped h s fd (
          map_cq k t fd p
            (record { fd = fd; sq_ring = sq; cq_ring = no_region; sqes = no_region })
            sq)
  unfolding Mapped map_cq drop_guard
  map_cq-Mapped s t fd p sq n o =
      let len = cq_ring_size p in
      let call = ring_file fd offset_cq_ring in
      elim (Result-cases (k.mmap t call len).1) [
        | inl (a, e) ↦
            let cq : MappedRegion = record { addr = a; len = len } in
            let one = unmap_some_lem cq (doc.mmap_pos t call len a e) in
            let o' : Owes h s (k.mmap t call len).0
                (unmap_some cq ++ (Resources.munmap sq ∷ Resources.close fd ∷ [])) =
              rw (one) (Owes-mmap h k doc s t _ call len a e o) in
            rw (e, map_cq) (map_sqes-Mapped s (k.mmap t call len).0 fd p sq cq a n o')
        | inr (c, e) ↦
            rw (e, map_cq, unmap_some_lem sq n) (Owes-mmap_err h k doc s t _ call len c e o)
      ]

  -- Behind the first mapping, whether it is of both rings or not.
  map_rest-Mapped :
      (s t : S) (fd : ℕ) (p : IoUringParams) (sq : MappedRegion)
      → sq.len ≢ 0
      → Owes h s t (Resources.munmap sq ∷ Resources.close fd ∷ [])
      → (single : Bool)
      → let g : SetupGuard = record {
        fd = fd;
        sq_ring = sq;
        cq_ring = no_region;
        sqes = no_region;
      } in
        Mapped h s fd
          (if single then map_sqes k t fd p g sq sq.addr no_region else map_cq k t fd p g sq)
  map_rest-Mapped s t fd p sq n o true = map_sqes-Mapped s t fd p sq no_region sq.addr n o
  map_rest-Mapped s t fd p sq n o false = map_cq-Mapped s t fd p sq n o

  pub map_rings-Mapped :
      (s t : S) (fd : ℕ) (p : IoUringParams) (features flags : ℕ)
      → Owes h s t (Resources.close fd ∷ [])
      → Mapped h s fd (map_rings k t fd p features flags (new_guard fd))
  unfolding Mapped map_rings drop_guard new_guard
  map_rings-Mapped s t fd p features flags o =
      let len = mmap_size p features flags in
      let call = ring_file fd offset_sq_ring in
      elim (Result-cases (k.mmap t call len).1) [
        | inl (a, e) ↦
            let sq : MappedRegion = record { addr = a; len = len } in
            let n = doc.mmap_pos t call len a e in
            let o' = Owes-mmap h k doc s t _ call len a e o in
            rw (e, map_rings)
              (map_rest-Mapped s (k.mmap t call len).0 fd p sq n o'
                (contains features feature_single_mmap))
        | inr (c, e) ↦ rw (e, map_rings) (Owes-mmap_err h k doc s t _ call len c e o)
      ]

  Owes-fill_sq_array :
      (s t : S) (cs : List Cleanup) (base n i : ℕ)
      → Owes h s t cs
      → Owes h s (fill_sq_array k t base n i) cs
  unfolding fill_sq_array
  Owes-fill_sq_array s t cs base zero i o = o
  Owes-fill_sq_array s t cs base (suc n) i o =
      Owes-fill_sq_array s (k.store t (base + i * 4) i) cs base n (i + 1)
        (Owes-store h k doc s t cs (base + i * 4) i o)

  pub Owes-parse_sq :
      (s t : S) (cs : List Cleanup) (base sqes : ℕ) (p : IoUringParams) (with_array : Bool)
      → Owes h s t cs
      → Owes h s (parse_sq k t base sqes p with_array).0 cs
  unfolding parse_sq
  Owes-parse_sq s t cs base sqes p true o =
      Owes-fill_sq_array s t cs (base + p.sq_off.array) p.sq_entries 0 o
  Owes-parse_sq s t cs base sqes p false o = o

  -- What the page of the resources adds is released last.
  pub Owes-teardown :
      (s t : S) (r : RingResources)
      → Owes h s t
          (Resources.munmap r.self_page ∷ unmap_rings r.fd r.sq_ring r.cq_ring r.sqes_region)
      → Owes h s t (teardown r)
  unfolding unmap_rings teardown unmaps closes
  Owes-teardown s t r o =
      let last = Resources.munmap r.sq_ring ∷ Resources.close r.fd ∷ [] in
      let longer =
        Resources.munmap r.sq_ring ∷ Resources.close r.fd ∷ Resources.munmap r.self_page ∷ [] in
      Owes-same h s t _ _
        (λ x.
          rw
            (
              teardown,
              unmaps-append (unmap_some r.cq_ring) last x,
              unmaps-append (unmap_some r.cq_ring) longer x,
            )
            (omega arith))
        (λ x.
          rw
            (
              teardown,
              closes-append (unmap_some r.cq_ring) last x,
              closes-append (unmap_some r.cq_ring) longer x,
            )
            (omega arith))
        o

  pub finish-Settled :
      (s t : S) (fd : ℕ) (p : IoUringParams) (flags : ℕ) (g : SetupGuard) (m : MappedRings)
      → Owes h s t (drop_guard g)
      → Owes h s t (
          unmap_rings fd
            (record { addr = m.sq_ring_ptr; len = m.mmap_sz })
            m.cq_ring_region
            (record { addr = m.sqes_ptr; len = m.sqes_sz }))
      → Settled h s (finish k t fd p flags g m)
  unfolding Settled finish alloc_resources
  finish-Settled s t fd p flags g m undo keep =
      let with_array = has_sq_array flags in
      let t' = (parse_sq k t m.sq_ring_ptr m.sqes_ptr p with_array).0 in
      let through =
        λ (cs : List Cleanup). Owes-parse_sq s t cs m.sq_ring_ptr m.sqes_ptr p with_array in
      elim (Result-cases (k.mmap t' anonymous page_size).1) [
        | inl (a, e) ↦
            rw (e, finish, e)
              (
                refl,
                Owes-teardown s (k.mmap t' anonymous page_size).0
                    (record {
                      refcount = 1;
                      fd = fd;
                      sq_ring = record { addr = m.sq_ring_ptr; len = m.mmap_sz };
                      cq_ring = m.cq_ring_region;
                      sqes_region = record { addr = m.sqes_ptr; len = m.sqes_sz };
                      self_page = record { addr = a; len = page_size };
                    })
                    (Owes-mmap h k doc s t' _ anonymous page_size a e (through _ keep)),
              )
        | inr (c, e) ↦
            rw (e, finish, e)
              (Owes-perform h k doc s (k.mmap t' anonymous page_size).0 (drop_guard g)
                (Owes-mmap_err h k doc s t' _ anonymous page_size c e (through _ undo)))
      ]
