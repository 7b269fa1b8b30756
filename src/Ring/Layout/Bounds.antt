-- ===== src/Ring/Layout/Bounds.antt =====
-- src/ring/layout.rs: the sizes that `map_rings` maps, against what is accessed in the mappings.
use ququmatz.Base.{
  ℕ, ◌+◌, ◌*◌, ◌≤◌, ◌<◌, ◌≡◌, ◌≢◌, refl, subst, ap, Bool, true, false, Bool-cases, inl, inr, ◌==◌,
  if◌then◌else◌, Result, ok, err, Result-cases, arith,
}
use ququmatz.Types.{IoUringParams, contains}
use ququmatz.Error.{Error}
use ququmatz.Ring.Resources.{MappedRegion, SetupGuard, no_region}
use ququmatz.Ring.Kernel.{Kernel, Holdings, IsDocumented, ring_file}
use ququmatz.Ring.NoMmap.{cqe_bytes, u32_bytes, sqe_bytes, has_sq_array}
use ququmatz.Ring.Layout.{
  MappedRings, ring_bytes, sqes_size, cq_ring_size, sq_ring_size, mmap_size, map_sqes, map_cq,
  map_rings, offset_sqes, offset_sq_ring, offset_cq_ring, feature_single_mmap,
}

-- The region that the completion ring lies in: the submission ring's, where it has none.
abbrev region_of : MappedRegion → MappedRegion → MappedRegion
region_of sq cq = if cq.len == 0 then sq else cq

abbrev pub cq_region : MappedRings → MappedRegion
cq_region m = region_of (record { addr = m.sq_ring_ptr; len = m.mmap_sz }) m.cq_ring_region

-- `n` bytes at `a` are inside the region.
abbrev pub Within : MappedRegion → ℕ → ℕ → Type 0
Within r a n = (r.addr ≤ a) × (a + n ≤ r.addr + r.len)

-- What the sizes and pointers are, from the parameters.
unfoldable pub Sized : IoUringParams → ℕ → MappedRings → Type 0
Sized p flags m =
    (m.sqes_sz ≡ sqes_size p)
    × (sq_ring_size p flags ≤ m.mmap_sz)
    × ((cq_region m).addr ≡ m.cq_ring_ptr)
    × (cq_ring_size p ≤ (cq_region m).len)

mmap_size-covers :
    (p : IoUringParams) (features flags : ℕ) → sq_ring_size p flags ≤ mmap_size p features flags
unfolding mmap_size
mmap_size-covers p features flags = elim (Bool-cases (contains features feature_single_mmap)) [
  | inl y ↦ rw (y, mmap_size) (ground arith)
  | inr y ↦ rw (y, mmap_size) (omega arith)
]

sq_ring_size_array :
    (p : IoUringParams) (flags : ℕ)
    → has_sq_array flags ≡ true
    → sq_ring_size p flags ≡ p.sq_off.array + p.sq_entries * u32_bytes
unfolding sq_ring_size ring_bytes
sq_ring_size_array p flags e = rw (e, sq_ring_size) refl

mmap_size-single :
    (p : IoUringParams) (features flags : ℕ)
    → contains features feature_single_mmap ≡ true
    → cq_ring_size p ≤ mmap_size p features flags
unfolding mmap_size
mmap_size-single p features flags y = rw (y, mmap_size) (ground arith)

region_of_own : (sq cq : MappedRegion) → cq.len ≢ 0 → region_of sq cq ≡ cq
region_of_own sq cq n = ground arith

module _ {S : Type 0} (k : Kernel S) (h : Holdings S) (doc : IsDocumented k h) where
  -- A result, if there is one, has its sizes.
  unfoldable AllSized : IoUringParams → ℕ → S × SetupGuard × Result MappedRings Error → Type 0
  AllSized p flags (t, g, err e) = Unit
  AllSized p flags (t, g, ok m) = Sized p flags m

  map_sqes-AllSized :
      (s : S) (fd : ℕ) (p : IoUringParams) (flags : ℕ) (g : SetupGuard) (sq cq : MappedRegion)
      (cq_ptr : ℕ)
      → sq_ring_size p flags ≤ sq.len
      → (region_of sq cq).addr ≡ cq_ptr
      → cq_ring_size p ≤ (region_of sq cq).len
      → AllSized p flags (map_sqes k s fd p g sq cq_ptr cq)
  unfolding AllSized Sized map_sqes
  map_sqes-AllSized s fd p flags g sq cq cq_ptr a c d =
      elim (Result-cases (k.mmap s (ring_file fd offset_sqes) (sqes_size p)).1) [
        | inl (ptr, e) ↦ rw (e, map_sqes) (refl, a, c, d)
        | inr (x, e) ↦ rw (e, map_sqes) tt
      ]

  map_cq-AllSized :
      (s : S) (fd : ℕ) (p : IoUringParams) (flags : ℕ) (g : SetupGuard) (sq : MappedRegion)
      → sq_ring_size p flags ≤ sq.len
      → AllSized p flags (map_cq k s fd p g sq)
  unfolding AllSized map_cq
  map_cq-AllSized s fd p flags g sq a =
      let n = cq_ring_size p in
      let call = ring_file fd offset_cq_ring in
      elim (Result-cases (k.mmap s call n).1) [
        | inl (ptr, e) ↦
            let cq : MappedRegion = record { addr = ptr; len = n } in
            let own = region_of_own sq cq (doc.mmap_pos s call n ptr e) in
            rw (e, map_cq)
              (map_sqes-AllSized (k.mmap s call n).0 fd p flags (record g { cq_ring = cq }) sq cq
                ptr a (ap (λ r. r.addr) own) (rw (own) (omega arith)))
        | inr (x, e) ↦ rw (e, map_cq) tt
      ]

  map_rest-AllSized :
      (s : S) (fd : ℕ) (p : IoUringParams) (features flags : ℕ) (g : SetupGuard) (ptr : ℕ)
      (single : Bool)
      → contains features feature_single_mmap ≡ single
      → let sq : MappedRegion = record { addr = ptr; len = mmap_size p features flags } in
        AllSized p flags
          (if single then map_sqes k s fd p g sq ptr no_region else map_cq k s fd p g sq)
  map_rest-AllSized s fd p features flags g ptr true e =
      map_sqes-AllSized s fd p flags g (record { addr = ptr; len = mmap_size p features flags })
        no_region ptr (mmap_size-covers p features flags) refl (mmap_size-single p features flags e)
  map_rest-AllSized s fd p features flags g ptr false e =
      map_cq-AllSized s fd p flags g (record { addr = ptr; len = mmap_size p features flags })
        (mmap_size-covers p features flags)

  map_rings-AllSized :
      (s : S) (fd : ℕ) (p : IoUringParams) (features flags : ℕ) (g : SetupGuard)
      → AllSized p flags (map_rings k s fd p features flags g)
  unfolding AllSized map_rings
  map_rings-AllSized s fd p features flags g =
      let n = mmap_size p features flags in
      let call = ring_file fd offset_sq_ring in
      elim (Result-cases (k.mmap s call n).1) [
        | inl (ptr, e) ↦
            rw (e, map_rings)
              (map_rest-AllSized (k.mmap s call n).0 fd p features flags
                (record g { sq_ring = record { addr = ptr; len = n } }) ptr
                (contains features feature_single_mmap) refl)
        | inr (x, e) ↦ rw (e, map_rings) tt
      ]

  -- On a kernel as documented, when the rings of a setup with the indirection array are mapped,
  -- each entry, each index of the array and each completion lies inside the mapping that its
  -- pointer is of; the completions are in the submission ring's mapping where there is one for
  -- both.
  pub map_rings-Within :
      (s : S) (fd : ℕ) (p : IoUringParams) (features flags : ℕ) (g : SetupGuard) (m : MappedRings)
      (i j : ℕ)
      → (map_rings k s fd p features flags g).2 ≡ ok m
      → has_sq_array flags ≡ true
      → i < p.sq_entries
      → j < p.cq_entries
      → Within
          (record { addr = m.sqes_ptr; len = m.sqes_sz })
          (m.sqes_ptr + i * sqe_bytes)
          sqe_bytes
        × Within
            (record { addr = m.sq_ring_ptr; len = m.mmap_sz })
            (m.sq_ring_ptr + p.sq_off.array + i * u32_bytes)
            u32_bytes
        × Within (cq_region m) (m.cq_ring_ptr + p.cq_off.cqes + j * cqe_bytes) cqe_bytes
  unfolding AllSized Sized sq_ring_size cq_ring_size sqes_size ring_bytes
  map_rings-Within s fd p features flags g m i j e array hi hj =
      let (whole, guard, r) = map_rings k s fd p features flags g in
      let (a, b, c, d) : Sized p flags m =
        subst (λ r. AllSized p flags (whole, guard, r)) e
          (map_rings-AllSized s fd p features flags g) in
      let b' = sq_ring_size_array p flags array in
      ((omega arith, omega arith), (omega arith, omega arith), (omega arith, omega arith))
