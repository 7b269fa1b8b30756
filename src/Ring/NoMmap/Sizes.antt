-- ===== src/Ring/NoMmap/Sizes.antt =====
-- src/ring/no_mmap.rs: the predicted numbers of entries, and the sizes that they lead to.
use ququmatz.Base.{
  ℕ, ◌+◌, ◌*◌, ◌%◌, ◌^◌, ◌≤◌, ◌<◌, ◌≡◌, refl, ap, subst, ◌⊎◌, inl, inr, if◌then◌else◌, Result, ok,
  err, Result-cases, arith,
}
use ququmatz.Types.{IoUringParams}
use ququmatz.Types.SetupFlags
use ququmatz.Error.{Error}
use ququmatz.Ring.Kernel.{Kernel, anonymous}
use ququmatz.Ring.NoMmap.{
  predict_entries, page_size, page_align, ring_region_size, sqes_region_size, cqe_bytes, u32_bytes,
  sqe_bytes, rings_header_slack, NoMmapRegions, alloc_anon, alloc_sqes, alloc, has_sq_array,
  described,
}

-- The least power of two that is not below `n`.
pub record IsLeastPower (n p : ℕ) : Type 0 where
  pub exponent : ℕ
  pub power : p ≡ 2 ^ exponent
  pub above : n ≤ p
  pub least : p ≡ 1 ⊎ p < 2 * n

page_align_lem :
    (n : ℕ) → n ≤ page_align n × page_align n % page_size ≡ 0 × page_align n < n + page_size
unfolding page_align
page_align_lem n = (omega arith, omega arith, omega arith)

-- What `alloc` answers fits what the kernel makes of the request.
module _ {S : Type 0} (k : Kernel S) where
  unfoldable Fits : ℕ → IoUringParams → Result (NoMmapRegions × IoUringParams) Error → Type 0
  Fits entries p (err e) = Unit
  Fits entries p (ok (g, p')) =
      let (sq, cq) = predict_entries entries p in
      (g.ring_region.len ≡ ring_region_size sq cq (has_sq_array p.flags))
      × (g.sqes_region.len ≡ sqes_region_size sq)
      × (p' ≡ described p g.ring_region.addr g.sqes_region.addr)

  alloc-Fits : (s : S) (entries : ℕ) (p : IoUringParams) → Fits entries p (alloc k s entries p).1
  unfolding Fits alloc alloc_sqes alloc_anon
  alloc-Fits s entries p =
      let (sq, cq) = predict_entries entries p in
      let n = ring_region_size sq cq (has_sq_array p.flags) in
      let m = sqes_region_size sq in
      let s' = (k.mmap s anonymous n).0 in
      elim (Result-cases (k.mmap s anonymous n).1) [
        | inl (a, e) ↦ elim (Result-cases (k.mmap s' anonymous m).1) [
          | inl (b, f) ↦ rw (e, f, alloc) (refl, refl, refl)
          | inr (x, f) ↦ rw (e, f, alloc) tt
        ]
        | inr (x, e) ↦ rw (e, alloc) tt
      ]

  -- When the memory of a ring is allocated by the program, both regions are whole pages, the first
  -- has room for the headers, the predicted completions, the indices where there is an array and
  -- one page more, the second for the predicted entries, and the parameters name both.
  pub alloc-room :
      (s : S) (entries : ℕ) (p p' : IoUringParams) (g : NoMmapRegions)
      → (alloc k s entries p).1 ≡ ok (g, p')
      → let (sq, cq) = predict_entries entries p in
        let indices : ℕ = if has_sq_array p.flags then sq * u32_bytes else 0 in
        (g.ring_region.len % page_size ≡ 0)
        × (g.sqes_region.len % page_size ≡ 0)
        × (2 * rings_header_slack + cq * cqe_bytes + indices + page_size ≤ g.ring_region.len)
        × (sq * sqe_bytes ≤ g.sqes_region.len)
        × (p'.cq_off.user_addr ≡ g.ring_region.addr)
        × (p'.sq_off.user_addr ≡ g.sqes_region.addr)
  unfolding Fits ring_region_size sqes_region_size
  alloc-room s entries p p' g e =
      let (sq, cq) = predict_entries entries p in
      let indices : ℕ = if has_sq_array p.flags then sq * u32_bytes else 0 in
      let fits : Fits entries p (ok (g, p')) = subst (Fits entries p) e (alloc-Fits s entries p) in
      let (a, b, c) = fits in
      let ring = page_align_lem (rings_header_slack * 2 + cq * cqe_bytes + indices) in
      let sqes = page_align_lem (sq * sqe_bytes) in
      (
        rw (a) (omega (arith, ring)),
        rw (b) (sqes.1),
        rw (a) (omega (arith, ring)),
        rw (b) (sqes.0),
        ap (λ q. q.cq_off.user_addr) c,
        ap (λ q. q.sq_off.user_addr) c,
      )
