-- ===== src/Ring/Pbuf/Register/Leak.antt =====
-- src/ring/pbuf.rs: the mappings of a registration on each of its paths.
use ququmatz.Base.{
  ℕ, zero, suc, ◌+◌, ◌≡◌, ◌∙◌, ap, refl, ◌⊎◌, inl, inr, Result-cases, Result, ok, err, List, ◌∷◌,
}
use ququmatz.Error.{Error, Errno}
use ququmatz.Ring.Resources.{RingResources, retain}
use ququmatz.Ring.Pbuf.{ProvidedBufferRing, BufRing, recycle_raw, populate}
use ququmatz.Ring.Pbuf.Register.{
  IoUringBufReg, Memory, Registered, new_pool, checked_ring_bytes, validated, register_mapped,
  register_provided_buffers_on,
}

-- The mappings of the process, as addresses and lengths: what the kernel documents of the calls.
pub record IsMapping {S : Type 0} (os : Memory S) (mapped : S → List (ℕ × ℕ)) : Type 0 where
  pub mmap_ok :
      (s : S) (n a : ℕ) → (os.mmap s n).1 ≡ ok a → mapped (os.mmap s n).0 ≡ (a, n) ∷ mapped s
  pub mmap_err :
      (s : S) (n : ℕ) (e : Errno) → (os.mmap s n).1 ≡ err e → mapped (os.mmap s n).0 ≡ mapped s
  pub munmap :
      (s : S) (a n : ℕ) (rest : List (ℕ × ℕ))
      → mapped s ≡ (a, n) ∷ rest
      → mapped (os.munmap s a n) ≡ rest
  pub register : (s : S) (reg : IoUringBufReg) → mapped (os.register s reg).0 ≡ mapped s
  pub unregister : (s : S) (bgid : ℕ) → mapped (os.unregister s bgid) ≡ mapped s

-- Both outcomes of a registration.
abbrev pub Settled :
    {S : Type 0}
    → (S → List (ℕ × ℕ))
    → List (ℕ × ℕ)
    → RingResources
    → S
    → Result Registered Error
    → Type 0
Settled mapped before resources s r =
    ((e : Error) × (r ≡ err e) × (mapped s ≡ before))
    ⊎ ((p : Registered) × (r ≡ ok p)
        × (p.resources ≡ retain resources)
        × (mapped s
            ≡ (p.pool.bufs_addr, p.regions.bufs_len)
              ∷ (p.regions.ring_addr, p.regions.ring_len)
              ∷ before))

-- Filling the ring does not move the buffers.
populate-bufs_addr :
    (n i : ℕ) (p : ProvidedBufferRing) (m : BufRing) → (populate n i p m).0.bufs_addr ≡ p.bufs_addr
unfolding populate recycle_raw
populate-bufs_addr zero i p m = refl
populate-bufs_addr (suc n) i p m = populate-bufs_addr n (i + 1) _ _

new_pool-bufs_addr :
    (bgid count buf_size bufs_addr : ℕ) (m : BufRing)
    → (new_pool bgid count buf_size bufs_addr m).0.bufs_addr ≡ bufs_addr
unfolding new_pool
new_pool-bufs_addr bgid count buf_size bufs_addr m = populate-bufs_addr count 0 _ m

module _ {S : Type 0} (os : Memory S) (mapped : S → List (ℕ × ℕ)) (law : IsMapping os mapped) where
  register_mapped-Settled :
      (bits : ℕ) (resources : RingResources) (s : S)
      (ring_addr ring_bytes bgid count buf_size flags : ℕ) (m : BufRing) (before : List (ℕ × ℕ))
      → mapped s ≡ (ring_addr, ring_bytes) ∷ before
      → let (s', r) =
          register_mapped os bits resources s ring_addr ring_bytes bgid count buf_size flags m in
        Settled mapped before resources s' r
  unfolding register_mapped
  register_mapped-Settled bits resources s ring_addr ring_bytes bgid count buf_size flags m before
        u =
      elim (Result-cases (checked_ring_bytes bits count buf_size)) [
        | inr (kind, over) ↦
            rw (over, register_mapped) (inl (_, refl, law.munmap s ring_addr ring_bytes before u))
        | inl (n, fits) ↦
            let s1 : S = (os.mmap s n).0 in
            rw (fits, register_mapped)
              (elim (Result-cases (os.mmap s n).1) [
                | inr (e, second) ↦ rw second (
                    inl (
                      _,
                      refl,
                      law.munmap s1 ring_addr ring_bytes before (law.mmap_err s n e second ∙ u),
                    ))
                | inl (a, second) ↦
                    let reg : IoUringBufReg = record {
                      ring_addr = ring_addr;
                      ring_entries = count;
                      bgid = bgid;
                      flags = flags;
                    } in
                    let s2 : S = (os.register s1 reg).0 in
                    let both : mapped s2 ≡ (a, n) ∷ (ring_addr, ring_bytes) ∷ before =
                      law.register s1 reg ∙ law.mmap_ok s n a second ∙ ap (λ l. (a, n) ∷ l) u in
                    rw second (elim (Result-cases (os.register s1 reg).1) [
                      | inr (e, third) ↦ rw third (
                          inl (
                            _,
                            refl,
                            law.munmap _ ring_addr ring_bytes before (law.munmap s2 a n _ both),
                          ))
                      | inl (ret, third) ↦ rw third (
                          inr (_, refl, refl, rw (new_pool-bufs_addr bgid count buf_size a m) both))
                    ])
              ])
      ]

  -- Given the documented effect of `mmap`, `munmap` and the registration on the process's mappings,
  -- registering a pool either fails and leaves the mappings as they were, whichever step failed, or
  -- succeeds, adds exactly the ring's and the buffers', and takes one share of the resources.
  pub register-Settled :
      (bits : ℕ) (resources : RingResources) (s : S) (bgid count buf_size flags : ℕ) (m : BufRing)
      → let (s', r) =
          register_provided_buffers_on os bits resources s bgid count buf_size flags m in
        Settled mapped (mapped s) resources s' r
  unfolding register_provided_buffers_on
  register-Settled bits resources s bgid count buf_size flags m =
      elim (Result-cases (validated bits count buf_size)) [
        | inr (e, bad) ↦ rw (bad, register_provided_buffers_on) (inl (e, refl, refl))
        | inl (n, good) ↦
            rw (good, register_provided_buffers_on)
              (elim (Result-cases (os.mmap s n).1) [
                | inr (e, first) ↦ rw first (inl (_, refl, law.mmap_err s n e first))
                | inl (a, first) ↦ rw first (
                    register_mapped-Settled bits resources (os.mmap s n).0 a n bgid count buf_size
                      flags m (mapped s) (law.mmap_ok s n a first))
              ])
      ]
