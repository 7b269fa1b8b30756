-- ===== src/Ring/Pbuf/Register/Drop.antt =====
-- src/ring/pbuf.rs: dropping a pool undoes its registration.
use ququmatz.Base.{
  ℕ, ◌+◌, ◌-◌, ◌%◌, ◌^◌, ◌<◌, ◌==◌, ◌≡◌, ◌∙◌, ap, refl, sym, subst, false, inl, inr, ok, List, [],
  ◌∷◌, some, arith,
}
use ququmatz.Ring.Resources.{RingResources, retain, release}
use ququmatz.Ring.Pbuf.{BufRing}
use ququmatz.Ring.Pbuf.Register.{Memory, Registered, register_provided_buffers_on, drop_pool}
use ququmatz.Ring.Pbuf.Register.Leak.{IsMapping, register-Settled}

-- A share that is taken and given back.
release-retain :
    (r : RingResources)
    → 0 < r.refcount
    → r.refcount + 1 < 2 ^ 64
    → release (retain r) ≡ (some r, [])
unfolding release retain
release-retain r live room =
    let other : ((r.refcount + 1) % 2 ^ 64 == 1) ≡ false = ground arith in
    let back : ((r.refcount + 1) % 2 ^ 64 + 2 ^ 64 - 1) % 2 ^ 64 ≡ r.refcount = omega arith in
    rw (other, back) refl

module _ {S : Type 0} (os : Memory S) (mapped : S → List (ℕ × ℕ)) (law : IsMapping os mapped) where
  drop_pool_lem :
      (s : S) (p : Registered) (before : List (ℕ × ℕ))
      → mapped s
        ≡ (p.pool.bufs_addr, p.regions.bufs_len)
          ∷ (p.regions.ring_addr, p.regions.ring_len)
          ∷ before
      → mapped (drop_pool os s p).0 ≡ before
  unfolding drop_pool
  drop_pool_lem s p before h =
      law.munmap _ p.regions.ring_addr p.regions.ring_len before
        (law.munmap _ p.pool.bufs_addr p.regions.bufs_len _ (law.unregister s p.pool.bgid ∙ h))

  -- Given the documented effect of `mmap`, `munmap` and the registrations on the process's
  -- mappings, dropping a pool that was registered leaves the mappings as they were before the
  -- registration, and the ring's resources with the owners that they had, none of them released, if
  -- these were more than zero and fewer than 2 ^ 64 - 1.
  pub drop-register :
      (bits : ℕ) (resources : RingResources) (s : S) (bgid count buf_size flags : ℕ) (m : BufRing)
      (pool : Registered)
      → 0 < resources.refcount
      → resources.refcount + 1 < 2 ^ 64
      → let (s', r) =
          register_provided_buffers_on os bits resources s bgid count buf_size flags m in
        r ≡ ok pool
        → let (s2, kept, calls) = drop_pool os s' pool in
          (mapped s2 ≡ mapped s) × (kept ≡ some resources) × (calls ≡ [])
  unfolding drop_pool
  drop-register bits resources s bgid count buf_size flags m pool live room h =
      elim (register-Settled os mapped law bits resources s bgid count buf_size flags m) [
        | inl (e, failed, same) ↦ absurd (cc (h, failed))
        | inr (p, done, share, regions) ↦
            let e : p ≡ pool = cc (h, done) in
            let given : release pool.resources ≡ (some resources, []) =
              ap release (ap (λ q. q.resources) (sym e) ∙ share)
              ∙ release-retain resources live room in
            let s' =
              (register_provided_buffers_on os bits resources s bgid count buf_size flags m).0 in
            (
              subst (λ q. mapped (drop_pool os s' q).0 ≡ mapped s) e
                  (drop_pool_lem s' p (mapped s) regions),
              ap (λ g. g.0) given,
              ap (λ g. g.1) given,
            )
      ]
