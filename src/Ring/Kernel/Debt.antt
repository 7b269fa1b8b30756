-- ===== src/Ring/Kernel/Debt.antt =====
-- src/syscall/mod.rs: what a program owes to the kernel, as the cleanup that gives it back.
use ququmatz.Base.{ℕ, ◌+◌, ◌-◌, ◌≡◌, refl, ◌==◌, ok, err, List, [], ◌∷◌, ◌++◌, arith}
use ququmatz.Types.{IoUringParams}
use ququmatz.Ring.Resources.{MappedRegion, Cleanup, unmap_some}
use ququmatz.Ring.Resources
use ququmatz.Ring.Kernel.{Kernel, Backing, Holdings, IsDocumented, perform, same_region, one_if}

-- How often a cleanup unmaps a region, and closes a descriptor.
unfoldable pub unmaps : List Cleanup → MappedRegion → ℕ
unmaps [] r = 0
unmaps (Resources.munmap x ∷ cs) r = one_if (same_region r x.addr x.len) + unmaps cs r
unmaps (Resources.close fd ∷ cs) r = unmaps cs r

unfoldable pub closes : List Cleanup → ℕ → ℕ
closes [] g = 0
closes (Resources.munmap x ∷ cs) g = closes cs g
closes (Resources.close fd ∷ cs) g = one_if (g == fd) + closes cs g

pub unmaps-append :
    (cs ds : List Cleanup) (r : MappedRegion) → unmaps (cs ++ ds) r ≡ unmaps cs r + unmaps ds r
unfolding unmaps
unmaps-append [] ds r = omega arith
unmaps-append (Resources.munmap x ∷ cs) ds r = rw (unmaps-append cs ds r) (omega arith)
unmaps-append (Resources.close fd ∷ cs) ds r = unmaps-append cs ds r

pub closes-append : (cs ds : List Cleanup) (g : ℕ) → closes (cs ++ ds) g ≡ closes cs g + closes ds g
unfolding closes
closes-append [] ds g = omega arith
closes-append (Resources.munmap x ∷ cs) ds g = closes-append cs ds g
closes-append (Resources.close fd ∷ cs) ds g = rw (closes-append cs ds g) (omega arith)

module _ {S : Type 0} (h : Holdings S) where
  -- `t` holds what `s` holds and, besides, what the cleanup gives back.
  pub record Owes (s t : S) (cs : List Cleanup) : Type 0 where
    pub regions : (r : MappedRegion) → h.held t r ≡ h.held s r + unmaps cs r
    pub descriptors : (g : ℕ) → h.opened t g ≡ h.opened s g + closes cs g

  pub Owes-nothing : (s : S) → Owes s s []
  unfolding unmaps closes
  Owes-nothing s = record { regions = λ r. omega arith; descriptors = λ g. omega arith }

  -- Two cleanups of the same calls, in any order, are the same debt.
  pub Owes-same :
      (s t : S) (cs ds : List Cleanup)
      → ((r : MappedRegion) → unmaps cs r ≡ unmaps ds r)
      → ((g : ℕ) → closes cs g ≡ closes ds g)
      → Owes s t cs
      → Owes s t ds
  Owes-same s t cs ds u c o = record {
    regions = λ r. rw (← u r) (o.regions r);
    descriptors = λ g. rw (← c g) (o.descriptors g);
  }

  module _ (k : Kernel S) (doc : IsDocumented k h) where
    held-perform :
        (s : S) (cs : List Cleanup) (r : MappedRegion)
        → h.held (perform k s cs) r ≡ h.held s r - unmaps cs r
    unfolding perform unmaps
    held-perform s [] r = omega arith
    held-perform s (Resources.munmap x ∷ cs) r =
        rw (held-perform (k.munmap s x.addr x.len) cs r, doc.munmap_held s x.addr x.len r)
          (omega arith)
    held-perform s (Resources.close fd ∷ cs) r =
        rw (held-perform (k.close s fd) cs r, doc.close_held s fd r) refl

    opened-perform :
        (s : S) (cs : List Cleanup) (g : ℕ)
        → h.opened (perform k s cs) g ≡ h.opened s g - closes cs g
    unfolding perform closes
    opened-perform s [] g = omega arith
    opened-perform s (Resources.munmap x ∷ cs) g =
        rw (opened-perform (k.munmap s x.addr x.len) cs g, doc.munmap_opened s x.addr x.len g) refl
    opened-perform s (Resources.close fd ∷ cs) g =
        rw (opened-perform (k.close s fd) cs g, doc.close_opened s fd g) (omega arith)

    -- The cleanup pays the debt.
    pub Owes-perform : (s t : S) (cs : List Cleanup) → Owes s t cs → Owes s (perform k t cs) []
    unfolding unmaps closes
    Owes-perform s t cs o = record {
      regions = λ r. rw (held-perform t cs r, o.regions r) (omega arith);
      descriptors = λ g. rw (opened-perform t cs g, o.descriptors g) (omega arith);
    }

    -- Each call adds what it makes.
    pub Owes-mmap :
        (s t : S) (cs : List Cleanup) (b : Backing) (n a : ℕ)
        → (k.mmap t b n).1 ≡ ok a
        → Owes s t cs
        → Owes s (k.mmap t b n).0 (Resources.munmap (record { addr = a; len = n }) ∷ cs)
    unfolding unmaps closes
    Owes-mmap s t cs b n a e o = record {
      regions = λ r. rw (doc.mmap_ok t b n a e r, o.regions r) (omega arith);
      descriptors = λ g. rw (doc.mmap_opened t b n g, o.descriptors g) refl;
    }

    pub Owes-mmap_err :
        (s t : S) (cs : List Cleanup) (b : Backing) (n : ℕ) (c : _)
        → (k.mmap t b n).1 ≡ err c
        → Owes s t cs
        → Owes s (k.mmap t b n).0 cs
    Owes-mmap_err s t cs b n c e o = record {
      regions = λ r. rw (doc.mmap_err t b n c e r) (o.regions r);
      descriptors = λ g. rw (doc.mmap_opened t b n g) (o.descriptors g);
    }

    pub Owes-store :
        (s t : S) (cs : List Cleanup) (a v : ℕ) → Owes s t cs → Owes s (k.store t a v) cs
    Owes-store s t cs a v o = record {
      regions = λ r. rw (doc.store_held t a v r) (o.regions r);
      descriptors = λ g. rw (doc.store_opened t a v g) (o.descriptors g);
    }

    pub Owes-setup :
        (s t : S) (cs : List Cleanup) (n : ℕ) (p : IoUringParams) (fd : ℕ)
        → (k.setup t n p).2 ≡ ok fd
        → Owes s t cs
        → Owes s (k.setup t n p).0 (Resources.close fd ∷ cs)
    unfolding unmaps closes
    Owes-setup s t cs n p fd e o = record {
      regions = λ r. rw (doc.setup_held t n p r) (o.regions r);
      descriptors = λ g. rw (doc.setup_ok t n p fd e g, o.descriptors g) (omega arith);
    }

    pub Owes-setup_err :
        (s t : S) (cs : List Cleanup) (n : ℕ) (p : IoUringParams) (c : _)
        → (k.setup t n p).2 ≡ err c
        → Owes s t cs
        → Owes s (k.setup t n p).0 cs
    Owes-setup_err s t cs n p c e o = record {
      regions = λ r. rw (doc.setup_held t n p r) (o.regions r);
      descriptors = λ g. rw (doc.setup_err t n p c e g) (o.descriptors g);
    }
