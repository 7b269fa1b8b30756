-- ===== src/Ring/Builder/Flags.antt =====
-- src/ring/builder.rs: the flags that a chain of its methods can set.
use ququmatz.Base.{
  ℕ, ◌-◌, ◌≡◌, ◌∙◌, ◌↔◌, ap, subst, bit_and, refl, if◌then◌else◌, some, none, List, [], ◌∷◌, bit_or,
  arith,
}
use ququmatz.Base.Word.{u32_max, zero-bit_and}
use ququmatz.Base.Bits.{bit_or_disjoint}
use ququmatz.Types.{IoUringParams, default_params, contains}
use ququmatz.Types.SetupFlags
use ququmatz.Ring.Kernel.{Kernel}
use ququmatz.Ring.Setup.{unsupported, supported_mask, from_params, enter_setup, enter_pinned}
use ququmatz.Ring.Builder.Settings.{
  NoneAsks, last_idle, last_cpu, last_cq_entries, last_wq_fd, params_after, params-configure,
  flags-configure,
}
use ququmatz.Ring.Builder.{
  IoUringBuilder, Setting, iopoll, clamp, single_issuer, coop_taskrun, defer_taskrun, r_disabled,
  submit_all, taskrun_flag, no_sqarray, no_mmap, sqpoll, sqpoll_cpu, cq_entries, attach_wq,
  with_flags, new, added, assign, set, configure, build,
}

-- Flags that are given whole are unions of named ones.
abbrev pub IsNamed : Setting → Type 0
IsNamed (with_flags flags) = unsupported flags ≡ 0
IsNamed _ = Unit

abbrev pub AllNamed : List Setting → Type 0
AllNamed [] = Unit
AllNamed (s ∷ ss) = IsNamed s × AllNamed ss

unsupported-added : (s : Setting) → IsNamed s → unsupported (added s) ≡ 0
unfolding added unsupported
unsupported-added iopoll h = refl
unsupported-added (sqpoll idle_ms) h = refl
unsupported-added (sqpoll_cpu cpu) h = refl
unsupported-added (cq_entries n) h = refl
unsupported-added clamp h = refl
unsupported-added single_issuer h = refl
unsupported-added coop_taskrun h = refl
unsupported-added defer_taskrun h = refl
unsupported-added (attach_wq wq_fd) h = refl
unsupported-added r_disabled h = refl
unsupported-added submit_all h = refl
unsupported-added taskrun_flag h = refl
unsupported-added no_sqarray h = refl
unsupported-added no_mmap h = refl
unsupported-added (with_flags flags) h = h

-- No method's assignment touches the flags.
flags-assign : (s : Setting) (p : IoUringParams) → (assign s p).flags ≡ p.flags
unfolding assign
flags-assign iopoll p = refl
flags-assign clamp p = refl
flags-assign single_issuer p = refl
flags-assign coop_taskrun p = refl
flags-assign defer_taskrun p = refl
flags-assign r_disabled p = refl
flags-assign submit_all p = refl
flags-assign taskrun_flag p = refl
flags-assign no_sqarray p = refl
flags-assign no_mmap p = refl
flags-assign (sqpoll idle_ms) p = refl
flags-assign (sqpoll_cpu cpu) p = refl
flags-assign (cq_entries n) p = refl
flags-assign (attach_wq wq_fd) p = refl
flags-assign (with_flags flags) p = refl

unsupported-set :
    (s : Setting) (b : IoUringBuilder)
    → IsNamed s
    → unsupported b.params.flags ≡ 0
    → unsupported (set s b).params.flags ≡ 0
unfolding set unsupported
unsupported-set s b h e =
    let q = record (b.params) { flags = bit_or (b.params.flags) (added s) } in
    rw (flags-assign s q) (
      bit_or_disjoint b.params.flags (added s) (u32_max - supported_mask) e (unsupported-added s h))

unsupported-configure :
    (ss : List Setting) (b : IoUringBuilder)
    → AllNamed ss
    → unsupported b.params.flags ≡ 0
    → unsupported (configure ss b).params.flags ≡ 0
unfolding configure
unsupported-configure [] b h e = e
unsupported-configure (s ∷ ss) b (h, hs) e =
    unsupported-configure ss (set s b) hs (unsupported-set s b h e)

new_lem :
    (entries : ℕ) (b : IoUringBuilder)
    → new entries ≡ some b
    → record { entries = entries; params = default_params } ≡ b
unfolding new
new_lem entries b e = ground arith

-- Parameters without unsupported flags are not refused for them.
build_lem :
    {S : Type 0} (k : Kernel S) (s : S) (b : IoUringBuilder)
    → unsupported b.params.flags ≡ 0
    → build k s b ≡ (
        if contains b.params.flags SetupFlags.no_mmap
        then enter_pinned k s b.entries b.params
        else enter_setup k s b.entries b.params b.params.flags none)
unfolding build from_params
build_lem k s b clean = rw (clean) refl

-- A new builder that any chain of its methods has configured, where flags given whole are unions of
-- named ones, is never refused for its flags: building it goes on to the setup call, or to the
-- allocation of the ring's memory if the flags ask for it. A mask finds nothing in the flags then
-- exactly when no method of the chain is documented to ask for a bit of it, and each of the fields
-- for the idle time, the processor, the completion entries and the shared ring has the last value
-- that its method was given, or zero, while all others are as by default.
pub build-configure :
    {S : Type 0} (k : Kernel S) (s : S) (entries : ℕ) (b : IoUringBuilder) (ss : List Setting)
    (mask : ℕ)
    → new entries ≡ some b
    → AllNamed ss
    → let q = (configure ss b).params in
      (build k s (configure ss b) ≡ (
        if contains q.flags SetupFlags.no_mmap
        then enter_pinned k s entries q
        else enter_setup k s entries q q.flags none))
      × ((bit_and q.flags mask ≡ 0) ↔ NoneAsks mask ss)
      × (q ≡ record default_params {
        flags = q.flags;
        sq_thread_idle = last_idle ss 0;
        sq_thread_cpu = last_cpu ss 0;
        cq_entries = last_cq_entries ss 0;
        wq_fd = last_wq_fd ss 0;
      })
unfolding unsupported
build-configure k s entries b ss mask e h =
    let fresh = new_lem entries b e in
    let start : unsupported b.params.flags ≡ 0 = rw (← fresh) refl in
    let clean = unsupported-configure ss b h start in
    let (fields, same) = params-configure ss b in
    let whole : (configure ss b).entries ≡ entries = same ∙ rw (← fresh) refl in
    let (asks, clear) = flags-configure mask ss b in
    let params_new : b.params ≡ default_params = rw (← fresh) refl in
    let before : bit_and b.params.flags mask ≡ 0 = rw (← fresh) (zero-bit_and mask) in
    (
      subst
          (λ n. build k s (configure ss b) ≡ (
            if contains (configure ss b).params.flags SetupFlags.no_mmap
            then enter_pinned k s n (configure ss b).params
            else enter_setup k s n (configure ss b).params (configure ss b).params.flags none))
          whole (build_lem k s (configure ss b) clean),
      (λ m. (asks m).1, λ n. clear (before, n)),
      fields ∙ ap (λ p. params_after ss p (configure ss b).params.flags) params_new,
    )
