-- ===== src/Ring/Builder/Settings.antt =====
-- src/ring/builder.rs: what the parameters are after a chain of methods.
use ququmatz.Base.{ℕ, ◌+◌, ◌^◌, ◌≡◌, ◌∙◌, ◌↔◌, refl, sym, ap, List, [], ◌∷◌, bit_and, bit_or}
use ququmatz.Base.Bits.{bit_or_disjoint, bit_or_apart}
use ququmatz.Types.{IoUringParams}
use ququmatz.Ring.Builder.{
  IoUringBuilder, Setting, iopoll, clamp, single_issuer, coop_taskrun, defer_taskrun, r_disabled,
  submit_all, taskrun_flag, no_sqarray, no_mmap, sqpoll, sqpoll_cpu, cq_entries, attach_wq,
  with_flags, added, assign, set, configure,
}

-- The flags that a method is documented to ask for, by the numbers of io_uring_setup(2).
abbrev pub asked : Setting → ℕ
asked iopoll = 2 ^ 0
asked (sqpoll idle_ms) = 2 ^ 1
asked (sqpoll_cpu cpu) = 2 ^ 1 + 2 ^ 2
asked (cq_entries n) = 2 ^ 3
asked clamp = 2 ^ 4
asked (attach_wq wq_fd) = 2 ^ 5
asked r_disabled = 2 ^ 6
asked submit_all = 2 ^ 7
asked coop_taskrun = 2 ^ 8
asked taskrun_flag = 2 ^ 9
asked single_issuer = 2 ^ 12
asked defer_taskrun = 2 ^ 13 + 2 ^ 8
asked no_mmap = 2 ^ 14
asked no_sqarray = 2 ^ 16
asked (with_flags flags) = flags

-- No method of a chain asks for a bit of the mask.
abbrev pub NoneAsks : ℕ → List Setting → Type 0
NoneAsks mask [] = Unit
NoneAsks mask (s ∷ ss) = (bit_and (asked s) mask ≡ 0) × NoneAsks mask ss

-- The last value that a chain gives to a field, or the one before it.
abbrev pub last_idle : List Setting → ℕ → ℕ
last_idle [] n = n
last_idle (sqpoll idle_ms ∷ ss) n = last_idle ss idle_ms
last_idle (_ ∷ ss) n = last_idle ss n

abbrev pub last_cpu : List Setting → ℕ → ℕ
last_cpu [] n = n
last_cpu (sqpoll_cpu cpu ∷ ss) n = last_cpu ss cpu
last_cpu (_ ∷ ss) n = last_cpu ss n

abbrev pub last_cq_entries : List Setting → ℕ → ℕ
last_cq_entries [] n = n
last_cq_entries (cq_entries m ∷ ss) n = last_cq_entries ss m
last_cq_entries (_ ∷ ss) n = last_cq_entries ss n

abbrev pub last_wq_fd : List Setting → ℕ → ℕ
last_wq_fd [] n = n
last_wq_fd (attach_wq wq_fd ∷ ss) n = last_wq_fd ss wq_fd
last_wq_fd (_ ∷ ss) n = last_wq_fd ss n

asked-added : (s : Setting) → asked s ≡ added s
unfolding added
asked-added iopoll = refl
asked-added (sqpoll idle_ms) = refl
asked-added (sqpoll_cpu cpu) = refl
asked-added (cq_entries n) = refl
asked-added clamp = refl
asked-added (attach_wq wq_fd) = refl
asked-added r_disabled = refl
asked-added submit_all = refl
asked-added coop_taskrun = refl
asked-added taskrun_flag = refl
asked-added single_issuer = refl
asked-added defer_taskrun = refl
asked-added no_mmap = refl
asked-added no_sqarray = refl
asked-added (with_flags flags) = refl

-- The parameters after a chain, given those before it and the flags after it.
abbrev pub params_after : List Setting → IoUringParams → ℕ → IoUringParams
params_after ss p flags = record p {
  flags = flags;
  sq_thread_idle = last_idle ss p.sq_thread_idle;
  sq_thread_cpu = last_cpu ss p.sq_thread_cpu;
  cq_entries = last_cq_entries ss p.cq_entries;
  wq_fd = last_wq_fd ss p.wq_fd;
}

-- One method sets the flags, and hands on the rest as a chain of one.
params-set :
    (s : Setting) (b : IoUringBuilder)
    → (set s b).params ≡ params_after (s ∷ []) b.params (bit_or b.params.flags (added s))
unfolding set assign added
params-set iopoll b = refl
params-set (sqpoll idle_ms) b = refl
params-set (sqpoll_cpu cpu) b = refl
params-set (cq_entries n) b = refl
params-set clamp b = refl
params-set (attach_wq wq_fd) b = refl
params-set r_disabled b = refl
params-set submit_all b = refl
params-set coop_taskrun b = refl
params-set taskrun_flag b = refl
params-set single_issuer b = refl
params-set defer_taskrun b = refl
params-set no_mmap b = refl
params-set no_sqarray b = refl
params-set (with_flags flags) b = refl

-- Two chains, one behind the other.
after-after :
    (s : Setting) (ss : List Setting) (p : IoUringParams) (f g : ℕ)
    → params_after ss (params_after (s ∷ []) p f) g ≡ params_after (s ∷ ss) p g
after-after iopoll ss p f g = refl
after-after (sqpoll idle_ms) ss p f g = refl
after-after (sqpoll_cpu cpu) ss p f g = refl
after-after (cq_entries n) ss p f g = refl
after-after clamp ss p f g = refl
after-after (attach_wq wq_fd) ss p f g = refl
after-after r_disabled ss p f g = refl
after-after submit_all ss p f g = refl
after-after coop_taskrun ss p f g = refl
after-after taskrun_flag ss p f g = refl
after-after single_issuer ss p f g = refl
after-after defer_taskrun ss p f g = refl
after-after no_mmap ss p f g = refl
after-after no_sqarray ss p f g = refl
after-after (with_flags flags) ss p f g = refl

entries-set : (s : Setting) (b : IoUringBuilder) → (set s b).entries ≡ b.entries
unfolding set
entries-set s b = refl

pub params-configure :
    (ss : List Setting) (b : IoUringBuilder)
    → let c = configure ss b in
      (c.params ≡ params_after ss b.params c.params.flags) × (c.entries ≡ b.entries)
unfolding configure
params-configure [] b = (refl, refl)
params-configure (s ∷ ss) b =
    let (rest, same) = params-configure ss (set s b) in
    let g = (configure ss (set s b)).params.flags in
    (
      rest
          ∙ ap (λ p. params_after ss p g) (params-set s b)
          ∙ after-after s ss b.params (bit_or b.params.flags (added s)) g,
      same ∙ entries-set s b,
    )

-- A mask finds nothing in the flags after a chain exactly when it found nothing in those before it,
-- and no method of the chain asks for a bit of it.
pub flags-configure :
    (mask : ℕ) (ss : List Setting) (b : IoUringBuilder)
    → (bit_and (configure ss b).params.flags mask ≡ 0)
      ↔ ((bit_and b.params.flags mask ≡ 0) × NoneAsks mask ss)
unfolding configure
flags-configure mask [] b = (λ e. (e, tt), λ h. h.0)
flags-configure mask (s ∷ ss) b =
    let (split, join) = flags-configure mask ss (set s b) in
    let flags = b.params.flags in
    let step : bit_and (set s b).params.flags mask ≡ bit_and (bit_or flags (asked s)) mask =
      ap (λ p. bit_and p.flags mask) (params-set s b)
      ∙ ap (λ f. bit_and (bit_or flags f) mask) (sym (asked-added s)) in
    (
      λ e.
          let (now, later) = split e in
          let (before, own) = bit_or_apart flags (asked s) mask (sym step ∙ now) in
          (before, (own, later)),
      λ h. join (step ∙ bit_or_disjoint flags (asked s) mask h.0 h.1.0, h.1.1),
    )
