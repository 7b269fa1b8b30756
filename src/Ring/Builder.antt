-- ===== src/Ring/Builder.antt =====
-- src/ring/builder.rs: the parameters of a ring, set one after another.
pub mod Settings
pub mod Flags
use ququmatz.Base.{ℕ, ◌==◌, if◌then◌else◌, Result, Option, some, none, List, [], ◌∷◌, bit_or}
use ququmatz.Types.{IoUringParams, default_params}
use ququmatz.Types.SetupFlags
use ququmatz.Error.{Error}
use ququmatz.Ring.Kernel.{Kernel}
use ququmatz.Ring.Setup.{NewRing, from_params}

pub record IoUringBuilder : Type 0 where
  pub entries : ℕ
  pub params : IoUringParams

-- `new`; `none` is the panic of its assertion.
unfoldable pub new : ℕ → Option IoUringBuilder
new entries =
    if entries == 0 then none else some (record { entries = entries; params = default_params })

-- The methods that set parameters; `with_flags` is `setup_flags`.
pub data Setting : Type 0 where
  iopoll clamp single_issuer coop_taskrun defer_taskrun : Setting
  r_disabled submit_all taskrun_flag no_sqarray no_mmap : Setting
  sqpoll sqpoll_cpu cq_entries attach_wq with_flags : ℕ → Setting

-- The flags that a method adds.
unfoldable pub added : Setting → ℕ
added iopoll = SetupFlags.iopoll
added (sqpoll idle_ms) = SetupFlags.sqpoll
added (sqpoll_cpu cpu) = bit_or SetupFlags.sqpoll SetupFlags.sq_aff
added (cq_entries n) = SetupFlags.cqsize
added clamp = SetupFlags.clamp
added single_issuer = SetupFlags.single_issuer
added coop_taskrun = SetupFlags.coop_taskrun
added defer_taskrun = bit_or SetupFlags.defer_taskrun SetupFlags.coop_taskrun
added (attach_wq wq_fd) = SetupFlags.attach_wq
added r_disabled = SetupFlags.r_disabled
added submit_all = SetupFlags.submit_all
added taskrun_flag = SetupFlags.taskrun_flag
added no_sqarray = SetupFlags.no_sqarray
added no_mmap = SetupFlags.no_mmap
added (with_flags flags) = flags

-- The field that a method sets.
unfoldable pub assign : Setting → IoUringParams → IoUringParams
assign (sqpoll idle_ms) p = record p { sq_thread_idle = idle_ms }
assign (sqpoll_cpu cpu) p = record p { sq_thread_cpu = cpu }
assign (cq_entries n) p = record p { cq_entries = n }
assign (attach_wq wq_fd) p = record p { wq_fd = wq_fd }
assign _ p = p

unfoldable pub set : Setting → IoUringBuilder → IoUringBuilder
unfolding added assign
set s b = record b {
  params = assign s (record (b.params) { flags = bit_or (b.params.flags) (added s) });
}

-- A chain of methods.
unfoldable pub configure : List Setting → IoUringBuilder → IoUringBuilder
unfolding set
configure [] b = b
configure (s ∷ ss) b = configure ss (set s b)

unfoldable pub build : {S : Type 0} → Kernel S → S → IoUringBuilder → S × Result NewRing Error
unfolding from_params
build k s b = from_params k s b.entries b.params
