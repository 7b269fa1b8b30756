-- ===== src/Ring/Probe.antt =====
-- src/ring/probe.rs: what the kernel reports to support.
pub mod Supported
use ququmatz.Base.{
  ℕ, Bool, true, false, not, ◌&&◌, ◌||◌, ◌==◌, List, [], ◌∷◌, take, replicate, Result, ok, err,
  bit_and,
}
use ququmatz.Base.Int.{ℤ}
use ququmatz.Error.{Error}
use ququmatz.Ring.Syscall.{check}

-- `struct ProbeOp`, without its reserved fields.
pub record ProbeOp : Type 0 where
  pub op : ℕ
  pub flags : ℕ

-- `struct Probe`, with the two fields of its header that are not reserved.
pub record Probe : Type 0 where
  pub last_op : ℕ
  pub ops_len : ℕ
  pub ops : List ProbeOp

abbrev pub probe_slots : ℕ
probe_slots = 256

-- `Probe::SUPPORTED`
abbrev pub supported_flag : ℕ
supported_flag = 1

-- `ProbeOp::default()`
abbrev pub no_op : ProbeOp
no_op = record { op = 0; flags = 0 }

abbrev pub empty_probe : Probe
empty_probe = record { last_op = 0; ops_len = 0; ops = replicate probe_slots no_op }

-- `any` over a slice.
abbrev pub any {ℓ} : {A : Type ℓ} → (A → Bool) → List A → Bool
any f [] = false
any f (x ∷ xs) = f x || any f xs

-- The closure of `supports_raw`.
abbrev pub implements : ℕ → ProbeOp → Bool
implements raw entry = (entry.op == raw) && not (bit_and entry.flags supported_flag == 0)

-- `Probe::reported`
abbrev pub reported : Probe → ℕ
reported p = p.ops_len

-- `Probe::supports_raw`; an opcode is its number, so `supports` is the same.
unfoldable pub supports_raw : Probe → ℕ → Bool
supports_raw p raw = any (implements raw) (take (reported p) p.ops)

-- `Probe::interrogate`: the kernel fills the probe that it is given (opcode 8).
unfoldable pub interrogate {ℓ} :
    {S : Type ℓ} → (S → ℕ → ℕ → Probe → ℕ → S × Probe × ℤ) → S → ℕ → S × Result Probe Error
interrogate register s fd =
    let (s', probe, ret) = register s fd 8 empty_probe probe_slots in
    (s', elim (check ret) [ ok n ↦ ok probe | err e ↦ err (Error.syscall e) ])
