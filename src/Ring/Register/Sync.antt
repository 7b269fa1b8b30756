-- ===== src/Ring/Register/Sync.antt =====
-- src/ring/register.rs: what the kernel reads from the argument of `sync_cancel`, and what the
-- program reads from its answer.
use ququmatz.Base.{
  ℕ, suc, ◌^◌, ◌<◌, ◌≡◌, Bool, false, ◌&&◌, if◌then◌else◌, ◌==◌, Option, none, some, bit_and,
}
use ququmatz.Base.Int.{ℤ, pos, negsuc, is_neg}
use ququmatz.Types.{contains}
use ququmatz.Types.SyncCancel.{SyncCancelKey, SyncCancelReg, RawSyncCancelReg}
use ququmatz.Owned.Timeout.{Timespec}
use ququmatz.Owned.Cancel.{CancelOutcome, applied, not_found, already_completing, failed}
use ququmatz.Error.{errno}

-- What the kernel documents to read: the key, the opcode that must match, and the time to wait.
unfoldable pub read_key : RawSyncCancelReg → SyncCancelKey
read_key r =
    if contains r.flags 4
    then SyncCancelKey.any
    else if contains r.flags 2
    then SyncCancelKey.fd r.fd
    else SyncCancelKey.user_data r.addr

unfoldable pub read_opcode : RawSyncCancelReg → Option ℕ
read_opcode r = if contains r.flags 32 then some r.opcode else none

abbrev is_minus_one : ℤ → Bool
is_minus_one (pos n) = false
is_minus_one (negsuc n) = n == 0

unfoldable pub read_wait : RawSyncCancelReg → Option Timespec
read_wait r =
    if is_minus_one r.timeout.tv_sec && is_minus_one r.timeout.tv_nsec
    then none
    else some (record { tv_sec = r.timeout.tv_sec; tv_nsec = r.timeout.tv_nsec })

-- The nanoseconds of a time, if there is one, are not negative, as `Timespec::new` ensures.
abbrev pub IsTime : Option Timespec → Type 0
IsTime none = Unit
IsTime (some ts) = is_neg ts.tv_nsec ≡ false

-- Only the flag ALL and the one of registered descriptors are chosen by a caller.
pub record IsPlain (flags : ℕ) : Type 0 where
  pub no_fd : bit_and flags 2 ≡ 0
  pub no_any : bit_and flags 4 ≡ 0
  pub no_op : bit_and flags 32 ≡ 0

abbrev made : SyncCancelKey → ℕ → Option ℕ → Option Timespec → SyncCancelReg
made key flags op wait = record { key = key; flags = flags; opcode = op; timeout = wait }

-- What a system call of this kind leaves: an error, or a number of requests.
abbrev pub IsAnswer : ℤ → Type 0
IsAnswer (pos n) = n < 2 ^ 31
IsAnswer (negsuc n) = n < 4095

-- What the outcomes are documented to mean: a number of requests, `-ENOENT`, `-EALREADY`, or any
-- other error.
abbrev pub documented : ℤ → CancelOutcome
documented (pos n) = applied n
documented (negsuc n) =
    if suc n == 2
    then not_found
    else if suc n == 114
    then already_completing
    else failed (errno (pos (suc n)))
