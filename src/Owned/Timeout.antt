-- ===== src/Owned/Timeout.antt =====
-- src/owned/timeout.rs: how a timeout ended, and what it waits for.
use ququmatz.Base.{ℕ, ◌%◌, ◌^◌, Bool, true, false, ◌==◌, if◌then◌else◌, Result}
use ququmatz.Base.Int.{ℤ, pos, negsuc, is_neg, neg_i32}
use ququmatz.Error.{Errno, errno}
use ququmatz.Op.{timeout_ptr}
use ququmatz.Owned.{StableBuffer}
use ququmatz.Owned.StagedValue
use ququmatz.Owned.StagedValue.{ValueOp, ValuePrepared, Values}

pub data Count : Type 0 where
  timer : Count
  completions : ℕ → Count

-- `Count::raw`
unfoldable pub raw : Count → ℕ
raw timer = 0
raw (completions n) = n

pub data Expiry : Type 0 where
  expired : Expiry
  count_reached : Expiry
  cancelled : Expiry
  failed : Errno → Expiry

-- `z == -(n + 1)`
abbrev pub is_negsuc : ℕ → ℤ → Bool
is_negsuc n (pos m) = false
is_negsuc n (negsuc m) = m == n

-- `Expiry::from_raw`: -62 is `-ETIME` and -125 is `-ECANCELED`.
unfoldable pub from_raw : ℤ → Expiry
from_raw result =
    if is_negsuc 61 result
    then expired
    else if is_negsuc 124 result
    then cancelled
    else if is_neg result
    then failed (errno (neg_i32 result))
    else count_reached

unfoldable pub is_expired : Expiry → Bool
is_expired expired = true
is_expired count_reached = false
is_expired cancelled = false
is_expired (failed e) = false

unfoldable pub is_ok : Expiry → Bool
is_ok expired = true
is_ok count_reached = true
is_ok cancelled = true
is_ok (failed e) = false

-- `struct Timespec`, and the flag that makes it a point in time.
pub record Timespec : Type 0 where
  pub tv_sec : ℤ
  pub tv_nsec : ℤ

abbrev pub timeout_abs : ℕ
timeout_abs = 1

pub data TimeoutError : Type 0 where
  store_too_small : ℕ → ℕ → TimeoutError
  store_misaligned : ℕ → TimeoutError

pub record TimeoutCtx : Type 0 where
  pub duration : Timespec
  pub count : Count
  pub flags : ℕ

-- `impl ValueOp for TimeoutOp`; a count of `u32` loses nothing.
abbrev pub timeout_op : ValueOp TimeoutCtx Count Timespec Expiry TimeoutError
timeout_op = record {
  bytes = 16;
  align = 8;
  too_small = store_too_small;
  misaligned = store_misaligned;
  value = λ ctx. ctx.duration;
  build_sqe = λ ctx addr. timeout_ptr addr (raw ctx.count % 2 ^ 32) ctx.flags;
  info = λ ctx. ctx.count;
  classify = from_raw;
}

module _ {S : Type 0} (stable : StableBuffer S) where
  -- `PreparedTimeout::after` and `at`
  unfoldable pub after :
      Values Timespec
      → Timespec
      → Count
      → S
      → Result (ValuePrepared S TimeoutCtx × Values Timespec) (S × TimeoutError)
  unfolding StagedValue.new
  after m duration count storage =
      StagedValue.new timeout_op stable m (record { duration = duration; count = count; flags = 0 })
        storage

  unfoldable pub at :
      Values Timespec
      → Timespec
      → Count
      → S
      → Result (ValuePrepared S TimeoutCtx × Values Timespec) (S × TimeoutError)
  unfolding StagedValue.new
  at m deadline count storage =
      StagedValue.new timeout_op stable m
        (record { duration = deadline; count = count; flags = timeout_abs }) storage
