-- ===== src/Owned/Futex.antt =====
-- src/owned/futex.rs: waiting on a futex and waking its waiters. These requests own no memory.
pub mod Waits
use ququmatz.Base.{ℕ, Bool, false, ◌==◌, if◌then◌else◌, Result, ok, err, none, some}
use ququmatz.Base.Int.{ℤ, pos, negsuc, neg_i32, u32_of_i32, i32_of_u32}
use ququmatz.Types.{IoUringSqe, zeroed}
use ququmatz.Error.{Error, Errno, errno, from_failed_cqe}
use ququmatz.Op
use ququmatz.Owned.Event.{Receipt, belongs_to}
use ququmatz.Owned.Timeout.{is_negsuc}

abbrev pub opcode_futex_wait : ℕ
opcode_futex_wait = 51

abbrev pub opcode_futex_wake : ℕ
opcode_futex_wake = 52

-- `Sqe::futex_wait` and `Sqe::futex_wake`
abbrev pub futex_wait : ℕ → ℕ → ℕ → ℕ → IoUringSqe
futex_wait uaddr val mask flags = record zeroed {
  opcode = opcode_futex_wait;
  fd = i32_of_u32 flags;
  off = val;
  addr = uaddr;
  addr3 = mask;
}

abbrev pub futex_wake : ℕ → ℕ → ℕ → ℕ → IoUringSqe
futex_wake uaddr count mask flags = record zeroed {
  opcode = opcode_futex_wake;
  fd = i32_of_u32 flags;
  off = count;
  addr = uaddr;
  addr3 = mask;
}

pub data FutexWaitOutcome : Type 0 where
  woken value_mismatch cancelled : FutexWaitOutcome
  failed : Errno → FutexWaitOutcome

-- `z == 0`
abbrev pub is_zero : ℤ → Bool
is_zero (pos n) = n == 0
is_zero (negsuc n) = false

-- `FutexWaitOutcome::from_raw`: -11 is `-EAGAIN` and -125 is `-ECANCELED`.
unfoldable pub from_raw : ℤ → FutexWaitOutcome
from_raw result =
    if is_zero result
    then woken
    else if is_negsuc 10 result
    then value_mismatch
    else if is_negsuc 124 result
    then cancelled
    else failed (errno (neg_i32 result))

pub record PreparedFutexWait : Type 0 where
  pub uaddr : ℕ
  pub val : ℕ
  pub mask : ℕ
  pub flags : ℕ

pub record PreparedFutexWake : Type 0 where
  pub uaddr : ℕ
  pub count : ℕ
  pub mask : ℕ
  pub flags : ℕ

-- `PendingFutexWait` and `PendingFutexWake` have the same fields, as have what they are redeemed for.
pub record PendingFutex : Type 0 where
  pub ring : ℕ
  pub id : ℕ
  pub uaddr : ℕ

pub record FutexDone : Type 0 where
  pub id : ℕ
  pub result : ℤ

unfoldable pub wait_into_pending : PreparedFutexWait → ℕ → ℕ → IoUringSqe × PendingFutex
wait_into_pending p ring id = (
  Op.user_data (futex_wait p.uaddr p.val p.mask p.flags) id,
  record { ring = ring; id = id; uaddr = p.uaddr },
)

unfoldable pub wake_into_pending : PreparedFutexWake → ℕ → ℕ → IoUringSqe × PendingFutex
wake_into_pending p ring id = (
  Op.user_data (futex_wake p.uaddr p.count p.mask p.flags) id,
  record { ring = ring; id = id; uaddr = p.uaddr },
)

unfoldable pub redeem : PendingFutex → Receipt → Result FutexDone (PendingFutex × Receipt)
redeem p receipt =
    if belongs_to receipt p.ring p.id
    then ok (record { id = p.id; result = receipt.result })
    else err (p, receipt)

-- `FutexWaitDone::outcome`
unfoldable pub outcome : FutexDone → FutexWaitOutcome
unfolding from_raw
outcome d = from_raw d.result

-- `FutexWakeDone::woken`
unfoldable pub woken_count : FutexDone → Result ℕ Error
woken_count d = elim (from_failed_cqe d.result) [ some e ↦ err e | none ↦ ok (u32_of_i32 d.result) ]
