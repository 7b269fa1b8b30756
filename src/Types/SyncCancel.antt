-- ===== src/Types/SyncCancel.antt =====
-- src/types/cancel.rs: the argument of the cancelling that waits.
use ququmatz.Base.{ℕ, Option, none, some, bit_or}
use ququmatz.Base.Int.{ℤ, pos, negsuc}
use ququmatz.Op.{cancel_by_fd, cancel_by_any}
use ququmatz.Owned.Timeout.{Timespec}

pub data SyncCancelKey : Type 0 where
  user_data : ℕ → SyncCancelKey
  fd : ℤ → SyncCancelKey
  any : SyncCancelKey

-- `struct RawTimeout`
pub record RawTimeout : Type 0 where
  pub tv_sec : ℤ
  pub tv_nsec : ℤ

-- `RawTimeout::NONE`
abbrev pub no_timeout : RawTimeout
no_timeout = record { tv_sec = negsuc 0; tv_nsec = negsuc 0 }

-- `impl From<Timespec> for RawTimeout`
abbrev pub raw_timeout : Timespec → RawTimeout
raw_timeout ts = record { tv_sec = ts.tv_sec; tv_nsec = ts.tv_nsec }

-- `struct SyncCancelReg`; an opcode is its number.
pub record SyncCancelReg : Type 0 where
  pub key : SyncCancelKey
  pub flags : ℕ
  pub opcode : Option ℕ
  pub timeout : Option Timespec

-- `struct RawSyncCancelReg`, without its padding, which is zero.
pub record RawSyncCancelReg : Type 0 where
  pub addr : ℕ
  pub fd : ℤ
  pub flags : ℕ
  pub timeout : RawTimeout
  pub opcode : ℕ

abbrev pub cancel_by_op : ℕ
cancel_by_op = 32

-- `SyncCancelReg::user_data`, `fd` and `any`
unfoldable pub reg_of : SyncCancelKey → ℕ → SyncCancelReg
reg_of key flags = record { key = key; flags = flags; opcode = none; timeout = none }

unfoldable pub matching_opcode : SyncCancelReg → ℕ → SyncCancelReg
matching_opcode r opcode = record r { opcode = some opcode }

-- `SyncCancelReg::timeout`
unfoldable pub with_timeout : SyncCancelReg → Timespec → SyncCancelReg
with_timeout r ts = record r { timeout = some ts }

-- The match on the key in `as_raw`: the flags, the address and the descriptor.
abbrev pub keyed : SyncCancelKey → ℕ → ℕ × ℕ × ℤ
keyed (user_data target) flags = (flags, target, pos 0)
keyed (fd target) flags = (bit_or flags cancel_by_fd, 0, target)
keyed any flags = (bit_or flags cancel_by_any, 0, pos 0)

-- `map_or` on the opcode in `as_raw`: the flags and the opcode.
abbrev pub narrowed : Option ℕ → ℕ → ℕ × ℕ
narrowed none flags = (flags, 0)
narrowed (some op) flags = (bit_or flags cancel_by_op, op)

-- `map_or` on the timeout in `as_raw`.
abbrev pub waited : Option Timespec → RawTimeout
waited none = no_timeout
waited (some ts) = raw_timeout ts

-- `SyncCancelReg::as_raw`
unfoldable pub as_raw : SyncCancelReg → RawSyncCancelReg
as_raw r =
    let (by_key, addr, target) = keyed r.key r.flags in
    let (flags, op) = narrowed r.opcode by_key in
    record { addr = addr; fd = target; flags = flags; timeout = waited r.timeout; opcode = op }
