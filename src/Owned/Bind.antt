-- ===== src/Owned/Bind.antt =====
-- src/owned/bind.rs: a `bind` whose address is staged.
use ququmatz.Base.{ℕ, Bool, true, false, if◌then◌else◌, Result}
use ququmatz.Base.Int.{ℤ, is_neg, neg_i32}
use ququmatz.Types.{SockAddrIn}
use ququmatz.Error.{Errno, errno}
use ququmatz.Op.{bind_ptr}
use ququmatz.Owned.{StableBuffer}
use ququmatz.Owned.Timeout.{is_negsuc}
use ququmatz.Owned.StagedAddr
use ququmatz.Owned.StagedAddr.{AddrOp, StagedPrepared, NeBytes, Bytes}

pub data BindOutcome : Type 0 where
  bound address_in_use already_bound permission_denied : BindOutcome
  failed : Errno → BindOutcome

-- `BindOutcome::from_raw`: -98 is `-EADDRINUSE`, -22 is `-EINVAL` and -13 is `-EACCES`.
unfoldable pub from_raw : ℤ → BindOutcome
from_raw result =
    if is_negsuc 97 result
    then address_in_use
    else if is_negsuc 21 result
    then already_bound
    else if is_negsuc 12 result
    then permission_denied
    else if is_neg result
    then failed (errno (neg_i32 result))
    else bound

abbrev pub is_bound : BindOutcome → Bool
is_bound bound = true
is_bound address_in_use = false
is_bound already_bound = false
is_bound permission_denied = false
is_bound (failed e) = false

pub data BindError : Type 0 where
  store_too_small : ℕ → ℕ → BindError

-- `impl AddrOp for BindOp`
abbrev pub bind_op : AddrOp BindOutcome BindError
bind_op = record { too_small = store_too_small; build_sqe = bind_ptr; classify = from_raw }

-- `PreparedBind::new`
unfoldable pub new :
    {S : Type 0}
    → NeBytes
    → StableBuffer S
    → Bytes
    → ℤ
    → SockAddrIn
    → S
    → Result (StagedPrepared S × Bytes) (S × BindError)
unfolding StagedAddr.new
new order stable m fd addr store = StagedAddr.new bind_op order stable m fd addr store
