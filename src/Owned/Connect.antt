-- ===== src/Owned/Connect.antt =====
-- src/owned/connect.rs: a `connect` whose address is staged.
use ququmatz.Base.{ℕ, Bool, true, false, if◌then◌else◌, Result}
use ququmatz.Base.Int.{ℤ, is_neg, neg_i32}
use ququmatz.Types.{SockAddrIn}
use ququmatz.Error.{Errno, errno}
use ququmatz.Op.{connect_ptr}
use ququmatz.Owned.{StableBuffer}
use ququmatz.Owned.Timeout.{is_negsuc}
use ququmatz.Owned.StagedAddr
use ququmatz.Owned.StagedAddr.{AddrOp, StagedPrepared, NeBytes, Bytes}

pub data ConnectOutcome : Type 0 where
  connected connection_refused already_connected timed_out network_unreachable : ConnectOutcome
  failed : Errno → ConnectOutcome

-- `ConnectOutcome::from_raw`: -111 is `-ECONNREFUSED`, -106 is `-EISCONN`, -110 is `-ETIMEDOUT` and -101 is `-ENETUNREACH`.
unfoldable pub from_raw : ℤ → ConnectOutcome
from_raw result =
    if is_negsuc 110 result
    then connection_refused
    else if is_negsuc 105 result
    then already_connected
    else if is_negsuc 109 result
    then timed_out
    else if is_negsuc 100 result
    then network_unreachable
    else if is_neg result
    then failed (errno (neg_i32 result))
    else connected

abbrev pub is_connected : ConnectOutcome → Bool
is_connected connected = true
is_connected connection_refused = false
is_connected already_connected = false
is_connected timed_out = false
is_connected network_unreachable = false
is_connected (failed e) = false

pub data ConnectError : Type 0 where
  store_too_small : ℕ → ℕ → ConnectError

-- `impl AddrOp for ConnectOp`
abbrev pub connect_op : AddrOp ConnectOutcome ConnectError
connect_op = record { too_small = store_too_small; build_sqe = connect_ptr; classify = from_raw }

-- `PreparedConnect::new`
unfoldable pub new :
    {S : Type 0}
    → NeBytes
    → StableBuffer S
    → Bytes
    → ℤ
    → SockAddrIn
    → S
    → Result (StagedPrepared S × Bytes) (S × ConnectError)
unfolding StagedAddr.new
new order stable m fd addr store = StagedAddr.new connect_op order stable m fd addr store
