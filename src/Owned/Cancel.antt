-- ===== src/Owned/Cancel.antt =====
-- src/owned/cancel.rs, and `CancelOutcome` of src/types/cancel.rs: the cancelling of requests.
pub mod Key
use ququmatz.Base.{ℕ, Bool, true, false, if◌then◌else◌, bit_or, Result, ok, err}
use ququmatz.Base.Int.{ℤ, pos, is_neg, neg_i32, u32_of_i32}
use ququmatz.Types.{IoUringSqe}
use ququmatz.Error.{Errno, errno}
use ququmatz.Op
use ququmatz.Op.{cancel_with_flags, cancel_fd, cancel_any}
use ququmatz.Owned.Event.{Receipt, belongs_to}
use ququmatz.Owned.Timeout.{is_negsuc}

pub data CancelTarget : Type 0 where
  user_data : ℕ → CancelTarget
  fd : ℤ → CancelTarget
  any : CancelTarget

pub record PreparedCancel : Type 0 where
  pub target : CancelTarget
  pub flags : ℕ

pub record PendingCancel : Type 0 where
  pub ring : ℕ
  pub id : ℕ
  pub target : CancelTarget

pub record CancelDone : Type 0 where
  pub target : CancelTarget
  pub id : ℕ
  pub result : ℤ

pub data CancelOutcome : Type 0 where
  applied : ℕ → CancelOutcome
  not_found already_completing : CancelOutcome
  failed : Errno → CancelOutcome

-- `CancelOutcome::from_raw`: -2 is `-ENOENT` and -114 is `-EALREADY`.
unfoldable pub from_raw : ℤ → CancelOutcome
from_raw result =
    if is_negsuc 1 result
    then not_found
    else if is_negsuc 113 result
    then already_completing
    else if is_neg result
    then failed (errno (neg_i32 result))
    else applied (u32_of_i32 result)

-- The entry of `into_pending`.
abbrev pub entry : CancelTarget → ℕ → IoUringSqe
entry (user_data target) flags = cancel_with_flags target flags
entry (fd n) flags = cancel_fd n flags
entry any flags = cancel_any flags

unfoldable pub into_pending : PreparedCancel → ℕ → ℕ → IoUringSqe × PendingCancel
into_pending p ring id =
    (Op.user_data (entry p.target p.flags) id, record { ring = ring; id = id; target = p.target })

unfoldable pub redeem : PendingCancel → Receipt → Result CancelDone (PendingCancel × Receipt)
redeem p receipt =
    if belongs_to receipt p.ring p.id
    then ok (record { target = p.target; id = p.id; result = receipt.result })
    else err (p, receipt)

-- `CancelDone::outcome`
unfoldable pub outcome : CancelDone → CancelOutcome
unfolding from_raw
outcome d = from_raw d.result
