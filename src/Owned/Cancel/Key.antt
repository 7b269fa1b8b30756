-- ===== src/Owned/Cancel/Key.antt =====
-- src/owned/cancel.rs: which request the kernel is asked to cancel.
use ququmatz.Base.{ℕ, ◌≡◌, refl, if◌then◌else◌, bit_and}
use ququmatz.Base.Bits.{bit_or_disjoint, bit_or_absorb}
use ququmatz.Types.{IoUringSqe, contains}
use ququmatz.Op.{cancel_by_fd, cancel_by_any}
use ququmatz.Owned.Cancel.{CancelTarget, user_data, fd, any, PreparedCancel, into_pending, entry}

-- The key that the kernel reads from an entry, by its documentation: any request, or the
-- descriptor's, or the tag's.
unfoldable pub key : IoUringSqe → CancelTarget
key sqe =
    if contains sqe.op_flags cancel_by_any
    then any
    else if contains sqe.op_flags cancel_by_fd
    then fd sqe.fd
    else user_data sqe.addr

pub key-into_pending :
    (p : PreparedCancel) (ring id : ℕ)
    → bit_and p.flags cancel_by_any ≡ 0
    → bit_and p.flags cancel_by_fd ≡ 0
    → key (into_pending p ring id).0 ≡ p.target
unfolding key contains into_pending
key-into_pending p ring id not_any not_fd = go p.target p.flags not_any not_fd
  where
    go :
        (target : CancelTarget) (flags : ℕ)
        → bit_and flags cancel_by_any ≡ 0
        → bit_and flags cancel_by_fd ≡ 0
        → key (entry target flags) ≡ target
    go (user_data n) flags not_any not_fd = rw (not_any, not_fd) refl
    go (fd n) flags not_any not_fd =
        rw
          (
            bit_or_disjoint cancel_by_fd flags cancel_by_any refl not_any,
            bit_or_absorb cancel_by_fd flags,
          )
          refl
    go any flags not_any not_fd = rw (bit_or_absorb cancel_by_any flags) refl
