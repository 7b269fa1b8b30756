-- ===== src/Owned/Epoll.antt =====
-- src/owned/epoll.rs, as far as `epoll_ctl`: a change of an epoll set, with its event staged.
use ququmatz.Base.{ℕ, Bool, true, false, if◌then◌else◌, Result}
use ququmatz.Base.Int.{ℤ, is_neg, neg_i32}
use ququmatz.Error.{Errno, errno}
use ququmatz.Op.{epoll_ctl_ptr}
use ququmatz.Owned.{StableBuffer}
use ququmatz.Owned.Timeout.{is_negsuc}
use ququmatz.Owned.StagedValue
use ququmatz.Owned.StagedValue.{ValueOp, ValuePrepared, Values}

-- `events` is the word of an `EpollEvents`.
pub data EpollChange : Type 0 where
  add : ℕ → ℕ → EpollChange
  modify : ℕ → ℕ → EpollChange
  del : EpollChange

pub record EpollEvent : Type 0 where
  pub events : ℕ
  pub payload : ℕ

-- `EpollChange::op`, as the number of the `EpollOp`
abbrev pub epoll_op : EpollChange → ℕ
epoll_op (add events value) = 1
epoll_op (modify events value) = 3
epoll_op del = 2

-- `EpollChange::event`
abbrev pub epoll_event : EpollChange → EpollEvent
epoll_event (add events value) = record { events = events; payload = value }
epoll_event (modify events value) = record { events = events; payload = value }
epoll_event del = record { events = 0; payload = 0 }

pub data EpollOutcome : Type 0 where
  applied already_registered not_registered : EpollOutcome
  failed : Errno → EpollOutcome

-- `EpollOutcome::from_raw`: -17 is `-EEXIST` and -2 is `-ENOENT`.
unfoldable pub from_raw : ℤ → EpollOutcome
from_raw result =
    if is_negsuc 16 result
    then already_registered
    else if is_negsuc 1 result
    then not_registered
    else if is_neg result
    then failed (errno (neg_i32 result))
    else applied

abbrev pub is_applied : EpollOutcome → Bool
is_applied applied = true
is_applied already_registered = false
is_applied not_registered = false
is_applied (failed e) = false

pub data EpollError : Type 0 where
  store_too_small : ℕ → ℕ → EpollError
  store_misaligned : ℕ → EpollError

pub record EpollCtx : Type 0 where
  pub epoll : ℤ
  pub target : ℤ
  pub change : EpollChange

-- `impl ValueOp for EpollCtlOp`; the size and the alignment of an event are the machine's.
abbrev pub epoll_ctl_op : ℕ → ℕ → ValueOp EpollCtx EpollChange EpollEvent EpollOutcome EpollError
epoll_ctl_op bytes align = record {
  bytes = bytes;
  align = align;
  too_small = store_too_small;
  misaligned = store_misaligned;
  value = λ ctx. epoll_event ctx.change;
  build_sqe = λ ctx addr. epoll_ctl_ptr ctx.epoll (epoll_op ctx.change) ctx.target addr;
  info = λ ctx. ctx.change;
  classify = from_raw;
}

-- `PreparedEpollCtl::new`
unfoldable pub new :
    {S : Type 0}
    → ℕ
    → ℕ
    → StableBuffer S
    → Values EpollEvent
    → ℤ
    → ℤ
    → EpollChange
    → S
    → Result (ValuePrepared S EpollCtx × Values EpollEvent) (S × EpollError)
unfolding StagedValue.new
new bytes align stable m epoll target change storage =
    StagedValue.new (epoll_ctl_op bytes align) stable m
      (record { epoll = epoll; target = target; change = change }) storage
