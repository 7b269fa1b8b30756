-- ===== src/Owned/Queue.antt =====
-- src/owned/queue.rs: the halves that take owned requests and reap their completions.
pub mod Push
pub mod Reap
pub mod Requests
pub mod Cycle
pub mod Kinds
pub mod Tests
use ququmatz.Base.{ℕ, zero, suc, Bool, if◌then◌else◌, Result, ok, err, Option, some, none}
use ququmatz.Types.{contains, IoUringSqe}
use ququmatz.Types.CqeFlags
use ququmatz.Error.{Error, CompletionError}
use ququmatz.Ring.{Shared, SqSide, CqSide, World}
use ququmatz.Ring.Syscall.{Enter}
use ququmatz.Ring.Sq
use ququmatz.Ring.Cq
use ququmatz.Ring.Cq.{Completion}
use ququmatz.Ring.IoUring.{IoUring, Submitter, Completer, split}
use ququmatz.Ring.Resources.{RingResources}
use ququmatz.Owned.{next_id, next_ring}
use ququmatz.Owned.Event.{Receipt, PartialReceipt, Event}
use ququmatz.Owned.Request
use ququmatz.Owned.Request.{Prepared, Pending}
use ququmatz.Owned.Sendmsg
use ququmatz.Owned.Sendmsg.{PreparedSendmsg, PendingSendmsg}
use ququmatz.Owned.Recvmsg
use ququmatz.Owned.Recvmsg.{PreparedRecvmsg, PendingRecvmsg}
use ququmatz.Owned.FilesUpdate
use ququmatz.Owned.FilesUpdate.{PreparedFilesUpdate, PendingFilesUpdate}
use ququmatz.Owned.StagedAddr
use ququmatz.Owned.StagedAddr.{AddrOp, StagedPrepared, StagedPending}
use ququmatz.Owned.Bind.{bind_op}
use ququmatz.Owned.Connect.{connect_op}
use ququmatz.Owned.StagedValue
use ququmatz.Owned.StagedValue.{ValueOp, ValuePrepared, ValuePending}
use ququmatz.Owned.Timeout.{TimeoutCtx, timeout_op}
use ququmatz.Owned.Epoll.{EpollCtx, epoll_ctl_op}
use ququmatz.Owned.ZeroCopy
use ququmatz.Owned.ZeroCopy.{PreparedZc, PendingZc}

-- `ids` is the counter of the `RequestIdSource`.
pub record OwnedSubmitter : Type 0 where
  pub inner : Submitter
  pub ring : ℕ
  pub ids : ℕ

pub record OwnedCompleter : Type 0 where
  pub inner : Completer
  pub ring : ℕ

-- What a request does around a push.
pub record Submission (P T : Type 0) : Type 0 where
  pub into_pending : P → ℕ → ℕ → IoUringSqe × T
  pub reclaim : T → P

-- The shape of every `push_…` whose request owns storage.
unfoldable pub push_request :
    {P T : Type 0}
    → Submission P T
    → OwnedSubmitter
    → Shared
    → P
    → OwnedSubmitter × Shared × Result T (P × Error)
unfolding next_id Sq.push
push_request request o m prepared =
    let (id, ids') = next_id o.ids in
    let (sqe, pending) = request.into_pending prepared o.ring id in
    let (s', m', res) = Sq.push o.inner.sq m sqe in
    (
      record o { inner = record (o.inner) { sq = s' }; ids = ids' },
      m',
      elim res [ ok u ↦ ok pending | err e ↦ err (request.reclaim pending, e) ],
    )

module _ {B : Type 0} where
  abbrev pub plain : Submission (Prepared B) (Pending B)
  plain = record { into_pending = Request.into_pending; reclaim = Request.reclaim_unsubmitted }

  abbrev pub zero_copy : Submission (PreparedZc B) (PendingZc B)
  zero_copy = record {
    into_pending = ZeroCopy.into_pending;
    reclaim = ZeroCopy.reclaim_unsubmitted;
  }

  -- `push`
  unfoldable pub push :
      OwnedSubmitter
      → Shared
      → Prepared B
      → OwnedSubmitter × Shared × Result (Pending B) (Prepared B × Error)
  unfolding push_request
  push o m prepared = push_request plain o m prepared

  unfoldable pub push_zc :
      OwnedSubmitter
      → Shared
      → PreparedZc B
      → OwnedSubmitter × Shared × Result (PendingZc B) (PreparedZc B × Error)
  unfolding push_request
  push_zc o m prepared = push_request zero_copy o m prepared

module _ {B R : Type 0} where
  abbrev pub sent_message : Submission (PreparedSendmsg B R) (PendingSendmsg B R)
  sent_message = record {
    into_pending = Sendmsg.into_pending;
    reclaim = Sendmsg.reclaim_unsubmitted;
  }

  abbrev pub received_message : Submission (PreparedRecvmsg B R) (PendingRecvmsg B R)
  received_message = record {
    into_pending = Recvmsg.into_pending;
    reclaim = Recvmsg.reclaim_unsubmitted;
  }

  unfoldable pub push_sendmsg :
      OwnedSubmitter
      → Shared
      → PreparedSendmsg B R
      → OwnedSubmitter × Shared × Result (PendingSendmsg B R) (PreparedSendmsg B R × Error)
  unfolding push_request
  push_sendmsg o m prepared = push_request sent_message o m prepared

  unfoldable pub push_recvmsg :
      OwnedSubmitter
      → Shared
      → PreparedRecvmsg B R
      → OwnedSubmitter × Shared × Result (PendingRecvmsg B R) (PreparedRecvmsg B R × Error)
  unfolding push_request
  push_recvmsg o m prepared = push_request received_message o m prepared

-- The requests that stage one value: `push_timeout` and `push_epoll_ctl`.
abbrev pub staged_value :
    {S C I V O E : Type 0} → ValueOp C I V O E → Submission (ValuePrepared S C) (ValuePending S C)
staged_value op = record {
  into_pending = StagedValue.into_pending op;
  reclaim = StagedValue.reclaim_unsubmitted;
}

module _ {S : Type 0} where
  unfoldable pub push_timeout :
      OwnedSubmitter
      → Shared
      → ValuePrepared S TimeoutCtx
      → OwnedSubmitter
        × Shared
        × Result (ValuePending S TimeoutCtx) (ValuePrepared S TimeoutCtx × Error)
  unfolding push_request
  push_timeout o m prepared = push_request (staged_value timeout_op) o m prepared

  unfoldable pub push_epoll_ctl :
      ℕ
      → ℕ
      → OwnedSubmitter
      → Shared
      → ValuePrepared S EpollCtx
      → OwnedSubmitter
        × Shared
        × Result (ValuePending S EpollCtx) (ValuePrepared S EpollCtx × Error)
  unfolding push_request
  push_epoll_ctl bytes align o m prepared =
      push_request (staged_value (epoll_ctl_op bytes align)) o m prepared

module _ {S : Type 0} where
  abbrev pub updated_files : Submission (PreparedFilesUpdate S) (PendingFilesUpdate S)
  updated_files = record {
    into_pending = FilesUpdate.into_pending;
    reclaim = FilesUpdate.reclaim_unsubmitted;
  }

  unfoldable pub push_files_update :
      OwnedSubmitter
      → Shared
      → PreparedFilesUpdate S
      → OwnedSubmitter × Shared × Result (PendingFilesUpdate S) (PreparedFilesUpdate S × Error)
  unfolding push_request
  push_files_update o m prepared = push_request updated_files o m prepared

-- The requests that stage one address: `push_bind` and `push_connect`.
abbrev pub staged_addr :
    {S O E : Type 0} → AddrOp O E → Submission (StagedPrepared S) (StagedPending S)
staged_addr op = record {
  into_pending = StagedAddr.into_pending op;
  reclaim = StagedAddr.reclaim_unsubmitted;
}

module _ {S : Type 0} where
  unfoldable pub push_bind :
      OwnedSubmitter
      → Shared
      → StagedPrepared S
      → OwnedSubmitter × Shared × Result (StagedPending S) (StagedPrepared S × Error)
  unfolding push_request
  push_bind o m prepared = push_request (staged_addr bind_op) o m prepared

  unfoldable pub push_connect :
      OwnedSubmitter
      → Shared
      → StagedPrepared S
      → OwnedSubmitter × Shared × Result (StagedPending S) (StagedPrepared S × Error)
  unfolding push_request
  push_connect o m prepared = push_request (staged_addr connect_op) o m prepared

-- The event of a completion: the flag `MORE` decides.
unfoldable pub event_of : ℕ → Completion → Event
event_of ring cqe =
    if contains cqe.flags CqeFlags.more
    then Event.partial
        (record { ring = ring; id = cqe.user_data; result = cqe.result; flags = cqe.flags })
    else Event.complete
        (record { ring = ring; id = cqe.user_data; result = cqe.result; flags = cqe.flags })

-- `reap_event`
unfoldable pub reap_event : OwnedCompleter → Shared → OwnedCompleter × Option Event
unfolding Cq.complete event_of
reap_event o m =
    let (c, found) = Cq.complete o.inner.cq m in
    (
      record o { inner = record (o.inner) { cq = c } },
      elim found [ some cqe ↦ some (event_of o.ring cqe) | none ↦ none ],
    )

-- The loop of `reap`, for `fuel` rounds; the outer `none` means that the rounds ran out.
unfoldable pub reap : ℕ → OwnedCompleter → Shared → Option (OwnedCompleter × Option Receipt)
reap zero o m = none
reap (suc fuel) o m =
    let (o', found) = reap_event o m in
    let rest = reap fuel o' m in
    elim found [
      | none ↦ some (o', none)
      | some (Event.complete receipt) ↦ some (o', some receipt)
      | some (Event.partial notice) ↦ rest
    ]

-- `wait_one`, of which `reap` is a loop.
unfoldable pub wait_one :
    {S : Type 0}
    → Enter S
    → ℕ
    → OwnedCompleter
    → World S
    → Option (OwnedCompleter × World S × Result Receipt Error)
unfolding Cq.wait
wait_one enter fuel o w =
    let (w', waited) = Cq.wait enter o.inner.cq w o.inner.fd 1 in
    elim waited [
      | err e ↦ some (o, w', err e)
      | ok u ↦ elim (reap fuel o w'.shared) [
        | none ↦ none
        | some (o', some receipt) ↦ some (o', w', ok receipt)
        | some (o', none) ↦ some (o', w', err (Error.completion CompletionError.no_completion))
      ]
    ]

-- `split_owned`: the counter of ring identities is an argument, for it is shared by all rings.
unfoldable pub split_owned :
    ℕ
    → IoUring
    → RingResources
    → ℕ × RingResources × Result (OwnedSubmitter × OwnedCompleter) (IoUring × Error)
unfolding next_ring split
split_owned rings r res =
    let (ring, rings') = next_ring rings in
    let (res', halves) = split r res in
    (
      rings',
      res',
      elim halves [
        | ok (submitter, completer) ↦ ok (
          record { inner = submitter; ring = ring; ids = 1 },
          record { inner = completer; ring = ring },
        )
        | err e ↦ err e
      ],
    )
