-- ===== src/Owned/Queue/Requests.antt =====
-- src/owned/queue.rs: the pushes of paths, of vectored requests and of requests that own nothing.
use ququmatz.Base.{ℕ, Result, ok, err}
use ququmatz.Types.{IoUringSqe}
use ququmatz.Error.{Error}
use ququmatz.Ring.{Shared}
use ququmatz.Ring.Sq
use ququmatz.Owned.{next_id}
use ququmatz.Owned.Queue.{OwnedSubmitter, Submission, push_request}
use ququmatz.Owned.Open
use ququmatz.Owned.Open.{PreparedOpen, PendingOpen}
use ququmatz.Owned.Direct
use ququmatz.Owned.Direct.{PreparedDirectOpen, PendingDirectOpen}
use ququmatz.Owned.PathOp
use ququmatz.Owned.PathOp.{PreparedPathOp, PendingPathOp}
use ququmatz.Owned.Openat2
use ququmatz.Owned.Openat2.{PreparedOpenat2, PendingOpenat2}
use ququmatz.Owned.Rename
use ququmatz.Owned.Rename.{PreparedRename, PendingRename}
use ququmatz.Owned.Pipe
use ququmatz.Owned.Pipe.{PreparedPipe, PendingPipe}
use ququmatz.Owned.Futex.{
  PreparedFutexWait, PreparedFutexWake, PendingFutex, wait_into_pending, wake_into_pending,
}
use ququmatz.Owned.Link
use ququmatz.Owned.Link.{PreparedLink, PendingLink}
use ququmatz.Owned.Vectored
use ququmatz.Owned.Vectored.{PreparedVectored, PendingVectored}
use ququmatz.Owned.SendmsgZc
use ququmatz.Owned.SendmsgZc.{PreparedSendmsgZc, PendingSendmsgZc}
use ququmatz.Owned.Accept
use ququmatz.Owned.Accept.{PreparedAccept, MultishotAccept}
use ququmatz.Owned.DirectAccept
use ququmatz.Owned.DirectAccept.{PreparedDirectAccept, DirectAccept}
use ququmatz.Owned.Cancel
use ququmatz.Owned.Cancel.{PreparedCancel, PendingCancel}

module _ {S : Type 0} where
  abbrev pub opened : Submission (PreparedOpen S) (PendingOpen S)
  opened = record { into_pending = Open.into_pending; reclaim = Open.reclaim_unsubmitted }

  unfoldable pub push_open :
      OwnedSubmitter
      → Shared
      → PreparedOpen S
      → OwnedSubmitter × Shared × Result (PendingOpen S) (PreparedOpen S × Error)
  unfolding push_request
  push_open o m prepared = push_request opened o m prepared

  abbrev pub directly_opened : Submission (PreparedDirectOpen S) (PendingDirectOpen S)
  directly_opened = record {
    into_pending = Direct.into_pending;
    reclaim = Direct.reclaim_unsubmitted;
  }

  unfoldable pub push_direct_open :
      OwnedSubmitter
      → Shared
      → PreparedDirectOpen S
      → OwnedSubmitter × Shared × Result (PendingDirectOpen S) (PreparedDirectOpen S × Error)
  unfolding push_request
  push_direct_open o m prepared = push_request directly_opened o m prepared

  abbrev pub path_operation : Submission (PreparedPathOp S) (PendingPathOp S)
  path_operation = record {
    into_pending = PathOp.into_pending;
    reclaim = PathOp.reclaim_unsubmitted;
  }

  unfoldable pub push_path_op :
      OwnedSubmitter
      → Shared
      → PreparedPathOp S
      → OwnedSubmitter × Shared × Result (PendingPathOp S) (PreparedPathOp S × Error)
  unfolding push_request
  push_path_op o m prepared = push_request path_operation o m prepared

module _ {F T : Type 0} where
  abbrev pub opened_how : Submission (PreparedOpenat2 F T) (PendingOpenat2 F T)
  opened_how = record { into_pending = Openat2.into_pending; reclaim = Openat2.reclaim_unsubmitted }

  unfoldable pub push_openat2 :
      OwnedSubmitter
      → Shared
      → PreparedOpenat2 F T
      → OwnedSubmitter × Shared × Result (PendingOpenat2 F T) (PreparedOpenat2 F T × Error)
  unfolding push_request
  push_openat2 o m prepared = push_request opened_how o m prepared

  abbrev pub renamed : Submission (PreparedRename F T) (PendingRename F T)
  renamed = record { into_pending = Rename.into_pending; reclaim = Rename.reclaim_unsubmitted }

  unfoldable pub push_rename :
      OwnedSubmitter
      → Shared
      → PreparedRename F T
      → OwnedSubmitter × Shared × Result (PendingRename F T) (PreparedRename F T × Error)
  unfolding push_request
  push_rename o m prepared = push_request renamed o m prepared

  abbrev pub linked : Submission (PreparedLink F T) (PendingLink F T)
  linked = record { into_pending = Link.into_pending; reclaim = Link.reclaim_unsubmitted }

  unfoldable pub push_link :
      OwnedSubmitter
      → Shared
      → PreparedLink F T
      → OwnedSubmitter × Shared × Result (PendingLink F T) (PreparedLink F T × Error)
  unfolding push_request
  push_link o m prepared = push_request linked o m prepared

module _ {D : Type 0} where
  abbrev pub piped : Submission (PreparedPipe D) (PendingPipe D)
  piped = record { into_pending = Pipe.into_pending; reclaim = Pipe.reclaim_unsubmitted }

  unfoldable pub push_pipe :
      OwnedSubmitter
      → Shared
      → PreparedPipe D
      → OwnedSubmitter × Shared × Result (PendingPipe D) (PreparedPipe D × Error)
  unfolding push_request
  push_pipe o m prepared = push_request piped o m prepared

module _ {B V : Type 0} where
  abbrev pub vectored : Submission (PreparedVectored B V) (PendingVectored B V)
  vectored = record { into_pending = Vectored.into_pending; reclaim = Vectored.reclaim_unsubmitted }

  unfoldable pub push_vectored :
      OwnedSubmitter
      → Shared
      → PreparedVectored B V
      → OwnedSubmitter × Shared × Result (PendingVectored B V) (PreparedVectored B V × Error)
  unfolding push_request
  push_vectored o m prepared = push_request vectored o m prepared

module _ {B R : Type 0} where
  abbrev pub sent_message_zc : Submission (PreparedSendmsgZc B R) (PendingSendmsgZc B R)
  sent_message_zc = record {
    into_pending = SendmsgZc.into_pending;
    reclaim = SendmsgZc.reclaim_unsubmitted;
  }

  unfoldable pub push_sendmsg_zc :
      OwnedSubmitter
      → Shared
      → PreparedSendmsgZc B R
      → OwnedSubmitter × Shared × Result (PendingSendmsgZc B R) (PreparedSendmsgZc B R × Error)
  unfolding push_request
  push_sendmsg_zc o m prepared = push_request sent_message_zc o m prepared

-- The shape of every `push_…` whose request owns nothing: a copy of it is given back.
unfoldable pub push_copy :
    {P T : Type 0}
    → (P → ℕ → ℕ → IoUringSqe × T)
    → OwnedSubmitter
    → Shared
    → P
    → OwnedSubmitter × Shared × Result T (P × Error)
unfolding next_id Sq.push
push_copy into_pending o m request =
    let (id, ids') = next_id o.ids in
    let (sqe, pending) = into_pending request o.ring id in
    let (s', m', res) = Sq.push o.inner.sq m sqe in
    (
      record o { inner = record (o.inner) { sq = s' }; ids = ids' },
      m',
      elim res [ ok u ↦ ok pending | err e ↦ err (request, e) ],
    )

unfoldable pub push_accept :
    OwnedSubmitter
    → Shared
    → PreparedAccept
    → OwnedSubmitter × Shared × Result MultishotAccept (PreparedAccept × Error)
unfolding push_copy
push_accept o m request = push_copy Accept.into_pending o m request

unfoldable pub push_direct_accept :
    OwnedSubmitter
    → Shared
    → PreparedDirectAccept
    → OwnedSubmitter × Shared × Result DirectAccept (PreparedDirectAccept × Error)
unfolding push_copy
push_direct_accept o m request = push_copy DirectAccept.into_pending o m request

unfoldable pub push_cancel :
    OwnedSubmitter
    → Shared
    → PreparedCancel
    → OwnedSubmitter × Shared × Result PendingCancel (PreparedCancel × Error)
unfolding push_copy
push_cancel o m request = push_copy Cancel.into_pending o m request

unfoldable pub push_futex_wait :
    OwnedSubmitter
    → Shared
    → PreparedFutexWait
    → OwnedSubmitter × Shared × Result PendingFutex (PreparedFutexWait × Error)
unfolding push_copy
push_futex_wait o m request = push_copy wait_into_pending o m request

unfoldable pub push_futex_wake :
    OwnedSubmitter
    → Shared
    → PreparedFutexWake
    → OwnedSubmitter × Shared × Result PendingFutex (PreparedFutexWake × Error)
unfolding push_copy
push_futex_wake o m request = push_copy wake_into_pending o m request
