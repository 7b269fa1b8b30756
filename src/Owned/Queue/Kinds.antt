-- ===== src/Owned/Queue/Kinds.antt =====
-- src/owned: the requests of every kind keep what they owe to the queue and to their receipts.
pub mod Paths
use ququmatz.Base.{ℕ, ◌≡◌, refl, none, arith}
use ququmatz.Base.Int.{ℤ, try_u32}
use ququmatz.Owned.{same_request}
use ququmatz.Owned.Request
use ququmatz.Owned.ZeroCopy
use ququmatz.Owned.Sendmsg
use ququmatz.Owned.Recvmsg
use ququmatz.Owned.FilesUpdate
use ququmatz.Owned.Open
use ququmatz.Owned.Direct
use ququmatz.Owned.PathOp
use ququmatz.Owned.Openat2
use ququmatz.Owned.Rename
use ququmatz.Owned.Pipe
use ququmatz.Owned.Link
use ququmatz.Owned.Vectored
use ququmatz.Owned.SendmsgZc
use ququmatz.Owned.Direct.{filled}
use ququmatz.Owned.StagedAddr
use ququmatz.Owned.StagedAddr.{AddrOp, StagedPrepared, StagedDone}
use ququmatz.Owned.StagedValue
use ququmatz.Owned.StagedValue.{ValueOp, ValuePrepared, ValueDone}
use ququmatz.Owned.Queue.{
  plain, zero_copy, sent_message, received_message, updated_files, staged_value, staged_addr,
}
use ququmatz.Owned.Queue.Push.{IsLawful}
use ququmatz.Owned.Queue.Requests.{
  piped, opened, opened_how, directly_opened, path_operation, renamed, linked, vectored,
  sent_message_zc,
}
use ququmatz.Owned.Queue.Cycle.{IsRedeemable}

module _ {B : Type 0} where
  abbrev pub plain_done : Request.Prepared B → ℕ → ℕ → ℤ → Request.Completed B
  plain_done p ring id z = record { buf = p.buf; id = id; direction = p.direction; result = z }

  pub plain-IsRedeemable : IsRedeemable (plain {B = B}) Request.redeem plain_done
  unfolding Request.into_pending Request.redeem same_request
  plain-IsRedeemable = record {
    own = λ p receipt. ground arith;
    foreign = λ p ring id receipt away. ground arith;
  }

  abbrev pub zero_copy_done : ZeroCopy.PreparedZc B → ℕ → ℕ → ℤ → ZeroCopy.ZcCompleted B
  zero_copy_done p ring id z = record { buf = p.buf; id = id; sent = none; notified = z }

  pub zero_copy-IsRedeemable : IsRedeemable (zero_copy {B = B}) ZeroCopy.redeem zero_copy_done
  unfolding ZeroCopy.into_pending ZeroCopy.redeem same_request
  zero_copy-IsRedeemable = record {
    own = λ p receipt. ground arith;
    foreign = λ p ring id receipt away. ground arith;
  }

module _ {B R : Type 0} where
  abbrev pub sent_message_done :
      Sendmsg.PreparedSendmsg B R → ℕ → ℕ → ℤ → Sendmsg.SendmsgCompleted B R
  sent_message_done p ring id z = record { bufs = p.bufs; region = p.region; result = z }

  pub sent_message-IsRedeemable :
      IsRedeemable (sent_message {B = B} {R = R}) Sendmsg.redeem sent_message_done
  unfolding Sendmsg.into_pending Sendmsg.redeem same_request
  sent_message-IsRedeemable = record {
    own = λ p receipt. ground arith;
    foreign = λ p ring id receipt away. ground arith;
  }

  abbrev pub received_message_done :
      Recvmsg.PreparedRecvmsg B R → ℕ → ℕ → ℤ → Recvmsg.RecvmsgCompleted B R
  received_message_done p ring id z = record {
    bufs = p.bufs;
    region = p.region;
    result = z;
    wanted = p.peer;
  }

  pub received_message-IsRedeemable :
      IsRedeemable (received_message {B = B} {R = R}) Recvmsg.redeem received_message_done
  unfolding Recvmsg.into_pending Recvmsg.redeem same_request
  received_message-IsRedeemable = record {
    own = λ p receipt. ground arith;
    foreign = λ p ring id receipt away. ground arith;
  }

  pub sent_message_zc-IsLawful : IsLawful (sent_message_zc {B = B} {R = R})
  unfolding SendmsgZc.into_pending SendmsgZc.reclaim_unsubmitted
  sent_message_zc-IsLawful = record { tagged = λ p ring id. refl; back = λ p ring id. refl }

  abbrev pub sent_message_zc_done :
      SendmsgZc.PreparedSendmsgZc B R → ℕ → ℕ → ℤ → SendmsgZc.SendmsgZcCompleted B R
  sent_message_zc_done p ring id z = record {
    bufs = p.bufs;
    region = p.region;
    sent = none;
    notified = z;
  }

  pub sent_message_zc-IsRedeemable :
      IsRedeemable (sent_message_zc {B = B} {R = R}) SendmsgZc.redeem sent_message_zc_done
  unfolding SendmsgZc.into_pending SendmsgZc.redeem same_request
  sent_message_zc-IsRedeemable = record {
    own = λ p receipt. ground arith;
    foreign = λ p ring id receipt away. ground arith;
  }

module _ {B V : Type 0} where
  vectored_tagged :
      (p : Vectored.PreparedVectored B V) (ring id : ℕ)
      → (Vectored.into_pending p ring id).0.user_data ≡ id
  unfolding Vectored.into_pending
  vectored_tagged p ring id = elim p.direction [
    | Request.Direction.read ↦ refl
    | Request.Direction.write ↦ refl
  ]

  pub vectored-IsLawful : IsLawful (vectored {B = B} {V = V})
  unfolding Vectored.into_pending Vectored.reclaim_unsubmitted
  vectored-IsLawful = record {
    tagged = λ p ring id. vectored_tagged p ring id;
    back = λ p ring id. refl;
  }

  abbrev pub vectored_done :
      Vectored.PreparedVectored B V → ℕ → ℕ → ℤ → Vectored.VectoredCompleted B V
  vectored_done p ring id z = record {
    bufs = p.bufs;
    vecs = p.vecs;
    result = z;
    direction = p.direction;
  }

  pub vectored-IsRedeemable : IsRedeemable (vectored {B = B} {V = V}) Vectored.redeem vectored_done
  unfolding Vectored.into_pending Vectored.redeem same_request
  vectored-IsRedeemable = record {
    own = λ p receipt. ground arith;
    foreign = λ p ring id receipt away. ground arith;
  }

module _ {D : Type 0} where
  pub piped-IsLawful : IsLawful (piped {D = D})
  unfolding Pipe.into_pending Pipe.reclaim_unsubmitted
  piped-IsLawful = record { tagged = λ p ring id. refl; back = λ p ring id. refl }

  abbrev pub piped_done : Pipe.PreparedPipe D → ℕ → ℕ → ℤ → Pipe.PipeCreated D
  piped_done p ring id z = record { dest = p.dest; id = id; result = z; addr = p.addr }

  pub piped-IsRedeemable : IsRedeemable (piped {D = D}) Pipe.redeem piped_done
  unfolding Pipe.into_pending Pipe.redeem same_request
  piped-IsRedeemable = record {
    own = λ p receipt. ground arith;
    foreign = λ p ring id receipt away. ground arith;
  }

module _ {S C I V O E : Type 0} (op : ValueOp C I V O E) where
  abbrev pub staged_value_done : ValuePrepared S C → ℕ → ℕ → ℤ → ValueDone S I
  staged_value_done p ring id z = record {
    storage = p.storage;
    info = op.info p.ctx;
    id = id;
    result = z;
  }

  pub staged_value-IsRedeemable :
      IsRedeemable (staged_value {S = S} op) (StagedValue.redeem op) staged_value_done
  unfolding StagedValue.into_pending StagedValue.redeem same_request
  staged_value-IsRedeemable = record {
    own = λ p receipt. ground arith;
    foreign = λ p ring id receipt away. ground arith;
  }

module _ {S O E : Type 0} (op : AddrOp O E) where
  abbrev pub staged_addr_done : StagedPrepared S → ℕ → ℕ → ℤ → StagedDone S
  staged_addr_done p ring id z = record { store = p.store; addr = p.addr; id = id; result = z }

  pub staged_addr-IsRedeemable :
      IsRedeemable (staged_addr {S = S} op) StagedAddr.redeem staged_addr_done
  unfolding StagedAddr.into_pending StagedAddr.redeem same_request
  staged_addr-IsRedeemable = record {
    own = λ p receipt. ground arith;
    foreign = λ p ring id receipt away. ground arith;
  }
