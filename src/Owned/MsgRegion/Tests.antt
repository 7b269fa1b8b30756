-- ===== src/Owned/MsgRegion/Tests.antt =====
-- The properties of messages at concrete inputs: two buffers, and a storage of 104 bytes at 4096.
use ququmatz.Base.{ℕ, ◌≡◌, refl, false, ok, some, [], ◌∷◌, ◌++◌, ◌↔◌, arith}
use ququmatz.Base.Int.{pos}
use ququmatz.Types.{SockAddrIn, IoUringSqe, default_hdr, zeroed}
use ququmatz.Ring.{Shared}
use ququmatz.Ring.Sq
use ququmatz.Ring.Sq.Queue
use ququmatz.Owned.{StableBuffer, next_id, same_request}
use ququmatz.Owned.Event.{Receipt}
use ququmatz.Owned.MsgRegion.{
  MsgRegion, stage, bytes_for, name_offset, write_descriptors, publish_header,
}
use ququmatz.Owned.MsgRegion.Memory.{Writes, header, address, descriptor, load}
use ququmatz.Owned.MsgRegion.Chase.{Staged, stage-Staged, message, described_by}
use ququmatz.Owned.Sendmsg
use ququmatz.Owned.Sendmsg.{PreparedSendmsg, PendingSendmsg, to}
use ququmatz.Owned.Sendmsg.Sent.{push_sendmsg-message}
use ququmatz.Owned.Queue.{OwnedSubmitter, push_request, push_sendmsg}
use ququmatz.Owned.Recvmsg
use ququmatz.Owned.Recvmsg.{PreparedRecvmsg, RecvmsgCompleted, wanted, v4, peer}
use ququmatz.Owned.Recvmsg.Peer.{IsWholeV4, peer-v4}

-- A buffer is its address and its length.
abbrev pub buffers : StableBuffer (ℕ × ℕ)
buffers = record { stable_ptr = λ b. b.0; stable_len = λ b. b.1 }

abbrev pub storage : ℕ × ℕ
storage = (4096, 104)

abbrev pub somebody : SockAddrIn
somebody = record { sin_family = 2; sin_port = 36895; sin_addr = 16777343; sin_zero = [] }

abbrev pub region : MsgRegion (ℕ × ℕ)
region = record { storage = storage; hdr = 4096; vecs = 4152; name = 4184; count = 2 }

stage-Staged_example : Staged buffers storage 2 (stage buffers storage 2)
stage-Staged_example = stage-Staged buffers storage 2

abbrev prepared : PreparedSendmsg (ℕ × ℕ) (ℕ × ℕ)
prepared = record {
  bufs = (100, 5) ∷ (200, 7) ∷ [];
  region = region;
  fd = pos 4;
  flags = 0;
  target = to somebody;
}

abbrev pub sent : Writes
sent =
    (
      4096,
      header (record default_hdr {
        msg_name = 4184;
        msg_namelen = 16;
        msg_iov = 4152;
        msg_iovlen = 2;
      }),
    )
    ∷ (4184, address somebody)
    ∷ (4168, descriptor (record { base = 200; len = 7 }))
    ∷ (4152, descriptor (record { base = 100; len = 5 }))
    ∷ []

prepared-new :
    Sendmsg.new buffers buffers [] (pos 4) ((100, 5) ∷ (200, 7) ∷ []) storage (to somebody) 0
    ≡ ok (prepared, sent)
unfolding Sendmsg.new Sendmsg.build stage bytes_for name_offset write_descriptors publish_header
prepared-new = refl

abbrev waiting : PreparedRecvmsg (ℕ × ℕ) (ℕ × ℕ)
waiting = record {
  bufs = (100, 5) ∷ (200, 7) ∷ [];
  region = region;
  fd = pos 4;
  flags = 0;
  peer = wanted;
}

abbrev receipt : Receipt
receipt = record { ring = 1; id = 9; result = pos 11; flags = 0 }

abbrev done : RecvmsgCompleted (ℕ × ℕ) (ℕ × ℕ)
done = record { bufs = (100, 5) ∷ (200, 7) ∷ []; region = region; result = pos 11; wanted = wanted }

redeem-done : Recvmsg.redeem (Recvmsg.into_pending waiting 1 9).1 receipt ≡ ok done
unfolding Recvmsg.redeem Recvmsg.into_pending same_request
redeem-done = refl

peer-v4_example :
    (peer done sent ≡ some (v4 somebody))
    ↔ ((false ≡ false) × (wanted ≡ wanted) × IsWholeV4 16 somebody somebody)
unfolding load
peer-v4_example =
    peer-v4 waiting 1 9 receipt done sent
      (record default_hdr { msg_name = 4184; msg_namelen = 16; msg_iov = 4152; msg_iovlen = 2 })
      somebody somebody redeem-done refl refl

-- A ring of two entries that queues nothing yet, and the message pushed on it.
abbrev memory : Shared
memory = record {
  sq_head = 0;
  sq_tail = 0;
  sq_flags = 0;
  sqes = zeroed ∷ zeroed ∷ [];
  cq_head = 0;
  cq_tail = 0;
  cqes = [];
}

abbrev submitter : OwnedSubmitter
submitter = record {
  inner = record {
    fd = 3;
    sq = record { sq_mask = 1; sq_tail_local = 0; sq_submitted = 0 };
    features = 0;
  };
  ring = 1;
  ids = 9;
}

abbrev ticket : PendingSendmsg (ℕ × ℕ) (ℕ × ℕ)
ticket = (Sendmsg.into_pending prepared 1 9).1

abbrev request : IoUringSqe
request = (Sendmsg.into_pending prepared 1 9).0

abbrev later : OwnedSubmitter
later = record {
  inner = record {
    fd = 3;
    sq = record { sq_mask = 1; sq_tail_local = 1; sq_submitted = 0 };
    features = 0;
  };
  ring = 1;
  ids = 10;
}

abbrev written : Shared
written = record memory { sqes = request ∷ zeroed ∷ [] }

submitter-IsValid : Queue.IsValid 1 submitter.inner.sq memory
submitter-IsValid = record {
  mask = record { width = omega arith; ones = refl };
  cells = refl;
  head = omega arith;
  tail = omega arith;
  local = omega arith;
  fits = omega arith;
  published = omega arith;
}

pushes : push_sendmsg submitter memory prepared ≡ (later, written, ok ticket)
unfolding push_sendmsg push_request next_id Sq.push Sendmsg.into_pending
pushes = refl

push_sendmsg-message_example :
    (Queue.contents later.inner.sq written
      ≡ Queue.contents submitter.inner.sq memory ++ (request ∷ []))
    × (request.user_data ≡ 9)
    × (message sent request.addr
        ≡ some (described_by buffers ((100, 5) ∷ (200, 7) ∷ []) (5 ∷ 7 ∷ []), some somebody))
    × (Sendmsg.redeem ticket receipt
        ≡ ok (record { bufs = (100, 5) ∷ (200, 7) ∷ []; region = region; result = pos 11 }))
push_sendmsg-message_example =
    push_sendmsg-message buffers buffers 1 submitter later memory written [] sent (pos 4)
      ((100, 5) ∷ (200, 7) ∷ []) storage (to somebody) 0 prepared ticket receipt prepared-new
      submitter-IsValid pushes refl refl
