-- ===== src/Owned/Recvmsg/Peer.antt =====
-- src/owned/recvmsg.rs: what a received message says of its sender, and where it was received.
use ququmatz.Base.{
  ℕ, ◌≡◌, refl, subst, true, false, ok, some, ◌↔◌, ◌⊎◌, inl, inr, Bool-cases, arith,
}
use ququmatz.Base.Int.{is_neg}
use ququmatz.Types.{SockAddrIn, MsgHdr}
use ququmatz.Owned.Event.{Receipt}
use ququmatz.Owned.MsgRegion.{header_of, staged_name}
use ququmatz.Owned.MsgRegion.Memory.{Writes}
use ququmatz.Owned.Recvmsg.{
  PeerWanted, unwanted, wanted, no_peer, v4, PreparedRecvmsg, RecvmsgCompleted, af_inet,
  reserved_name_len, classify_peer, into_pending, redeem, peer,
}

-- One address, of the reported length and family, and the one that was found.
abbrev pub IsWholeV4 : ℕ → SockAddrIn → SockAddrIn → Type 0
IsWholeV4 reported staged x =
    (reported ≡ reserved_name_len) × (staged.sin_family ≡ af_inet) × (staged ≡ x)

classify_peer-v4 :
    (reported : ℕ) (staged x : SockAddrIn)
    → (classify_peer reported staged ≡ v4 x) ↔ IsWholeV4 reported staged x
unfolding classify_peer
classify_peer-v4 reported staged x = grind arith

module _ {B R : Type 0} where
  abbrev done : PreparedRecvmsg B R → Receipt → RecvmsgCompleted B R
  done p receipt = record {
    bufs = p.bufs;
    region = p.region;
    result = receipt.result;
    wanted = p.peer;
  }

  redeem_ok :
      (p : PreparedRecvmsg B R) (ring id : ℕ) (receipt : Receipt) (c : RecvmsgCompleted B R)
      → redeem (into_pending p ring id).1 receipt ≡ ok c
      → done p receipt ≡ c
  unfolding redeem into_pending
  redeem_ok p ring id receipt c e = ground arith

  read_peer :
      (c : RecvmsgCompleted B R) (m : Writes) (h : MsgHdr) (a : SockAddrIn) (w : PeerWanted)
      → c.wanted ≡ w
      → is_neg c.result ≡ false
      → header_of c.region m ≡ some h
      → staged_name c.region m ≡ some a
      → (w ≡ unwanted × peer c m ≡ some no_peer)
        ⊎ (w ≡ wanted × peer c m ≡ some (classify_peer h.msg_namelen a))
  unfolding peer
  read_peer c m h a unwanted e n f g = inl (refl, rw (n, peer, e) refl)
  read_peer c m h a wanted e n f g = inr (refl, rw (n, peer, e, f, g) refl)

  failed_peer :
      (c : RecvmsgCompleted B R) (m : Writes) → is_neg c.result ≡ true → peer c m ≡ some no_peer
  unfolding peer
  failed_peer c m e = rw (e, peer) refl

  -- When a receive is redeemed with its receipt, and the memory has a header and an address where
  -- the request staged them, the completed receive gives the IPv4 address x exactly when its result
  -- is no error, the peer was wanted, the header reports 16 bytes, the family is that of IPv4 and
  -- the address is x.
  pub peer-v4 :
      (p : PreparedRecvmsg B R) (ring id : ℕ) (receipt : Receipt) (c : RecvmsgCompleted B R)
      (m : Writes) (h : MsgHdr) (a x : SockAddrIn)
      → redeem (into_pending p ring id).1 receipt ≡ ok c
      → header_of p.region m ≡ some h
      → staged_name p.region m ≡ some a
      → (peer c m ≡ some (v4 x))
        ↔ ((is_neg receipt.result ≡ false) × (p.peer ≡ wanted) × IsWholeV4 h.msg_namelen a x)
  peer-v4 p ring id receipt c m h a x e f g =
      let whole = classify_peer-v4 h.msg_namelen a x in
      subst
        (λ c.
          (peer c m ≡ some (v4 x))
          ↔ ((is_neg receipt.result ≡ false) × (p.peer ≡ wanted) × IsWholeV4 h.msg_namelen a x))
        (redeem_ok p ring id receipt c e)
        (elim (Bool-cases (is_neg receipt.result)) [
          | inl y ↦ let fact = failed_peer (done p receipt) m y in grind arith
          | inr y ↦ elim (read_peer (done p receipt) m h a p.peer refl y f g) [
            | inl (un, fact) ↦ grind arith
            | inr (want, fact) ↦ grind arith
          ]
        ])
