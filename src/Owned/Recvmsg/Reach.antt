-- ===== src/Owned/Recvmsg/Reach.antt =====
-- src/owned/recvmsg.rs: what the kernel reaches from the entry of a prepared receive.
use ququmatz.Base.{ℕ, ◌≡◌, refl, subst, Result, ok, err, Option, some, none, List, length, map}
use ququmatz.Base.Int.{ℤ}
use ququmatz.Types.{SockAddrIn, default_addr}
use ququmatz.Owned.{StableBuffer}
use ququmatz.Owned.MsgRegion.{MsgRegion, MsgRegionError, stage, write_descriptors}
use ququmatz.Owned.MsgRegion.Memory.{Writes}
use ququmatz.Owned.MsgRegion.Chase.{message, described_by, IsStaged, Staged, stage-Staged}
use ququmatz.Owned.MsgRegion.Published.{publish, message-publish}
use ququmatz.Owned.Sendmsg.Reach.{length-map}
use ququmatz.Owned.Recvmsg.{
  PeerWanted, unwanted, wanted, PreparedRecvmsg, publish_peer, build, new, into_pending,
}

-- The address that is staged for the kernel to replace.
abbrev pub peer_slot : PeerWanted → Option SockAddrIn
peer_slot unwanted = none
peer_slot wanted = some default_addr

module _ {B R : Type 0} (bytes : StableBuffer B) (stable : StableBuffer R) where
  abbrev Built : Type 0
  Built = Result (PreparedRecvmsg B R × Writes) (List B × R × MsgRegionError)

  -- A message that was built has its parts, in a staged region, and the memory that publishes them.
  unfoldable IsBuilt : Writes → List B → R → PeerWanted → List ℕ → Built → Type 0
  IsBuilt m bufs s peer lens (err e) = Unit
  IsBuilt m bufs s peer lens (ok (p, m')) =
      (p.bufs ≡ bufs)
      × IsStaged stable s (length bufs) p.region
      × (m' ≡ publish p.region (write_descriptors bytes p.region m 0 bufs lens) (peer_slot peer))

  build-IsBuilt :
      (m : Writes) (fd : ℤ) (bufs : List B) (s : R) (peer : PeerWanted) (flags : ℕ) (lens : List ℕ)
      → IsBuilt m bufs s peer lens (build bytes stable m fd bufs s peer flags lens)
  unfolding IsBuilt Staged build
  build-IsBuilt m fd bufs s peer flags lens =
      go (stage stable s (length bufs)) (stage-Staged stable s (length bufs)) peer
    where
      go :
          (out : Result (MsgRegion R) (R × MsgRegionError))
          → Staged stable s (length bufs) out
          → (t : PeerWanted)
          → IsBuilt m bufs s t lens (elim out [
            | ok region ↦ ok (
              record { bufs = bufs; region = region; fd = fd; flags = flags; peer = t },
              publish_peer region (write_descriptors bytes region m 0 bufs lens) t,
            )
            | err (s', e) ↦ err (bufs, s', e)
          ])
      go (err e) st t = tt
      go (ok region) st unwanted = (refl, st, refl)
      go (ok region) st wanted = (refl, st, refl)

  -- The kernel reaches each buffer with its whole length, and the slot for the sender's address.
  pub message-recvmsg :
      (m m' : Writes) (fd : ℤ) (bufs : List B) (s : R) (peer : PeerWanted) (flags ring id : ℕ)
      (p : PreparedRecvmsg B R)
      → new bytes stable m fd bufs s peer flags ≡ ok (p, m')
      → message m' (into_pending p ring id).0.addr
        ≡ some (described_by bytes bufs (map (λ b. bytes.stable_len b) bufs), peer_slot peer)
  unfolding IsBuilt new into_pending
  message-recvmsg m m' fd bufs s peer flags ring id p e =
      let lens = map (λ b. bytes.stable_len b) bufs in
      let built : IsBuilt m bufs s peer lens (ok (p, m')) =
        subst (IsBuilt m bufs s peer lens) e (build-IsBuilt m fd bufs s peer flags lens) in
      let (same, staged, written) = built in
      rw (written) (
        message-publish stable bytes s m p.region (peer_slot peer) bufs lens staged
          (length-map (λ b. bytes.stable_len b) bufs))
