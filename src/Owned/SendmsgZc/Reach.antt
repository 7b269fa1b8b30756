-- ===== src/Owned/SendmsgZc/Reach.antt =====
-- src/owned/sendmsg_zc.rs: what the kernel reaches, and the two completions.
use mathlib.Core.List.{map}
use ququmatz.Base.{ℕ, ◌≡◌, refl, Result, ok, err, some, List, length, arith}
use ququmatz.Base.Int.{ℤ}
use ququmatz.Owned.{StableBuffer, same_request}
use ququmatz.Owned.Event.{Receipt, PartialReceipt}
use ququmatz.Owned.ZeroCopy.Lifecycle.{reading}
use ququmatz.Owned.MsgRegion.{MsgRegion, MsgRegionError, stage, write_descriptors}
use ququmatz.Owned.MsgRegion.Memory.{Writes}
use ququmatz.Owned.MsgRegion.Chase.{message, described_by}
use ququmatz.Owned.Sendmsg
use ququmatz.Owned.Sendmsg.{SendTarget, PreparedSendmsg, publish_target}
use ququmatz.Owned.Sendmsg.Reach.{target_name, message-new}
use ququmatz.Owned.SendmsgZc.{
  PreparedSendmsgZc, PendingSendmsgZc, SendmsgZcCompleted, build, new, into_pending, record_sent,
  redeem, raw, result,
}

-- The message that is sent with a copy, of the same parts.
abbrev pub copied : {B R : Type 0} → PreparedSendmsgZc B R → PreparedSendmsg B R
copied p = record {
  bufs = p.bufs;
  region = p.region;
  fd = p.fd;
  flags = p.flags;
  target = p.target;
}

module _ {B R : Type 0} (bytes : StableBuffer B) (stable : StableBuffer R) where
  -- A message is staged in the same way, whether it is to be copied or not.
  build-copied :
      (m m' : Writes) (fd : ℤ) (bufs : List B) (s : R) (target : SendTarget) (flags : ℕ)
      (lens : List ℕ) (p : PreparedSendmsgZc B R)
      → build bytes stable m fd bufs s target flags lens ≡ ok (p, m')
      → Sendmsg.build bytes stable m fd bufs s target flags lens ≡ ok (copied p, m')
  unfolding build Sendmsg.build
  build-copied m m' fd bufs s target flags lens p e = go (stage stable s (length bufs)) e
    where
      go :
          (out : Result (MsgRegion R) (R × MsgRegionError))
          → ◌≡◌ {A = Result (PreparedSendmsgZc B R × Writes) (List B × R × MsgRegionError)}
              (elim out [
                | ok region ↦ ok (
                  record { bufs = bufs; region = region; fd = fd; flags = flags; target = target },
                  publish_target region (write_descriptors bytes region m 0 bufs lens) target,
                )
                | err (s', x) ↦ err (bufs, s', x)
              ])
              (ok (p, m'))
          → ◌≡◌ {A = Result (PreparedSendmsg B R × Writes) (List B × R × MsgRegionError)}
              (elim out [
                | ok region ↦ ok (
                  record { bufs = bufs; region = region; fd = fd; flags = flags; target = target },
                  publish_target region (write_descriptors bytes region m 0 bufs lens) target,
                )
                | err (s', x) ↦ err (bufs, s', x)
              ])
              (ok (copied p, m'))
      go (ok region) e = ground arith
      go (err (s', x)) e = absurd (ground arith)

  -- When a message to be sent without a copy is prepared and pushed, the kernel reaches from its
  -- entry each buffer in order with its whole length, and the address of its target if it has one;
  -- a partial event and then a receipt, both of its ring and identity, are recorded and redeem it
  -- for the buffers and the region as they were prepared, and the result read is the event's.
  pub notified-new :
      (m m' : Writes) (fd : ℤ) (bufs : List B) (s : R) (target : SendTarget) (flags ring id : ℕ)
      (p : PreparedSendmsgZc B R) (notice : PartialReceipt) (receipt : Receipt)
      → new bytes stable m fd bufs s target flags ≡ ok (p, m')
      → notice.ring ≡ ring
      → notice.id ≡ id
      → receipt.ring ≡ ring
      → receipt.id ≡ id
      → let (sqe, ticket) = into_pending p ring id in
        (message m' sqe.addr
          ≡ some (described_by bytes bufs (map (λ b. bytes.stable_len b) bufs), target_name target))
        × ((t : PendingSendmsgZc B R) × (done : SendmsgZcCompleted B R) × (record_sent ticket notice
              ≡ ok t)
            × (redeem t receipt ≡ ok done)
            × (done.bufs ≡ p.bufs)
            × (done.region ≡ p.region)
            × (result done ≡ reading notice.result))
  unfolding new into_pending record_sent redeem raw result same_request Sendmsg.new
      Sendmsg.into_pending
  notified-new m m' fd bufs s target flags ring id p notice receipt e nr ni rr ri =
      let lens = map (λ b. bytes.stable_len b) bufs in
      let plain = build-copied m m' fd bufs s target flags lens p e in
      let t : PendingSendmsgZc B R = record (into_pending p ring id).1 {
        sent = some notice.result;
      } in
      let done : SendmsgZcCompleted B R = record {
        bufs = p.bufs;
        region = p.region;
        sent = some notice.result;
        notified = receipt.result;
      } in
      (
        message-new bytes stable m m' fd bufs s target flags ring id (copied p) plain,
        (t, done, ground arith, ground arith, refl, refl, refl),
      )
