-- ===== src/Owned/Sendmsg/Reach.antt =====
-- src/owned/sendmsg.rs: what the kernel reaches from the entry of a prepared message.
use mathlib.Core.List.{map}
use ququmatz.Base.{
  ℕ, suc, ◌≡◌, refl, ap, subst, Result, ok, err, Option, some, none, List, [], ◌∷◌, length, arith,
}
use ququmatz.Base.Int.{ℤ}
use ququmatz.Types.{SockAddrIn}
use ququmatz.Owned.{StableBuffer}
use ququmatz.Owned.MsgRegion.{MsgRegion, MsgRegionError, stage, write_descriptors}
use ququmatz.Owned.MsgRegion.Memory.{Writes}
use ququmatz.Owned.MsgRegion.Chase.{message, described_by, IsStaged, Staged, stage-Staged}
use ququmatz.Owned.MsgRegion.Published.{publish, message-publish, message-rewrite}
use ququmatz.Owned.Sendmsg.{
  SendTarget, connected, to, PreparedSendmsg, publish_target, clamped, build, new, with_lens,
  into_pending, reclaim_unsubmitted,
}

-- The address of a target that has one.
abbrev pub target_name : SendTarget → Option SockAddrIn
target_name connected = none
target_name (to addr) = some addr

pub length-map : {A B : Type 0} (f : A → B) (xs : List A) → length (map f xs) ≡ length xs
length-map f [] = refl
length-map f (x ∷ xs) = ap suc (length-map f xs)

pub length-clamped :
    {B : Type 0} (bytes : StableBuffer B) (lens : List ℕ) (bufs : List B)
    → length lens ≡ length bufs
    → length (clamped bytes lens bufs) ≡ length bufs
unfolding clamped
length-clamped bytes [] [] e = refl
length-clamped bytes [] (b ∷ bs) e = absurd (omega arith)
length-clamped bytes (n ∷ ns) [] e = refl
length-clamped bytes (n ∷ ns) (b ∷ bs) e = ap suc (length-clamped bytes ns bs (omega arith))

module _ {B R : Type 0} (bytes : StableBuffer B) (stable : StableBuffer R) where
  abbrev Built : Type 0
  Built = Result (PreparedSendmsg B R × Writes) (List B × R × MsgRegionError)

  -- A message that was built has its parts, in a staged region, and the memory that publishes them.
  unfoldable IsBuilt : Writes → List B → R → SendTarget → List ℕ → Built → Type 0
  IsBuilt m bufs s target lens (err e) = Unit
  IsBuilt m bufs s target lens (ok (p, m')) =
      (p.bufs ≡ bufs)
      × IsStaged stable s (length bufs) p.region
      × (m'
          ≡ publish p.region (write_descriptors bytes p.region m 0 bufs lens) (target_name target))

  build-IsBuilt :
      (m : Writes) (fd : ℤ) (bufs : List B) (s : R) (target : SendTarget) (flags : ℕ)
      (lens : List ℕ)
      → IsBuilt m bufs s target lens (build bytes stable m fd bufs s target flags lens)
  unfolding IsBuilt Staged build
  build-IsBuilt m fd bufs s target flags lens =
      go (stage stable s (length bufs)) (stage-Staged stable s (length bufs)) target
    where
      go :
          (out : Result (MsgRegion R) (R × MsgRegionError))
          → Staged stable s (length bufs) out
          → (t : SendTarget)
          → IsBuilt m bufs s t lens (elim out [
            | ok region ↦ ok (
              record { bufs = bufs; region = region; fd = fd; flags = flags; target = t },
              publish_target region (write_descriptors bytes region m 0 bufs lens) t,
            )
            | err (s', e) ↦ err (bufs, s', e)
          ])
      go (err e) st t = tt
      go (ok region) st connected = (refl, st, refl)
      go (ok region) st (to addr) = (refl, st, refl)

  -- When a message is prepared, the kernel that starts at the address in its entry and follows the
  -- pointers of the header finds each buffer in order, with its address and its whole length, and
  -- the address of the target if it has one.
  pub message-new :
      (m m' : Writes) (fd : ℤ) (bufs : List B) (s : R) (target : SendTarget) (flags ring id : ℕ)
      (p : PreparedSendmsg B R)
      → new bytes stable m fd bufs s target flags ≡ ok (p, m')
      → message m' (into_pending p ring id).0.addr
        ≡ some (described_by bytes bufs (map (λ b. bytes.stable_len b) bufs), target_name target)
  unfolding IsBuilt new into_pending
  message-new m m' fd bufs s target flags ring id p e =
      let lens = map (λ b. bytes.stable_len b) bufs in
      let built : IsBuilt m bufs s target lens (ok (p, m')) =
        subst (IsBuilt m bufs s target lens) e (build-IsBuilt m fd bufs s target flags lens) in
      let (same, staged, written) = built in
      rw (written) (
        message-publish stable bytes s m p.region (target_name target) bufs lens staged
          (length-map (λ b. bytes.stable_len b) bufs))

  -- After a prepared message is given as many new lengths as it has buffers, the kernel finds from
  -- its entry the same buffers with these lengths, each cut to the buffer's own, and the same
  -- target.
  pub message-with_lens :
      (m m' : Writes) (fd : ℤ) (bufs : List B) (s : R) (target : SendTarget) (flags ring id : ℕ)
      (p : PreparedSendmsg B R) (lens : List ℕ)
      → new bytes stable m fd bufs s target flags ≡ ok (p, m')
      → length lens ≡ length bufs
      → message (with_lens bytes stable p m' lens) (into_pending p ring id).0.addr
        ≡ some (described_by bytes bufs (clamped bytes lens bufs), target_name target)
  unfolding IsBuilt new into_pending with_lens
  message-with_lens m m' fd bufs s target flags ring id p lens e n =
      let whole = map (λ b. bytes.stable_len b) bufs in
      let built : IsBuilt m bufs s target whole (ok (p, m')) =
        subst (IsBuilt m bufs s target whole) e (build-IsBuilt m fd bufs s target flags whole) in
      let (same, staged, written) = built in
      rw (same, written)
        (message-rewrite stable bytes s (write_descriptors bytes p.region m 0 bufs whole) p.region
          (target_name target) bufs (clamped bytes lens bufs) staged
          (length-clamped bytes lens bufs n))

  -- A request that is taken back before submission is the one that was prepared.
  pub reclaim-into_pending :
      (p : PreparedSendmsg B R) (ring id : ℕ) → reclaim_unsubmitted (into_pending p ring id).1 ≡ p
  unfolding reclaim_unsubmitted into_pending
  reclaim-into_pending p ring id = refl
