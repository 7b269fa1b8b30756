-- ===== src/Owned/Pipe/Ends.antt =====
-- src/owned/pipe.rs: the ends that the kernel wrote are those that are read.
use ququmatz.Base.{ℕ, ◌+◌, ◌%◌, ◌==◌, ◌≤◌, ◌≡◌, ◌∙◌, refl, if◌then◌else◌, ok, some, none, arith}
use ququmatz.Base.Int.{ℤ, is_neg}
use ququmatz.Owned.{StableBuffer}
use ququmatz.Owned.Event.{Receipt}
use ququmatz.Owned.Queue.Kinds.{piped-IsRedeemable}
use ququmatz.Owned.Pipe.{
  PreparedPipe, PipeCreated, dest_len, dest_align, new, into_pending, redeem, read_fd, write_fd,
}

-- What the kernel documents to do with the destination of an entry when it makes a pipe.
abbrev pub stored : (ℕ → ℤ) → ℕ → ℤ → ℤ → ℕ → ℤ
stored m at r w a = if a == at then r else if a == at + 4 then w else m a

module _ {D : Type 0} (stable : StableBuffer D) where
  -- What `new` has checked and kept when it succeeds.
  new_ok :
      (flags : ℕ) (dest : D) (p : PreparedPipe D)
      → new stable flags dest ≡ ok p
      → (dest_len ≤ stable.stable_len dest)
        × (stable.stable_ptr dest % dest_align ≡ 0)
        × (record { dest = dest; flags = flags; addr = stable.stable_ptr dest } ≡ p)
  unfolding new
  new_ok flags dest p e = ground arith

  -- When a pipe is prepared, both words that the kernel writes from the address in its entry on lie
  -- in the destination, which is aligned; its own receipt redeems it for the destination; if the
  -- result is no error, the two ends that are then read are the words that the kernel wrote there,
  -- and if it is one, there are none.
  pub read_fd-redeem :
      (m : ℕ → ℤ) (flags : ℕ) (dest : D) (p : PreparedPipe D) (receipt : Receipt) (r w : ℤ)
      → new stable flags dest ≡ ok p
      → let (sqe, ticket) = into_pending p receipt.ring receipt.id in
        let done : PipeCreated D = record {
          dest = dest;
          id = receipt.id;
          result = receipt.result;
          addr = stable.stable_ptr dest;
        } in
        let after = stored m sqe.addr r w in
        (sqe.addr ≡ stable.stable_ptr dest)
        × (sqe.addr % dest_align ≡ 0)
        × (sqe.addr + 8 ≤ stable.stable_ptr dest + stable.stable_len dest)
        × (redeem ticket receipt ≡ ok done)
        × (read_fd after done ≡ (if is_neg receipt.result then none else some r))
        × (write_fd after done ≡ (if is_neg receipt.result then none else some w))
  unfolding into_pending read_fd write_fd
  read_fd-redeem m flags dest p receipt r w e =
      let (room, aligned, same) = new_ok flags dest p e in
      let at = stable.stable_ptr dest in
      let first : stored m at r w at ≡ r = ground arith in
      let second : stored m at r w (at + 4) ≡ w = ground arith in
      (
        rw (← same) refl,
        rw (← same) aligned,
        rw (← same) (omega arith),
        piped-IsRedeemable.own p receipt ∙ rw (← same) refl,
        rw (← same, first) refl,
        rw (← same, second) refl,
      )
