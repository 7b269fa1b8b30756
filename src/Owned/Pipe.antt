-- ===== src/Owned/Pipe.antt =====
-- src/owned/pipe.rs: a pipe whose two descriptors the kernel writes to memory.
pub mod Ends
use ququmatz.Base.{ℕ, ◌+◌, ◌%◌, ◌==◌, ltb, not, if◌then◌else◌, Result, ok, err, Option, some, none}
use ququmatz.Base.Int.{ℤ, is_neg}
use ququmatz.Types.{IoUringSqe}
use ququmatz.Error.{Error, from_failed_cqe}
use ququmatz.Op
use ququmatz.Op.{pipe_ptr}
use ququmatz.Owned.{StableBuffer}
use ququmatz.Owned.Event.{Receipt, belongs_to}

-- `size_of::<[i32; 2]>()` and `align_of::<i32>()`
abbrev pub dest_len : ℕ
dest_len = 8

abbrev pub dest_align : ℕ
dest_align = 4

pub data PipeError : Type 0 where
  dest_too_small : ℕ → ℕ → PipeError
  dest_misaligned : ℕ → PipeError

pub record PreparedPipe (D : Type 0) : Type 0 where
  pub dest : D
  pub flags : ℕ
  pub addr : ℕ

pub record PendingPipe (D : Type 0) : Type 0 where
  pub dest : D
  pub ring : ℕ
  pub id : ℕ
  pub flags : ℕ
  pub addr : ℕ

pub record PipeCreated (D : Type 0) : Type 0 where
  pub dest : D
  pub id : ℕ
  pub result : ℤ
  pub addr : ℕ

module _ {D : Type 0} where
  unfoldable pub new : StableBuffer D → ℕ → D → Result (PreparedPipe D) (D × PipeError)
  new stable flags dest =
      let got = stable.stable_len dest in
      let base = stable.stable_ptr dest in
      if ltb got dest_len
      then err (dest, dest_too_small dest_len got)
      else if not (base % dest_align == 0)
      then err (dest, dest_misaligned dest_align)
      else ok (record { dest = dest; flags = flags; addr = base })

  unfoldable pub into_pending : PreparedPipe D → ℕ → ℕ → IoUringSqe × PendingPipe D
  into_pending p ring id = (
    Op.user_data (pipe_ptr p.addr p.flags) id,
    record { dest = p.dest; ring = ring; id = id; flags = p.flags; addr = p.addr },
  )

  unfoldable pub reclaim_unsubmitted : PendingPipe D → PreparedPipe D
  reclaim_unsubmitted p = record { dest = p.dest; flags = p.flags; addr = p.addr }

  unfoldable pub redeem : PendingPipe D → Receipt → Result (PipeCreated D) (PendingPipe D × Receipt)
  redeem p receipt =
      if belongs_to receipt p.ring p.id
      then ok (record { dest = p.dest; id = p.id; result = receipt.result; addr = p.addr })
      else err (p, receipt)

  unfoldable pub result : PipeCreated D → Result (Unit {0}) Error
  result c = elim (from_failed_cqe c.result) [ some e ↦ err e | none ↦ ok tt ]

  -- The memory is that of the words, by the addresses of their first bytes.
  unfoldable pub read_fd : (ℕ → ℤ) → PipeCreated D → Option ℤ
  read_fd m c = if is_neg c.result then none else some (m c.addr)

  unfoldable pub write_fd : (ℕ → ℤ) → PipeCreated D → Option ℤ
  write_fd m c = if is_neg c.result then none else some (m (c.addr + 4))
