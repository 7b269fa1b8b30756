-- ===== src/Owned/StagedValue/Tests.antt =====
-- The properties of staged values at concrete inputs: a timeout of one second, in 16 bytes at 64.
use ququmatz.Base.{ℕ, ◌%◌, ◌≤◌, ◌≡◌, refl, ok, some, none}
use ququmatz.Base.Int.{pos, negsuc}
use ququmatz.Owned.{StableBuffer}
use ququmatz.Owned.Event.{Receipt}
use ququmatz.Owned.Timeout.{Timespec, TimeoutCtx, timer, timeout_op}
use ququmatz.Owned.StagedValue.{
  ValuePrepared, Values, write_value, new, into_pending, redeem, reclaim_unsubmitted,
}
use ququmatz.Owned.StagedValue.Lifecycle.{timeout_op-IsAddressed, redeem-new}

abbrev buffers : StableBuffer ℕ
buffers = record { stable_ptr = λ b. b; stable_len = λ b. 16 }

abbrev nothing : Values Timespec
nothing a = none

abbrev second : Timespec
second = record { tv_sec = pos 1; tv_nsec = pos 0 }

abbrev ctx : TimeoutCtx
ctx = record { duration = second; count = timer; flags = 0 }

abbrev prepared : ValuePrepared ℕ TimeoutCtx
prepared = record { storage = 64; ctx = ctx; addr = 64 }

abbrev staged : Values Timespec
staged = write_value nothing 64 second

new-prepared : new timeout_op buffers nothing ctx 64 ≡ ok (prepared, staged)
unfolding new
new-prepared = refl

abbrev receipt : Receipt
receipt = record { ring = 1; id = 9; result = negsuc 61; flags = 0 }

redeem-new_example :
    let (sqe, ticket) = into_pending timeout_op prepared 1 9 in
    (sqe.user_data ≡ 9)
    × (staged sqe.addr ≡ some second)
    × (sqe.addr ≡ buffers.stable_ptr 64)
    × (timeout_op.bytes ≤ 16)
    × (sqe.addr % timeout_op.align ≡ 0)
    × (reclaim_unsubmitted ticket ≡ prepared)
    × (redeem timeout_op ticket receipt
        ≡ ok (record { storage = 64; info = timer; id = 9; result = negsuc 61 }))
redeem-new_example =
    redeem-new timeout_op buffers nothing staged ctx 64 prepared 1 9 receipt timeout_op-IsAddressed
      new-prepared refl refl
