-- ===== src/Owned/StagedAddr/Tests.antt =====
-- The properties of staged addresses at concrete inputs: a `bind`, with 20 bytes at 64.
use ququmatz.Base.{ℕ, ◌/◌, ◌%◌, ◌≤◌, ◌≡◌, refl, inr, ok, [], arith}
use ququmatz.Base.Int.{pos, negsuc}
use ququmatz.Types.{SockAddrIn}
use ququmatz.Owned.{StableBuffer}
use ququmatz.Owned.Event.{Receipt}
use ququmatz.Owned.Bind.{bind_op}
use ququmatz.Owned.StagedAddr
use ququmatz.Owned.StagedAddr.{
  NeBytes, StagedPrepared, write_bytes, to_bytes, new, into_pending, published, reclaim_unsubmitted,
  redeem,
}
use ququmatz.Owned.StagedAddr.Lifecycle.{bind_op-IsAddressed, published-new}

abbrev buffers : StableBuffer ℕ
buffers = record { stable_ptr = λ b. b; stable_len = λ b. 20 }

-- The order of a little-endian machine.
abbrev little : NeBytes
little = record {
  u16 = λ n. (n % 256, n / 256);
  u32 = λ n. (n % 256, n / 256 % 256, n / 65536 % 256, n / 16777216);
}

abbrev nothing : StagedAddr.Bytes
nothing a = 0

abbrev localhost : SockAddrIn
localhost = record { sin_family = 2; sin_port = 36895; sin_addr = 16777343; sin_zero = [] }

abbrev prepared : StagedPrepared ℕ
prepared = record { store = 64; fd = pos 4; addr = localhost; staged = 64 }

abbrev written : StagedAddr.Bytes
written = write_bytes nothing 64 (to_bytes little localhost)

new-prepared : new bind_op little buffers nothing (pos 4) localhost 64 ≡ ok (prepared, written)
unfolding new
new-prepared = refl

abbrev receipt : Receipt
receipt = record { ring = 1; id = 9; result = negsuc 97; flags = 0 }

published-new_example :
    let (sqe, ticket) = into_pending bind_op prepared 1 9 in
    (published written prepared ≡ to_bytes little localhost)
    × (written 84 ≡ 0)
    × (sqe.user_data ≡ 9)
    × (sqe.fd ≡ pos 4)
    × (sqe.addr ≡ 64)
    × (sqe.off ≤ 20)
    × (reclaim_unsubmitted ticket ≡ prepared)
    × (redeem ticket receipt
        ≡ ok (record { store = 64; addr = localhost; id = 9; result = negsuc 97 }))
published-new_example =
    published-new bind_op little buffers nothing written (pos 4) localhost 64 prepared 1 9 84
      receipt bind_op-IsAddressed new-prepared (inr (omega arith)) refl refl
