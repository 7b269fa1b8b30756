-- ===== src/Owned/Path/Tests.antt =====
-- The properties of paths at concrete inputs: the text "ab", in eight bytes at 64 and at 128.
use ququmatz.Base.{
  ℕ, ◌%◌, ◌^◌, ◌<◌, ◌≤◌, none, ◌≡◌, ◌↔◌, refl, inr, false, ok, some, [], ◌∷◌, arith,
}
use ququmatz.Base.Int.{pos}
use ququmatz.Types.{contains}
use ququmatz.Types.Fs.{cwd, cloexec}
use ququmatz.Owned.{StableBuffer}
use ququmatz.Owned.Event.{Receipt}
use ququmatz.Owned.StagedAddr
use ququmatz.Owned.StagedAddr.{write_bytes, read_bytes}
use ququmatz.Owned.Path.{OwnedPath, copy_into, adopt, as_bytes, position_nul, contains_nul}
use ququmatz.Owned.Path.Scan.{
  scan, judged, IsTerminated, adopt-IsTerminated, adopt-copy_into, adopt-scan,
}
use ququmatz.Owned.Path.Requests.{Fills, read_target, scan-direct_open}
use ququmatz.Owned.StagedValue.{Values, write_value}
use ququmatz.Owned.Openat2
use ququmatz.Owned.Openat2.{OpenHow, PreparedOpenat2, create, how_align}
use ququmatz.Owned.Openat2.Reach.{IsAllowed, redeem-at}
use ququmatz.Owned.Direct
use ququmatz.Owned.Direct.{PreparedDirectOpen, filled}
use ququmatz.Owned.Slot.{SlotTarget, SlotIndex, DirectSlot}

abbrev buffers : StableBuffer ℕ
buffers = record { stable_ptr = λ b. b; stable_len = λ b. 8 }

abbrev garbage : StagedAddr.Bytes
garbage a = 255

abbrev text : OwnedPath ℕ
text = record { storage = 64; len = 2 }

abbrev written : StagedAddr.Bytes
written = write_bytes (write_bytes garbage 64 (97 ∷ 98 ∷ [])) 66 (0 ∷ [])

copied : copy_into buffers garbage 64 (97 ∷ 98 ∷ []) ≡ ok (text, written)
unfolding copy_into contains_nul
copied = refl

adopt-copy_into_example :
    (adopt buffers written 64 ≡ ok text)
    × (as_bytes buffers written text ≡ 97 ∷ 98 ∷ [])
    × (scan 8 written 64 ≡ some (97 ∷ 98 ∷ []))
    × (written 72 ≡ 255)
adopt-copy_into_example =
    adopt-copy_into buffers garbage written 64 (97 ∷ 98 ∷ []) text 72 copied (inr (omega arith))

adopt-scan_example : adopt buffers garbage 64 ≡ judged 64 (scan 8 garbage 64)
adopt-scan_example = adopt-scan buffers garbage 64

adopted : adopt buffers written 64 ≡ ok text
unfolding adopt position_nul read_bytes write_bytes
adopted = refl

text-IsTerminated : IsTerminated buffers written text
text-IsTerminated = adopt-IsTerminated buffers written 64 text adopted

abbrev receipt : Receipt
receipt = record { ring = 1; id = 9; result = pos 5; flags = 0 }

-- The creation of a file with the mode 0644, with its parameters in 32 bytes at 128.
abbrev how_buffers : StableBuffer ℕ
how_buffers = record { stable_ptr = λ b. b; stable_len = λ b. 32 }

abbrev unwritten : Values OpenHow
unwritten a = none

abbrev how_read : OpenHow
how_read = record { flags = 66; mode = 420; resolve_flags = 8 }

abbrev creation : PreparedOpenat2 ℕ ℕ
creation = record {
  path = text;
  how_store = 128;
  dir = cwd;
  flags = 2;
  mode = create 420;
  resolve_flags = 8;
  path_addr = 64;
  how_addr = 128;
}

creation-at :
    Openat2.at buffers how_buffers unwritten cwd text 2 (create 420) 8 128
    ≡ ok (creation, write_value unwritten 128 how_read)
unfolding Openat2.at
creation-at = refl

redeem-at_example :
    let (sqe, ticket) = Openat2.into_pending creation 1 9 in
    (scan 8 written sqe.addr ≡ some (as_bytes buffers written text))
    × (write_value unwritten 128 how_read sqe.off ≡ some how_read)
    × (420 < 2 ^ 12)
    × IsAllowed how_read
    × (sqe.off ≡ 128)
    × (sqe.off % how_align ≡ 0)
    × (sqe.len ≤ 32)
    × (Openat2.redeem ticket receipt
        ≡ ok (record { path = text; how_store = 128; file = some 5; id = 9; result = pos 5 }))
redeem-at_example =
    redeem-at buffers how_buffers written unwritten (write_value unwritten 128 how_read) cwd text 2
      (create 420) 8 128 creation receipt text-IsTerminated creation-at

abbrev sixth : SlotIndex
sixth = record { index = 6 }

abbrev direct : PreparedDirectOpen ℕ
direct = record {
  path = text;
  dir = cwd;
  flags = 0;
  mode = 0;
  target = SlotTarget.exact sixth;
  addr = 64;
}

direct-at : Direct.at buffers cwd text 0 0 (SlotTarget.exact sixth) ≡ ok direct
unfolding Direct.at contains
direct-at = refl

abbrev taken : DirectSlot
taken = record { slot = sixth; ring = 1 }

scan-direct_open_example :
    let (sqe, ticket) = Direct.into_pending direct 1 9 in
    let slot = filled (SlotTarget.exact sixth) 1 (pos 5) in
    (contains 0 cloexec ≡ false)
    × (scan 8 written sqe.addr ≡ some (as_bytes buffers written text))
    × (read_target sqe.splice_fd_in ≡ some (SlotTarget.exact sixth))
    × (Direct.redeem ticket receipt
        ≡ ok (record { path = text; slot = slot; id = 9; result = pos 5 }))
    × ((slot ≡ some taken) ↔ (Fills (SlotTarget.exact sixth) (pos 5) taken.slot × (taken.ring ≡ 1)))
scan-direct_open_example =
    scan-direct_open buffers written cwd text 0 0 (SlotTarget.exact sixth) direct receipt taken
      (omega arith) text-IsTerminated direct-at
