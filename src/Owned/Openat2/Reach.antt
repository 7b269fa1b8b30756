-- ===== src/Owned/Openat2/Reach.antt =====
-- src/owned/openat2.rs: what the kernel reads of an opening.
use ququmatz.Base.{
  ℕ, ◌+◌, ◌%◌, ◌^◌, ◌≤◌, ◌<◌, ◌≡◌, ◌≢◌, ◌∙◌, refl, bit_and, bit_or, ok, some, arith,
}
use ququmatz.Base.Int.{try_u32}
use ququmatz.Base.Bits.{bit_or_apart}
use ququmatz.Base.Word.{bit_and_mask}
use ququmatz.Types.Fs.{DirFd}
use ququmatz.Owned.{StableBuffer}
use ququmatz.Owned.Event.{Receipt}
use ququmatz.Owned.StagedAddr
use ququmatz.Owned.StagedValue.{Values, write_value}
use ququmatz.Owned.Path.{OwnedPath, as_bytes, path_ptr}
use ququmatz.Owned.Path.Scan.{scan, IsTerminated}
use ququmatz.Owned.Queue.Kinds.Paths.{opened_how-IsRedeemable}
use ququmatz.Owned.Openat2.{
  OpenHow, how_bytes, how_align, Openat2Mode, existing, create, create_new, tmpfile, flags_of,
  mode_of, stray_bits, PreparedOpenat2, how_of, at, into_pending, redeem,
}

-- What openat2(2) wants for each way to open: `O_CREAT` is 0100 there, `O_EXCL` is 0200 and
-- `O_TMPFILE` is 020200000; the mode of the file stands beside them.
abbrev pub documented : Openat2Mode → ℕ × ℕ
documented existing = (0, 0)
documented (create mode) = (64, mode)
documented (create_new mode) = (64 + 128, mode)
documented (tmpfile mode) = (2 ^ 22 + 2 ^ 16, mode)

documented_lem : (mode : Openat2Mode) → documented mode ≡ (flags_of mode, mode_of mode)
documented_lem existing = refl
documented_lem (create mode) = refl
documented_lem (create_new mode) = refl
documented_lem (tmpfile mode) = refl

-- The kernel documents that a mode is only allowed when a file may be made: with `O_CREAT` or with
-- the bit of `O_TMPFILE` that is its own.
abbrev pub makes_file : ℕ
makes_file = 64 + 2 ^ 22

abbrev pub IsAllowed : OpenHow → Type 0
IsAllowed how = how.mode ≢ 0 → bit_and how.flags makes_file ≢ 0

-- A bit of a part is a bit of the union.
part : (flags own : ℕ) → bit_and own makes_file ≢ 0 → bit_and (bit_or flags own) makes_file ≢ 0
part flags own h e = h (bit_or_apart flags own makes_file e).1

allowed :
    (flags : ℕ) (mode : Openat2Mode)
    → mode_of mode ≢ 0
    → bit_and (bit_or flags (flags_of mode)) makes_file ≢ 0
allowed flags existing h = absurd (h refl)
allowed flags (create mode) h = part flags (flags_of (create mode)) (λ e. omega arith)
allowed flags (create_new mode) h = part flags (flags_of (create_new mode)) (λ e. omega arith)
allowed flags (tmpfile mode) h = part flags (flags_of (tmpfile mode)) (λ e. omega arith)

-- A mode without stray bits is one of twelve bits.
stray_none : (bits : ℕ) → stray_bits bits ≡ 0 → bits < 2 ^ 12
stray_none bits h = omega (arith, bit_and_mask 12 bits)

module _ {S H : Type 0} (stable : StableBuffer S) (how : StableBuffer H) where
  -- What `at` has checked and written when it succeeds.
  at_ok :
      (m m' : Values OpenHow) (dir : DirFd) (path : OwnedPath S) (flags : ℕ) (mode : Openat2Mode)
      (resolve : ℕ) (how_store : H) (p : PreparedOpenat2 S H)
      → at stable how m dir path flags mode resolve how_store ≡ ok (p, m')
      → let base = how.stable_ptr how_store in
        let q : PreparedOpenat2 S H = record {
          path = path;
          how_store = how_store;
          dir = dir;
          flags = flags;
          mode = mode;
          resolve_flags = resolve;
          path_addr = path_ptr stable path;
          how_addr = base;
        } in
        (stray_bits (mode_of mode) ≡ 0)
        × (how_bytes ≤ how.stable_len how_store)
        × (base % how_align ≡ 0)
        × (q ≡ p)
        × (write_value m base (how_of q) ≡ m')
  unfolding at
  at_ok m m' dir path flags mode resolve how_store p e = ground arith

  write_value_here : {V : Type 0} (m : Values V) (a : ℕ) (v : V) → write_value m a v a ≡ some v
  write_value_here m a v = ground arith

  -- When an opening with its parameters in memory is prepared with a path that ends in its storage:
  -- from its entry the kernel reads the path and, at the aligned address of the other storage,
  -- which has room for as many bytes as the entry says, the flags asked for with those that openat2
  -- documents for the way to open, the file's mode, which is zero if none is made, is below 2 ^ 12
  -- and is only not zero with a flag that makes a file, and the restrictions; its own receipt
  -- redeems it for the path, the storage and the descriptor that the result is, if it is no error.
  pub redeem-at :
      (bytes : StagedAddr.Bytes) (m m' : Values OpenHow) (dir : DirFd) (path : OwnedPath S)
      (flags : ℕ) (mode : Openat2Mode) (resolve : ℕ) (how_store : H) (p : PreparedOpenat2 S H)
      (receipt : Receipt)
      → IsTerminated stable bytes path
      → at stable how m dir path flags mode resolve how_store ≡ ok (p, m')
      → let (sqe, ticket) = into_pending p receipt.ring receipt.id in
        let read : OpenHow = record {
          flags = bit_or flags (documented mode).0;
          mode = (documented mode).1;
          resolve_flags = resolve;
        } in
        (scan (stable.stable_len path.storage) bytes sqe.addr ≡ some (as_bytes stable bytes path))
        × (m' sqe.off ≡ some read)
        × (read.mode < 2 ^ 12)
        × IsAllowed read
        × (sqe.off ≡ how.stable_ptr how_store)
        × (sqe.off % how_align ≡ 0)
        × (sqe.len ≤ how.stable_len how_store)
        × (redeem ticket receipt
            ≡ ok (record {
              path = path;
              how_store = how_store;
              file = try_u32 receipt.result;
              id = receipt.id;
              result = receipt.result;
            }))
  unfolding into_pending
  redeem-at bytes m m' dir path flags mode resolve how_store p receipt t e =
      let (clean, room, aligned, same, wrote) =
        at_ok m m' dir path flags mode resolve how_store p e in
      (
        rw (← same) t.scanned,
        rw (documented_lem mode, ← same, ← wrote) (write_value_here m (how.stable_ptr how_store) _),
        rw (documented_lem mode) (stray_none (mode_of mode) clean),
        rw (documented_lem mode) (allowed flags mode),
        rw (← same) refl,
        rw (← same) aligned,
        room,
        opened_how-IsRedeemable.own p receipt ∙ rw (← same) refl,
      )
