-- ===== src/Owned/Openat2.antt =====
-- src/owned/openat2.rs: the opening of a file whose parameters the kernel reads from memory.
pub mod Reach
use ququmatz.Base.{
  ℕ, ◌-◌, ◌%◌, ◌^◌, ◌==◌, ltb, not, if◌then◌else◌, bit_and, bit_or, Result, ok, err, Option, some,
  none,
}
use ququmatz.Base.Int.{ℤ, try_u32}
use ququmatz.Types.{IoUringSqe}
use ququmatz.Types.Fs.{DirFd, as_raw, creat, excl, tmpfile_flag}
use ququmatz.Error.{Error, from_failed_cqe}
use ququmatz.Op
use ququmatz.Op.{openat2_ptr}
use ququmatz.Owned.{StableBuffer}
use ququmatz.Owned.Event.{Receipt, belongs_to}
use ququmatz.Owned.Path.{OwnedPath, path_ptr}
use ququmatz.Owned.StagedValue.{Values, write_value}

-- `struct OpenHow`
pub record OpenHow : Type 0 where
  pub flags : ℕ
  pub mode : ℕ
  pub resolve_flags : ℕ

-- Its size and its alignment.
abbrev pub how_bytes : ℕ
how_bytes = 24

abbrev pub how_align : ℕ
how_align = 8

abbrev pub mode_bits : ℕ
mode_bits = 4095

pub data Openat2Mode : Type 0 where
  existing : Openat2Mode
  create create_new tmpfile : ℕ → Openat2Mode

-- `Openat2Mode::flags`
abbrev pub flags_of : Openat2Mode → ℕ
flags_of existing = 0
flags_of (create mode) = creat
flags_of (create_new mode) = bit_or creat excl
flags_of (tmpfile mode) = tmpfile_flag

-- `Openat2Mode::mode`
abbrev pub mode_of : Openat2Mode → ℕ
mode_of existing = 0
mode_of (create mode) = mode
mode_of (create_new mode) = mode
mode_of (tmpfile mode) = mode

-- `bits & !MODE_BITS` of a u32: its bits without those of the mask.
abbrev pub stray_bits : ℕ → ℕ
stray_bits bits = bits - bit_and bits mode_bits

pub data Openat2Error : Type 0 where
  how_too_small : ℕ → ℕ → Openat2Error
  how_misaligned : ℕ → Openat2Error
  mode_outside_permission_bits : ℕ → Openat2Error

pub record PreparedOpenat2 (S H : Type 0) : Type 0 where
  pub path : OwnedPath S
  pub how_store : H
  pub dir : DirFd
  pub flags : ℕ
  pub mode : Openat2Mode
  pub resolve_flags : ℕ
  pub path_addr : ℕ
  pub how_addr : ℕ

pub record PendingOpenat2 (S H : Type 0) : Type 0 where
  pub path : OwnedPath S
  pub how_store : H
  pub ring : ℕ
  pub id : ℕ
  pub dir : DirFd
  pub flags : ℕ
  pub mode : Openat2Mode
  pub resolve_flags : ℕ
  pub path_addr : ℕ
  pub how_addr : ℕ

-- A `File` is the number of its descriptor.
pub record Opened2 (S H : Type 0) : Type 0 where
  pub path : OwnedPath S
  pub how_store : H
  pub file : Option ℕ
  pub id : ℕ
  pub result : ℤ

module _ {S H : Type 0} where
  -- The value that `publish_how` writes.
  abbrev pub how_of : PreparedOpenat2 S H → OpenHow
  how_of p = record {
    flags = bit_or p.flags (flags_of p.mode);
    mode = mode_of p.mode;
    resolve_flags = p.resolve_flags;
  }

  abbrev pub publish_how : Values OpenHow → PreparedOpenat2 S H → Values OpenHow
  publish_how m p = write_value m p.how_addr (how_of p)

  -- `PreparedOpenat2::at`; the memory is the part that holds the values of `open_how`.
  unfoldable pub at :
      StableBuffer S
      → StableBuffer H
      → Values OpenHow
      → DirFd
      → OwnedPath S
      → ℕ
      → Openat2Mode
      → ℕ
      → H
      → Result (PreparedOpenat2 S H × Values OpenHow) (OwnedPath S × H × Openat2Error)
  at stable how m dir path flags mode resolve how_store =
      let got = how.stable_len how_store in
      let base = how.stable_ptr how_store in
      let prepared : PreparedOpenat2 S H = record {
        path = path;
        how_store = how_store;
        dir = dir;
        flags = flags;
        mode = mode;
        resolve_flags = resolve;
        path_addr = path_ptr stable path;
        how_addr = base;
      } in
      if not (stray_bits (mode_of mode) == 0)
      then err (path, how_store, mode_outside_permission_bits (stray_bits (mode_of mode)))
      else if ltb got how_bytes
      then err (path, how_store, how_too_small how_bytes got)
      else if not (base % how_align == 0)
      then err (path, how_store, how_misaligned how_align)
      else ok (prepared, publish_how m prepared)

  unfoldable pub into_pending : PreparedOpenat2 S H → ℕ → ℕ → IoUringSqe × PendingOpenat2 S H
  into_pending p ring id = (
    Op.user_data (openat2_ptr (as_raw p.dir) p.path_addr p.how_addr how_bytes) id,
    record {
      path = p.path;
      how_store = p.how_store;
      ring = ring;
      id = id;
      dir = p.dir;
      flags = p.flags;
      mode = p.mode;
      resolve_flags = p.resolve_flags;
      path_addr = p.path_addr;
      how_addr = p.how_addr;
    },
  )

  unfoldable pub reclaim_unsubmitted : PendingOpenat2 S H → PreparedOpenat2 S H
  reclaim_unsubmitted p = record {
    path = p.path;
    how_store = p.how_store;
    dir = p.dir;
    flags = p.flags;
    mode = p.mode;
    resolve_flags = p.resolve_flags;
    path_addr = p.path_addr;
    how_addr = p.how_addr;
  }

  -- With `claim`: a result that is not negative is the descriptor.
  unfoldable pub redeem :
      PendingOpenat2 S H → Receipt → Result (Opened2 S H) (PendingOpenat2 S H × Receipt)
  redeem p receipt =
      if belongs_to receipt p.ring p.id
      then ok (record {
        path = p.path;
        how_store = p.how_store;
        file = try_u32 receipt.result;
        id = p.id;
        result = receipt.result;
      })
      else err (p, receipt)

  unfoldable pub result : Opened2 S H → Result (Unit {0}) Error
  result c = elim (from_failed_cqe c.result) [ some e ↦ err e | none ↦ ok tt ]
