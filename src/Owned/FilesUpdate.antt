-- ===== src/Owned/FilesUpdate.antt =====
-- src/owned/filesupdate.rs: updates of the file table.
pub mod Lifecycle
pub mod Tests
use ququmatz.Base.{
  ℕ, zero, suc, ◌+◌, ◌*◌, ◌%◌, ◌^◌, ◌==◌, Bool, true, false, not, leb, ltb, if◌then◌else◌, Result,
  ok, err, List, [], ◌∷◌, length,
}
use ququmatz.Base.Int.{ℤ, negsuc, is_neg, neg_i32, u32_of_i32}
use ququmatz.Types.{IoUringSqe}
use ququmatz.Error.{Errno, errno}
use ququmatz.Op
use ququmatz.Op.{files_update_ptr}
use ququmatz.Owned.{StableBuffer}
use ququmatz.Owned.Event.{Receipt, belongs_to}

pub data TableEntry : Type 0 where
  install : ℤ → TableEntry
  clear : TableEntry

-- `TableEntry::raw`: -1 clears a slot.
unfoldable pub raw : TableEntry → ℤ
raw (install fd) = fd
raw clear = negsuc 0

-- The memory, the `i32` at each address.
abbrev pub Words : Type 0
Words = ℕ → ℤ

-- `publish`, from the entry at the address on: an `i32` has four bytes.
unfoldable pub publish : Words → ℕ → List TableEntry → Words
unfolding raw
publish m at [] = m
publish m at (e ∷ es) = publish (λ a. if a == at then raw e else m a) (at + 4) es

-- The loop of `published`.
unfoldable pub read_words : Words → ℕ → ℕ → List ℤ
read_words m at zero = []
read_words m at (suc n) = m at ∷ read_words m (at + 4) n

pub data Update : Type 0 where
  all : ℕ → Update
  partial : ℕ → ℕ → Update
  failed : Errno → Update

-- `Update::from_raw`
unfoldable pub from_raw : ℤ → ℕ → Update
from_raw result requested =
    if is_neg result
    then failed (errno (neg_i32 result))
    else if leb requested (u32_of_i32 result)
    then all requested
    else partial (u32_of_i32 result) requested

unfoldable pub installed : Update → ℕ
installed (all count) = count
installed (partial n requested) = n
installed (failed e) = 0

unfoldable pub is_complete : Update → Bool
is_complete (all count) = true
is_complete (partial n requested) = false
is_complete (failed e) = false

pub data FilesUpdateError : Type 0 where
  store_too_small : ℕ → ℕ → FilesUpdateError
  store_misaligned : ℕ → FilesUpdateError
  empty : FilesUpdateError

-- The number of the entries is the parameter `N`.
pub record PreparedFilesUpdate (S : Type 0) : Type 0 where
  pub store : S
  pub entries : List TableEntry
  pub offset : ℕ
  pub addr : ℕ

pub record PendingFilesUpdate (S : Type 0) : Type 0 where
  pub store : S
  pub ring : ℕ
  pub id : ℕ
  pub entries : List TableEntry
  pub offset : ℕ
  pub addr : ℕ

pub record FilesUpdated (S : Type 0) : Type 0 where
  pub store : S
  pub entries : List TableEntry
  pub offset : ℕ
  pub id : ℕ
  pub result : ℤ

module _ {S : Type 0} where
  -- `PreparedFilesUpdate::at`
  unfoldable pub at :
      StableBuffer S
      → Words
      → ℕ
      → List TableEntry
      → S
      → Result (PreparedFilesUpdate S × Words) (S × FilesUpdateError)
  at stable m offset entries store =
      let n = length entries in
      let got = stable.stable_len store in
      let base = stable.stable_ptr store in
      if n == 0
      then err (store, empty)
      else if ltb got (4 * n)
      then err (store, store_too_small (4 * n) got)
      else if not (base % 4 == 0)
      then err (store, store_misaligned 4)
      else ok (
        record { store = store; entries = entries; offset = offset; addr = base },
        publish m base entries,
      )

  unfoldable pub slots : PreparedFilesUpdate S → ℕ
  slots p = length p.entries % 2 ^ 32

  unfoldable pub published : Words → PreparedFilesUpdate S → List ℤ
  published m p = read_words m p.addr (length p.entries)

  unfoldable pub into_pending : PreparedFilesUpdate S → ℕ → ℕ → IoUringSqe × PendingFilesUpdate S
  unfolding slots
  into_pending p ring id = (
    Op.user_data (files_update_ptr p.addr (slots p) p.offset) id,
    record {
      store = p.store;
      ring = ring;
      id = id;
      entries = p.entries;
      offset = p.offset;
      addr = p.addr;
    },
  )

  unfoldable pub reclaim_unsubmitted : PendingFilesUpdate S → PreparedFilesUpdate S
  reclaim_unsubmitted p = record {
    store = p.store;
    entries = p.entries;
    offset = p.offset;
    addr = p.addr;
  }

  unfoldable pub redeem :
      PendingFilesUpdate S → Receipt → Result (FilesUpdated S) (PendingFilesUpdate S × Receipt)
  redeem p receipt =
      if belongs_to receipt p.ring p.id
      then ok (record {
        store = p.store;
        entries = p.entries;
        offset = p.offset;
        id = p.id;
        result = receipt.result;
      })
      else err (p, receipt)

  -- `FilesUpdated::update`
  unfoldable pub update : FilesUpdated S → Update
  unfolding from_raw
  update d = from_raw d.result (length d.entries % 2 ^ 32)
