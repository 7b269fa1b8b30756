-- ===== src/Owned/Path.antt =====
-- src/owned/path.rs: storage that holds a path with its terminator.
pub mod Scan
pub mod Requests
pub mod Tests
use ququmatz.Base.{
  ℕ, zero, suc, ◌+◌, ◌==◌, ltb, if◌then◌else◌, Bool, false, true, Result, ok, err, Option, some,
  none, List, [], ◌∷◌, length,
}
use ququmatz.Owned.{StableBuffer}
use ququmatz.Owned.StagedAddr.{Bytes, write_bytes, read_bytes}

pub data PathError : Type 0 where
  not_terminated empty : PathError
  too_long : ℕ → ℕ → PathError

pub record OwnedPath (S : Type 0) : Type 0 where
  pub storage : S
  pub len : ℕ

-- `iter().position(|b| *b == 0)`
unfoldable pub position_nul : List ℕ → Option ℕ
position_nul [] = none
position_nul (b ∷ bs) =
    if b == 0 then some 0 else elim (position_nul bs) [ some n ↦ some (suc n) | none ↦ none ]

-- `contains(&0)`
unfoldable pub contains_nul : List ℕ → Bool
contains_nul [] = false
contains_nul (b ∷ bs) = if b == 0 then true else contains_nul bs

module _ {S : Type 0} (stable : StableBuffer S) where
  unfoldable pub copy_into : Bytes → S → List ℕ → Result (OwnedPath S × Bytes) (S × PathError)
  copy_into m storage path =
      let needed = length path + 1 in
      let got = stable.stable_len storage in
      let base = stable.stable_ptr storage in
      if length path == 0
      then err (storage, empty)
      else if contains_nul path
      then err (storage, not_terminated)
      else if ltb got needed
      then err (storage, too_long needed got)
      else ok (
        record { storage = storage; len = length path },
        write_bytes (write_bytes m base path) (base + length path) (0 ∷ []),
      )

  unfoldable pub adopt : Bytes → S → Result (OwnedPath S) (S × PathError)
  adopt m storage =
      let bytes = read_bytes m (stable.stable_ptr storage) (stable.stable_len storage) in
      elim (position_nul bytes) [
        | none ↦ err (storage, not_terminated)
        | some zero ↦ err (storage, empty)
        | some (suc n) ↦ ok (record { storage = storage; len = suc n })
      ]

  unfoldable pub as_bytes : Bytes → OwnedPath S → List ℕ
  as_bytes m p = read_bytes m (stable.stable_ptr p.storage) p.len

  -- `stable_ptr`: where the kernel starts to read.
  abbrev pub path_ptr : OwnedPath S → ℕ
  path_ptr p = stable.stable_ptr p.storage
