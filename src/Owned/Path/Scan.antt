-- ===== src/Owned/Path/Scan.antt =====
-- src/owned/path.rs: what the kernel reads when it is given the address of a path.
use ququmatz.Base.{
  ℕ, zero, suc, ◌+◌, ◌≤◌, ◌<◌, ◌==◌, ◌≡◌, ◌≢◌, refl, ap, ◌∙◌, ◌⊎◌, inl, inr, if◌then◌else◌, false,
  Result, ok, err, Option, some, none, List, [], ◌∷◌, length, arith,
}
use ququmatz.Owned.{StableBuffer}
use ququmatz.Owned.StagedAddr
use ququmatz.Owned.StagedAddr.{write_bytes, read_bytes}
use ququmatz.Owned.StagedAddr.Bytes.{
  read_bytes_within, write_bytes_here, read_bytes-write_bytes, write_bytes_elsewhere,
}
use ququmatz.Owned.Path.{
  PathError, not_terminated, empty, OwnedPath, path_ptr, position_nul, contains_nul, copy_into,
  adopt, as_bytes,
}

-- The kernel's reading of a string that ends with a NUL, which may look at `room` bytes; `none`
-- means that it would read beyond them.
abbrev pub scan : ℕ → StagedAddr.Bytes → ℕ → Option (List ℕ)
scan zero m at = none
scan (suc room) m at =
    let rest = scan room m (at + 1) in
    if m at == 0 then some [] else elim rest [ some bs ↦ some (m at ∷ bs) | none ↦ none ]

-- A path is not empty, and the kernel's reading of it stays in its storage and gives its bytes.
pub record IsTerminated {S : Type 0} (stable : StableBuffer S) (m : StagedAddr.Bytes)
    (p : OwnedPath S) : Type 0 where
  pub not_empty : 0 < p.len
  pub within : p.len < stable.stable_len p.storage
  pub scanned :
      scan (stable.stable_len p.storage) m (stable.stable_ptr p.storage)
      ≡ some (as_bytes stable m p)

nul_first : (b : ℕ) (bs : List ℕ) → position_nul (b ∷ bs) ≡ some 0 → b ≡ 0
unfolding position_nul
nul_first b bs h = ground arith

nul_later :
    (b : ℕ) (bs : List ℕ) (n : ℕ)
    → position_nul (b ∷ bs) ≡ some (suc n)
    → (b ≢ 0) × (position_nul bs ≡ some n)
unfolding position_nul
nul_later b bs n h = ground arith

position_none : (n : ℕ) → position_nul [] ≡ some n → ⊥
unfolding position_nul
position_none n h = ground arith

-- A scan finds the NUL that is first among the bytes.
scan-position_nul :
    (room : ℕ) (m : StagedAddr.Bytes) (at n : ℕ)
    → position_nul (read_bytes m at room) ≡ some n
    → (n < room) × (scan room m at ≡ some (read_bytes m at n))
unfolding read_bytes
scan-position_nul zero m at n h = elim (position_none n h) [ ]
scan-position_nul (suc room) m at zero h =
    let nul = nul_first (m at) (read_bytes m (at + 1) room) h in (omega arith, ground arith)
scan-position_nul (suc room) m at (suc n) h =
    let (other, later) = nul_later (m at) (read_bytes m (at + 1) room) n h in
    let (lt, rest) = scan-position_nul room m (at + 1) n later in
    (omega arith, rw rest (ground arith))

-- Bytes without a NUL, and a NUL behind them.
position_nul-read_bytes :
    (bs : List ℕ) (room : ℕ) (m : StagedAddr.Bytes) (at : ℕ)
    → read_bytes m at (length bs) ≡ bs
    → contains_nul bs ≡ false
    → m (at + length bs) ≡ 0
    → length bs < room
    → position_nul (read_bytes m at room) ≡ some (length bs)
unfolding read_bytes position_nul contains_nul
position_nul-read_bytes bs zero m at same none_inside nul lt = absurd (omega arith)
position_nul-read_bytes [] (suc room) m at same none_inside nul lt =
    let here : m at ≡ 0 = ap m (omega arith) ∙ nul in ground arith
position_nul-read_bytes (b ∷ bs) (suc room) m at same none_inside nul lt =
    let here : m at ≡ b = cc same in
    let there : read_bytes m (at + 1) (length bs) ≡ bs = cc same in
    let behind : m (at + 1 + length bs) ≡ 0 = ap m (omega arith) ∙ nul in
    let rest : contains_nul bs ≡ false = ground arith in
    let found = position_nul-read_bytes bs room m (at + 1) there rest behind (omega arith) in
    rw found (ground arith)

module _ {S : Type 0} (stable : StableBuffer S) where
  -- What `adopt` has found when it succeeds.
  adopt_ok :
      (m : StagedAddr.Bytes) (storage : S) (p : OwnedPath S)
      → adopt stable m storage ≡ ok p
      → (p.storage ≡ storage)
        × (0 < p.len)
        × (position_nul (read_bytes m (stable.stable_ptr storage) (stable.stable_len storage))
            ≡ some p.len)
  unfolding adopt
  adopt_ok m storage p h = ground arith

  adopt_at :
      (m : StagedAddr.Bytes) (storage : S) (n : ℕ)
      → 0 < n
      → position_nul (read_bytes m (stable.stable_ptr storage) (stable.stable_len storage)) ≡ some n
      → adopt stable m storage ≡ ok (record { storage = storage; len = n })
  unfolding adopt
  adopt_at m storage n some_byte h = ground arith

  pub adopt-IsTerminated :
      (m : StagedAddr.Bytes) (storage : S) (p : OwnedPath S)
      → adopt stable m storage ≡ ok p
      → IsTerminated stable m p
  unfolding as_bytes
  adopt-IsTerminated m storage p h =
      let (same, some_byte, found) = adopt_ok m storage p h in
      let at = stable.stable_ptr storage in
      let room = stable.stable_len storage in
      let (lt, seen) = scan-position_nul room m at p.len found in
      record { not_empty = some_byte; within = rw same lt; scanned = rw same seen }

  -- What `copy_into` has checked and written when it succeeds.
  copy_into_ok :
      (m m' : StagedAddr.Bytes) (storage : S) (path : List ℕ) (p : OwnedPath S)
      → copy_into stable m storage path ≡ ok (p, m')
      → let base = stable.stable_ptr storage in
        (length path ≢ 0)
        × (contains_nul path ≡ false)
        × (length path + 1 ≤ stable.stable_len storage)
        × (record { storage = storage; len = length path } ≡ p)
        × (write_bytes (write_bytes m base path) (base + length path) (0 ∷ []) ≡ m')
  unfolding copy_into
  copy_into_ok m m' storage path p h = ground arith

  -- When a path is copied into a storage, adopting the storage gives the same owned path, its bytes
  -- are the path's, the kernel's reading up to a NUL from its address stays in the storage and
  -- gives the path, and no byte outside the storage has changed.
  pub adopt-copy_into :
      (m m' : StagedAddr.Bytes) (storage : S) (path : List ℕ) (p : OwnedPath S) (a : ℕ)
      → copy_into stable m storage path ≡ ok (p, m')
      → (a < stable.stable_ptr storage)
        ⊎ (stable.stable_ptr storage + stable.stable_len storage ≤ a)
      → (adopt stable m' storage ≡ ok p)
        × (as_bytes stable m' p ≡ path)
        × (scan (stable.stable_len storage) m' (path_ptr stable p) ≡ some path)
        × (m' a ≡ m a)
  unfolding as_bytes
  adopt-copy_into m m' storage path p a h away =
      let (some_byte, no_nul, room, same, written) = copy_into_ok m m' storage path p h in
      let at = stable.stable_ptr storage in
      let first = write_bytes m at path in
      let last = write_bytes first (at + length path) (0 ∷ []) in
      let nul : last (at + length path) ≡ 0 = write_bytes_here 0 [] first (at + length path) in
      let kept : (x : ℕ) → (x < at + length path) ⊎ (at + length path + 1 ≤ x) → last x ≡ first x =
        write_bytes_elsewhere (0 ∷ []) first (at + length path) in
      let outside : last a ≡ m a = elim away [
        | inl l ↦ kept a (inl (omega arith)) ∙ write_bytes_elsewhere path m at a (inl l)
        | inr g ↦ kept a (inr (omega arith)) ∙ write_bytes_elsewhere path m at a (inr (omega arith))
      ] in
      let whole : read_bytes last at (length path) ≡ path =
        read_bytes_within (length path) at last first (λ x le lt. kept x (inl lt))
        ∙ read_bytes-write_bytes path m at in
      let found =
        position_nul-read_bytes path (stable.stable_len storage) last at whole no_nul nul
          (omega arith) in
      rw (← same, ← written)
        (
          adopt_at last storage (length path) (omega arith) found,
          whole,
          (scan-position_nul (stable.stable_len storage) last at (length path) found).1
              ∙ ap some whole,
          outside,
        )

-- `adopt` as a reading of what the kernel's scan of the storage would find.
abbrev pub judged : {S : Type 0} → S → Option (List ℕ) → Result (OwnedPath S) (S × PathError)
judged storage none = err (storage, not_terminated)
judged storage (some []) = err (storage, empty)
judged storage (some (b ∷ bs)) = ok (record { storage = storage; len = suc (length bs) })

abbrev lengths : Option (List ℕ) → Option ℕ
lengths none = none
lengths (some bs) = some (length bs)

position_nul-scan :
    (room : ℕ) (m : StagedAddr.Bytes) (at : ℕ)
    → position_nul (read_bytes m at room) ≡ lengths (scan room m at)
unfolding position_nul read_bytes
position_nul-scan zero m at = refl
position_nul-scan (suc room) m at = ground (arith, position_nul-scan room m (at + 1))

judged-lengths :
    {S : Type 0} (storage : S) (o : Option (List ℕ))
    → (elim (lengths o) [
      | none ↦ err (storage, not_terminated)
      | some zero ↦ err (storage, empty)
      | some (suc n) ↦ ok (record { storage = storage; len = suc n })
    ])
      ≡ judged storage o
judged-lengths storage none = refl
judged-lengths storage (some []) = refl
judged-lengths storage (some (b ∷ bs)) = refl

-- Adopting a storage refuses it as not terminated exactly when the kernel's reading up to a NUL
-- would leave it, as empty exactly when that reading gives no bytes, and otherwise gives it with
-- the number of the bytes read.
pub adopt-scan :
    {S : Type 0} (stable : StableBuffer S) (m : StagedAddr.Bytes) (storage : S)
    → adopt stable m storage
      ≡ judged storage (scan (stable.stable_len storage) m (stable.stable_ptr storage))
unfolding adopt
adopt-scan stable m storage =
    let at = stable.stable_ptr storage in
    let room = stable.stable_len storage in
    rw (position_nul-scan room m at, adopt) (judged-lengths storage (scan room m at))
