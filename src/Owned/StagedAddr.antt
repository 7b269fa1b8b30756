-- ===== src/Owned/StagedAddr.antt =====
-- src/owned/staged_addr.rs: requests that stage one socket address for the kernel.
pub mod Bytes
pub mod Lifecycle
pub mod Tests
use ququmatz.Base.{ℕ, zero, suc, ◌+◌, ◌==◌, ltb, if◌then◌else◌, Result, ok, err, List, [], ◌∷◌}
use ququmatz.Base.Int.{ℤ}
use ququmatz.Types.{IoUringSqe, SockAddrIn}
use ququmatz.Op
use ququmatz.Owned.{StableBuffer}
use ququmatz.Owned.Event.{Receipt, belongs_to}

-- The memory, a byte at each address.
abbrev pub Bytes : Type 0
Bytes = ℕ → ℕ

-- `copy_nonoverlapping`, to the memory and from it
unfoldable pub write_bytes : Bytes → ℕ → List ℕ → Bytes
write_bytes m at [] = m
write_bytes m at (b ∷ bs) = λ a. if a == at then b else write_bytes m (at + 1) bs a

unfoldable pub read_bytes : Bytes → ℕ → ℕ → List ℕ
read_bytes m at zero = []
read_bytes m at (suc n) = m at ∷ read_bytes m (at + 1) n

-- `to_ne_bytes` of a `u16` and of a `u32`, whose order is the machine's.
pub record NeBytes : Type 0 where
  pub u16 : ℕ → ℕ × ℕ
  pub u32 : ℕ → ℕ × ℕ × ℕ × ℕ

-- `SockAddrIn::to_bytes`, which leaves the padding zero.
abbrev pub to_bytes : NeBytes → SockAddrIn → List ℕ
to_bytes order addr =
    let (f, g) = order.u16 addr.sin_family in
    let (p, q) = order.u16 addr.sin_port in
    let (a, b, c, d) = order.u32 addr.sin_addr in
    f ∷ g ∷ p ∷ q ∷ a ∷ b ∷ c ∷ d ∷ 0 ∷ 0 ∷ 0 ∷ 0 ∷ 0 ∷ 0 ∷ 0 ∷ 0 ∷ []

abbrev pub addr_len : ℕ
addr_len = 16

-- The trait `AddrOp`, of its associated types `O` and `E`.
pub record AddrOp (O E : Type 0) : Type 0 where
  pub too_small : ℕ → ℕ → E
  pub build_sqe : ℤ → ℕ → ℕ → IoUringSqe
  pub classify : ℤ → O

pub record StagedPrepared (S : Type 0) : Type 0 where
  pub store : S
  pub fd : ℤ
  pub addr : SockAddrIn
  pub staged : ℕ

pub record StagedPending (S : Type 0) : Type 0 where
  pub store : S
  pub ring : ℕ
  pub id : ℕ
  pub fd : ℤ
  pub addr : SockAddrIn
  pub staged : ℕ

pub record StagedDone (S : Type 0) : Type 0 where
  pub store : S
  pub addr : SockAddrIn
  pub id : ℕ
  pub result : ℤ

module _ {S O E : Type 0} (op : AddrOp O E) where
  -- `StagedPrepared::new`, with `publish`.
  unfoldable pub new :
      NeBytes
      → StableBuffer S
      → Bytes
      → ℤ
      → SockAddrIn
      → S
      → Result (StagedPrepared S × Bytes) (S × E)
  new order stable m fd addr store =
      let got = stable.stable_len store in
      let staged = stable.stable_ptr store in
      if ltb got addr_len
      then err (store, op.too_small addr_len got)
      else ok (
        record { store = store; fd = fd; addr = addr; staged = staged },
        write_bytes m staged (to_bytes order addr),
      )

  unfoldable pub into_pending : StagedPrepared S → ℕ → ℕ → IoUringSqe × StagedPending S
  into_pending p ring id = (
    Op.user_data (op.build_sqe p.fd p.staged addr_len) id,
    record { store = p.store; ring = ring; id = id; fd = p.fd; addr = p.addr; staged = p.staged },
  )

  -- `StagedDone::into_parts`, with `outcome`.
  unfoldable pub into_parts : StagedDone S → O × S
  into_parts d = (op.classify d.result, d.store)

module _ {S : Type 0} where
  -- `StagedPrepared::published`
  unfoldable pub published : Bytes → StagedPrepared S → List ℕ
  unfolding read_bytes
  published m p = read_bytes m p.staged addr_len

  unfoldable pub reclaim_unsubmitted : StagedPending S → StagedPrepared S
  reclaim_unsubmitted p = record { store = p.store; fd = p.fd; addr = p.addr; staged = p.staged }

  unfoldable pub redeem :
      StagedPending S → Receipt → Result (StagedDone S) (StagedPending S × Receipt)
  redeem p receipt =
      if belongs_to receipt p.ring p.id
      then ok (record { store = p.store; addr = p.addr; id = p.id; result = receipt.result })
      else err (p, receipt)
