-- ===== src/Owned/StagedValue.antt =====
-- src/owned/staged_value.rs: requests that stage one value of a fixed size for the kernel.
pub mod Lifecycle
pub mod Tests
use ququmatz.Base.{ℕ, ◌%◌, ◌==◌, Bool, not, ltb, if◌then◌else◌, Result, ok, err, Option, some}
use ququmatz.Base.Int.{ℤ}
use ququmatz.Types.{IoUringSqe}
use ququmatz.Op
use ququmatz.Owned.{StableBuffer}
use ququmatz.Owned.Event.{Receipt, belongs_to}

-- The trait `ValueOp`, of its associated types `C`, `I`, `V`, `O` and `E`. The size and the alignment
-- are those of the value.
pub record ValueOp (C I V O E : Type 0) : Type 0 where
  pub bytes : ℕ
  pub align : ℕ
  pub too_small : ℕ → ℕ → E
  pub misaligned : ℕ → E
  pub value : C → V
  pub build_sqe : C → ℕ → IoUringSqe
  pub info : C → I
  pub classify : ℤ → O

-- The memory, as the values that are written in it.
abbrev pub Values : Type 0 → Type 0
Values V = ℕ → Option V

abbrev pub write_value : {V : Type 0} → Values V → ℕ → V → Values V
write_value m at v = λ a. if a == at then some v else m a

pub record ValuePrepared (S C : Type 0) : Type 0 where
  pub storage : S
  pub ctx : C
  pub addr : ℕ

pub record ValuePending (S C : Type 0) : Type 0 where
  pub storage : S
  pub ring : ℕ
  pub id : ℕ
  pub ctx : C
  pub addr : ℕ

pub record ValueDone (S I : Type 0) : Type 0 where
  pub storage : S
  pub info : I
  pub id : ℕ
  pub result : ℤ

module _ {S C I V O E : Type 0} (op : ValueOp C I V O E) where
  -- `ValuePrepared::new`, with `publish`.
  unfoldable pub new :
      StableBuffer S → Values V → C → S → Result (ValuePrepared S C × Values V) (S × E)
  new stable m ctx storage =
      let got = stable.stable_len storage in
      let base = stable.stable_ptr storage in
      if ltb got op.bytes
      then err (storage, op.too_small op.bytes got)
      else if not (base % op.align == 0)
      then err (storage, op.misaligned op.align)
      else ok
          (record { storage = storage; ctx = ctx; addr = base }, write_value m base (op.value ctx))

  unfoldable pub into_pending : ValuePrepared S C → ℕ → ℕ → IoUringSqe × ValuePending S C
  into_pending p ring id = (
    Op.user_data (op.build_sqe p.ctx p.addr) id,
    record { storage = p.storage; ring = ring; id = id; ctx = p.ctx; addr = p.addr },
  )

  unfoldable pub redeem :
      ValuePending S C → Receipt → Result (ValueDone S I) (ValuePending S C × Receipt)
  redeem p receipt =
      if belongs_to receipt p.ring p.id
      then ok
          (record { storage = p.storage; info = op.info p.ctx; id = p.id; result = receipt.result })
      else err (p, receipt)

  -- `into_parts`, with `outcome`.
  unfoldable pub into_parts : ValueDone S I → O × S
  into_parts d = (op.classify d.result, d.storage)

unfoldable pub reclaim_unsubmitted : {S C : Type 0} → ValuePending S C → ValuePrepared S C
reclaim_unsubmitted p = record { storage = p.storage; ctx = p.ctx; addr = p.addr }
