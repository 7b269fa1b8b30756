-- ===== src/Owned/StagedValue/Lifecycle.antt =====
-- src/owned/staged_value.rs: a staged value from its preparation to its receipt.
use ququmatz.Base.{ℕ, ◌%◌, ◌≤◌, ◌≡◌, refl, ok, some, arith}
use ququmatz.Owned.{StableBuffer, same_request}
use ququmatz.Owned.Event.{Receipt}
use ququmatz.Owned.Timeout.{timeout_op}
use ququmatz.Owned.Epoll.{epoll_ctl_op}
use ququmatz.Owned.StagedValue.{
  ValueOp, Values, write_value, ValuePrepared, ValuePending, new, into_pending, redeem,
  reclaim_unsubmitted,
}

-- The entry of an operation names the address that it is given.
pub record IsAddressed {C I V O E : Type 0} (op : ValueOp C I V O E) : Type 0 where
  pub addressed : (ctx : C) (a : ℕ) → (op.build_sqe ctx a).addr ≡ a

pub timeout_op-IsAddressed : IsAddressed timeout_op
timeout_op-IsAddressed = record { addressed = λ ctx a. refl }

pub epoll_ctl_op-IsAddressed : (bytes align : ℕ) → IsAddressed (epoll_ctl_op bytes align)
epoll_ctl_op-IsAddressed bytes align = record { addressed = λ ctx a. refl }

module _ {S C I V O E : Type 0} (op : ValueOp C I V O E) (stable : StableBuffer S) where
  -- What `new` has checked and written when it succeeds.
  new_ok :
      (m m' : Values V) (ctx : C) (storage : S) (p : ValuePrepared S C)
      → new op stable m ctx storage ≡ ok (p, m')
      → let base = stable.stable_ptr storage in
        (op.bytes ≤ stable.stable_len storage)
        × (base % op.align ≡ 0)
        × (record { storage = storage; ctx = ctx; addr = base } ≡ p)
        × (write_value m base (op.value ctx) ≡ m')
  unfolding new
  new_ok m m' ctx storage p e = ground arith

  write_value_here : (m : Values V) (a : ℕ) (v : V) → write_value m a v a ≡ some v
  write_value_here m a v = ground arith

  redeem_own :
      (p : ValuePending S C) (receipt : Receipt)
      → receipt.ring ≡ p.ring
      → receipt.id ≡ p.id
      → redeem op p receipt
        ≡ ok (record {
          storage = p.storage;
          info = op.info p.ctx;
          id = p.id;
          result = receipt.result;
        })
  unfolding redeem same_request
  redeem_own p receipt r i = ground arith

  -- For an operation whose entry names the address it is given, when its value is staged in a
  -- storage, the entry of the pushed request carries its identity and the address of the storage,
  -- which is large enough, aligned, and has the value; taking the ticket back gives the prepared
  -- request, and redeeming it with the receipt of its own completion gives the storage, what is
  -- kept of the operation and the result.
  pub redeem-new :
      (m m' : Values V) (ctx : C) (storage : S) (p : ValuePrepared S C) (ring id : ℕ)
      (receipt : Receipt)
      → IsAddressed op
      → new op stable m ctx storage ≡ ok (p, m')
      → receipt.ring ≡ ring
      → receipt.id ≡ id
      → let (sqe, ticket) = into_pending op p ring id in
        (sqe.user_data ≡ id)
        × (m' sqe.addr ≡ some (op.value ctx))
        × (sqe.addr ≡ stable.stable_ptr storage)
        × (op.bytes ≤ stable.stable_len storage)
        × (sqe.addr % op.align ≡ 0)
        × (reclaim_unsubmitted ticket ≡ p)
        × (redeem op ticket receipt
            ≡ ok (record {
              storage = storage;
              info = op.info ctx;
              id = id;
              result = receipt.result;
            }))
  unfolding into_pending reclaim_unsubmitted
  redeem-new m m' ctx storage p ring id receipt law e r i =
      let base = stable.stable_ptr storage in
      let (room, aligned, same, written) = new_ok m m' ctx storage p e in
      let at = law.addressed ctx base in
      rw (← same, ← written, at)
        (
          refl,
          write_value_here m base (op.value ctx),
          refl,
          room,
          aligned,
          refl,
          redeem_own (record { storage = storage; ring = ring; id = id; ctx = ctx; addr = base })
              receipt r i,
        )
