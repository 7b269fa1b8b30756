-- ===== src/Owned/StagedAddr/Lifecycle.antt =====
-- src/owned/staged_addr.rs: a staged address from its preparation to its receipt.
use ququmatz.Base.{ℕ, ◌+◌, ◌≤◌, ◌<◌, ◌≡◌, refl, ◌⊎◌, inl, inr, ok, arith}
use ququmatz.Base.Int.{ℤ}
use ququmatz.Types.{SockAddrIn}
use ququmatz.Owned.{StableBuffer, same_request}
use ququmatz.Owned.Event.{Receipt}
use ququmatz.Owned.Bind.{bind_op}
use ququmatz.Owned.Connect.{connect_op}
use ququmatz.Owned.StagedAddr
use ququmatz.Owned.StagedAddr.{
  AddrOp, NeBytes, StagedPrepared, StagedPending, write_bytes, to_bytes, addr_len, new,
  into_pending, published, reclaim_unsubmitted, redeem,
}
use ququmatz.Owned.StagedAddr.Bytes.{read_bytes-write_bytes, write_bytes_elsewhere}

-- The entry of an operation names the descriptor, the address of the bytes and their number.
pub record IsAddressed {O E : Type 0} (op : AddrOp O E) : Type 0 where
  pub descriptor : (fd : ℤ) (a n : ℕ) → (op.build_sqe fd a n).fd ≡ fd
  pub addressed : (fd : ℤ) (a n : ℕ) → (op.build_sqe fd a n).addr ≡ a
  pub sized : (fd : ℤ) (a n : ℕ) → (op.build_sqe fd a n).off ≡ n

pub bind_op-IsAddressed : IsAddressed bind_op
bind_op-IsAddressed = record {
  descriptor = λ fd a n. refl;
  addressed = λ fd a n. refl;
  sized = λ fd a n. refl;
}

pub connect_op-IsAddressed : IsAddressed connect_op
connect_op-IsAddressed = record {
  descriptor = λ fd a n. refl;
  addressed = λ fd a n. refl;
  sized = λ fd a n. refl;
}

module _ {S O E : Type 0} (op : AddrOp O E) (order : NeBytes) (stable : StableBuffer S) where
  -- What `new` has checked and written when it succeeds.
  new_ok :
      (m m' : StagedAddr.Bytes) (fd : ℤ) (addr : SockAddrIn) (store : S) (p : StagedPrepared S)
      → new op order stable m fd addr store ≡ ok (p, m')
      → let staged = stable.stable_ptr store in
        (addr_len ≤ stable.stable_len store)
        × (record { store = store; fd = fd; addr = addr; staged = staged } ≡ p)
        × (write_bytes m staged (to_bytes order addr) ≡ m')
  unfolding new
  new_ok m m' fd addr store p e = ground arith

  redeem_own :
      (p : StagedPending S) (receipt : Receipt)
      → receipt.ring ≡ p.ring
      → receipt.id ≡ p.id
      → redeem p receipt
        ≡ ok (record { store = p.store; addr = p.addr; id = p.id; result = receipt.result })
  unfolding redeem same_request
  redeem_own p receipt r i = ground arith

  -- For an operation whose entry names the descriptor, the address and the length it is given, when
  -- a socket address is staged in a storage, reading it back gives its bytes, and no byte outside
  -- the storage has changed; the entry of the pushed request carries its identity, the descriptor,
  -- the storage's address and a length that the storage has; taking the ticket back gives the
  -- prepared request, and redeeming it with the receipt of its own completion gives the storage,
  -- the address and the result.
  pub published-new :
      (m m' : StagedAddr.Bytes) (fd : ℤ) (addr : SockAddrIn) (store : S) (p : StagedPrepared S)
      (ring id a : ℕ) (receipt : Receipt)
      → IsAddressed op
      → new op order stable m fd addr store ≡ ok (p, m')
      → (a < stable.stable_ptr store) ⊎ (stable.stable_ptr store + stable.stable_len store ≤ a)
      → receipt.ring ≡ ring
      → receipt.id ≡ id
      → let (sqe, ticket) = into_pending op p ring id in
        (published m' p ≡ to_bytes order addr)
        × (m' a ≡ m a)
        × (sqe.user_data ≡ id)
        × (sqe.fd ≡ fd)
        × (sqe.addr ≡ stable.stable_ptr store)
        × (sqe.off ≤ stable.stable_len store)
        × (reclaim_unsubmitted ticket ≡ p)
        × (redeem ticket receipt
            ≡ ok (record { store = store; addr = addr; id = id; result = receipt.result }))
  unfolding into_pending reclaim_unsubmitted published
  published-new m m' fd addr store p ring id a receipt law e away r i =
      let at = stable.stable_ptr store in
      let bytes = to_bytes order addr in
      let (room, same, written) = new_ok m m' fd addr store p e in
      let outside : (a < at) ⊎ (at + 16 ≤ a) = elim away [
        | inl l ↦ inl l
        | inr g ↦ inr (omega arith)
      ] in
      rw
        (
          ← same,
          ← written,
          law.descriptor fd at addr_len,
          law.addressed fd at addr_len,
          law.sized fd at addr_len,
        )
        (
          read_bytes-write_bytes bytes m at,
          write_bytes_elsewhere bytes m at a outside,
          refl,
          refl,
          refl,
          room,
          refl,
          redeem_own
              (record { store = store; ring = ring; id = id; fd = fd; addr = addr; staged = at })
              receipt r i,
        )
