-- ===== src/Owned.antt =====
-- src/owned: requests that own their buffers, and the identities that match completions to them.
pub mod Event
pub mod Request
pub mod ZeroCopy
pub mod Queue
pub mod Slot
pub mod Multishot
pub mod Timeout
pub mod FilesUpdate
pub mod Outcomes
pub mod Path
pub mod PathOp
pub mod Open
pub mod Openat2
pub mod Pipe
pub mod Futex
pub mod Direct
pub mod Rename
pub mod Link
pub mod StagedAddr
pub mod Bind
pub mod Connect
pub mod StagedValue
pub mod Epoll
pub mod MsgRegion
pub mod Sendmsg
pub mod Recvmsg
pub mod Accept
pub mod DirectAccept
pub mod SendmsgZc
pub mod Cancel
pub mod Vectored
pub mod Tests
use ququmatz.Base.{ℕ, ◌+◌, ◌%◌, ◌^◌, ◌==◌, Bool, ◌&&◌, if◌then◌else◌, ltb}
use ququmatz.Base.Word.{u32_max}

-- `RingId::next` and `RequestIdSource::next`: the identity to give out, and the next state of the
-- atomic counter, which wraps.
unfoldable pub next_ring : ℕ → ℕ × ℕ
next_ring next = (next, (next + 1) % 2 ^ 32)

unfoldable pub next_id : ℕ → ℕ × ℕ
next_id next = (next, (next + 1) % 2 ^ 64)

-- `belongs_to` of receipts: both the ring and the request.
unfoldable pub same_request : ℕ → ℕ → ℕ → ℕ → Bool
same_request own_ring own_id ring id = (own_id == id) && (own_ring == ring)

-- `clamp_len` of the requests: the entry's length field has 32 bits.
unfoldable pub clamp_len : ℕ → ℕ
clamp_len len = if ltb u32_max len then u32_max else len

-- The trait `StableBuffer`: its implementations give the address and the length of their bytes.
pub record StableBuffer (B : Type 0) : Type 0 where
  pub stable_ptr : B → ℕ
  pub stable_len : B → ℕ
