-- ===== src/Ring.antt =====
-- src/ring/mod.rs: the memory that the program shares with the kernel, and the local halves.
pub mod Window
pub mod Syscall
pub mod Sq
pub mod Cq
pub mod Steps
pub mod Resources
pub mod Kernel
pub mod NoMmap
pub mod Layout
pub mod Setup
pub mod Builder
pub mod IoUring
pub mod Ops
pub mod Register
pub mod Probe
pub mod Pbuf
pub mod Tests
use ququmatz.Base.{ℕ, List}
use ququmatz.Types.{IoUringSqe, IoUringCqe}

-- What the pointers of `IoUring`, `Submitter` and `Completer` point at.
pub record Shared : Type 0 where
  pub sq_head : ℕ
  pub sq_tail : ℕ
  pub sq_flags : ℕ
  pub sqes : List IoUringSqe
  pub cq_head : ℕ
  pub cq_tail : ℕ
  pub cqes : List IoUringCqe

-- The fields of the submission side, which `IoUring` and `Submitter` both have.
pub record SqSide : Type 0 where
  pub sq_mask : ℕ
  pub sq_tail_local : ℕ
  pub sq_submitted : ℕ

-- The fields of the completion side, which `IoUring` and `Completer` both have.
pub record CqSide : Type 0 where
  pub cq_mask : ℕ
  pub cq_head_local : ℕ

-- The shared memory and the state of the kernel behind it, which is not part of the program.
pub record World (S : Type 0) : Type 0 where
  pub kernel : S
  pub shared : Shared
