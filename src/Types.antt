-- ===== src/Types.antt =====
-- src/types: the kernel's entries and the flag words. A word is the number of its bits.
pub mod CqeFlags
pub mod RecvmsgOut
pub mod SetupFlags
pub mod EnterFlags
pub mod Fs
pub mod Napi
pub mod SyncCancel
use ququmatz.Base.{ℕ, Bool, bit_and, ◌==◌, List, [], ◌∷◌}
use ququmatz.Base.Int.{ℤ, pos}

-- `contains` of every type that the macro `bitflags!` makes.
unfoldable pub contains : ℕ → ℕ → Bool
contains bits flag = bit_and bits flag == flag

-- `struct IoUringSqe`; `pad2` is its one element.
pub record IoUringSqe : Type 0 where
  pub opcode : ℕ
  pub flags : ℕ
  pub ioprio : ℕ
  pub fd : ℤ
  pub off : ℕ
  pub addr : ℕ
  pub len : ℕ
  pub op_flags : ℕ
  pub user_data : ℕ
  pub buf_index : ℕ
  pub personality : ℕ
  pub splice_fd_in : ℤ
  pub addr3 : ℕ
  pub pad2 : ℕ

-- `Default for IoUringSqe`
abbrev pub zeroed : IoUringSqe
zeroed = record {
  opcode = 0;
  flags = 0;
  ioprio = 0;
  fd = pos 0;
  off = 0;
  addr = 0;
  len = 0;
  op_flags = 0;
  user_data = 0;
  buf_index = 0;
  personality = 0;
  splice_fd_in = pos 0;
  addr3 = 0;
  pad2 = 0;
}

-- `struct IoUringCqe`
pub record IoUringCqe : Type 0 where
  pub user_data : ℕ
  pub res : ℤ
  pub flags : ℕ

abbrev pub default_cqe : IoUringCqe
default_cqe = record { user_data = 0; res = pos 0; flags = 0 }

-- `struct IoSqringOffsets` and `struct IoCqringOffsets`: where the kernel puts the parts of a ring.
pub record IoSqringOffsets : Type 0 where
  pub head : ℕ
  pub tail : ℕ
  pub ring_mask : ℕ
  pub ring_entries : ℕ
  pub flags : ℕ
  pub dropped : ℕ
  pub array : ℕ
  pub user_addr : ℕ

pub record IoCqringOffsets : Type 0 where
  pub head : ℕ
  pub tail : ℕ
  pub ring_mask : ℕ
  pub ring_entries : ℕ
  pub overflow : ℕ
  pub cqes : ℕ
  pub flags : ℕ
  pub user_addr : ℕ

-- `struct IoUringParams`, which `io_uring_setup` reads and fills.
pub record IoUringParams : Type 0 where
  pub sq_entries : ℕ
  pub cq_entries : ℕ
  pub flags : ℕ
  pub sq_thread_cpu : ℕ
  pub sq_thread_idle : ℕ
  pub features : ℕ
  pub wq_fd : ℕ
  pub sq_off : IoSqringOffsets
  pub cq_off : IoCqringOffsets

-- `Default for IoUringParams`
abbrev pub no_sq_offsets : IoSqringOffsets
no_sq_offsets = record {
  head = 0;
  tail = 0;
  ring_mask = 0;
  ring_entries = 0;
  flags = 0;
  dropped = 0;
  array = 0;
  user_addr = 0;
}

abbrev pub no_cq_offsets : IoCqringOffsets
no_cq_offsets = record {
  head = 0;
  tail = 0;
  ring_mask = 0;
  ring_entries = 0;
  overflow = 0;
  cqes = 0;
  flags = 0;
  user_addr = 0;
}

abbrev pub default_params : IoUringParams
default_params = record {
  sq_entries = 0;
  cq_entries = 0;
  flags = 0;
  sq_thread_cpu = 0;
  sq_thread_idle = 0;
  features = 0;
  wq_fd = 0;
  sq_off = no_sq_offsets;
  cq_off = no_cq_offsets;
}

-- `struct IoVec`, `struct SockAddrIn` and `struct MsgHdr`; a pointer is the number of its byte.
pub record IoVec : Type 0 where
  pub base : ℕ
  pub len : ℕ

pub record SockAddrIn : Type 0 where
  pub sin_family : ℕ
  pub sin_port : ℕ
  pub sin_addr : ℕ
  pub sin_zero : List ℕ

abbrev pub default_addr : SockAddrIn
default_addr = record {
  sin_family = 0;
  sin_port = 0;
  sin_addr = 0;
  sin_zero = 0 ∷ 0 ∷ 0 ∷ 0 ∷ 0 ∷ 0 ∷ 0 ∷ 0 ∷ [];
}

pub record MsgHdr : Type 0 where
  pub msg_name : ℕ
  pub msg_namelen : ℕ
  pub msg_iov : ℕ
  pub msg_iovlen : ℕ
  pub msg_control : ℕ
  pub msg_controllen : ℕ
  pub msg_flags : ℤ

-- `Default for MsgHdr`
abbrev pub default_hdr : MsgHdr
default_hdr = record {
  msg_name = 0;
  msg_namelen = 0;
  msg_iov = 0;
  msg_iovlen = 0;
  msg_control = 0;
  msg_controllen = 0;
  msg_flags = pos 0;
}
