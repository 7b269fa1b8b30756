-- ===== src/Op.antt =====
-- src/op: the entries that the owned requests build. An address is the number of its byte.
use ququmatz.Base.{ℕ, bit_or}
use ququmatz.Base.Int.{ℤ, negsuc, u32_of_i32, u64_of_i32}
use ququmatz.Types.{IoUringSqe, zeroed}

-- `Opcode`, as far as it is used here.
abbrev pub opcode_timeout : ℕ
opcode_timeout = 11

abbrev pub opcode_epoll_ctl : ℕ
opcode_epoll_ctl = 29

abbrev pub opcode_files_update : ℕ
opcode_files_update = 20

abbrev pub opcode_connect : ℕ
opcode_connect = 16

abbrev pub opcode_bind : ℕ
opcode_bind = 56

abbrev pub opcode_sendmsg : ℕ
opcode_sendmsg = 9

abbrev pub opcode_recvmsg : ℕ
opcode_recvmsg = 10

abbrev pub opcode_readv : ℕ
opcode_readv = 1

abbrev pub opcode_writev : ℕ
opcode_writev = 2

abbrev pub opcode_async_cancel : ℕ
opcode_async_cancel = 14

abbrev pub opcode_accept : ℕ
opcode_accept = 13

abbrev pub opcode_openat2 : ℕ
opcode_openat2 = 28

abbrev pub opcode_pipe : ℕ
opcode_pipe = 62

abbrev pub opcode_openat : ℕ
opcode_openat = 18

abbrev pub opcode_renameat : ℕ
opcode_renameat = 35

abbrev pub opcode_unlinkat : ℕ
opcode_unlinkat = 36

abbrev pub opcode_mkdirat : ℕ
opcode_mkdirat = 37

abbrev pub opcode_symlinkat : ℕ
opcode_symlinkat = 38

abbrev pub opcode_linkat : ℕ
opcode_linkat = 39

abbrev pub opcode_sendmsg_zc : ℕ
opcode_sendmsg_zc = 48

abbrev pub opcode_read : ℕ
opcode_read = 22

abbrev pub opcode_write : ℕ
opcode_write = 23

abbrev pub opcode_send_zc : ℕ
opcode_send_zc = 47

-- `Sqe::read_ptr`
abbrev pub read_ptr : ℤ → ℕ → ℕ → ℕ → IoUringSqe
read_ptr fd buf len offset = record zeroed {
  opcode = opcode_read;
  fd = fd;
  addr = buf;
  len = len;
  off = offset;
}

-- `Sqe::write_ptr`
abbrev pub write_ptr : ℤ → ℕ → ℕ → ℕ → IoUringSqe
write_ptr fd buf len offset = record zeroed {
  opcode = opcode_write;
  fd = fd;
  addr = buf;
  len = len;
  off = offset;
}

-- `Sqe::send_zc_ptr`
abbrev pub send_zc_ptr : ℤ → ℕ → ℕ → ℕ → IoUringSqe
send_zc_ptr fd buf len flags = record zeroed {
  opcode = opcode_send_zc;
  fd = fd;
  addr = buf;
  len = len;
  op_flags = flags;
}

-- `Sqe::sendmsg_ptr` and `Sqe::recvmsg_ptr`
abbrev pub sendmsg_ptr : ℤ → ℕ → ℕ → IoUringSqe
sendmsg_ptr fd msg flags = record zeroed {
  opcode = opcode_sendmsg;
  fd = fd;
  addr = msg;
  len = 1;
  op_flags = flags;
}

abbrev pub recvmsg_ptr : ℤ → ℕ → ℕ → IoUringSqe
recvmsg_ptr fd msg flags = record zeroed {
  opcode = opcode_recvmsg;
  fd = fd;
  addr = msg;
  len = 1;
  op_flags = flags;
}

-- `Sqe::timeout_ptr`
abbrev pub timeout_ptr : ℕ → ℕ → ℕ → IoUringSqe
timeout_ptr ts count flags = record zeroed {
  opcode = opcode_timeout;
  addr = ts;
  len = 1;
  off = count;
  op_flags = flags;
}

-- `Sqe::epoll_ctl_ptr`
abbrev pub epoll_ctl_ptr : ℤ → ℕ → ℤ → ℕ → IoUringSqe
epoll_ctl_ptr epfd op fd event = record zeroed {
  opcode = opcode_epoll_ctl;
  fd = epfd;
  off = u64_of_i32 fd;
  addr = event;
  len = op;
}

-- `Sqe::bind_ptr` and `Sqe::connect_ptr`; an address of the kernel's is a number.
abbrev pub bind_ptr : ℤ → ℕ → ℕ → IoUringSqe
bind_ptr fd addr addrlen = record zeroed {
  opcode = opcode_bind;
  fd = fd;
  addr = addr;
  off = addrlen;
}

abbrev pub connect_ptr : ℤ → ℕ → ℕ → IoUringSqe
connect_ptr fd addr addrlen = record zeroed {
  opcode = opcode_connect;
  fd = fd;
  addr = addr;
  off = addrlen;
}

-- `Sqe::files_update_ptr`
abbrev pub files_update_ptr : ℕ → ℕ → ℕ → IoUringSqe
files_update_ptr fds nr_fds offset = record zeroed {
  opcode = opcode_files_update;
  addr = fds;
  len = nr_fds;
  off = offset;
}

-- `Sqe::openat_ptr` and `Sqe::openat_direct`
abbrev pub openat_ptr : ℤ → ℕ → ℕ → ℕ → IoUringSqe
openat_ptr dfd path flags mode = record zeroed {
  opcode = opcode_openat;
  fd = dfd;
  addr = path;
  len = mode;
  op_flags = flags;
}

abbrev pub openat_direct : ℤ → ℕ → ℕ → ℕ → ℤ → IoUringSqe
openat_direct dfd path flags mode slot = record (openat_ptr dfd path flags mode) {
  splice_fd_in = slot;
}

-- `Sqe::openat2_ptr`
abbrev pub openat2_ptr : ℤ → ℕ → ℕ → ℕ → IoUringSqe
openat2_ptr dfd path how how_size = record zeroed {
  opcode = opcode_openat2;
  fd = dfd;
  addr = path;
  off = how;
  len = how_size;
}

-- `Sqe::pipe_ptr`
abbrev pub pipe_ptr : ℕ → ℕ → IoUringSqe
pipe_ptr fds flags = record zeroed { opcode = opcode_pipe; addr = fds; op_flags = flags }

-- `Sqe::renameat_ptr`: the kernel reads the second directory from `len`, as an `i32`.
abbrev pub renameat_ptr : ℤ → ℕ → ℤ → ℕ → ℕ → IoUringSqe
renameat_ptr old_dfd old_path new_dfd new_path flags = record zeroed {
  opcode = opcode_renameat;
  fd = old_dfd;
  addr = old_path;
  len = u32_of_i32 new_dfd;
  off = new_path;
  op_flags = flags;
}

-- `Sqe::unlinkat_ptr` and `Sqe::mkdirat_ptr`
abbrev pub unlinkat_ptr : ℤ → ℕ → ℕ → IoUringSqe
unlinkat_ptr dfd path flags = record zeroed {
  opcode = opcode_unlinkat;
  fd = dfd;
  addr = path;
  op_flags = flags;
}

abbrev pub mkdirat_ptr : ℤ → ℕ → ℕ → IoUringSqe
mkdirat_ptr dfd path mode = record zeroed {
  opcode = opcode_mkdirat;
  fd = dfd;
  addr = path;
  len = mode;
}

-- `Sqe::symlinkat_ptr` and `Sqe::linkat_ptr`
abbrev pub symlinkat_ptr : ℕ → ℤ → ℕ → IoUringSqe
symlinkat_ptr old_path new_dfd new_path = record zeroed {
  opcode = opcode_symlinkat;
  fd = new_dfd;
  addr = old_path;
  off = new_path;
}

abbrev pub linkat_ptr : ℤ → ℕ → ℤ → ℕ → ℕ → IoUringSqe
linkat_ptr old_dfd old_path new_dfd new_path flags = record zeroed {
  opcode = opcode_linkat;
  fd = old_dfd;
  addr = old_path;
  len = u32_of_i32 new_dfd;
  off = new_path;
  op_flags = flags;
}

-- `Sqe::readv_ptr` and `Sqe::writev_ptr`
abbrev pub readv_ptr : ℤ → ℕ → ℕ → ℕ → IoUringSqe
readv_ptr fd iovecs nr_vecs offset = record zeroed {
  opcode = opcode_readv;
  fd = fd;
  addr = iovecs;
  len = nr_vecs;
  off = offset;
}

abbrev pub writev_ptr : ℤ → ℕ → ℕ → ℕ → IoUringSqe
writev_ptr fd iovecs nr_vecs offset = record zeroed {
  opcode = opcode_writev;
  fd = fd;
  addr = iovecs;
  len = nr_vecs;
  off = offset;
}

-- `Sqe::sendmsg_zc_ptr`
abbrev pub sendmsg_zc_ptr : ℤ → ℕ → ℕ → IoUringSqe
sendmsg_zc_ptr fd msg flags = record zeroed {
  opcode = opcode_sendmsg_zc;
  fd = fd;
  addr = msg;
  len = 1;
  op_flags = flags;
}

-- `CancelFlags::FD` and `CancelFlags::ANY`
abbrev pub cancel_by_fd : ℕ
cancel_by_fd = 2

abbrev pub cancel_by_any : ℕ
cancel_by_any = 4

-- `Sqe::cancel_with_flags`, `Sqe::cancel_fd` and `Sqe::cancel_any`
abbrev pub cancel_with_flags : ℕ → ℕ → IoUringSqe
cancel_with_flags target_user_data flags = record zeroed {
  opcode = opcode_async_cancel;
  addr = target_user_data;
  op_flags = flags;
}

abbrev pub cancel_fd : ℤ → ℕ → IoUringSqe
cancel_fd fd extra = record zeroed {
  opcode = opcode_async_cancel;
  fd = fd;
  op_flags = bit_or cancel_by_fd extra;
}

abbrev pub cancel_any : ℕ → IoUringSqe
cancel_any extra = record zeroed {
  opcode = opcode_async_cancel;
  op_flags = bit_or cancel_by_any extra;
}

-- `Sqe::accept_multishot`, with its flag in `ioprio`
abbrev pub accept_multishot : ℤ → ℕ → IoUringSqe
accept_multishot fd flags = record zeroed {
  opcode = opcode_accept;
  fd = fd;
  op_flags = flags;
  ioprio = 1;
}

-- `Sqe::accept_multishot_direct`
abbrev pub accept_multishot_direct : ℤ → ℕ → IoUringSqe
accept_multishot_direct fd flags = record (accept_multishot fd flags) { splice_fd_in = negsuc 0 }

-- `Sqe::user_data`
abbrev pub user_data : IoUringSqe → ℕ → IoUringSqe
user_data sqe tag = record sqe { user_data = tag }
