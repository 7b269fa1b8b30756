-- ===== src/Ring/Syscall.antt =====
-- src/syscall/mod.rs: entering the kernel. What the kernel does is a parameter.
use ququmatz.Base.{ℕ, suc, ◌-◌, ◌^◌, ltb, if◌then◌else◌, Result, ok, err}
use ququmatz.Base.Int.{ℤ, pos, negsuc}
use ququmatz.Error.{Errno, errno}
use ququmatz.Ring.{Shared, World}

-- `io_uring_enter(fd, to_submit, min_complete, flags)` as the kernel performs it: a new state of
-- the kernel and of the shared memory, and the number that the system call leaves.
abbrev pub Enter : Type 0 → Type 0
Enter S = S → Shared → ℕ → ℕ → ℕ → ℕ → S × Shared × ℤ

-- The errors are -1 to -4095; any other number is a result, as a `usize`.
unfoldable pub check : ℤ → Result ℕ Errno
check (pos n) = ok n
check (negsuc n) = if ltb n 4095 then err (errno (pos (suc n))) else ok (2 ^ 64 - suc n)

module _ {S : Type 0} (enter : Enter S) where
  unfoldable pub io_uring_enter : World S → ℕ → ℕ → ℕ → ℕ → World S × Result ℕ Errno
  io_uring_enter w fd to_submit min_complete flags =
      let (k, m, ret) = enter w.kernel w.shared fd to_submit min_complete flags in
      (record { kernel = k; shared = m }, check ret)
