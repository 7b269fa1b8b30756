-- ===== src/Types/Fs.antt =====
-- src/types/fs.rs: directories and the flags of the requests that name paths.
use ququmatz.Base.{ℕ, ◌+◌, ◌^◌}
use ququmatz.Base.Int.{ℤ, negsuc}

pub data DirFd : Type 0 where
  cwd : DirFd
  fd : ℤ → DirFd

abbrev pub at_fdcwd : ℤ
at_fdcwd = negsuc 99

-- `DirFd::as_raw`
abbrev pub as_raw : DirFd → ℤ
as_raw cwd = at_fdcwd
as_raw (fd n) = n

-- `OpenFlags`
abbrev pub creat : ℕ
creat = 64

abbrev pub excl : ℕ
excl = 128

abbrev pub tmpfile_flag : ℕ
tmpfile_flag = 2 ^ 22 + 2 ^ 16

abbrev pub cloexec : ℕ
cloexec = 2 ^ 19

-- `RenameFlags`
abbrev pub noreplace : ℕ
noreplace = 1

abbrev pub exchange_flag : ℕ
exchange_flag = 2

-- `UnlinkFlags`
abbrev pub removedir : ℕ
removedir = 512
