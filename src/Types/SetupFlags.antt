-- ===== src/Types/SetupFlags.antt =====
-- src/types/ring_ctrl.rs: the flags of `io_uring_setup`.
use ququmatz.Base.{ℕ, ◌^◌}

abbrev pub iopoll : ℕ
iopoll = 2 ^ 0

abbrev pub sqpoll : ℕ
sqpoll = 2 ^ 1

abbrev pub sq_aff : ℕ
sq_aff = 2 ^ 2

abbrev pub cqsize : ℕ
cqsize = 2 ^ 3

abbrev pub clamp : ℕ
clamp = 2 ^ 4

abbrev pub attach_wq : ℕ
attach_wq = 2 ^ 5

abbrev pub r_disabled : ℕ
r_disabled = 2 ^ 6

abbrev pub submit_all : ℕ
submit_all = 2 ^ 7

abbrev pub coop_taskrun : ℕ
coop_taskrun = 2 ^ 8

abbrev pub taskrun_flag : ℕ
taskrun_flag = 2 ^ 9

abbrev pub single_issuer : ℕ
single_issuer = 2 ^ 12

abbrev pub defer_taskrun : ℕ
defer_taskrun = 2 ^ 13

abbrev pub no_mmap : ℕ
no_mmap = 2 ^ 14

abbrev pub no_sqarray : ℕ
no_sqarray = 2 ^ 16
