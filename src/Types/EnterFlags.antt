-- ===== src/Types/EnterFlags.antt =====
-- src/types/ring_ctrl.rs: the flags of `io_uring_enter`.
use ququmatz.Base.{ℕ}

-- `EnterFlags::default()`
abbrev pub empty : ℕ
empty = 0

abbrev pub getevents : ℕ
getevents = 1

abbrev pub sq_wakeup : ℕ
sq_wakeup = 2
