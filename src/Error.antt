-- ===== src/Error.antt =====
-- src/error.rs: what can go wrong, and how a completion's result is read.
use ququmatz.Base.{ℕ, Bool, not, Option, none, some, if◌then◌else◌}
use ququmatz.Base.Int.{ℤ, is_neg, neg_i32}

-- `struct Errno(i32)`
pub data Errno : Type 0 where
  errno : ℤ → Errno

pub data InvalidArgKind : Type 0 where
  buffer_count_zero : InvalidArgKind
  buffer_size_zero : InvalidArgKind
  buffer_count_not_power_of_two : InvalidArgKind
  buffer_count_too_large : InvalidArgKind
  buffer_ring_size_overflow : InvalidArgKind
  unsupported_setup_flags : ℕ → InvalidArgKind
  incompatible_split : ℕ → InvalidArgKind

pub data SubmitError : Type 0 where
  queue_full : SubmitError
  syscall : Errno → SubmitError

pub data CompletionError : Type 0 where
  no_completion : CompletionError
  failed : Errno → CompletionError
  unexpected_completion : ℕ → ℕ → CompletionError

pub data SetupError : Type 0 where
  invalid_arg : InvalidArgKind → SetupError
  syscall : Errno → SetupError

pub data Error : Type 0 where
  submit : SubmitError → Error
  completion : CompletionError → Error
  setup : SetupError → Error
  syscall : Errno → Error

unfoldable pub from_failed_cqe : ℤ → Option Error
from_failed_cqe result =
    if is_neg result
    then some (Error.completion (CompletionError.failed (errno (neg_i32 result))))
    else none

unfoldable pub cqe_is_ok : ℤ → Bool
cqe_is_ok result = not (is_neg result)
