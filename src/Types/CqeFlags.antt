-- ===== src/Types/CqeFlags.antt =====
-- src/types/sqe_cqe.rs: the flags of a completion.
use ququmatz.Base.{ℕ, ◌/◌, ◌%◌, ◌^◌, Option, none, some, if◌then◌else◌}
use ququmatz.Types.{contains}

abbrev pub buffer : ℕ
buffer = 1

abbrev pub more : ℕ
more = 2

abbrev pub sock_nonempty : ℕ
sock_nonempty = 4

abbrev pub notif : ℕ
notif = 8

abbrev pub buf_more : ℕ
buf_more = 16

-- The upper 16 bits, when the kernel chose a buffer.
unfoldable pub buffer_id : ℕ → Option ℕ
buffer_id flags = if contains flags buffer then some (flags / 2 ^ 16 % 2 ^ 16) else none
