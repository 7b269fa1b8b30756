-- ===== src/Ring/Register.antt =====
-- src/ring/register.rs and src/ring/rsrc_tags.rs: what a ring registers with its kernel.
pub mod Napi
pub mod Sync
pub mod Tags
mod Tests
use ququmatz.Base.{ℕ, ◌-◌, ◌%◌, ◌^◌, Bool, List, length, Result, ok, err}
use ququmatz.Base.Int.{ℤ, neg_i32, u32_of_i32}
use ququmatz.Types.{IoVec}
use ququmatz.Types.Napi.{
  NapiTrackingStrategy, NapiSettings, NapiOp, static_add_id, static_del_id, RawNapi, default_napi,
  settings_of_raw, raw_register, static_id,
}
use ququmatz.Types.SyncCancel.{SyncCancelReg, RawSyncCancelReg, as_raw}
use ququmatz.Error.{Error, Errno}
use ququmatz.Owned.Cancel.{CancelOutcome, applied, from_raw}
use ququmatz.Ring.Syscall.{check}

-- `payload` is the field `data`.
pub record IoUringRsrcUpdate : Type 0 where
  pub offset : ℕ
  pub payload : ℕ

pub record IoUringCloneBuffers : Type 0 where
  pub src_fd : ℕ
  pub flags : ℕ
  pub src_off : ℕ
  pub dst_off : ℕ
  pub nr : ℕ

-- What the argument of a registration points at. An address inside of it is what it points at.
pub data Argument : Type 0 where
  nothing : Argument
  iovecs : List IoVec → Argument
  descriptors : List ℤ → Argument
  files_update : ℕ → List ℤ → Argument
  alloc_range : ℕ → ℕ → Argument
  eventfd : ℤ → Argument
  mask : List ℕ → Argument
  workers : ℕ → ℕ → Argument
  sync_cancel_reg : RawSyncCancelReg → Argument
  clone_buffers : IoUringCloneBuffers → Argument
  tagged_files : ℕ → List ℤ → List ℕ → Argument
  tagged_files_update : ℕ → ℕ → List ℤ → List ℕ → Argument
  tagged_buffers : ℕ → List IoVec → List ℕ → Argument
  tagged_buffers_update : ℕ → ℕ → List IoVec → List ℕ → Argument

-- `io_uring_register(fd, opcode, arg, nr_args)` as the kernel performs it: the number that the
-- system call leaves, and the argument where the caller reads it back.
pub record Registers (S : Type 0) : Type 0 where
  pub call : S → ℕ → ℕ → Argument → ℕ → S × ℤ
  pub ring_fds : S → ℕ → ℕ → IoUringRsrcUpdate → ℕ → S × IoUringRsrcUpdate × ℤ
  pub napi : S → ℕ → ℕ → RawNapi → ℕ → S × RawNapi × ℤ

-- `len as u32`
abbrev pub len_u32 {ℓ} : {A : Type ℓ} → List A → ℕ
len_u32 xs = length xs % 2 ^ 32

-- `?` behind a call: the number of a call that succeeds, or another value in its place.
abbrev pub checked {ℓ} : {A : Type ℓ} → ℤ → A → Result A Error
checked ret a = elim (check ret) [ ok n ↦ ok a | err e ↦ err (Error.syscall e) ]

-- The match on the call's result in `sync_cancel`; a number is cut to its 32 bits, and the
-- negation is the one of `i32`.
unfoldable pub sync_outcome : Result ℕ Errno → Result CancelOutcome Error
sync_outcome (ok n) = ok (applied (n % 2 ^ 32))
sync_outcome (err (Errno.errno e)) = ok (from_raw (neg_i32 e))

module _ {S : Type 0} (k : Registers S) where
  -- `register_raw` with an argument that is not read back, and `?` and `Ok(())` behind it.
  unfoldable pub register_raw : S → ℕ → ℕ → Argument → ℕ → S × Result (Unit {0}) Error
  register_raw s fd opcode arg nr =
      let (s', ret) = k.call s fd opcode arg nr in (s', checked ret tt)

  unfoldable pub register_buffers : S → ℕ → List IoVec → S × Result (Unit {0}) Error
  unfolding register_raw
  register_buffers s fd bufs = register_raw s fd 0 (iovecs bufs) (len_u32 bufs)

  unfoldable pub unregister_buffers : S → ℕ → S × Result (Unit {0}) Error
  unfolding register_raw
  unregister_buffers s fd = register_raw s fd 1 nothing 0

  unfoldable pub register_files : S → ℕ → List ℤ → S × Result (Unit {0}) Error
  unfolding register_raw
  register_files s fd fds = register_raw s fd 2 (descriptors fds) (len_u32 fds)

  unfoldable pub unregister_files : S → ℕ → S × Result (Unit {0}) Error
  unfolding register_raw
  unregister_files s fd = register_raw s fd 3 nothing 0

  unfoldable pub update_registered_files : S → ℕ → List ℤ → ℕ → S × Result (Unit {0}) Error
  unfolding register_raw
  update_registered_files s fd fds offset =
      register_raw s fd 6 (files_update offset fds) (len_u32 fds)

  unfoldable pub register_file_alloc_range : S → ℕ → ℕ → ℕ → S × Result (Unit {0}) Error
  unfolding register_raw
  register_file_alloc_range s fd off len = register_raw s fd 25 (alloc_range off len) 0

  unfoldable pub register_eventfd : S → ℕ → ℤ → S × Result (Unit {0}) Error
  unfolding register_raw
  register_eventfd s fd efd = register_raw s fd 4 (eventfd efd) 1

  unfoldable pub register_eventfd_async : S → ℕ → ℤ → S × Result (Unit {0}) Error
  unfolding register_raw
  register_eventfd_async s fd efd = register_raw s fd 7 (eventfd efd) 1

  unfoldable pub unregister_eventfd : S → ℕ → S × Result (Unit {0}) Error
  unfolding register_raw
  unregister_eventfd s fd = register_raw s fd 5 nothing 0

  unfoldable pub register_iowq_affinity : S → ℕ → List ℕ → S × Result (Unit {0}) Error
  unfolding register_raw
  register_iowq_affinity s fd cpus = register_raw s fd 17 (mask cpus) (len_u32 cpus)

  unfoldable pub unregister_iowq_affinity : S → ℕ → S × Result (Unit {0}) Error
  unfolding register_raw
  unregister_iowq_affinity s fd = register_raw s fd 18 nothing 0

  unfoldable pub set_iowq_max_workers : S → ℕ → ℕ → ℕ → S × Result (Unit {0}) Error
  unfolding register_raw
  set_iowq_max_workers s fd max_bounded max_unbounded =
      register_raw s fd 19 (workers max_bounded max_unbounded) 2

  unfoldable pub enable_rings : S → ℕ → S × Result (Unit {0}) Error
  unfolding register_raw
  enable_rings s fd = register_raw s fd 12 nothing 0

  -- The ring's own descriptor, `self.fd.as_usize() as u64`, is a valid one here.
  unfoldable pub register_ring_fd : S → ℕ → S × Result ℕ Error
  register_ring_fd s fd =
      let (s', reg, ret) = k.ring_fds s fd 20 (record { offset = 2 ^ 32 - 1; payload = fd }) 1 in
      (s', checked ret reg.offset)

  unfoldable pub unregister_ring_fd : S → ℕ → ℕ → S × Result (Unit {0}) Error
  unregister_ring_fd s fd offset =
      let (s', reg, ret) = k.ring_fds s fd 21 (record { offset = offset; payload = 0 }) 1 in
      (s', checked ret tt)

  unfoldable pub sync_cancel : S → ℕ → SyncCancelReg → S × Result CancelOutcome Error
  unfolding sync_outcome
  sync_cancel s fd reg =
      let (s', ret) = k.call s fd 24 (sync_cancel_reg (as_raw reg)) 1 in
      (s', sync_outcome (check ret))

  unfoldable pub register_napi :
      S → ℕ → ℕ → Bool → NapiTrackingStrategy → S × Result NapiSettings Error
  register_napi s fd busy_poll_timeout_usec prefer_busy_poll tracking =
      let raw = raw_register busy_poll_timeout_usec prefer_busy_poll tracking in
      let (s', raw', ret) = k.napi s fd 27 raw 1 in (s', checked ret (settings_of_raw raw'))

  unfoldable pub unregister_napi : S → ℕ → S × Result NapiSettings Error
  unregister_napi s fd =
      let (s', raw', ret) = k.napi s fd 28 default_napi 1 in
      (s', checked ret (settings_of_raw raw'))

  unfoldable pub napi_add_static_id : S → ℕ → ℕ → S × Result (Unit {0}) Error
  napi_add_static_id s fd napi_id =
      let (s', raw', ret) = k.napi s fd 27 (static_id static_add_id napi_id) 1 in
      (s', checked ret tt)

  unfoldable pub napi_remove_static_id : S → ℕ → ℕ → S × Result (Unit {0}) Error
  napi_remove_static_id s fd napi_id =
      let (s', raw', ret) = k.napi s fd 27 (static_id static_del_id napi_id) 1 in
      (s', checked ret tt)

  unfoldable pub clone_registered_buffers_raw :
      S → ℕ → ℤ → ℕ → ℕ → ℕ → ℕ → S × Result (Unit {0}) Error
  unfolding register_raw
  clone_registered_buffers_raw s fd src flags src_off dst_off nr =
      let arg : IoUringCloneBuffers = record {
        src_fd = u32_of_i32 src;
        flags = flags;
        src_off = src_off;
        dst_off = dst_off;
        nr = nr;
      } in
      register_raw s fd 30 (clone_buffers arg) 0

  unfoldable pub clone_registered_buffers : S → ℕ → ℤ → S × Result (Unit {0}) Error
  unfolding clone_registered_buffers_raw
  clone_registered_buffers s fd src = clone_registered_buffers_raw s fd src 0 0 0 0

  unfoldable pub clone_registered_buffers_replacing : S → ℕ → ℤ → S × Result (Unit {0}) Error
  unfolding clone_registered_buffers_raw
  clone_registered_buffers_replacing s fd src = clone_registered_buffers_raw s fd src 2 0 0 0
