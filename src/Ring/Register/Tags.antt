-- ===== src/Ring/Register/Tags.antt =====
-- src/ring/rsrc_tags.rs: registrations with a tag for each slot. `none` is the panic of the test that
-- the lengths are the same.
use ququmatz.Base.{ℕ, ◌==◌, if◌then◌else◌, List, length, Option, none, some, Result}
use ququmatz.Base.Int.{ℤ}
use ququmatz.Types.{IoVec}
use ququmatz.Error.{Error}
use ququmatz.Ring.Register.{
  Registers, tagged_files, tagged_files_update, tagged_buffers, tagged_buffers_update, len_u32,
  register_raw,
}

-- `size_of::<IoUringRsrcRegister>()` and `size_of::<IoUringRsrcUpdate2>()`
abbrev pub rsrc_bytes : ℕ
rsrc_bytes = 32

module _ {S : Type 0} (k : Registers S) where
  unfoldable pub register_files_tagged :
      S → ℕ → List ℤ → List ℕ → Option (S × Result (Unit {0}) Error)
  unfolding register_raw
  register_files_tagged s fd fds tags =
      if length fds == length tags
      then some (register_raw k s fd 13 (tagged_files (len_u32 fds) fds tags) rsrc_bytes)
      else none

  unfoldable pub update_registered_files_tagged :
      S → ℕ → List ℤ → List ℕ → ℕ → Option (S × Result (Unit {0}) Error)
  unfolding register_raw
  update_registered_files_tagged s fd fds tags offset =
      if length fds == length tags
      then some
          (register_raw k s fd 14 (tagged_files_update offset (len_u32 fds) fds tags) rsrc_bytes)
      else none

  unfoldable pub register_buffers_tagged :
      S → ℕ → List IoVec → List ℕ → Option (S × Result (Unit {0}) Error)
  unfolding register_raw
  register_buffers_tagged s fd bufs tags =
      if length bufs == length tags
      then some (register_raw k s fd 15 (tagged_buffers (len_u32 bufs) bufs tags) rsrc_bytes)
      else none

  unfoldable pub update_registered_buffers_tagged :
      S → ℕ → List IoVec → List ℕ → ℕ → Option (S × Result (Unit {0}) Error)
  unfolding register_raw
  update_registered_buffers_tagged s fd bufs tags offset =
      if length bufs == length tags
      then some (
          register_raw k s fd 16 (tagged_buffers_update offset (len_u32 bufs) bufs tags) rsrc_bytes)
      else none
