-- ===== src/Ring/Register/Napi.antt =====
-- src/ring/register.rs: the settings of busy polling that the calls replace and report.
use ququmatz.Base.{
  ℕ, min, ◌≡◌, refl, sym, ap, ◌∙◌, Bool, true, false, ◌==◌, if◌then◌else◌, Result, ok, err,
}
use ququmatz.Base.Int.{ℤ}
use ququmatz.Types.Napi.{
  NapiTrackingStrategy, NapiTrackingMode, NapiSettings, RawNapi, default_napi, settings_of_raw,
  raw_register,
}
use ququmatz.Error.{Error, Errno}
use ququmatz.Ring.Syscall.{check}
use ququmatz.Ring.Register.{Registers, checked, register_napi, unregister_napi}

-- No busy polling: the kernel names it 255.
abbrev pub idle : RawNapi
idle = record { busy_poll_to = 0; prefer_busy_poll = 0; opcode = 0; op_param = 255 }

-- What the kernel keeps of a request: at most 10000 microseconds, and a preference of 0 or 1.
abbrev pub kept : RawNapi → RawNapi
kept raw = record raw {
  busy_poll_to = min raw.busy_poll_to 10000;
  prefer_busy_poll = if raw.prefer_busy_poll == 0 then 0 else 1;
}

-- What the kernel documents: a call that succeeds replaces the settings and writes the former ones
-- back.
pub record IsNapi {S : Type 0} (k : Registers S) (settings : S → RawNapi) : Type 0 where
  pub register_ok :
      (s : S) (fd n : ℕ) (raw : RawNapi)
      → raw.opcode ≡ 0
      → check (k.napi s fd 27 raw 1).2 ≡ ok n
      → let (s', raw', ret) = k.napi s fd 27 raw 1 in (settings s' ≡ kept raw) × (raw' ≡ settings s)
  pub unregister_ok :
      (s : S) (fd n : ℕ)
      → check (k.napi s fd 28 default_napi 1).2 ≡ ok n
      → let (s', raw', ret) = k.napi s fd 28 default_napi 1 in
        (settings s' ≡ idle) × (raw' ≡ settings s)

checked-ok :
    {A : Type 0} (ret : ℤ) (a b : A)
    → checked ret a ≡ ok b
    → ((n : ℕ) × (check ret ≡ ok n)) × (a ≡ b)
checked-ok {A = A} ret a b h = go (check ret) refl h
  where
    go :
        (r : Result ℕ Errno)
        → check ret ≡ r
        → ◌≡◌ {A = Result A Error} (elim r [ ok n ↦ ok a | err e ↦ err (Error.syscall e) ]) (ok b)
        → ((n : ℕ) × (check ret ≡ ok n)) × (a ≡ b)
    go (ok n) e h = ((n, e), cc h)
    go (err e') e h = absurd (cc h)

-- How the program reads a strategy that it asked for.
abbrev pub mode_of : NapiTrackingStrategy → NapiTrackingMode
mode_of NapiTrackingStrategy.dynamic = NapiTrackingMode.dynamic
mode_of NapiTrackingStrategy.static = NapiTrackingMode.static

settings-kept :
    (timeout : ℕ) (prefer : Bool) (tracking : NapiTrackingStrategy)
    → settings_of_raw (kept (raw_register timeout prefer tracking)) ≡ record {
      busy_poll_timeout_usec = min timeout 10000;
      prefer_busy_poll = prefer;
      tracking = mode_of tracking;
    }
unfolding settings_of_raw raw_register
settings-kept timeout true NapiTrackingStrategy.dynamic = refl
settings-kept timeout true NapiTrackingStrategy.static = refl
settings-kept timeout false NapiTrackingStrategy.dynamic = refl
settings-kept timeout false NapiTrackingStrategy.static = refl

module _ {S : Type 0} (k : Registers S) (settings : S → RawNapi) (law : IsNapi k settings) where
  -- On a kernel that swaps the settings of busy polling as documented, when a registration succeeds
  -- and then an unregistration does: the first gives the settings in effect before it; the second
  -- gives the settings that the first asked for, with at most 10000 microseconds; then there is no
  -- busy polling.
  pub unregister-register_napi :
      (s : S) (fd timeout : ℕ) (prefer : Bool) (tracking : NapiTrackingStrategy)
      (before after : NapiSettings)
      → let (s1, first) = register_napi k s fd timeout prefer tracking in
        let (s2, second) = unregister_napi k s1 fd in
        first ≡ ok before
        → second ≡ ok after
        → (before ≡ settings_of_raw (settings s))
          × (after ≡ record {
            busy_poll_timeout_usec = min timeout 10000;
            prefer_busy_poll = prefer;
            tracking = mode_of tracking;
          })
          × (settings s2 ≡ idle)
  unfolding register_napi unregister_napi raw_register
  unregister-register_napi s fd timeout prefer tracking before after first second =
      let raw = raw_register timeout prefer tracking in
      let s1 = (k.napi s fd 27 raw 1).0 in
      let ((n, done), read) = checked-ok (k.napi s fd 27 raw 1).2 _ before first in
      let ((n', done'), read') = checked-ok (k.napi s1 fd 28 default_napi 1).2 _ after second in
      let (now, old) = law.register_ok s fd n raw refl done in
      let (none, old') = law.unregister_ok s1 fd n' done' in
      (
        sym read ∙ ap settings_of_raw old,
        sym read' ∙ ap settings_of_raw (old' ∙ now) ∙ settings-kept timeout prefer tracking,
        none,
      )
