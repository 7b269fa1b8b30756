-- ===== src/Ring/Register/Tests.antt =====
-- The properties of registrations and of probes at concrete inputs.
use ququmatz.Base.{
  ℕ, zero, suc, ◌<◌, ◌≡◌, refl, ap, Bool, true, false, not, ◌&&◌, ◌==◌, ltb, ◌⊎◌, if◌then◌else◌, [],
  ◌∷◌, get_or, some, ok, err, bit_and, arith,
}
use ququmatz.Base.Int.{ℤ, pos, negsuc}
use ququmatz.Types.Napi.{
  NapiTrackingStrategy, NapiTrackingMode, NapiSettings, RawNapi, settings_of_raw, raw_register,
}
use ququmatz.Types.SyncCancel.{SyncCancelKey, SyncCancelReg}
use ququmatz.Error.{Error, Errno}
use ququmatz.Ring.Syscall.{check}
use ququmatz.Ring.Register.{Registers, register_napi, unregister_napi}
use ququmatz.Ring.Register.Napi.{IsNapi, idle, kept, unregister-register_napi}
use ququmatz.Ring.Probe.{Probe, no_op, interrogate, supports_raw}
use ququmatz.Ring.Probe.Supported.{IsFilled, supports-interrogate}

-- A kernel that keeps the settings of busy polling, and finds no request to cancel.
abbrev calls : Registers RawNapi
calls = record {
  call = λ s fd opcode arg nr. (s, negsuc 1);
  ring_fds = λ s fd opcode arg nr. (s, arg, pos 0);
  napi = λ s fd opcode raw nr. (if opcode == 27 then kept raw else idle, s, pos 0);
}

calls-IsNapi : IsNapi calls (λ s. s)
calls-IsNapi = record {
  register_ok = λ s fd n raw plain done. (refl, refl);
  unregister_ok = λ s fd n done. (refl, refl);
}

abbrev was : NapiSettings
was = record {
  busy_poll_timeout_usec = 0;
  prefer_busy_poll = false;
  tracking = NapiTrackingMode.inactive;
}

abbrev now : NapiSettings
now = record {
  busy_poll_timeout_usec = 10000;
  prefer_busy_poll = true;
  tracking = NapiTrackingMode.static;
}

registers :
    register_napi calls idle 3 20000 true NapiTrackingStrategy.static
    ≡ (kept (raw_register 20000 true NapiTrackingStrategy.static), ok was)
unfolding register_napi settings_of_raw check
registers = refl

unregisters :
    unregister_napi calls (register_napi calls idle 3 20000 true NapiTrackingStrategy.static).0 3
    ≡ (idle, ok now)
unfolding register_napi unregister_napi settings_of_raw raw_register check
unregisters = refl

unregister-register_napi_example :
    (was ≡ settings_of_raw idle)
    × (now ≡ now)
    × ((unregister_napi calls
          (register_napi calls idle 3 20000 true NapiTrackingStrategy.static).0
          3).0
        ≡ idle)
unregister-register_napi_example =
    unregister-register_napi calls (λ s. s) calls-IsNapi idle 3 20000 true
      NapiTrackingStrategy.static was now (ap (λ r. r.1) registers) (ap (λ r. r.1) unregisters)

-- A cancelling by a descriptor of a request with opcode 22, for at most one second.
abbrev wanted : SyncCancelReg
wanted = record {
  key = SyncCancelKey.fd (pos 7);
  flags = 1;
  opcode = some 22;
  timeout = some (record { tv_sec = pos 1; tv_nsec = pos 0 });
}

-- A kernel with two opcodes, which implements the second.
abbrev implemented : ℕ → Bool
implemented n = n == 1

abbrev reply : Probe
reply = record {
  last_op = 1;
  ops_len = 2;
  ops = record { op = 0; flags = 0 } ∷ record { op = 1; flags = 1 } ∷ no_op ∷ [];
}

numbered : (i : ℕ) → i < 2 → (get_or reply.ops i no_op).op ≡ i
numbered zero h = refl
numbered (suc zero) h = refl
numbered (suc (suc i)) h = absurd (omega arith)

flagged : (i : ℕ) → i < 2 → not (bit_and (get_or reply.ops i no_op).flags 1 == 0) ≡ implemented i
flagged zero h = refl
flagged (suc zero) h = refl
flagged (suc (suc i)) h = absurd (omega arith)

reply-IsFilled : IsFilled implemented reply
reply-IsFilled = record { room = omega arith; numbered = numbered; flagged = flagged }

abbrev replies : ℕ → ℕ → ℕ → Probe → ℕ → ℕ × Probe × ℤ
replies s fd opcode probe nr = (s, reply, pos 0)

supports-interrogate_example :
    ((e : Errno) × (check (pos 0) ≡ err e) × (interrogate replies 0 3 ≡ (0, err (Error.syscall e))))
    ⊎ ((n : ℕ) × (check (pos 0) ≡ ok n)
        × (interrogate replies 0 3 ≡ (0, ok reply))
        × (supports_raw reply 1 ≡ ltb 1 2 && implemented 1))
supports-interrogate_example =
    supports-interrogate replies implemented 0 3 1 (λ n done. reply-IsFilled)
