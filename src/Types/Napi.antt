-- ===== src/Types/Napi.antt =====
-- src/types/napi.rs: the settings of busy polling, as a program asks for them and reads them.
use ququmatz.Base.{ℕ, Bool, not, ◌==◌, if◌then◌else◌}

pub data NapiTrackingStrategy : Type 0 where
  dynamic static : NapiTrackingStrategy

pub data NapiTrackingMode : Type 0 where
  dynamic static inactive : NapiTrackingMode

pub record NapiSettings : Type 0 where
  pub busy_poll_timeout_usec : ℕ
  pub prefer_busy_poll : Bool
  pub tracking : NapiTrackingMode

pub data NapiOp : Type 0 where
  register static_add_id static_del_id : NapiOp

-- `struct RawNapi`; its padding and `resv` are zero wherever it is made.
pub record RawNapi : Type 0 where
  pub busy_poll_to : ℕ
  pub prefer_busy_poll : ℕ
  pub opcode : ℕ
  pub op_param : ℕ

-- `RawNapi::default()`
abbrev pub default_napi : RawNapi
default_napi = record { busy_poll_to = 0; prefer_busy_poll = 0; opcode = 0; op_param = 0 }

-- `tracking as u32`
abbrev pub strategy_code : NapiTrackingStrategy → ℕ
strategy_code NapiTrackingStrategy.dynamic = 0
strategy_code NapiTrackingStrategy.static = 1

-- `op as u8`
abbrev pub napi_op_code : NapiOp → ℕ
napi_op_code register = 0
napi_op_code static_add_id = 1
napi_op_code static_del_id = 2

-- `NapiTrackingMode::from_raw`
abbrev pub mode_of_raw : ℕ → NapiTrackingMode
mode_of_raw n =
    if n == 0
    then NapiTrackingMode.dynamic
    else if n == 1
    then NapiTrackingMode.static
    else inactive

-- `NapiSettings::from_raw`
unfoldable pub settings_of_raw : RawNapi → NapiSettings
settings_of_raw raw = record {
  busy_poll_timeout_usec = raw.busy_poll_to;
  prefer_busy_poll = not (raw.prefer_busy_poll == 0);
  tracking = mode_of_raw raw.op_param;
}

-- `RawNapi::register`
unfoldable pub raw_register : ℕ → Bool → NapiTrackingStrategy → RawNapi
raw_register busy_poll_timeout_usec prefer_busy_poll tracking = record {
  busy_poll_to = busy_poll_timeout_usec;
  prefer_busy_poll = if prefer_busy_poll then 1 else 0;
  opcode = napi_op_code register;
  op_param = strategy_code tracking;
}

-- `RawNapi::static_id`
unfoldable pub static_id : NapiOp → ℕ → RawNapi
static_id op napi_id = record {
  busy_poll_to = 0;
  prefer_busy_poll = 0;
  opcode = napi_op_code op;
  op_param = napi_id;
}
