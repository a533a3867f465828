-- ===== src/Retap/Procedures.antt =====
-- openaisg/retap.py: the class `Ret`. `Transport` is the link that it is given: `AisgLink` or the
-- session's `SerialTransport`. Times are milliseconds, tilts are tenths of a degree.
pub mod Replies
pub mod Tilt
pub mod Information
pub mod Keeping
mod Tests
use openaisg.Common.{
  ℕ, zero, suc, ◌+◌, ◌*◌, Bool, true, false, List, [], ◌∷◌, ◌++◌, Option, none, some, ltb, ◌==◌,
  if◌then◌else◌, Bytes, length, take, drop,
}
use openaisg.Common.Int.{ℤ}
use openaisg.Errors.{
  Error, malformed, empty_response, ret_error, index_error, Result, ok, err, Action, lift, ◌>>=◌,
}
use openaisg.Retap.Codec.{pack_u16, pack_i16, unpack_i16}
use openaisg.Retap.Codec.{
  reset_software, get_alarm_status_code, get_information_code, clear_active_alarms, self_test_code,
  get_device_data_code, alarm_subscribe_code, calibrate_code, send_config_data_code, set_tilt_code,
  get_tilt_code,
}
use openaisg.Retap.Codec.{
  ant_calibrate, ant_set_tilt, ant_get_tilt, ant_get_device_data, ant_clear_active_alarms,
  ant_get_alarm_status, ant_get_num_antennas, ant_send_config_data,
}

-- `link.request(addr, message, timeout)`.
pub record Transport (L : Type 0) : Type 0 where
  pub request : ℕ → Bytes → ℕ → Action L Bytes

pub record Ret : Type 0 where
  pub addr : ℕ
  pub antenna : Option ℕ

abbrev pub prefix_of : Option ℕ → Bytes
prefix_of none = []
prefix_of (some antenna) = antenna ∷ []

-- The body without the antenna number that the device echoes.
abbrev strip : Option ℕ → Bytes → Bytes
strip none body = body
strip (some antenna) body = drop 1 body

unfoldable pub check_body : ℕ → Bytes → Result Bytes
check_body code [] = err empty_response
check_body code (rc ∷ rest) = if rc == 0 then ok rest else err (ret_error code rc)

-- The part of `_proc` behind the request.
unfoldable pub parse_response : Option ℕ → ℕ → Bytes → Result Bytes
unfolding check_body
parse_response antenna code (c ∷ lo ∷ hi ∷ rest) =
    if c == code then check_body code (strip antenna (take (lo + hi * 256) rest)) else err malformed
parse_response antenna code _ = err malformed

-- `code` for a single antenna, `ant_code` for one of several.
abbrev pub code_for : Option ℕ → ℕ → ℕ → ℕ
code_for none code ant_code = code
code_for (some antenna) code ant_code = ant_code

-- One call of `decode("ascii", "replace")`, in code points.
unfoldable pub decode_ascii : Bytes → List ℕ
decode_ascii [] = []
decode_ascii (b ∷ bs) = (if ltb b 128 then b else 0xfffd) ∷ decode_ascii bs

pub data Key : Type 0 where
  product_number serial_number hardware_version software_version : Key

abbrev pub information_keys : List Key
information_keys = product_number ∷ serial_number ∷ hardware_version ∷ software_version ∷ []

-- The loop of `get_information` over the keys and `d[i:]`.
unfoldable pub read_texts : List Key → Bytes → List (Key × List ℕ)
unfolding decode_ascii
read_texts [] d = []
read_texts (key ∷ keys) [] = []
read_texts (key ∷ keys) (n ∷ d) = (key, decode_ascii (take n d)) ∷ read_texts keys (drop n d)

-- `d[0]`.
first_byte : Bytes → Result ℕ
first_byte [] = err index_error
first_byte (b ∷ bs) = ok b

module _ {L : Type 0} (t : Transport L) where
  -- `_proc`.
  unfoldable pub proc : Ret → ℕ → Bytes → ℕ → Action L Bytes
  proc ret code payload timeout = do
    size ← lift (pack_u16 (length (prefix_of ret.antenna) + length payload))
    resp ← t.request ret.addr (code ∷ (size ++ (prefix_of ret.antenna ++ payload))) timeout
    lift (parse_response ret.antenna code resp)

  unfoldable pub get_information : Ret → Action L (List (Key × List ℕ))
  get_information ret = do
    d ← proc ret get_information_code [] 3000
    lift (ok (read_texts information_keys d))

  -- The return codes of the active alarms; the code maps each to its name by `rc_name`.
  unfoldable pub get_alarm_status : Ret → Action L Bytes
  get_alarm_status ret =
      proc ret (code_for ret.antenna get_alarm_status_code ant_get_alarm_status) [] 3000

  unfoldable pub clear_alarms : Ret → Action L Bytes
  clear_alarms ret =
      proc ret (code_for ret.antenna clear_active_alarms ant_clear_active_alarms) [] 3000

  unfoldable pub alarm_subscribe : Ret → Action L Bytes
  alarm_subscribe ret = proc ret alarm_subscribe_code [] 3000

  unfoldable pub self_test : Ret → Action L Bytes
  self_test ret = proc ret self_test_code [] 30000

  unfoldable pub reset : Ret → Action L Bytes
  reset ret = proc ret reset_software [] 3000

  unfoldable pub calibrate : Ret → Action L Bytes
  calibrate ret = proc ret (code_for ret.antenna calibrate_code ant_calibrate) [] 120000

  -- `tenths` is `round(degrees * 10)`.
  unfoldable pub set_tilt : Ret → ℤ → Action L Bytes
  set_tilt ret tenths = do
    payload ← lift (pack_i16 tenths)
    proc ret (code_for ret.antenna set_tilt_code ant_set_tilt) payload 60000

  -- The tilt in tenths of a degree.
  unfoldable pub get_tilt : Ret → Action L ℤ
  get_tilt ret = do
    d ← proc ret (code_for ret.antenna get_tilt_code ant_get_tilt) [] 3000
    lift (unpack_i16 (take 2 d))

  -- The antenna number is put aside for the call, and is back whether it returns or raises.
  unfoldable num_antennas : Ret → Action L ℕ
  unfolding first_byte
  num_antennas ret = do
    d ← proc (record ret { antenna = none }) ant_get_num_antennas [] 3000
    lift (first_byte d)

  unfoldable pub get_device_data : Ret → ℕ → Action L Bytes
  get_device_data ret field =
      proc ret (code_for ret.antenna get_device_data_code ant_get_device_data) (field ∷ []) 3000

  unfoldable send_config_data : Ret → Bytes → Action L Bytes
  send_config_data ret blob =
      proc ret (code_for ret.antenna send_config_data_code ant_send_config_data) blob 30000
