-- ===== src/Retap/Codec.antt =====
-- openaisg/retap.py: procedure codes, and the integers of a message.
pub mod RoundTrip
mod Tests
use openaisg.Common.{
  ℕ, zero, suc, ◌+◌, ◌-◌, ◌*◌, ◌/◌, ◌%◌, ◌^◌, Bool, true, false, List, [], ◌∷◌, ◌++◌, ltb, leb,
  ◌==◌, if◌then◌else◌, Bytes, length, get_or,
}
use openaisg.Common.Int.{ℤ, pos, negsuc}
use openaisg.Errors.{Result, ok, err, struct_error}

abbrev pub reset_software : ℕ
reset_software = 0x03

abbrev pub get_alarm_status_code : ℕ
get_alarm_status_code = 0x04

abbrev pub get_information_code : ℕ
get_information_code = 0x05

abbrev pub clear_active_alarms : ℕ
clear_active_alarms = 0x06

abbrev pub alarm_indication : ℕ
alarm_indication = 0x07

abbrev pub self_test_code : ℕ
self_test_code = 0x0a

abbrev pub get_device_data_code : ℕ
get_device_data_code = 0x0f

abbrev pub alarm_subscribe_code : ℕ
alarm_subscribe_code = 0x12

abbrev pub calibrate_code : ℕ
calibrate_code = 0x31

abbrev pub send_config_data_code : ℕ
send_config_data_code = 0x32

abbrev pub set_tilt_code : ℕ
set_tilt_code = 0x33

abbrev pub get_tilt_code : ℕ
get_tilt_code = 0x34

abbrev pub ant_calibrate : ℕ
ant_calibrate = 0x80

abbrev pub ant_set_tilt : ℕ
ant_set_tilt = 0x81

abbrev pub ant_get_tilt : ℕ
ant_get_tilt = 0x82

abbrev pub ant_get_device_data : ℕ
ant_get_device_data = 0x84

abbrev pub ant_alarm_indication : ℕ
ant_alarm_indication = 0x85

abbrev pub ant_clear_active_alarms : ℕ
ant_clear_active_alarms = 0x86

abbrev pub ant_get_alarm_status : ℕ
ant_get_alarm_status = 0x87

abbrev pub ant_get_num_antennas : ℕ
ant_get_num_antennas = 0x88

abbrev pub ant_send_config_data : ℕ
ant_send_config_data = 0x89

-- `struct.pack("<H", n)`.
unfoldable pub pack_u16 : ℕ → Result Bytes
pack_u16 n = if ltb n (2 ^ 16) then ok (n % 256 ∷ n / 256 ∷ []) else err struct_error

-- `struct.unpack("<H", bytes)`.
unfoldable unpack_u16 : Bytes → Result ℕ
unpack_u16 (lo ∷ hi ∷ []) = ok (lo + hi * 256)
unpack_u16 _ = err struct_error

-- The bit pattern of a signed 16-bit integer, and back.
pub pattern_of : ℤ → Result ℕ
pattern_of (pos n) = if ltb n (2 ^ 15) then ok n else err struct_error
pattern_of (negsuc n) = if ltb n (2 ^ 15) then ok (2 ^ 16 - 1 - n) else err struct_error

unfoldable signed_of : ℕ → ℤ
signed_of w = if ltb w (2 ^ 15) then pos w else negsuc (2 ^ 16 - 1 - w)

-- `struct.pack("<h", n)`.
unfoldable pub pack_i16 : ℤ → Result Bytes
unfolding pattern_of
pack_i16 n = elim (pattern_of n) [ ok w ↦ ok (w % 256 ∷ w / 256 ∷ []) | err e ↦ err e ]

-- `struct.unpack("<h", bytes)`.
unfoldable pub unpack_i16 : Bytes → Result ℤ
unfolding signed_of
unpack_i16 (lo ∷ hi ∷ []) = ok (signed_of (lo + hi * 256))
unpack_i16 _ = err struct_error
