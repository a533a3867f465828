-- ===== src/Retap/Names.antt =====
-- openaisg/retap.py: the names of the return codes.
use openaisg.Common.{ℕ, ◌/◌, ◌%◌, List, [], ◌∷◌, ◌==◌, if◌then◌else◌}
use openaisg.Common.Texts.{String, concat, letter}

-- The dictionary `RETURN_CODES`.
abbrev pub return_codes : List (ℕ × String)
return_codes =
    (0x00, "OK")
    ∷ (0x02, "MotorJam")
    ∷ (0x03, "ActuatorJam")
    ∷ (0x05, "Busy")
    ∷ (0x06, "ChecksumError")
    ∷ (0x0b, "FAIL")
    ∷ (0x0e, "NotCalibrated")
    ∷ (0x0f, "NotConfigured")
    ∷ (0x11, "HardwareError")
    ∷ (0x13, "OutOfRange")
    ∷ (0x19, "UnknownProcedure")
    ∷ (0x1a, "MinorTMAFault")
    ∷ (0x1b, "MajorTMAFault")
    ∷ (0x1c, "UnsupportedValue")
    ∷ (0x1d, "ReadOnly")
    ∷ (0x1e, "UnknownParameter")
    ∷ (0x21, "WorkingSoftwareMissing")
    ∷ (0x22, "InvalidFileContent")
    ∷ (0x24, "FormatError")
    ∷ (0x25, "UnsupportedProcedure")
    ∷ (0x26, "InvalidProcedureSequence")
    ∷ (0x27, "ActuatorInterference")
    ∷ []

-- A digit of `02X`.
unfoldable pub hex_digit : ℕ → String
hex_digit n = letter "0123456789ABCDEF" n

-- `f"0x{code:02X}"` of a byte.
unfoldable pub hex_name : ℕ → String
unfolding hex_digit
hex_name code = concat "0x" (concat (hex_digit (code / 16)) (hex_digit (code % 16)))

unfoldable pub name_in : List (ℕ × String) → ℕ → String
unfolding hex_name
name_in [] code = hex_name code
name_in ((c, name) ∷ names) code = if c == code then name else name_in names code

unfoldable pub rc_name : ℕ → String
unfolding name_in
rc_name code = name_in return_codes code
