-- ===== src/Session/Alarms/Tests.antt =====
-- Runs of `AlarmTracker` of openaisg/session.py, and the witnesses of the theorems on it.
use openaisg.Common.{true, [], ◌∷◌, ◌≡◌, refl}
use mathlib.Core.Bool.{false≢true}
use openaisg.Common.Texts.{is_in, same_text, is_before, insert, minus}
use openaisg.Retap.Names.{rc_name, name_in, hex_name, hex_digit}
use openaisg.Session.Alarms.{raised, cleared, AlarmTracker, is_alarm, alarms_of, snapshot, indicate}
use openaisg.Session.Alarms.Edges.{told, IsClean, snapshot-told, indicate_again}

abbrev jammed : AlarmTracker
jammed = record { active = "MotorJam" ∷ [] }

-- The jam clears and two other alarms come up; the edges are in the order of the names.
edges :
    (snapshot ("OK" ∷ "HardwareError" ∷ "Busy" ∷ []) true jammed).0
    ≡ raised "Busy" ∷ raised "HardwareError" ∷ cleared "MotorJam" ∷ []
unfolding snapshot alarms_of is_alarm insert minus is_in same_text is_before
edges = refl

-- The code of an unknown alarm is its name in hexadecimal.
unknown_name : rc_name 0x4f ≡ "0x4F"
unfolding rc_name name_in hex_name hex_digit
unknown_name = refl

-- Antenna 2 of a report without an alarm is taken for a jam of the motor.
antenna_as_alarm :
    (indicate (0x85 ∷ 2 ∷ 0 ∷ 2 ∷ 0 ∷ []) (record { active = [] })).0 ≡ raised "MotorJam" ∷ []
unfolding indicate snapshot alarms_of is_alarm insert minus is_in same_text is_before rc_name
    name_in
antenna_as_alarm = refl

snapshot-told_example :
    is_in "Busy" (told (snapshot ("Busy" ∷ []) true jammed).0 jammed.active)
    ≡ is_in "Busy" (snapshot ("Busy" ∷ []) true jammed).1.active
snapshot-told_example = snapshot-told ("Busy" ∷ []) jammed "Busy"

nothing_yet : IsClean (record { active = [] })
unfolding is_in
nothing_yet x h = absurd (false≢true h)

indicate_again_example :
    (indicate
      (0x07 ∷ 1 ∷ 0 ∷ 2 ∷ [])
      (indicate (0x07 ∷ 1 ∷ 0 ∷ 2 ∷ []) (record { active = [] })).1).0
    ≡ []
indicate_again_example = indicate_again (0x07 ∷ 1 ∷ 0 ∷ 2 ∷ []) (record { active = [] }) nothing_yet
