-- ===== src/Link/Pump.antt =====
-- openaisg/link.py: `AisgLink._read_frames`, the pump that reads between two transmissions. Times
-- are milliseconds. What `read` returns and what the clock shows are given, read by read.
pub mod Silence
pub mod Ends
pub mod Delivery
mod Tests
use openaisg.Common.{
  ℕ, zero, suc, ◌+◌, Bool, true, false, ◌&&◌, List, [], ◌∷◌, ◌++◌, Option, none, some, ltb, leb,
  ◌==◌, if◌then◌else◌, length, Bytes, max,
}
use mathlib.Core.Option
use openaisg.Hdlc.Framing.{Frame}
use openaisg.Hdlc.Deframer.{Deframer, feed, partial}

-- The arguments of a call, and the clock at its start.
pub record Budget : Type 0 where
  pub start : ℕ
  pub budget : ℕ
  pub idle_gap : ℕ
  pub hard_cap : ℕ

abbrev end_of : Budget → ℕ
end_of b = b.start + b.budget

abbrev pub hard_end : Budget → ℕ
hard_end b = b.start + max b.budget b.hard_cap

-- One pass of the loop: the chunk that is read, and the clock behind the read.
pub record Read : Type 0 where
  pub chunk : Bytes
  pub now : ℕ

-- The deframer of the link, and the local variables.
pub record Pump : Type 0 where
  pub deframer : Deframer
  pub frames : List Frame
  pub last_rx : ℕ

-- The pump as a call begins.
abbrev pub primed : Deframer → Pump
primed d = record { deframer = d; frames = []; last_rx = 0 }

-- A chunk is fed to the deframer; `none` is a deframer out of fuel.
pub receive : Read → Pump → Option Pump
receive r s =
    if length r.chunk == 0
    then some s
    else Option.map
        (λ (d, found). record { deframer = d; frames = s.frames ++ found; last_rx = r.now })
        (feed s.deframer r.chunk)

-- `if frames`.
any : List Frame → Bool
any [] = false
any (f ∷ fs) = true

-- The tests that return.
pub is_over : Budget → ℕ → Pump → Bool
unfolding any
is_over b now s =
    if any s.frames
    then true
    else if leb (hard_end b) now
    then true
    else if partial s.deframer && ltb now (s.last_rx + b.idle_gap)
    then false
    else leb (end_of b) now

-- The call returns at a time, or has not returned with the reads that are given.
pub data Pumped : Type 0 where
  returns_at : ℕ → Pump → Pumped
  reading : Pump → Pumped

pub read_frames : Budget → Pump → List Read → Option Pumped
unfolding receive is_over
read_frames b s [] = some (reading s)
read_frames b s (r ∷ rs) = elim (receive r s) [
  | none ↦ none
  | some s' ↦ if is_over b r.now s' then some (returns_at r.now s') else read_frames b s' rs
]
