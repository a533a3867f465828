-- ===== src/Session/Alarms.antt =====
-- openaisg/session.py: `AlarmTracker`, which holds the alarms that are active and tells the edges.
pub mod Edges
mod Tests
use openaisg.Common.{
  ℕ, Bool, true, false, not, ◌&&◌, List, [], ◌∷◌, ◌++◌, if◌then◌else◌, Bytes, drop,
}
use openaisg.Common.Texts.{String, Texts, same_text, is_in, insert, minus}
use openaisg.Retap.Names.{rc_name}

-- The events of the type "alarm", with the action "raised" or "cleared".
pub data Edge : Type 0 where
  raised cleared : String → Edge

pub record AlarmTracker : Type 0 where
  pub active : Texts

-- `n and n != "OK"`.
unfoldable pub is_alarm : String → Bool
is_alarm n = not (same_text n "") && not (same_text n "OK")

-- The comprehension `new`.
unfoldable pub alarms_of : Texts → Texts
unfolding is_alarm
alarms_of [] = []
alarms_of (n ∷ names) = let rest = alarms_of names in if is_alarm n then insert n rest else rest

abbrev each : (String → Edge) → Texts → List Edge
each edge [] = []
each edge (n ∷ names) = edge n ∷ each edge names

unfoldable pub snapshot : Texts → Bool → AlarmTracker → List Edge × AlarmTracker
snapshot names emit t =
    let new = alarms_of names in
    (
      if emit then each raised (minus new t.active) ++ each cleared (minus t.active new) else [],
      record { active = new },
    )

-- `[retap.rc_name(c) for c in cs]`.
abbrev pub names_of : Bytes → Texts
names_of [] = []
names_of (c ∷ cs) = rc_name c ∷ names_of cs

abbrev union : Texts → Texts → Texts
union s [] = s
union s (n ∷ t) = insert n (union s t)

unfoldable pub indicate : Bytes → AlarmTracker → List Edge × AlarmTracker
indicate payload t = snapshot (union t.active (alarms_of (names_of (drop 3 payload)))) true t
