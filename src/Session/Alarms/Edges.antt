-- ===== src/Session/Alarms/Edges.antt =====
-- What the edges that `AlarmTracker` of openaisg/session.py tells come to.
use openaisg.Common.{
  Bool, true, not, ◌&&◌, ◌||◌, ◌≡◌, refl, sym, ap, ◌∙◌, arith, List, [], ◌∷◌, ◌++◌, inl, inr,
  Bool-cases, Bytes, drop,
}
use openaisg.Common.Texts.{
  String, Texts, same_text, same_text_iff, is_in, insert, minus, is_in-insert, is_in-minus,
  minus_none,
}
use openaisg.Session.Alarms.{
  Edge, raised, cleared, AlarmTracker, is_alarm, alarms_of, each, snapshot, names_of, union,
  indicate,
}

-- A listener that keeps the set of the alarms that it was told of.
abbrev pub told : List Edge → Texts → Texts
told [] s = s
told (raised n ∷ edges) s = told edges (insert n s)
told (cleared n ∷ edges) s = told edges (minus s (n ∷ []))

told-append : (es fs : List Edge) (s : Texts) → told (es ++ fs) s ≡ told fs (told es s)
told-append [] fs s = refl
told-append (raised n ∷ es) fs s = told-append es fs (insert n s)
told-append (cleared n ∷ es) fs s = told-append es fs (minus s (n ∷ []))

told_raised :
    (x : String) (ns s : Texts) → is_in x (told (each raised ns) s) ≡ (is_in x ns || is_in x s)
unfolding is_in
told_raised x [] s = refl
told_raised x (n ∷ ns) s = ground (arith, told_raised x ns (insert n s), is_in-insert x n s)

told_cleared :
    (x : String) (ns s : Texts)
    → is_in x (told (each cleared ns) s) ≡ (is_in x s && not (is_in x ns))
unfolding is_in
told_cleared x [] s = ground arith
told_cleared x (n ∷ ns) s =
    ground (arith, told_cleared x ns (minus s (n ∷ [])), is_in-minus x s (n ∷ []))

-- A listener that adds the alarms that it is told are raised to the set it had, and removes those
-- that are cleared, has the alarms that are active after a snapshot, name by name, if it had those
-- that were active before.
pub snapshot-told :
    (names : Texts) (t : AlarmTracker) (x : String)
    → is_in x (told (snapshot names true t).0 t.active) ≡ is_in x (snapshot names true t).1.active
unfolding snapshot
snapshot-told names t x =
    let new : Texts = alarms_of names in
    ap (is_in x)
      (told-append (each raised (minus new t.active)) (each cleared (minus t.active new)) t.active)
    ∙ ground (
      arith,
      told_cleared x (minus t.active new) (told (each raised (minus new t.active)) t.active),
      told_raised x (minus new t.active) t.active,
      is_in-minus x t.active new,
      is_in-minus x new t.active,
    )

is_in-alarms_of :
    (x : String) (names : Texts) → is_in x (alarms_of names) ≡ (is_in x names && is_alarm x)
unfolding alarms_of is_in
is_in-alarms_of x [] = refl
is_in-alarms_of x (n ∷ names) = elim (Bool-cases (same_text x n)) [
  | inl e ↦ ground (
    arith,
    is_in-alarms_of x names,
    is_in-insert x n (alarms_of names),
    e,
    ap is_alarm ((same_text_iff x n).0 e),
  )
  | inr e ↦ ground (arith, is_in-alarms_of x names, is_in-insert x n (alarms_of names), e)
]

is_in-union : (x : String) (s t : Texts) → is_in x (union s t) ≡ (is_in x s || is_in x t)
unfolding is_in
is_in-union x s [] = ground arith
is_in-union x s (n ∷ t) = ground (arith, is_in-union x s t, is_in-insert x n (union s t))

-- Only real alarms are active.
abbrev pub IsClean : AlarmTracker → Type 0
IsClean t = (x : String) → is_in x t.active ≡ true → is_alarm x ≡ true

pub snapshot-IsClean :
    (names : Texts) (emit : Bool) (t : AlarmTracker) → IsClean (snapshot names emit t).1
unfolding snapshot
snapshot-IsClean names emit t x h = ground (arith, is_in-alarms_of x names, h)

active-indicate :
    (payload : Bytes) (t : AlarmTracker) (x : String)
    → IsClean t
    → is_in x (indicate payload t).1.active
      ≡ (is_in x t.active || (is_in x (names_of (drop 3 payload)) && is_alarm x))
unfolding indicate snapshot
active-indicate payload t x clean =
    let told_of : Texts = names_of (drop 3 payload) in
    is_in-alarms_of x (union t.active (alarms_of told_of))
    ∙ ap (λ b. b && is_alarm x) (is_in-union x t.active (alarms_of told_of))
    ∙ ap (λ b. (is_in x t.active || b) && is_alarm x) (is_in-alarms_of x told_of)
    ∙ elim (Bool-cases (is_in x t.active)) [
      | inl here ↦ ground (arith, clean x here, here)
      | inr away ↦ ground (arith, away)
    ]

indicate-IsClean : (payload : Bytes) (t : AlarmTracker) → IsClean (indicate payload t).1
unfolding indicate
indicate-IsClean payload t =
    snapshot-IsClean (union t.active (alarms_of (names_of (drop 3 payload)))) true t

-- A payload after which the same alarms are active tells no edge.
indicate-none :
    (payload : Bytes) (t : AlarmTracker)
    → ((x : String) → is_in x (indicate payload t).1.active ≡ true → is_in x t.active ≡ true)
    → ((x : String) → is_in x t.active ≡ true → is_in x (indicate payload t).1.active ≡ true)
    → (indicate payload t).0 ≡ []
unfolding indicate snapshot
indicate-none payload t h k =
    let new : Texts = alarms_of (union t.active (alarms_of (names_of (drop 3 payload)))) in
    ap (λ l. each raised l ++ each cleared (minus t.active new)) (minus_none new t.active h)
    ∙ ap (each cleared) (minus_none t.active new k)

-- Where only real alarms are active, an indication that arrives again directly tells nothing: the
-- duplicate of a report is no event.
pub indicate_again :
    (payload : Bytes) (t : AlarmTracker)
    → IsClean t
    → (indicate payload (indicate payload t).1).0 ≡ []
indicate_again payload t clean =
    let t' : AlarmTracker = (indicate payload t).1 in
    let clean' : IsClean t' = indicate-IsClean payload t in
    let same : (x : String) → is_in x (indicate payload t').1.active ≡ is_in x t'.active =
      λ x. ground (arith, active-indicate payload t' x clean', active-indicate payload t x clean) in
    indicate-none payload t' (λ x h. sym (same x) ∙ h) (λ x h. same x ∙ h)
