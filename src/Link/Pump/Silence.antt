-- ===== src/Link/Pump/Silence.antt =====
-- When `AisgLink._read_frames` of openaisg/link.py lets its caller transmit.
use openaisg.Common.{
  ℕ, ◌+◌, ◌<◌, ◌≤◌, ◌≡◌, refl, ap, arith, true, List, [], ◌∷◌, ◌++◌, some, Bool-cases, Option-cases,
  inl, inr, ◌⊎◌, ◌==◌, length, All,
}
use openaisg.Hdlc.Deframer.{Deframer, feed, partial}
use openaisg.Link.Pump.{
  Budget, hard_end, Read, Pump, primed, receive, is_over, returns_at, read_frames,
}

-- The clock does not go back from one read to the next.
abbrev pub Ascending : ℕ → List Read → Type 0
Ascending t [] = Unit {0}
Ascending t (r ∷ rs) = (t ≤ r.now) × Ascending r.now rs

-- A read gave no byte, or its clock was not above a time.
abbrev pub NotAfter : ℕ → Read → Type 0
NotAfter t r = (length r.chunk ≡ 0) ⊎ (r.now ≤ t)

-- A read gave no byte, or a gap lies between it and a time.
abbrev pub Apart : ℕ → ℕ → Read → Type 0
Apart gap now r = (length r.chunk ≡ 0) ⊎ (r.now + gap ≤ now)

-- The reads up to the return, each with a property.
abbrev pub UpTo : Budget → Pump → List Read → ℕ → Pump → (Read → Type 0) → Type 0
UpTo b s reads now s' P =
    (consumed : List Read) × (rest : List Read) × (reads ≡ consumed ++ rest)
    × (read_frames b s consumed ≡ some (returns_at now s'))
    × All P consumed

-- What a read does to `last_rx`.
receive-last_rx :
    (r : Read) (s t : Pump)
    → receive r s ≡ some t
    → ((length r.chunk ≡ 0) × (t.last_rx ≡ s.last_rx)) ⊎ (t.last_rx ≡ r.now)
unfolding receive
receive-last_rx r s t e = elim (Bool-cases (length r.chunk == 0)) [
  | inl empty_read ↦ inl (ground (arith, empty_read, e))
  | inr some_read ↦ elim (Option-cases (feed s.deframer r.chunk)) [
    | inl q ↦ absurd (ground (arith, some_read, q, e))
    | inr (x, q) ↦ inr (ground (arith, some_read, q, e))
  ]
]

-- The read of a pump that goes on with a later one, whose `last_rx` is not smaller.
receive-NotAfter :
    (r : Read) (s u : Pump) (end : ℕ)
    → s.last_rx ≤ r.now
    → receive r s ≡ some u
    → u.last_rx ≤ end
    → (s.last_rx ≤ end) × (u.last_rx ≤ r.now) × NotAfter end r
receive-NotAfter r s u end h q k = elim (receive-last_rx r s u q) [
  | inl (none_read, same) ↦ (omega (arith, same, k), omega (arith, same, h), inl none_read)
  | inr here ↦ (omega (arith, h, here, k), omega (arith, here), inr (omega (arith, here, k)))
]

-- A pump whose call returned, and no byte behind its `last_rx`.
abbrev Returned : Budget → Pump → List Read → ℕ → Pump → Type 0
Returned b s reads now s' =
    (s.last_rx ≤ s'.last_rx)
    × (is_over b now s' ≡ true)
    × UpTo b s reads now s' (NotAfter s'.last_rx)

read_frames-Returned :
    (b : Budget) (s s' : Pump) (reads : List Read) (now t : ℕ)
    → Ascending t reads
    → s.last_rx ≤ t
    → read_frames b s reads ≡ some (returns_at now s')
    → Returned b s reads now s'
unfolding read_frames
read_frames-Returned b s s' [] now t a h e = absurd (ground arith)
read_frames-Returned b s s' (r ∷ rs) now t a h e = elim (Option-cases (receive r s)) [
  | inl q ↦ absurd (ground (arith, q))
  | inr (u, q) ↦ elim (Bool-cases (is_over b r.now u)) [
    | inl over ↦
        let same : u ≡ s' = ground (arith, q, over, e) in
        let same_time : r.now ≡ now = ground (arith, q, over, e) in
        let last : u.last_rx ≡ s'.last_rx = ap (λ (v : Pump). v.last_rx) same in
        let (low, early, quiet) =
          receive-NotAfter r s u s'.last_rx (omega (arith, h, a.0)) q (omega (arith, last)) in
        (low, cc, (r ∷ [], rs, refl, ground (arith, q, over, same, same_time), (quiet, tt)))
    | inr on ↦
        let (low', over, (consumed, rest, cut, ran, all)) =
          read_frames-Returned b u s' rs now r.now a.1
            (receive-NotAfter r s u u.last_rx (omega (arith, h, a.0)) q (omega arith)).1
            (ground (arith, q, on, e)) in
        let (low, early, quiet) =
          receive-NotAfter r s u s'.last_rx (omega (arith, h, a.0)) q low' in
        (
          low,
          over,
          (r ∷ consumed, rest, ap (λ l. r ∷ l) cut, ground (arith, q, on, ran), (quiet, all)),
        )
  ]
]

-- What the tests say of a pump that returns.
is_over-silent :
    (b : Budget) (now : ℕ) (s : Pump)
    → is_over b now s ≡ true
    → s.frames ≡ []
    → now < hard_end b
    → partial s.deframer ≡ true
    → s.last_rx + b.idle_gap ≤ now
unfolding is_over
is_over-silent b now s over none_found early mid = ground (arith, none_found)

All-Apart :
    (gap now t : ℕ) (reads : List Read)
    → t + gap ≤ now
    → All (NotAfter t) reads
    → All (Apart gap now) reads
All-Apart gap now t [] h a = tt
All-Apart gap now t (r ∷ rs) h (inl none_read, a) = (inl none_read, All-Apart gap now t rs h a)
All-Apart gap now t (r ∷ rs) h (inr early, a) =
    (inr (omega (arith, h, early)), All-Apart gap now t rs h a)

-- Where the clock does not go back, and `_read_frames` returns no frame in front of its hard end
-- although a frame is part-way through arriving, every read up to the return gave no byte or lies
-- at least the idle gap in front of it: the caller does not transmit into a frame that is still
-- arriving.
pub read_frames_silence :
    (b : Budget) (d : Deframer) (s' : Pump) (reads : List Read) (now : ℕ)
    → Ascending b.start reads
    → read_frames b (primed d) reads ≡ some (returns_at now s')
    → s'.frames ≡ []
    → now < hard_end b
    → partial s'.deframer ≡ true
    → UpTo b (primed d) reads now s' (Apart b.idle_gap now)
read_frames_silence b d s' reads now a e none_found early mid =
    let (low, over, (consumed, rest, cut, ran, all)) =
      read_frames-Returned b (primed d) s' reads now b.start a (omega arith) e in
    (
      consumed,
      rest,
      cut,
      ran,
      All-Apart b.idle_gap now s'.last_rx consumed
          (is_over-silent b now s' over none_found early mid) all,
    )
