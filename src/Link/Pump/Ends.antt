-- ===== src/Link/Pump/Ends.antt =====
-- How long `AisgLink._read_frames` of openaisg/link.py reads.
use openaisg.Common.{
  ℕ, ◌≤◌, ◌≡◌, arith, true, List, [], ◌∷◌, some, Bool-cases, Option-cases, inl, inr, ◌⊎◌,
}
use openaisg.Hdlc.Deframer.Contract.{feed-hear}
use openaisg.Link.Pump.{Budget, hard_end, Read, Pump, receive, is_over, returns_at, read_frames}

-- One of the reads ends at a time or later.
abbrev Reaches : ℕ → List Read → Type 0
Reaches limit [] = ⊥
Reaches limit (r ∷ rs) = (limit ≤ r.now) ⊎ Reaches limit rs

receive_total : (r : Read) (s : Pump) → (t : Pump) × (receive r s ≡ some t)
unfolding receive
receive_total r s = elim (Option-cases (receive r s)) [
  | inl q ↦ absurd (ground (arith, q, (feed-hear s.deframer r.chunk).1))
  | inr (t, q) ↦ (t, q)
]

is_over-late : (b : Budget) (now : ℕ) (s : Pump) → hard_end b ≤ now → is_over b now s ≡ true
unfolding is_over
is_over-late b now s late = ground arith

-- `_read_frames` returns, if one of the reads that it is given ends at its hard end or later.
pub read_frames_ends :
    (b : Budget) (s : Pump) (reads : List Read)
    → Reaches (hard_end b) reads
    → (now : ℕ) × (s' : Pump) × (read_frames b s reads ≡ some (returns_at now s'))
unfolding read_frames
read_frames_ends b s [] h = absurd h
read_frames_ends b s (r ∷ rs) h =
    let (t, q) = receive_total r s in
    elim (Bool-cases (is_over b r.now t)) [
      | inl over ↦ (r.now, t, rw (read_frames, q, over))
      | inr on ↦ elim h [
        | inl late ↦ absurd (ground (arith, is_over-late b r.now t late))
        | inr more ↦
            let (now, s', e) = read_frames_ends b t rs more in (now, s', rw (read_frames, q, on) e)
      ]
    ]
