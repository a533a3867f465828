-- ===== src/Link/Pump/Delivery.antt =====
-- What `AisgLink._read_frames` of openaisg/link.py returns of the bytes that it reads.
use openaisg.Common.{
  ℕ, ◌≡◌, refl, sym, ap, ◌∙◌, arith, List, [], ◌∷◌, ◌++◌, append-nil, append_assoc, some,
  if◌then◌else◌, Bool-cases, Option-cases, inl, inr, length, ◌==◌, Bytes,
}
use openaisg.Hdlc.Framing.{Frame}
use openaisg.Hdlc.Deframer.{Deframer, feed, feed_all}
use openaisg.Link.Pump.{Budget, Read, Pump, primed, receive, is_over, returns_at, read_frames}

-- The chunks that hold a byte.
abbrev pub chunks : List Read → List Bytes
chunks [] = []
chunks (r ∷ rs) = if length r.chunk == 0 then chunks rs else r.chunk ∷ chunks rs

-- The pump `s'` is what the reads make of `s`.
abbrev Fed : Pump → List Read → Pump → Type 0
Fed s reads s' =
    (out : List Frame) × (feed_all s.deframer (chunks reads) ≡ some (s'.deframer, out))
    × (s'.frames ≡ s.frames ++ out)

feed_all-found :
    (d d' e : Deframer) (chunk : Bytes) (rest : List Bytes) (out more : List Frame)
    → feed d chunk ≡ some (d', out)
    → feed_all d' rest ≡ some (e, more)
    → feed_all d (chunk ∷ rest) ≡ some (e, out ++ more)
unfolding feed_all
feed_all-found d d' e chunk rest out more f g = rw (f, feed_all) (rw g)

receive-Fed :
    (r : Read) (rs : List Read) (s t s' : Pump)
    → receive r s ≡ some t
    → Fed t rs s'
    → Fed s (r ∷ rs) s'
unfolding receive
receive-Fed r rs s t s' q (out, e, grown) = elim (Bool-cases (length r.chunk == 0)) [
  | inl silent ↦
      let same : t ≡ s = ground (arith, q, silent) in
      (
        out,
        rw silent (ap (λ u. feed_all u.deframer (chunks rs)) (sym same) ∙ e),
        grown ∙ ap (λ u. u.frames ++ out) same,
      )
  | inr heard ↦ elim (Option-cases (feed s.deframer r.chunk)) [
    | inl f ↦ absurd (ground (arith, q, heard, f))
    | inr (p, f) ↦
        let same : t ≡ record { deframer = p.0; frames = s.frames ++ p.1; last_rx = r.now } =
          ground (arith, q, heard, f) in
        (
          p.1 ++ out,
          rw heard (
              feed_all-found s.deframer p.0 s'.deframer r.chunk (chunks rs) p.1 out f
                (ap (λ u. feed_all u.deframer (chunks rs)) (sym same) ∙ e)),
          grown ∙ ap (λ u. u.frames ++ out) same ∙ append_assoc s.frames p.1 out,
        )
  ]
]

-- The reads up to the one that returns.
read_frames-Fed :
    (b : Budget) (s s' : Pump) (reads : List Read) (now : ℕ)
    → read_frames b s reads ≡ some (returns_at now s')
    → (consumed : List Read) × (rest : List Read) × (reads ≡ consumed ++ rest) × Fed s consumed s'
unfolding read_frames
read_frames-Fed b s s' [] now e = absurd (ground arith)
read_frames-Fed b s s' (r ∷ rs) now e = elim (Option-cases (receive r s)) [
  | inl q ↦ absurd (ground (arith, q))
  | inr (t, q) ↦ elim (Bool-cases (is_over b r.now t)) [
    | inl over ↦
        let same : t ≡ s' = ground (arith, q, over, e) in
        (
          r ∷ [],
          rs,
          refl,
          receive-Fed r [] s t s' q (
            [],
            unfold feed_all in ap (λ u. some (u.deframer, [])) same,
            ap (λ u. u.frames) (sym same) ∙ sym (append-nil t.frames),
          ),
        )
    | inr on ↦
        let (consumed, rest, cut, fed) = read_frames-Fed b t s' rs now (ground (arith, q, on, e)) in
        (r ∷ consumed, rest, ap (λ l. r ∷ l) cut, receive-Fed r consumed s t s' q fed)
  ]
]

-- The frames that `_read_frames` returns are all frames that its deframer delivers of the chunks
-- that it read up to then, in order, and the deframer is left as these chunks leave it.
pub read_frames-feed_all :
    (b : Budget) (d : Deframer) (reads : List Read) (now : ℕ) (s' : Pump)
    → read_frames b (primed d) reads ≡ some (returns_at now s')
    → (consumed : List Read) × (rest : List Read) × (reads ≡ consumed ++ rest)
      × (feed_all d (chunks consumed) ≡ some (s'.deframer, s'.frames))
read_frames-feed_all b d reads now s' e =
    let (consumed, rest, cut, (out, all, same)) = read_frames-Fed b (primed d) s' reads now e in
    (consumed, rest, cut, all ∙ ap (λ l. some (s'.deframer, l)) (sym same))
