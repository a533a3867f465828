-- ===== src/Hdlc/Deframer/Bounded.antt =====
-- How long the buffer of openaisg/hdlc.py's `Deframer` gets.
use openaisg.Common.{
  ℕ, zero, suc, ◌+◌, ◌-◌, ◌<◌, ◌≤◌, ◌≡◌, refl, sym, ap, ◌∙◌, arith, List, [], ◌∷◌, ◌++◌, Option,
  some, ltb, length, drop, length-append, length-drop, Bytes, ◌⊎◌, inl, inr, Bool-cases,
}
use openaisg.Hdlc.Framing.{flag, Frame}
use openaisg.Hdlc.Framing.Stuffing.{NoFlag}
use openaisg.Hdlc.Deframer.{Deframer, Verdict, judge, cap_noise, cap_partial, feed_loop, feed}
use openaisg.Hdlc.Deframer.Passes.{feed_pass_noise, feed_pass_partial, feed_pass_chunk}
use openaisg.Hdlc.Deframer.Search.{Cut, Uncut, find_cases}
use openaisg.Hdlc.Deframer.Refinement.{
  Delivered, feed-Delivered, feed_loop_stop, feed_loop_next, settled, settle-next, found_of,
}

-- Between two calls a buffer beyond the limit holds no flag, so that the next call drops it.
abbrev pub IsCapped : Deframer → Type 0
IsCapped d = (length d.buf ≤ d.max_frame) ⊎ NoFlag d.buf

NoFlag-drop : (n : ℕ) (xs : Bytes) → NoFlag xs → NoFlag (drop n xs)
NoFlag-drop zero xs h = h
NoFlag-drop (suc n) [] h = tt
NoFlag-drop (suc n) (x ∷ xs) h = NoFlag-drop n xs h.1

-- A loop that starts with `n` bytes behind the first flag, or with none.
record Bound (limit n : ℕ) (d : Deframer) : Type 0 where
  pub capped : IsCapped d
  pub limit_kept : d.max_frame ≡ limit
  pub short : length d.buf ≤ limit + n

cap_noise-Bound :
    (d : Deframer) (n : ℕ) → 1 ≤ d.max_frame → Uncut d.buf → Bound d.max_frame n (cap_noise d)
unfolding cap_noise
cap_noise-Bound d n h u = elim (Bool-cases (ltb d.max_frame (length d.buf))) [
  | inl over ↦ rw over (record {
    capped = inr (NoFlag-drop (length d.buf - 1) d.buf u.clean);
    limit_kept = refl;
    short = omega (arith, length-drop (length d.buf - 1) d.buf);
  })
  | inr fits ↦ rw fits (record { capped = inr u.clean; limit_kept = refl; short = ground arith })
]

cap_partial-Bound :
    (d : Deframer) (n : ℕ) (after : Bytes)
    → suc (length after) ≤ d.max_frame + n
    → NoFlag after
    → Bound d.max_frame n (cap_partial (record d { buf = flag ∷ after }))
unfolding cap_partial
cap_partial-Bound d n after h clean = elim (Bool-cases (ltb d.max_frame (suc (length after)))) [
  | inl over ↦ rw over (record { capped = inr clean; limit_kept = refl; short = omega arith })
  | inr fits ↦
      rw fits (record { capped = inl (ground arith); limit_kept = refl; short = omega arith })
]

Cut-shorter : {xs : Bytes} (c : Cut xs) → length c.after < length xs
Cut-shorter c = omega (arith, ap length c.whole, length-append {0} c.before (flag ∷ c.after))

-- Every flag of the buffer has few bytes behind it.
abbrev Near : ℕ → Bytes → Type 0
Near n xs = (c : Cut xs) → length c.after < n

-- Two accounts of one call agree.
same_end :
    {r : Option (Deframer × List Frame)} {x y : Deframer} {o p : List Frame}
    → r ≡ some (x, o)
    → r ≡ some (y, p)
    → x ≡ y
same_end e q = cc

loop-Bound :
    (fuel : ℕ) (d : Deframer) (out : List Frame) (n : ℕ) {d' : Deframer} {out' : List Frame}
    → 1 ≤ d.max_frame
    → Near (d.max_frame + n) d.buf
    → feed_loop fuel d out ≡ some (d', out')
    → Bound d.max_frame n d'
loop-Bound zero d out n h near e = unfold feed_loop in cc
loop-Bound (suc fuel) d out n {d' = d'} h near e = elim (find_cases d.buf) [
  | inr u ↦
      rw (same_end (feed_loop_stop fuel d out (feed_pass_noise d u)) e) at (cap_noise-Bound d n h u)
  | inl c ↦ elim (find_cases c.after) [
    | inr u ↦
        rw (same_end (feed_loop_stop fuel d out (feed_pass_partial d c u)) e) at
          (cap_partial-Bound d n c.after (near c) u.clean)
    | inl c' ↦
        let v : Verdict = judge c'.before in
        let d₁ : Deframer = record d { buf = flag ∷ c'.after } in
        loop-Bound fuel (settled d₁ v) (out ++ found_of v) n h
          (λ c₂. omega (arith, near c, Cut-shorter c', Cut-shorter c₂))
          (sym (feed_loop_next fuel d out (found_of v) (feed_pass_chunk d c c' ∙ settle-next d₁ v))
            ∙ e)
  ]
]

-- Behind the first flag there are at most the new bytes, where the old ones hold no flag.
behind_clean :
    (xs bytes before after : Bytes)
    → NoFlag xs
    → xs ++ bytes ≡ before ++ (flag ∷ after)
    → length after < length bytes
behind_clean [] bytes before after clean e =
    omega (arith, ap length e, length-append {0} before (flag ∷ after))
behind_clean (x ∷ xs) bytes [] after clean e = absurd (clean.0 (cc))
behind_clean (x ∷ xs) bytes (b ∷ before) after clean e =
    behind_clean xs bytes before after clean.1 (cc)

Near-append : (xs bytes : Bytes) → NoFlag xs → Near (length bytes) (xs ++ bytes)
Near-append xs bytes clean c = behind_clean xs bytes c.before c.after clean c.whole

-- With a limit of at least 1, `feed` on a buffer that is within the limit or holds no flag returns,
-- leaves such a buffer again, and one that exceeds the limit by no more than the bytes that were
-- fed.
pub feed_bounded :
    (d : Deframer) (bytes : Bytes)
    → 1 ≤ d.max_frame
    → IsCapped d
    → (d' : Deframer) × (out : List Frame) × (feed d bytes ≡ some (d', out))
      × IsCapped d'
      × (length d'.buf ≤ d.max_frame + length bytes)
unfolding feed
feed_bounded d bytes h capped =
    let f : Delivered d bytes = feed-Delivered d bytes in
    let b =
      loop-Bound (suc (length (d.buf ++ bytes))) (record d { buf = d.buf ++ bytes }) []
        (length bytes) h (near capped) f.returns in
    (f.deframer, f.out, f.returns, b.capped, b.short)
  where
    near : IsCapped d → Near (d.max_frame + length bytes) (d.buf ++ bytes)
    near (inl short) c = omega (arith, Cut-shorter c, length-append {0} d.buf bytes)
    near (inr clean) c = omega (arith, Near-append d.buf bytes clean c)
