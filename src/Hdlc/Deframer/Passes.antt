-- ===== src/Hdlc/Deframer/Passes.antt =====
-- The passes of the loop in openaisg/hdlc.py's `Deframer.feed`, by what the searches find.
use openaisg.Common.{
  ℕ, suc, ◌+◌, ◌-◌, ◌≡◌, ap, ◌∙◌, arith, [], ◌∷◌, ◌++◌, none, some, length, take, drop, take-append,
  drop-append, Bytes,
}
use mathlib.Core.Option
use openaisg.Hdlc.Framing.{flag}
use openaisg.Hdlc.Deframer.{Deframer, find, judge, stop, settle, cap_noise, cap_partial, feed_pass}
use openaisg.Hdlc.Deframer.Search.{Cut, Uncut, find_after}

drop_at : (m n : ℕ) (l : Bytes) → m ≡ n → drop m l ≡ drop n l
drop_at m n l e = ap (λ k. drop k l) e

drop_past : (xs ys : Bytes) (x k : ℕ) → drop (suc (length xs + k)) (xs ++ (x ∷ ys)) ≡ drop k ys
drop_past [] ys x k = drop_at (0 + k) k ys (omega arith)
drop_past (y ∷ xs) ys x k =
    drop_at (suc (length xs) + k) (suc (length xs + k)) (xs ++ (x ∷ ys)) (omega arith)
    ∙ drop_past xs ys x k

module _ (d : Deframer) where
  pub feed_pass_noise : Uncut d.buf → feed_pass d ≡ stop (cap_noise d)
  unfolding feed_pass
  feed_pass_noise u = rw (u.missing, feed_pass)

  -- The second search, and the buffer behind and from the first flag.
  second :
      (c : Cut d.buf)
      → find flag d.buf (suc (length c.before))
        ≡ Option.map (λ k. suc (length c.before + k)) (find flag c.after 0)
  second c = ap (λ l. find flag l (suc (length c.before))) c.whole ∙ find_after c.before c.after

  from_flag : (c : Cut d.buf) → drop (length c.before) d.buf ≡ flag ∷ c.after
  from_flag c = ap (drop (length c.before)) c.whole ∙ drop-append c.before (flag ∷ c.after)

  past_flag : (c : Cut d.buf) (k : ℕ) → drop (suc (length c.before + k)) d.buf ≡ drop k c.after
  past_flag c k = ap (drop (suc (length c.before + k))) c.whole ∙ drop_past c.before c.after flag k

  pub feed_pass_partial :
      (c : Cut d.buf)
      → Uncut c.after
      → feed_pass d ≡ stop (cap_partial (record d { buf = flag ∷ c.after }))
  unfolding feed_pass
  feed_pass_partial c u = rw (c.found, feed_pass) (rw (missing, feed_pass) (rw (from_flag c)))
    where
      missing : find flag d.buf (suc (length c.before)) ≡ none
      missing = second c ∙ ap (Option.map (λ k. suc (length c.before + k))) u.missing

  pub feed_pass_chunk :
      (c : Cut d.buf) (c' : Cut c.after)
      → feed_pass d ≡ settle (record d { buf = flag ∷ c'.after }) (judge c'.before)
  unfolding feed_pass
  feed_pass_chunk c c' = rw (c.found, feed_pass) (rw (found, feed_pass) (rw (closing, chunk)))
    where
      found :
          find flag d.buf (suc (length c.before)) ≡ some (suc (length c.before + length c'.before))
      found = second c ∙ ap (Option.map (λ k. suc (length c.before + k))) c'.found

      closing : drop (suc (length c.before + length c'.before)) d.buf ≡ flag ∷ c'.after
      closing =
          past_flag c (length c'.before)
          ∙ ap (drop (length c'.before)) c'.whole
          ∙ drop-append c'.before (flag ∷ c'.after)

      opening : drop (suc (length c.before)) d.buf ≡ c.after
      opening =
          drop_at (suc (length c.before)) (suc (length c.before + 0)) d.buf (omega arith)
          ∙ past_flag c 0

      chunk :
          take
            (suc (length c.before + length c'.before) - suc (length c.before))
            (drop (suc (length c.before)) d.buf)
          ≡ c'.before
      chunk =
          ap (λ (n : ℕ). take n (drop (suc (length c.before)) d.buf)) (omega arith)
          ∙ ap (take (length c'.before)) (opening ∙ c'.whole)
          ∙ take-append c'.before (flag ∷ c'.after)
