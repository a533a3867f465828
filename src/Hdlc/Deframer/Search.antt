-- ===== src/Hdlc/Deframer/Search.antt =====
-- Where `find` of openaisg/hdlc.py's `Deframer` points, and how a receiver reads what it skips.
use openaisg.Common.{
  ℕ, suc, ◌+◌, ◌≡◌, refl, ap, arith, false, [], ◌∷◌, ◌++◌, append_assoc, append-nil, none, some,
  ◌==◌, ==_iff, length, Bytes, ◌⊎◌, inl, inr, Bool-cases,
}
use mathlib.Core.Option
use openaisg.Hdlc.Framing.{flag}
use openaisg.Hdlc.Framing.Stuffing.{NoFlag}
use openaisg.Hdlc.Deframer.{find, judge}
use openaisg.Hdlc.Deframer.Receiver.{hunting, inside, note, hear}

-- A byte string cut at its first flag.
pub record Cut (xs : Bytes) : Type 0 where
  pub before : Bytes
  pub after : Bytes
  pub whole : xs ≡ before ++ (flag ∷ after)
  pub clean : NoFlag before
  pub found : find flag xs 0 ≡ some (length before)

pub record Uncut (xs : Bytes) : Type 0 where
  pub clean : NoFlag xs
  pub missing : find flag xs 0 ≡ none

skip :
    (b : ℕ) (xs : Bytes) → (b == flag) ≡ false → Cut xs ⊎ Uncut xs → Cut (b ∷ xs) ⊎ Uncut (b ∷ xs)
unfolding find
skip b xs h (inl c) = inl (record {
  before = b ∷ c.before;
  after = c.after;
  whole = ap (λ l. b ∷ l) c.whole;
  clean = (ground arith, c.clean);
  found = rw (h, c.found);
})
skip b xs h (inr u) = inr (record { clean = (ground arith, u.clean); missing = rw (h, u.missing) })

pub find_cases : (xs : Bytes) → Cut xs ⊎ Uncut xs
unfolding find
find_cases [] = inr (record { clean = tt; missing = refl })
find_cases (b ∷ xs) = elim (Bool-cases (b == flag)) [
  | inl e ↦ inl (record {
    before = [];
    after = xs;
    whole = ap (λ (c : ℕ). c ∷ xs) ((==_iff b flag).0 e);
    clean = tt;
    found = rw e;
  })
  | inr e ↦ skip b xs e (find_cases xs)
]

-- A search that starts behind the first flag.
pub find_after :
    (junk rest : Bytes)
    → find flag (junk ++ (flag ∷ rest)) (suc (length junk))
      ≡ Option.map (λ k. suc (length junk + k)) (find flag rest 0)
unfolding find
find_after [] rest = ground arith
find_after (b ∷ junk) rest = rw (find_after junk rest) (ground arith)

pub hear_junk : (junk rest : Bytes) → NoFlag junk → hear hunting (junk ++ rest) ≡ hear hunting rest
unfolding hear
hear_junk [] rest h = refl
hear_junk (b ∷ junk) rest h = ground (arith, hear_junk junk rest h.1)

pub hear_body :
    (body chunk rest : Bytes)
    → NoFlag chunk
    → hear (inside body) (chunk ++ rest) ≡ hear (inside (body ++ chunk)) rest
unfolding hear
hear_body body [] rest h = rw append-nil
hear_body body (b ∷ chunk) rest h =
    ground (arith, hear_body (body ++ (b ∷ [])) chunk rest h.1, append_assoc body (b ∷ []) chunk)

pub hear_chunk :
    (chunk rest : Bytes)
    → NoFlag chunk
    → hear (inside []) (chunk ++ (flag ∷ rest)) ≡ note (judge chunk) (hear (inside []) rest)
unfolding hear
hear_chunk chunk rest h = hear_body [] chunk (flag ∷ rest) h
