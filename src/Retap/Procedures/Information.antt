-- ===== src/Retap/Procedures/Information.antt =====
-- openaisg/retap.py: `get_information` on the four texts of a device, each behind its length.
use openaisg.Common.{
  ℕ, ◌^◌, ◌<◌, ◌≡◌, refl, ap, ◌∙◌, arith, List, [], ◌∷◌, ◌++◌, Option, none, some, Bytes, length,
  take-append, drop-append, All,
}
use openaisg.Errors.{ok, lift, after_ok}
use openaisg.Retap.Codec.{get_information_code}
use openaisg.Retap.Procedures.{
  Transport, Ret, prefix_of, Key, information_keys, decode_ascii, read_texts, proc, get_information,
}
use openaisg.Retap.Procedures.Replies.{message, reply, proc-reply}

-- What a device sends for its texts.
abbrev pub write_texts : List Bytes → Bytes
write_texts [] = []
write_texts (text ∷ texts) = length text ∷ (text ++ write_texts texts)

abbrev IsAscii : Bytes → Type 0
IsAscii text = All (λ b. b < 128) text

-- The texts under the names that they are given, up to the shorter list.
abbrev named : List Key → List Bytes → List (Key × List ℕ)
named [] texts = []
named (key ∷ keys) [] = []
named (key ∷ keys) (text ∷ texts) = (key, text) ∷ named keys texts

decode_ascii_lem : (text : Bytes) → IsAscii text → decode_ascii text ≡ text
unfolding decode_ascii
decode_ascii_lem [] h = refl
decode_ascii_lem (b ∷ text) h = rw (decode_ascii_lem text h.1) (ground arith)

read_texts-write_texts :
    (keys : List Key) (texts : List Bytes)
    → All IsAscii texts
    → read_texts keys (write_texts texts) ≡ named keys texts
unfolding read_texts
read_texts-write_texts [] texts h = refl
read_texts-write_texts (key ∷ keys) [] h = refl
read_texts-write_texts (key ∷ keys) (text ∷ texts) h = rw (
  take-append text (write_texts texts),
  drop-append text (write_texts texts),
  decode_ascii_lem text h.0,
  read_texts-write_texts keys texts h.1,
)

-- The texts of ASCII that a device sends in reply to the request for its information, each behind
-- its length, are returned unchanged under the names of `information_keys` in order; names without
-- a text, and texts without a name, are left out.
pub get_information-texts :
    {L : Type 0} (t : Transport L) (ret : Ret) (texts : List Bytes) (l l' : L)
    → All IsAscii texts
    → t.request ret.addr (message ret.antenna get_information_code []) 3000 l
      ≡ (ok (reply ret.antenna get_information_code 0 (write_texts texts)), l')
    → get_information t ret l ≡ (ok (named information_keys texts), l')
unfolding get_information
get_information-texts t ret texts l l' h e =
    after_ok (proc t ret get_information_code [] 3000)
      (λ d. lift (ok (read_texts information_keys d))) l
      (proc-reply t ret get_information_code 3000 0 [] (write_texts texts) l l' (fits ret.antenna)
        e)
    ∙ ap (λ r. (ok r, l')) (read_texts-write_texts information_keys texts h)
  where
    fits : (antenna : Option ℕ) → length (prefix_of antenna ++ []) < 2 ^ 16
    fits none = omega arith
    fits (some antenna) = omega arith
