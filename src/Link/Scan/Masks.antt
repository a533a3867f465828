-- ===== src/Link/Scan/Masks.antt =====
-- The bit masks that `scan` of openaisg/link.py sends.
use openaisg.Common.{
  ℕ, zero, suc, ◌+◌, ◌-◌, ◌/◌, ◌%◌, ◌^◌, ◌<◌, ◌≡◌, refl, arith, true, [], ◌∷◌, ◌++◌, ◌==◌,
  if◌then◌else◌, Bytes,
}
use openaisg.Common.Bits.{all_below, all_below_sound}
use openaisg.Link.Scan.{mask_bytes, ljust, or_last, next_mask, same_bytes}

full_bytes : ℕ → Bytes
full_bytes zero = []
full_bytes (suc n) = 0xff ∷ full_bytes n

-- The mask of the first `n` bits: whole bytes, and the upper bits of one more.
unfoldable pub prefix_mask : ℕ → Bytes
unfolding full_bytes
prefix_mask n = full_bytes (n / 8) ++ (if n % 8 == 0 then [] else (2 ^ 8 - 2 ^ (8 - n % 8)) ∷ [])

next_mask_table :
    all_below 24 (λ n. same_bytes (next_mask (prefix_mask n) n) (prefix_mask (n + 1))) ≡ true
unfolding all_below same_bytes mask_bytes ljust or_last prefix_mask
next_mask_table = refl

same_bytes-eq : (bs cs : Bytes) → same_bytes bs cs ≡ true → bs ≡ cs
unfolding same_bytes
same_bytes-eq [] [] h = refl
same_bytes-eq [] (c ∷ cs) h = absurd (ground arith)
same_bytes-eq (b ∷ bs) [] h = absurd (ground arith)
same_bytes-eq (b ∷ bs) (c ∷ cs) h = ground (arith, h, same_bytes-eq bs cs)

-- At each depth below 24, the bit mask that `probe` makes of the mask of that many leading bits is
-- the mask of one leading bit more.
pub next_mask-prefix_mask :
    (depth : ℕ) → depth < 24 → next_mask (prefix_mask depth) depth ≡ prefix_mask (depth + 1)
next_mask-prefix_mask depth h =
    same_bytes-eq (next_mask (prefix_mask depth) depth) (prefix_mask (depth + 1)) (
      all_below_sound 24 (λ n. same_bytes (next_mask (prefix_mask n) n) (prefix_mask (n + 1))) depth
        next_mask_table h)
