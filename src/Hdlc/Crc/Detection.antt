-- ===== src/Hdlc/Crc/Detection.antt =====
-- What the frame check sequence of openaisg/hdlc.py detects. The high byte of a table entry
-- determines its index, so the loop can be run backwards.
use openaisg.Common.{
  ℕ, zero, suc, ◌+◌, ◌*◌, ◌/◌, ◌%◌, ◌^◌, ◌<◌, ◌≡◌, ◌≢◌, refl, sym, ap, ◌∙◌, arith, true, [], ◌∷◌,
  ◌++◌, ltb, ◌==◌, ◌&&◌, if◌then◌else◌, Bytes, IsByte, All, bit_and, bit_xor,
}
use openaisg.Common.Bits.{
  all_below, all_below_sound, xor-lt, and_255, xor-high_byte, zero-xor, xor-zero, xor_injective,
  xor_injective_right,
}
use openaisg.Hdlc.Crc.{crc_table, fcs_step, fcs_loop, fcs16}

-- The inner loop that fills the table, backwards: bit 15 tells whether 0x8408 was added.
unround : ℕ → ℕ → ℕ
unround zero c = c
unround (suc n) c =
    unround n (if ltb c 0x8000 then c * 2 % 2 ^ 16 else bit_xor c 0x8408 * 2 % 2 ^ 16 + 1)

index_of : ℕ → ℕ
unfolding unround
index_of high = unround 8 (high * 256) % 256

table_checks :
    all_below 256 (λ i. (index_of (crc_table i / 256) == i) && ltb (crc_table i) (2 ^ 16)) ≡ true
unfolding all_below index_of crc_table
table_checks = refl

table_row : (i : ℕ) → i < 256 → (index_of (crc_table i / 256) ≡ i) × (crc_table i < 2 ^ 16)
table_row i h = ground (arith, all_below_sound 256 _ i table_checks h)

fcs_step-lt : (crc b : ℕ) → crc < 2 ^ 16 → fcs_step crc b < 2 ^ 16
unfolding fcs_step
fcs_step-lt crc b h = xor-lt 16 (crc / 256) _ (omega arith) (table_row _ low).1
  where
    low : bit_and (bit_xor crc b) 0xff < 256
    low = omega (arith, and_255 (bit_xor crc b))

fcs_loop-lt : (crc : ℕ) (bs : Bytes) → crc < 2 ^ 16 → fcs_loop crc bs < 2 ^ 16
unfolding fcs_loop
fcs_loop-lt crc [] h = h
fcs_loop-lt crc (b ∷ bs) h = fcs_loop-lt (fcs_step crc b) bs (fcs_step-lt crc b h)

-- The frame check sequence fits the two bytes that carry it.
pub fcs16-lt : (bs : Bytes) → fcs16 bs < 2 ^ 16
unfolding fcs16
fcs16-lt bs = xor-lt 16 _ _ (fcs_loop-lt 0xffff bs (omega arith)) (omega arith)

-- The step with its table index as a byte.
fcs_step_index :
    (crc b : ℕ) → fcs_step crc b ≡ bit_xor (crc / 256) (crc_table (bit_xor crc b % 256))
unfolding fcs_step
fcs_step_index crc b = ap (λ (t : ℕ). bit_xor (crc / 256) (crc_table t)) (and_255 (bit_xor crc b))

step_high :
    (crc b : ℕ) → crc < 2 ^ 16 → fcs_step crc b / 256 ≡ crc_table (bit_xor crc b % 256) / 256
step_high crc b h =
    rw (fcs_step_index, xor-high_byte)
      (ap (λ (t : ℕ). bit_xor t (crc_table (bit_xor crc b % 256) / 256)) (omega arith) ∙ zero-xor _)

mix_high : (c d : ℕ) → d < 256 → bit_xor c d / 256 ≡ c / 256
mix_high c d h =
    xor-high_byte c d ∙ ap (λ (t : ℕ). bit_xor (c / 256) t) (omega arith) ∙ xor-zero (c / 256)

module _ (b b' : ℕ) {crc crc' : ℕ} (small : crc < 2 ^ 16) (small' : crc' < 2 ^ 16) where
  -- The high byte of a register tells which table entry the last step took.
  same_index :
      fcs_step crc b / 256 ≡ fcs_step crc' b' / 256 → bit_xor crc b % 256 ≡ bit_xor crc' b' % 256
  same_index e =
      sym (table_row _ (omega arith)).0
      ∙ ap index_of (sym (step_high crc b small) ∙ e ∙ step_high crc' b' small')
      ∙ (table_row _ (omega arith)).0

  same_high : fcs_step crc b ≡ fcs_step crc' b' → crc / 256 ≡ crc' / 256
  same_high e = xor_injective_right _ _ (crc_table (bit_xor crc b % 256)) joined
    where
      joined :
          bit_xor (crc / 256) (crc_table (bit_xor crc b % 256))
          ≡ bit_xor (crc' / 256) (crc_table (bit_xor crc b % 256))
      joined =
          sym (fcs_step_index crc b)
          ∙ e
          ∙ fcs_step_index crc' b'
          ∙ ap (λ (t : ℕ). bit_xor (crc' / 256) (crc_table t))
              (sym (same_index (ap (λ (t : ℕ). t / 256) e)))

  -- The register before a step, and the byte, are mixed by an exclusive or that can be read back.
  same_mix :
      b < 256 → b' < 256 → fcs_step crc b ≡ fcs_step crc' b' → bit_xor crc b ≡ bit_xor crc' b'
  same_mix hb hb' e = omega (
    arith,
    same_index (ap (λ (t : ℕ). t / 256) e),
    mix_high crc b hb,
    mix_high crc' b' hb',
    same_high e,
  )

step_injective :
    (b : ℕ) {crc crc' : ℕ}
    → crc < 2 ^ 16
    → crc' < 2 ^ 16
    → b < 256
    → fcs_step crc b ≡ fcs_step crc' b
    → crc ≡ crc'
step_injective b h h' hb e = xor_injective_right _ _ b (same_mix b b h h' hb hb e)

-- Equal registers after the same bytes were equal before them.
loop_injective :
    (bs : Bytes) {crc crc' : ℕ}
    → crc < 2 ^ 16
    → crc' < 2 ^ 16
    → All IsByte bs
    → fcs_loop crc bs ≡ fcs_loop crc' bs
    → crc ≡ crc'
unfolding fcs_loop
loop_injective [] h h' hb e = e
loop_injective (b ∷ bs) h h' hb e =
    step_injective b h h' hb.0 (loop_injective bs (fcs_step-lt _ b h) (fcs_step-lt _ b h') hb.1 e)

-- Two steps on two bytes reach the same register from the same register only with the same bytes.
two_steps :
    {crc : ℕ} (a b a' b' : ℕ)
    → crc < 2 ^ 16
    → IsByte a × IsByte b
    → IsByte a' × IsByte b'
    → fcs_step (fcs_step crc a) b ≡ fcs_step (fcs_step crc a') b'
    → (a ≡ a') × (b ≡ b')
two_steps {crc} a b a' b' h (ha, hb) (ha', hb') e = (
  first,
  xor_injective (fcs_step crc a) b b'
      (mix ∙ ap (λ (t : ℕ). bit_xor (fcs_step crc t) b') (sym first)),
)
  where
    inner : fcs_step crc a < 2 ^ 16
    inner = fcs_step-lt crc a h

    inner' : fcs_step crc a' < 2 ^ 16
    inner' = fcs_step-lt crc a' h

    mix : bit_xor (fcs_step crc a) b ≡ bit_xor (fcs_step crc a') b'
    mix = same_mix b b' inner inner' hb hb' e

    index : bit_xor crc a % 256 ≡ bit_xor crc a' % 256
    index = same_index a a' h h (same_high b b' inner inner' e)

    first : a ≡ a'
    first = xor_injective crc a a' (omega (arith, index, mix_high crc a ha, mix_high crc a' ha'))

fcs_loop-append :
    (crc : ℕ) (xs ys : Bytes) → fcs_loop crc (xs ++ ys) ≡ fcs_loop (fcs_loop crc xs) ys
unfolding fcs_loop
fcs_loop-append crc [] ys = refl
fcs_loop-append crc (x ∷ xs) ys = fcs_loop-append (fcs_step crc x) xs ys

-- With the rest of a message, its frame check sequence determines any two adjacent bytes.
fcs16_determines :
    (xs ys : Bytes) (a b a' b' : ℕ)
    → All IsByte ys
    → IsByte a × IsByte b
    → IsByte a' × IsByte b'
    → fcs16 (xs ++ (a ∷ b ∷ ys)) ≡ fcs16 (xs ++ (a' ∷ b' ∷ ys))
    → (a ≡ a') × (b ≡ b')
unfolding fcs16 fcs_loop
fcs16_determines xs ys a b a' b' hys h h' e = two_steps a b a' b' start h h' (
    loop_injective ys (fcs_step-lt _ b (fcs_step-lt _ a start))
      (fcs_step-lt _ b' (fcs_step-lt _ a' start)) hys
      (sym (fcs_loop-append 0xffff xs (a ∷ b ∷ ys))
        ∙ xor_injective_right _ _ 0xffff e
        ∙ fcs_loop-append 0xffff xs (a' ∷ b' ∷ ys)))
  where
    start : fcs_loop 0xffff xs < 2 ^ 16
    start = fcs_loop-lt 0xffff xs (omega arith)

-- A change of two adjacent bytes of a message changes its frame check sequence, where these two,
-- old and new, and all later bytes are below 256.
pub fcs16_detects :
    (xs ys : Bytes) (a b a' b' : ℕ)
    → All IsByte ys
    → IsByte a × IsByte b
    → IsByte a' × IsByte b'
    → ¬ ((a ≡ a') × (b ≡ b'))
    → fcs16 (xs ++ (a ∷ b ∷ ys)) ≢ fcs16 (xs ++ (a' ∷ b' ∷ ys))
fcs16_detects xs ys a b a' b' hys h h' changed e =
    changed (fcs16_determines xs ys a b a' b' hys h h' e)
