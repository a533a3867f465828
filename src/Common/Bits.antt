-- ===== src/Common/Bits.antt =====
-- Laws of the native `&`, `|` and `^` on variables: one digit at a time, then masks, fields and
-- cancellation; and the check of a claim on every number below a bound by evaluation.
use Prim.Native.Nat.{
  ℕ, zero, suc, ◌+◌, ◌*◌, ◌/◌, ◌%◌, ◌^◌, ◌≤◌, ◌<◌, max, min, bit_or, bit_and, bit_xor, digits,
  bitwise, differ, bit_or-bitwise, bit_xor-bitwise, bit_and-bitwise,
}
use mathlib.Core.Path.{◌≡◌, refl, sym, ap, ap₂, ◌∙◌, ◌≡⟨◌⟩◌, ◌∎}
use mathlib.Core.Bool.{Bool, true, ◌&&◌}
use native.Mathlib.Omega.{arith}
use native.Mathlib.Nat.{pow-suc}

-- Whether a test succeeds on every number below a bound.
unfoldable pub all_below : ℕ → (ℕ → Bool) → Bool
all_below zero test = true
all_below (suc k) test = all_below k test && test k

pub all_below_sound :
    (bound : ℕ) (test : ℕ → Bool) (i : ℕ) → all_below bound test ≡ true → i < bound → test i ≡ true
unfolding all_below
all_below_sound zero test i every below = absurd (omega arith)
all_below_sound (suc k) test i every below = ground (arith, all_below_sound k test i)

-- The recursion on digits that a native operation stands for: any fuel above the number will do.
module _ (z : ℕ → ℕ) (f : ℕ → ℕ → ℕ) where
  digits-zero : (n b : ℕ) → digits z f n zero b ≡ z b
  digits-zero zero b = refl
  digits-zero (suc n) b = refl

  digits_enough : (n m a b : ℕ) → a ≤ n → a ≤ m → digits z f n a b ≡ digits z f m a b
  digits_enough n m zero b p q = digits-zero n b ∙ sym (digits-zero m b)
  digits_enough (suc n) (suc m) (suc a) b p q =
      ap (λ (t : ℕ). t * 2 + f (suc a % 2) (b % 2))
        (digits_enough n m (suc a / 2) (b / 2) (omega arith) (omega arith))
  digits_enough zero m (suc a) b p q = absurd (omega arith)
  digits_enough (suc n) zero (suc a) b p q = absurd (omega arith)

  low_digit :
      (x y : ℕ)
      → bitwise z f (suc x) y ≡ bitwise z f (suc x / 2) (y / 2) * 2 + f (suc x % 2) (y % 2)
  low_digit x y =
      ap (λ (t : ℕ). t * 2 + f (suc x % 2) (y % 2))
        (digits_enough x (suc x / 2) (suc x / 2) (y / 2) (omega arith) (omega arith))

or_step : (a b : ℕ) → bit_or a b ≡ bit_or (a / 2) (b / 2) * 2 + max (a % 2) (b % 2)
or_step zero b = simp bit_or-bitwise (omega arith)
or_step (suc a) b = simp bit_or-bitwise (low_digit (λ y. y) max a b)

and_step : (a b : ℕ) → bit_and a b ≡ bit_and (a / 2) (b / 2) * 2 + min (a % 2) (b % 2)
and_step zero b = simp bit_and-bitwise (omega arith)
and_step (suc a) b = simp bit_and-bitwise (low_digit (λ y. zero) min a b)

differ_mod : (x y : ℕ) → x < 2 → y < 2 → differ x y ≡ (x + y) % 2
differ_mod zero y p q = omega arith
differ_mod (suc zero) zero p q = refl
differ_mod (suc zero) (suc zero) p q = refl
differ_mod (suc zero) (suc (suc y)) p q = absurd (omega arith)
differ_mod (suc (suc x)) y p q = absurd (omega arith)

xor_step : (a b : ℕ) → bit_xor a b ≡ bit_xor (a / 2) (b / 2) * 2 + (a % 2 + b % 2) % 2
xor_step zero b = simp bit_xor-bitwise (omega arith)
xor_step (suc a) b =
    rw (← differ_mod (suc a % 2) (b % 2) (omega arith) (omega arith))
      (simp bit_xor-bitwise (low_digit (λ y. y) differ a b))

pub xor-half : (a b : ℕ) → bit_xor a b / 2 ≡ bit_xor (a / 2) (b / 2)
xor-half a b = omega (arith, xor_step a b)

pub xor-low : (a b : ℕ) → bit_xor a b % 2 ≡ (a % 2 + b % 2) % 2
xor-low a b = omega (arith, xor_step a b)

-- Exclusive or stays within the width of its arguments.
pub xor-lt : (k a b : ℕ) → a < 2 ^ k → b < 2 ^ k → bit_xor a b < 2 ^ k
xor-lt zero zero zero p q = omega arith
xor-lt zero (suc a) b p q = absurd (omega arith)
xor-lt zero zero (suc b) p q = absurd (omega arith)
xor-lt (suc k) a b p q = omega (
  arith,
  xor_step a b,
  pow-suc 2 k,
  xor-lt k (a / 2) (b / 2) (omega (arith, pow-suc 2 k)) (omega (arith, pow-suc 2 k)),
)

and_zero_fuel : (n a : ℕ) → a ≤ n → bit_and a 0 ≡ 0
and_zero_fuel n zero h = refl
and_zero_fuel zero (suc a) h = absurd (omega arith)
and_zero_fuel (suc n) (suc a) h =
    omega (arith, and_step (suc a) 0, and_zero_fuel n (suc a / 2) (omega arith))

pub and_one : (a : ℕ) → bit_and a 1 ≡ a % 2
and_one a = omega (arith, and_step a 1, and_zero_fuel (a / 2) (a / 2) (omega arith))

pub and_three : (a : ℕ) → bit_and a 3 ≡ a % 4
and_three a = omega (arith, and_step a 3, and_one (a / 2))

pub and_seven : (a : ℕ) → bit_and a 7 ≡ a % 8
and_seven a = omega (arith, and_step a 7, and_three (a / 2))

and_31 : (a : ℕ) → bit_and a 31 ≡ a % 32
and_31 a = omega (arith, and_step a 31, and_step (a / 2) 15, and_seven (a / 2 / 2))

-- `a & 0xFF` is the low byte.
pub and_255 : (a : ℕ) → bit_and a 255 ≡ a % 256
and_255 a =
    omega
      (arith, and_step a 255, and_step (a / 2) 127, and_step (a / 2 / 2) 63, and_31 (a / 2 / 2 / 2))

or-zero_fuel : (n b : ℕ) → b ≤ n → bit_or b 0 ≡ b
or-zero_fuel n zero h = refl
or-zero_fuel zero (suc b) h = absurd (omega arith)
or-zero_fuel (suc n) (suc b) h =
    omega (arith, or_step (suc b) 0, or-zero_fuel n (suc b / 2) (omega arith))

zero-or : (b : ℕ) → bit_or 0 b ≡ b
zero-or b = simp bit_or-bitwise

mul_pow_suc : (q k : ℕ) → q * 2 ^ suc k ≡ q * 2 ^ k * 2
mul_pow_suc q k = omega (arith, ap (λ (t : ℕ). q * t) (pow-suc 2 k))

-- Fields that do not overlap add up.
pub or_fields : (k lo hi : ℕ) → lo < 2 ^ k → bit_or lo (hi * 2 ^ k) ≡ lo + hi * 2 ^ k
or_fields zero zero hi h = rw zero-or (omega arith)
or_fields zero (suc lo) hi h = absurd (omega arith)
or_fields (suc k) lo hi h = ground (
  arith,
  or_step lo (hi * 2 ^ suc k),
  mul_pow_suc hi k,
  or_fields k (lo / 2) hi (omega (arith, pow-suc 2 k)),
)

-- `lo | (hi << 8)` for a byte `lo`.
pub or_bytes : (lo hi : ℕ) → lo < 256 → bit_or lo (hi * 256) ≡ lo + hi * 256
or_bytes lo hi h = or_fields 8 lo hi h

pub zero-xor : (b : ℕ) → bit_xor 0 b ≡ b
zero-xor b = simp bit_xor-bitwise

cancel_fuel : (n a b : ℕ) → a ≤ n → bit_xor a (bit_xor a b) ≡ b
cancel_fuel n zero b h = zero-xor _ ∙ zero-xor b
cancel_fuel zero (suc a) b h = absurd (omega arith)
cancel_fuel (suc n) (suc a) b h = omega (
  arith,
  xor_step (suc a) (bit_xor (suc a) b),
  xor-low (suc a) b,
  ap (λ (t : ℕ). bit_xor (suc a / 2) t) (xor-half (suc a) b),
  cancel_fuel n (suc a / 2) (b / 2) (omega arith),
)

pub xor_cancel : (a b : ℕ) → bit_xor a (bit_xor a b) ≡ b
xor_cancel a b = cancel_fuel a a b (omega arith)

xor-zero_fuel : (n a : ℕ) → a ≤ n → bit_xor a 0 ≡ a
xor-zero_fuel n zero h = refl
xor-zero_fuel zero (suc a) h = absurd (omega arith)
xor-zero_fuel (suc n) (suc a) h =
    omega (arith, xor_step (suc a) 0, xor-zero_fuel n (suc a / 2) (omega arith))

pub xor-zero : (a : ℕ) → bit_xor a 0 ≡ a
xor-zero a = xor-zero_fuel a a (omega arith)

xor_comm_fuel : (n a b : ℕ) → a ≤ n → bit_xor a b ≡ bit_xor b a
xor_comm_fuel n zero b h = zero-xor b ∙ sym (xor-zero b)
xor_comm_fuel zero (suc a) b h = absurd (omega arith)
xor_comm_fuel (suc n) (suc a) b h = omega (
  arith,
  xor_step (suc a) b,
  xor_step b (suc a),
  xor_comm_fuel n (suc a / 2) (b / 2) (omega arith),
)

pub xor_comm : (a b : ℕ) → bit_xor a b ≡ bit_xor b a
xor_comm a b = xor_comm_fuel a a b (omega arith)

-- Exclusive or with a fixed number is injective, on either side.
pub xor_injective : (a b c : ℕ) → bit_xor a b ≡ bit_xor a c → b ≡ c
xor_injective a b c h = sym (xor_cancel a b) ∙ ap (λ (t : ℕ). bit_xor a t) h ∙ xor_cancel a c

pub xor_injective_right : (a b c : ℕ) → bit_xor a c ≡ bit_xor b c → a ≡ b
xor_injective_right a b c h = xor_injective c a b (xor_comm c a ∙ h ∙ xor_comm b c)

xor-quarter : (a b : ℕ) → bit_xor a b / 4 ≡ bit_xor (a / 4) (b / 4)
xor-quarter a b =
    bit_xor a b / 4
    ≡⟨ omega arith ⟩ bit_xor a b / 2 / 2
    ≡⟨ ap (λ (t : ℕ). t / 2) (xor-half a b) ∙ xor-half (a / 2) (b / 2) ⟩
      bit_xor (a / 2 / 2) (b / 2 / 2)
    ≡⟨ ap₂ bit_xor (omega arith) (omega arith) ⟩ bit_xor (a / 4) (b / 4) ∎

xor-sixteenth : (a b : ℕ) → bit_xor a b / 16 ≡ bit_xor (a / 16) (b / 16)
xor-sixteenth a b =
    bit_xor a b / 16
    ≡⟨ omega arith ⟩ bit_xor a b / 4 / 4
    ≡⟨ ap (λ (t : ℕ). t / 4) (xor-quarter a b) ∙ xor-quarter (a / 4) (b / 4) ⟩
      bit_xor (a / 4 / 4) (b / 4 / 4)
    ≡⟨ ap₂ bit_xor (omega arith) (omega arith) ⟩ bit_xor (a / 16) (b / 16) ∎

-- Exclusive or acts on the bits above the low byte by themselves.
pub xor-high_byte : (a b : ℕ) → bit_xor a b / 256 ≡ bit_xor (a / 256) (b / 256)
xor-high_byte a b =
    bit_xor a b / 256
    ≡⟨ omega arith ⟩ bit_xor a b / 16 / 16
    ≡⟨ ap (λ (t : ℕ). t / 16) (xor-sixteenth a b) ∙ xor-sixteenth (a / 16) (b / 16) ⟩
      bit_xor (a / 16 / 16) (b / 16 / 16)
    ≡⟨ ap₂ bit_xor (omega arith) (omega arith) ⟩ bit_xor (a / 256) (b / 256) ∎
