-- ===== src/Common/Texts.antt =====
-- Texts: their equality and order, and sets of texts, each kept as its sorted list.
use Prim.Native.String.{String, compare, slice, ◌++◌ as joined}
use Prim.Native.Nat.{ℕ, suc}
use mathlib.Core.Path.{◌≡◌, refl, ap}
use mathlib.Core.Logic.{◌↔◌}
use mathlib.Core.Bool.{Bool, true, false, not, ◌&&◌, ◌||◌}
use mathlib.Core.List.{List, [], ◌∷◌}
use native.Mathlib.Omega.{arith}
use text.Mathlib.Text.{is_eq, is_lt}
use text.Mathlib.TextEquality.{eq_iff}
use openaisg.Common.Tests.{if◌then◌else◌}
pub use Prim.Native.String.{String}

unfoldable pub same_text : String → String → Bool
same_text s t = is_eq (compare s t)

unfoldable pub is_before : String → String → Bool
is_before s t = is_lt (compare s t)

abbrev pub concat : String → String → String
concat s t = joined s t

-- `s[i]`.
abbrev pub letter : String → ℕ → String
letter s i = slice s i (suc i)

pub same_text_iff : (s t : String) → (same_text s t ≡ true) ↔ (s ≡ t)
unfolding same_text
same_text_iff s t = eq_iff s t

pub same_text_refl : (s : String) → same_text s s ≡ true
same_text_refl s = (same_text_iff s s).1 refl

-- A set of texts is the list of its elements in their order.
abbrev pub Texts : Type 0
Texts = List String

-- `x in s`.
unfoldable pub is_in : String → Texts → Bool
is_in x [] = false
is_in x (y ∷ s) = same_text x y || is_in x s

-- The set with an element more.
unfoldable pub insert : String → Texts → Texts
unfolding is_before
insert x [] = x ∷ []
insert x (y ∷ s) =
    let rest = insert x s in
    if same_text x y then y ∷ s else if is_before x y then x ∷ y ∷ s else y ∷ rest

-- `s - t`.
unfoldable pub minus : Texts → Texts → Texts
minus [] t = []
minus (x ∷ s) t = let rest = minus s t in if is_in x t then rest else x ∷ rest

is_in-same : (x y : String) (s : Texts) → same_text x y ≡ true → is_in x s ≡ is_in y s
is_in-same x y s e = ap (λ z. is_in z s) ((same_text_iff x y).0 e)

pub is_in-insert : (x y : String) (s : Texts) → is_in x (insert y s) ≡ same_text x y || is_in x s
unfolding is_in insert
is_in-insert x y [] = refl
is_in-insert x y (z ∷ s) =
    ground (arith, is_in-insert x y s, same_text_iff y z, same_text_iff x z, same_text_iff x y)

pub is_in-minus : (x : String) (s t : Texts) → is_in x (minus s t) ≡ (is_in x s && not (is_in x t))
unfolding is_in minus
is_in-minus x [] t = refl
is_in-minus x (y ∷ s) t = ground (arith, is_in-minus x s t, is_in-same x y t)

-- A set less one that has all its elements.
pub minus_none :
    (s t : Texts) → ((x : String) → is_in x s ≡ true → is_in x t ≡ true) → minus s t ≡ []
unfolding is_in minus
minus_none [] t h = refl
minus_none (x ∷ s) t h =
    rw (h x (rw (same_text_refl x) refl)) (minus_none s t (λ y k. h y (ground (arith, k))))
