-- ===== src/Errors/Rules.antt =====
-- Rules for computations that may raise: what holds when they return and when they raise. They
-- serve the loop of `SerialWorker` in openaisg/session.py and the procedures of openaisg/retap.py.
use openaisg.Common.{Bool, true, false, ◌≡◌, refl, if◌then◌else◌}
use openaisg.Errors.{
  Error, Result, ok, err, Action, pure, raise, lift, modify, ◌>>=◌, ◌>>◌, attempt, and_finally,
}

module _ {S A : Type 0} where
  -- `Q` of a value and a state that are returned, `R` of an exception and the state it leaves.
  abbrev pub Leaves : (A → S → Type 0) → (Error → S → Type 0) → Result A × S → Type 0
  Leaves Q R (ok a, s) = Q a s
  Leaves Q R (err e, s) = R e s

  pub weaken :
      (Q Q' : A → S → Type 0) (R R' : Error → S → Type 0) (x : Result A × S)
      → ((a : A) (s : S) → Q a s → Q' a s)
      → ((e : Error) (s : S) → R e s → R' e s)
      → Leaves Q R x
      → Leaves Q' R' x
  weaken Q Q' R R' (ok a, s) f g h = f a s h
  weaken Q Q' R R' (err e, s) f g h = g e s h

  pub attempt_rule :
      (m : Action S A) (caught : Error → Bool) (handler : Error → Action S A) (Q : A → S → Type 0)
      (R R' : Error → S → Type 0) (s : S)
      → Leaves Q R (m s)
      → ((e : Error) (s' : S) → R e s' → caught e ≡ true → Leaves Q R' (handler e s'))
      → ((e : Error) (s' : S) → R e s' → caught e ≡ false → R' e s')
      → Leaves Q R' (attempt m caught handler s)
  attempt_rule m caught handler Q R R' s h f g = go (m s) h
    where
      pick :
          (e : Error) (s' : S) (b : Bool)
          → caught e ≡ b
          → R e s'
          → Leaves Q R' (if b then handler e s' else (err e, s'))
      pick e s' true c k = f e s' k c
      pick e s' false c k = g e s' k c

      go :
          (x : Result A × S)
          → Leaves Q R x
          → Leaves Q R' (elim x.0 [
            | ok a ↦ (ok a, x.1)
            | err e ↦ if caught e then handler e x.1 else (err e, x.1)
          ])
      go (ok a, s') k = k
      go (err e, s') k = pick e s' (caught e) refl k

pub finally_rule :
    {S A : Type 0} (m : Action S A) (f : Action S (Unit {0})) (Q Q' : A → S → Type 0)
    (R R' : Error → S → Type 0) (s : S)
    → Leaves Q R (m s)
    → ((a : A) (s' : S) → Q a s' → Leaves (λ _ t. Q' a t) R' (f s'))
    → ((e : Error) (s' : S) → R e s' → Leaves (λ _ t. R' e t) R' (f s'))
    → Leaves Q' R' (and_finally m f s)
finally_rule {S} {A} m f Q Q' R R' s h k l = go (m s) h
  where
    end :
        (r : Result A) (y : Result (Unit {0}) × S)
        → Leaves (λ _ t. Leaves Q' R' (r, t)) R' y
        → Leaves Q' R' (elim y.0 [ ok u ↦ (r, y.1) | err e ↦ (err e, y.1) ])
    end r (ok u, t) j = j
    end r (err e, t) j = j

    go :
        (x : Result A × S)
        → Leaves Q R x
        → Leaves Q' R' (elim (f x.1).0 [ ok u ↦ (x.0, (f x.1).1) | err e ↦ (err e, (f x.1).1) ])
    go (ok a, s') j = end (ok a) (f s') (k a s' j)
    go (err e, s') j = end (err e) (f s') (l e s' j)

pub bind_rule :
    {S A B : Type 0} (m : Action S A) (f : A → Action S B) (Q : A → S → Type 0)
    (Q' : B → S → Type 0) (R : Error → S → Type 0) (s : S)
    → Leaves Q R (m s)
    → ((a : A) (s' : S) → Q a s' → Leaves Q' R (f a s'))
    → Leaves Q' R ((m >>= f) s)
bind_rule {S} {A} {B} m f Q Q' R s h k = go (m s) h
  where
    go :
        (x : Result A × S)
        → Leaves Q R x
        → Leaves Q' R (elim x.0 [ ok a ↦ f a x.1 | err e ↦ (err e, x.1) ])
    go (ok a, s') j = k a s' j
    go (err e, s') j = j

-- A computation that keeps a predicate of the state, whether it returns or raises.
pub record Keeps {S A : Type 0} (I : S → Type 0) (m : Action S A) : Type 0 where
  pub run : (s : S) → I s → I (m s).1

-- What `>>=`, `attempt` and `and_finally` make of what a computation came to.
module _ {S A : Type 0} where
  abbrev pub bound : {B : Type 0} → (A → Action S B) → Result A × S → Result B × S
  bound f (r, s) = elim r [ ok a ↦ f a s | err e ↦ (err e, s) ]

  abbrev pub handled : (Error → Bool) → (Error → Action S A) → Result A × S → Result A × S
  handled caught handler (r, s) = elim r [
    | ok a ↦ (ok a, s)
    | err e ↦ if caught e then handler e s else (err e, s)
  ]

  abbrev pub concluded : Result A → Result (Unit {0}) × S → Result A × S
  concluded r (q, s) = elim q [ ok u ↦ (r, s) | err e ↦ (err e, s) ]

module _ {S : Type 0} {I : S → Type 0} where
  pub Keeps-bind :
      {A B : Type 0} {m : Action S A} {f : A → Action S B}
      → Keeps I m
      → ((a : A) → Keeps I (f a))
      → Keeps I (m >>= f)
  Keeps-bind {A} {B} {m} {f} h k = record { run = λ s i. go (m s) (h.run s i) }
    where
      go : (x : Result A × S) → I x.1 → I (bound f x).1
      go (ok a, s') j = (k a).run s' j
      go (err e, s') j = j

  pub Keeps-then :
      {A B : Type 0} {m : Action S A} {k : Action S B} → Keeps I m → Keeps I k → Keeps I (m >> k)
  Keeps-then h k = Keeps-bind h (λ _. k)

  pub Keeps-attempt :
      {A : Type 0} {m : Action S A} (caught : Error → Bool) {handler : Error → Action S A}
      → Keeps I m
      → ((e : Error) → Keeps I (handler e))
      → Keeps I (attempt m caught handler)
  Keeps-attempt {A} {m} caught {handler} h k = record { run = λ s i. go (m s) (h.run s i) }
    where
      pick : (b : Bool) (e : Error) (s' : S) → I s' → I (if b then handler e s' else (err e, s')).1
      pick true e s' j = (k e).run s' j
      pick false e s' j = j

      go : (x : Result A × S) → I x.1 → I (handled caught handler x).1
      go (ok a, s') j = j
      go (err e, s') j = pick (caught e) e s' j

  pub Keeps-finally :
      {A : Type 0} {m : Action S A} {f : Action S (Unit {0})}
      → Keeps I m
      → Keeps I f
      → Keeps I (and_finally m f)
  Keeps-finally {A} {m} {f} h k = record {
    run = λ s i. go (m s).0 (f (m s).1) (k.run (m s).1 (h.run s i));
  }
    where
      go : (r : Result A) (y : Result (Unit {0}) × S) → I y.1 → I (concluded r y).1
      go r (ok u, s') j = j
      go r (err e, s') j = j

  pub Keeps-if :
      {A : Type 0} (b : Bool) {m n : Action S A}
      → Keeps I m
      → Keeps I n
      → Keeps I (if b then m else n)
  Keeps-if true h k = h
  Keeps-if false h k = k

  pub Keeps-lift : {A : Type 0} {r : Result A} → Keeps I (lift r)
  Keeps-lift = record { run = λ s i. i }

  pub Keeps-pure : {A : Type 0} {a : A} → Keeps I (pure a)
  Keeps-pure = record { run = λ s i. i }

  pub Keeps-raise : {A : Type 0} {e : Error} → Keeps I (raise {A = A} e)
  Keeps-raise = record { run = λ s i. i }

  pub Keeps-modify : {f : S → S} → ((s : S) → I s → I (f s)) → Keeps I (modify f)
  Keeps-modify h = record { run = h }

  -- A computation that reads the state first.
  pub Keeps-here :
      {A : Type 0} {f : S → Action S A} → ((s : S) → Keeps I (f s)) → Keeps I (λ s. f s s)
  Keeps-here h = record { run = λ s i. (h s).run s i }

-- A predicate holds whichever way a conditional takes.
pub either_way {ℓ} :
    {X : Type ℓ} (P : X → Type 0) (b : Bool) {x y : X} → P x → P y → P (if b then x else y)
either_way P true h k = h
either_way P false h k = k
