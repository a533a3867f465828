-- ===== src/Errors/Contracts.antt =====
-- Contracts of computations that may raise: from states with one property, a value that is returned
-- comes with another. They serve the loop of `SerialWorker` in openaisg/session.py.
use openaisg.Common.{Bool, true, false}
use openaisg.Errors.{
  Error, Result, ok, err, Action, pure, raise, modify, ◌>>=◌, ◌>>◌, attempt, and_finally,
}
use openaisg.Errors.Rules.{Keeps, bound, handled, concluded}
use openaisg.Common.{if◌then◌else◌}

-- `Q` of a value and a state that are returned; nothing of an exception.
abbrev pub Returns : {S A : Type 0} → (A → S → Type 0) → Result A × S → Type 0
Returns Q (ok a, s) = Q a s
Returns Q (err e, s) = Unit {0}

pub record Meets {S A : Type 0} (P : S → Type 0) (m : Action S A) (Q : A → S → Type 0)
    : Type 0 where
  pub run : (s : S) → P s → Returns Q (m s)

-- Of a state, nothing.
abbrev pub Always : {S : Type 0} → S → Type 0
Always s = Unit {0}

module _ {S : Type 0} {P : S → Type 0} where
  pub Meets-bind :
      {A B : Type 0} {m : Action S A} {f : A → Action S B} {Q : A → S → Type 0} {R : B → S → Type 0}
      → Meets P m Q
      → ((a : A) → Meets (Q a) (f a) R)
      → Meets P (m >>= f) R
  Meets-bind {A} {B} {m} {f} {Q} {R} h k = record { run = λ s p. go (m s) (h.run s p) }
    where
      go : (x : Result A × S) → Returns Q x → Returns R (bound f x)
      go (ok a, s') j = (k a).run s' j
      go (err e, s') j = tt

  pub Meets-then :
      {A B : Type 0} {m : Action S A} {k : Action S B} {Q : S → Type 0} {R : B → S → Type 0}
      → Meets P m (λ _. Q)
      → Meets Q k R
      → Meets P (m >> k) R
  Meets-then h k = Meets-bind h (λ _. k)

  pub Meets-if :
      {A : Type 0} (b : Bool) {m n : Action S A} {Q : A → S → Type 0}
      → Meets P m Q
      → Meets P n Q
      → Meets P (if b then m else n) Q
  Meets-if true h k = h
  Meets-if false h k = k

  pub Meets-pure :
      {A : Type 0} {a : A} {Q : A → S → Type 0} → ((s : S) → P s → Q a s) → Meets P (pure a) Q
  Meets-pure h = record { run = h }

  pub Meets-raise : {A : Type 0} {e : Error} {Q : A → S → Type 0} → Meets P (raise {A = A} e) Q
  Meets-raise = record { run = λ s p. tt }

  pub Meets-modify :
      (f : S → S) {Q : S → Type 0} → ((s : S) → P s → Q (f s)) → Meets P (modify f) (λ _. Q)
  Meets-modify f h = record { run = h }

  pub Meets-here :
      {A : Type 0} {f : S → Action S A} {Q : A → S → Type 0}
      → ((s : S) → P s → Meets P (f s) Q)
      → Meets P (λ s. f s s) Q
  Meets-here h = record { run = λ s p. (h s p).run s p }

  -- A stronger requirement, or a weaker promise.
  pub Meets-from :
      {A : Type 0} {m : Action S A} {P' : S → Type 0} {Q : A → S → Type 0}
      → ((s : S) → P s → P' s)
      → Meets P' m Q
      → Meets P m Q
  Meets-from f h = record { run = λ s p. h.run s (f s p) }

  pub Meets-to :
      {A : Type 0} {m : Action S A} {Q Q' : A → S → Type 0}
      → ((a : A) (s : S) → Q a s → Q' a s)
      → Meets P m Q
      → Meets P m Q'
  Meets-to {A} {m} {Q} {Q'} f h = record { run = λ s p. go (m s) (h.run s p) }
    where
      go : (x : Result A × S) → Returns Q x → Returns Q' x
      go (ok a, s') j = f a s' j
      go (err e, s') j = tt

  pub Meets-kept : {A : Type 0} {m : Action S A} → Keeps P m → Meets P m (λ _. P)
  Meets-kept {A} {m} h = record { run = λ s p. go (m s) (h.run s p) }
    where
      go : (x : Result A × S) → P x.1 → Returns (λ _. P) x
      go (ok a, s') j = j
      go (err e, s') j = tt

  pub Meets-any : {A : Type 0} (m : Action S A) → Meets P m (λ _. Always)
  Meets-any {A} m = record { run = λ s p. go (m s) }
    where
      go : (x : Result A × S) → Returns (λ _. Always) x
      go (ok a, s') = tt
      go (err e, s') = tt

  -- The handler starts from what the computation keeps.
  pub Meets-attempt :
      {A : Type 0} {m : Action S A} (caught : Error → Bool) {handler : Error → Action S A}
      {Q : A → S → Type 0}
      → Keeps P m
      → Meets P m Q
      → ((e : Error) → Meets P (handler e) Q)
      → Meets P (attempt m caught handler) Q
  Meets-attempt {A} {m} caught {handler} {Q} g h k = record {
    run = λ s p. go (m s) (g.run s p) (h.run s p);
  }
    where
      pick :
          (b : Bool) (e : Error) (s' : S)
          → P s'
          → Returns Q (if b then handler e s' else (err e, s'))
      pick true e s' j = (k e).run s' j
      pick false e s' j = tt

      go : (x : Result A × S) → P x.1 → Returns Q x → Returns Q (handled caught handler x)
      go (ok a, s') i j = j
      go (err e, s') i j = pick (caught e) e s' i

  -- The handler starts from any state.
  pub Meets-attempt_any :
      {A : Type 0} {m : Action S A} (caught : Error → Bool) {handler : Error → Action S A}
      {Q : A → S → Type 0}
      → Meets P m Q
      → ((e : Error) → Meets Always (handler e) Q)
      → Meets P (attempt m caught handler) Q
  Meets-attempt_any {A} {m} caught {handler} {Q} h k = record { run = λ s p. go (m s) (h.run s p) }
    where
      pick : (b : Bool) (e : Error) (s' : S) → Returns Q (if b then handler e s' else (err e, s'))
      pick true e s' = (k e).run s' tt
      pick false e s' = tt

      go : (x : Result A × S) → Returns Q x → Returns Q (handled caught handler x)
      go (ok a, s') j = j
      go (err e, s') j = pick (caught e) e s'

  pub Meets-finally :
      {A : Type 0} {m : Action S A} {f : Action S (Unit {0})} {Q : A → S → Type 0}
      → Meets P m Q
      → ((a : A) → Keeps (Q a) f)
      → Meets P (and_finally m f) Q
  Meets-finally {A} {m} {f} {Q} h k = record { run = λ s p. go (m s) (h.run s p) }
    where
      returned : (a : A) (y : Result (Unit {0}) × S) → Q a y.1 → Returns Q (concluded (ok a) y)
      returned a (ok u, s') j = j
      returned a (err e, s') j = tt

      raised : (e : Error) (y : Result (Unit {0}) × S) → Returns Q (concluded (err e) y)
      raised e (ok u, s') = tt
      raised e (err e', s') = tt

      go : (x : Result A × S) → Returns Q x → Returns Q (concluded x.0 (f x.1))
      go (ok a, s') j = returned a (f s') ((k a).run s' j)
      go (err e, s') j = raised e (f s')
