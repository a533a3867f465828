-- ===== src/Errors.antt =====
-- The exceptions that reach the callers of openaisg/link.py, openaisg/retap.py and
-- openaisg/session.py, and computations that may raise one and change a state.
pub mod Rules
pub mod Contracts
use openaisg.Common.{ℕ, Bool, true, false, ◌≡◌, ap, if◌then◌else◌}

-- `LinkState` of openaisg/session.py, which a `SessionError` carries.
pub data LinkState : Type 0 where
  closed opening port_busy port_lost discovering no_devices connecting connected : LinkState
  draining releasing backoff leased shutdown : LinkState

-- Exceptions of the classes below `AisgError`, then `FrameError` of openaisg/hdlc.py, which is none of
-- them, and those of Python that the code can raise: `struct.error`, `IndexError`, `ValueError`,
-- `OSError`, `AttributeError`, `TypeError`, and the `RuntimeError` of a future.
pub data Error : Type 0 where
  -- `AisgError` itself, for a malformed or an empty response, for one that did not come, and for an
  -- SNRM or an address assignment that is not answered, and for a collision that is not resolved.
  malformed empty_response no_response no_ua no_xid unresolved : Error
  -- `RetError` with the procedure and the return code.
  ret_error : ℕ → ℕ → Error
  -- `AisgTimeout` with `acked`, and `LinkReset`.
  aisg_timeout : Bool → Error
  link_reset : Error
  -- `AisgError` of a port that does not open, `PortBusy`, `PortLost`, and `SessionError`.
  cannot_open is_locked is_wedged : Error
  session_error : LinkState → Error
  frame_error : Error
  struct_error index_error value_error os_error attribute_error type_error runtime_error : Error

-- `isinstance(e, AisgError)`.
abbrev pub is_aisg_error : Error → Bool
is_aisg_error frame_error = false
is_aisg_error struct_error = false
is_aisg_error index_error = false
is_aisg_error value_error = false
is_aisg_error os_error = false
is_aisg_error attribute_error = false
is_aisg_error type_error = false
is_aisg_error runtime_error = false
is_aisg_error _ = true

pub data Result {ℓ} (A : Type ℓ) : Type ℓ where
  ok : A → Result A
  err : Error → Result A

-- A call that raises keeps what it did to the state.
abbrev pub Action : Type 0 → Type 0 → Type 0
Action S A = S → Result A × S

abbrev pub modify : {S : Type 0} → (S → S) → Action S (Unit {0})
modify f s = (ok tt, f s)

module _ {S A : Type 0} where
  abbrev pub pure : A → Action S A
  pure a s = (ok a, s)

  abbrev pub raise : Error → Action S A
  raise e s = (err e, s)

  abbrev pub lift : Result A → Action S A
  lift r s = (r, s)

infixl 5 ◌>>=◌
abbrev pub ◌>>=◌ : {S A B : Type 0} → Action S A → (A → Action S B) → Action S B
◌>>=◌ m f s = let (r, s') = m s in elim r [ ok a ↦ f a s' | err e ↦ (err e, s') ]

infixl 5 ◌>>◌
abbrev pub ◌>>◌ : {S A B : Type 0} → Action S A → Action S B → Action S B
m >> k = m >>= λ _. k

-- What a computation does behind one whose result is known.
module _ {S A B : Type 0} (m : Action S A) (f : A → Action S B) (s : S) {s' : S} where
  pub after_ok : {a : A} → m s ≡ (ok a, s') → (m >>= f) s ≡ f a s'
  after_ok e = ap (λ r. elim r.0 [ ok a ↦ f a r.1 | err e' ↦ (err e', r.1) ]) e

  pub after_err : {e : Error} → m s ≡ (err e, s') → (m >>= f) s ≡ (err e, s')
  after_err e = ap (λ r. elim r.0 [ ok a ↦ f a r.1 | err e' ↦ (err e', r.1) ]) e

-- `try: m`, `except` the exceptions of a test: the handler goes on from the state that `m` left.
abbrev pub attempt :
    {S A : Type 0} → Action S A → (Error → Bool) → (Error → Action S A) → Action S A
attempt m caught handler s =
    let (r, s') = m s in
    elim r [ ok a ↦ (ok a, s') | err e ↦ if caught e then handler e s' else (err e, s') ]

-- `try: m`, `finally: f`.
abbrev pub and_finally : {S A : Type 0} → Action S A → Action S (Unit {0}) → Action S A
and_finally m f s =
    let (r, s') = m s in let (q, s'') = f s' in elim q [ ok u ↦ (r, s'') | err e ↦ (err e, s'') ]
