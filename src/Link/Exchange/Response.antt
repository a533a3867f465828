-- ===== src/Link/Exchange/Response.antt =====
-- Where the response of `AisgLink.exchange` in openaisg/link.py comes from.
use openaisg.Common.{
  ℕ, ◌≡◌, refl, arith, List, [], ◌∷◌, ◌==◌, ==_iff, Bytes, All, Any, Bool-cases, inl, inr, ◌⊎◌,
}
use mathlib.Core.Path.{subst}
use openaisg.Hdlc.Framing.{Frame}
use openaisg.Hdlc.Control.{Kind, kind, ns_of, i_frame}
use openaisg.Link.State.{Link}
use openaisg.Link.Exchange.{
  Verdict, accept, indication, unexpected, Call, Progress, Handled, goes_on, returned, reset_by,
  handle_verdict, handle_i, handle_kind, handle, Round, Outcome, response, after_read, turn,
  exchange,
}
use openaisg.Link.Exchange.Rules.{Handles, Turns, handle_all_rule, loop_rule}

-- `G` holds of the payload, if it came in an I-frame from the address and the router accepts it.
abbrev Vouched : (Bytes → Type 0) → Call → Frame × ℕ → Type 0
Vouched G call (f, clock) =
    f.addr ≡ call.addr → kind f.ctrl ≡ i_frame → call.router f.payload ≡ accept → G f.payload

abbrev VouchedRound : (Bytes → Type 0) → Call → Round → Type 0
VouchedRound G call r = All (Vouched G call) r.frames

abbrev IfResponse : (Bytes → Type 0) → Outcome → Type 0
IfResponse G (response payload) = G payload
IfResponse G _ = Unit {0}

module _ (G : Bytes → Type 0) (call : Call) where
  abbrev FromFrame : Handled → Type 0
  FromFrame = Handles Any (λ p s. G p) (λ w s. Unit {0})

  handle_verdict-FromFrame :
      (v : Verdict) (f : Frame) (clock : ℕ) (s : Progress)
      → (v ≡ accept → G f.payload)
      → FromFrame (handle_verdict call f clock v s)
  unfolding handle_verdict
  handle_verdict-FromFrame accept f clock s g = g refl
  handle_verdict-FromFrame indication f clock s g = tt
  handle_verdict-FromFrame unexpected f clock s g = tt

  handle_kind-FromFrame :
      (k : Kind) (f : Frame) (clock : ℕ) (s : Progress)
      → (k ≡ i_frame → call.router f.payload ≡ accept → G f.payload)
      → FromFrame (handle_kind call k f clock s)
  unfolding handle_kind
  handle_kind-FromFrame i_frame f clock s g = elim (Bool-cases (ns_of f.ctrl == s.peer.vr)) [
    | inl e ↦ rw (e, handle_i) (handle_verdict-FromFrame (call.router f.payload) f clock _ (g refl))
    | inr e ↦ rw (e, handle_i) tt
  ]
  handle_kind-FromFrame _ f clock s g = ground arith

  handle-FromFrame :
      (f : Frame) (clock : ℕ) (s : Progress)
      → Vouched G call (f, clock)
      → FromFrame (handle call f clock s)
  unfolding handle
  handle-FromFrame f clock s g = elim (Bool-cases (f.addr == call.addr)) [
    | inl mine ↦
        rw mine
          (handle_kind-FromFrame (kind f.ctrl) f clock _ (g ((==_iff f.addr call.addr).0 mine)))
    | inr other ↦ rw other tt
  ]

  after_read-FromFrame :
      (now : ℕ) (x : Handled)
      → FromFrame x
      → Turns Any (λ o s. IfResponse G o) (after_read call now x)
  unfolding after_read
  after_read-FromFrame now (returned payload s) k = k
  after_read-FromFrame now (reset_by why s) k = tt
  after_read-FromFrame now (goes_on s) k = ground arith

  -- What holds of all payloads of such frames holds of the response.
  response_vouched :
      (link : Link) (now : ℕ) (rounds : List Round) {payload : Bytes}
      → All (VouchedRound G call) rounds
      → (exchange call link now rounds).0 ≡ response payload
      → G payload
  unfolding exchange turn
  response_vouched link now rounds vouched e = subst (IfResponse G) e (
      loop_rule call (VouchedRound G call) Any (λ o s. IfResponse G o) (λ s h. tt)
        (λ r s v h. after_read-FromFrame r.now _ (
          handle_all_rule call (Vouched G call) Any (λ p s'. G p) (λ w s'. Unit {0})
            (λ f clock s' a h'. handle-FromFrame f clock s' a) r.frames s v tt))
        rounds _ vouched tt)

-- Some element of a list.
abbrev pub Some {ℓ} : {A : Type ℓ} → (A → Type 0) → List A → Type 0
Some P [] = ⊥
Some P (x ∷ xs) = P x ⊎ Some P xs

-- An I-frame from the address with a payload that the router accepts.
abbrev pub Answers : Call → Bytes → Frame × ℕ → Type 0
Answers call payload (f, clock) =
    (f.addr ≡ call.addr)
    × (kind f.ctrl ≡ i_frame)
    × (f.payload ≡ payload)
    × (call.router payload ≡ accept)

All-Some :
    {A B : Type 0} (Q : B → A → Type 0) (G : B → Type 0) (xs : List A)
    → ((b : B) → Some (Q b) xs → G b)
    → All (λ x. (b : B) → Q b x → G b) xs
All-Some Q G [] into = tt
All-Some Q G (x ∷ xs) into = (λ b q. into b (inl q), All-Some Q G xs (λ b s. into b (inr s)))

All-map :
    {A : Type 0} (P Q : A → Type 0) → ((x : A) → P x → Q x) → (xs : List A) → All P xs → All Q xs
All-map P Q f [] h = tt
All-map P Q f (x ∷ xs) h = (f x h.0, All-map P Q f xs h.1)

-- A response that the exchange returns is the payload of an I-frame that was received from the
-- address in one of its rounds, and the router accepts it.
pub exchange_response :
    (call : Call) (link : Link) (now : ℕ) (rounds : List Round) (payload : Bytes)
    → (exchange call link now rounds).0 ≡ response payload
    → Some (λ r. Some (Answers call payload) r.frames) rounds
exchange_response call link now rounds payload e =
    let G : Bytes → Type 0 = λ b. Some (λ r. Some (Answers call b) r.frames) rounds in
    response_vouched G call link now rounds
      (All-map _ (VouchedRound G call)
        (λ r h.
          All-map _ (Vouched G call) (λ (f, clock) k a b c. k f.payload (a, b, refl, c)) r.frames
            (All-Some (Answers call) G r.frames h))
        rounds (All-Some (λ b r. Some (Answers call b) r.frames) G rounds (λ b s. s)))
      e
