-- ===== src/Session/Router/Responses.antt =====
-- Which payloads reach the caller of `SerialTransport.request` in openaisg/session.py.
use openaisg.Common.{ℕ, ◌≡◌, ap, arith, false, List, [], ◌∷◌, some, inl, inr, Bytes}
use openaisg.Hdlc.Framing.{Frame}
use openaisg.Link.State.{Link}
use openaisg.Link.Exchange.{accept, Round, response}
use openaisg.Link.Exchange.Response.{Some, Answers, exchange_response}
use openaisg.Session.Router.{is_indication, retap_router, transport_call, transport_request}

-- A payload with a procedure code that is no indication.
abbrev pub Carries : ℕ → Bytes → Type 0
Carries code payload = (rest : Bytes) × (payload ≡ code ∷ rest) × (is_indication code ≡ false)

accept-Carries :
    (code : ℕ) (payload : Bytes) → retap_router (some code) payload ≡ accept → Carries code payload
unfolding retap_router
accept-Carries code [] e = absurd (ground arith)
accept-Carries code (c ∷ rest) e =
    let same : c ≡ code = ground (arith, e) in (rest, ap (λ k. k ∷ rest) same, ground (arith, e))

Some-frame :
    (code : ℕ) (message payload : Bytes) (addr timeout : ℕ) (fs : List (Frame × ℕ))
    → Some (Answers (transport_call addr (code ∷ message) timeout) payload) fs
    → Carries code payload
Some-frame code message payload addr timeout [] s = absurd s
Some-frame code message payload addr timeout ((f, clock) ∷ fs) (inl a) =
    accept-Carries code payload a.3
Some-frame code message payload addr timeout (f ∷ fs) (inr s) =
    Some-frame code message payload addr timeout fs s

Some-round :
    (code : ℕ) (message payload : Bytes) (addr timeout : ℕ) (rounds : List Round)
    → Some
        (λ r. Some (Answers (transport_call addr (code ∷ message) timeout) payload) r.frames)
        rounds
    → Carries code payload
Some-round code message payload addr timeout [] s = absurd s
Some-round code message payload addr timeout (r ∷ rounds) (inl s) =
    Some-frame code message payload addr timeout r.frames s
Some-round code message payload addr timeout (r ∷ rounds) (inr s) =
    Some-round code message payload addr timeout rounds s

-- A response that `SerialTransport.request` returns for a message begins with the procedure code of
-- the message, and this is not the code of an indication: neither a report nor the late response to
-- another procedure is returned.
pub transport_request-Carries :
    (code addr timeout now : ℕ) (message payload : Bytes) (link : Link) (rounds : List Round)
    → (transport_request addr (code ∷ message) timeout link now rounds).0 ≡ response payload
    → Carries code payload
unfolding transport_request
transport_request-Carries code addr timeout now message payload link rounds e =
    Some-round code message payload addr timeout rounds
      (exchange_response (transport_call addr (code ∷ message) timeout) link now rounds payload e)
