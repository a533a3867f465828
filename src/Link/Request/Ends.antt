-- ===== src/Link/Request/Ends.antt =====
-- How `AisgLink.request` of openaisg/link.py ends.
use openaisg.Common.{
  ℕ, ◌+◌, ◌*◌, ◌≤◌, ◌≡◌, ◌≢◌, refl, List, Option, none, some, inl, inr, ◌⊎◌, Bytes, All-of,
}
use openaisg.Errors.{no_response, link_reset, Result, ok, err}
use openaisg.Link.State.{Link}
use openaisg.Link.Exchange.{
  Verdict, accept, indication, accept_all, Call, Round, Outcome, response, timed_out, waiting,
  exchange,
}
use openaisg.Link.Exchange
use openaisg.Link.Exchange.Ending.{Plain, PlainRound, late_rounds, exchange_ends}
use openaisg.Link.Request.{request_call, outcome_of, request}

-- What a request can come to.
abbrev pub Replied : Option (Result Bytes) → Type 0
Replied none = ⊥
Replied (some (ok payload)) = Unit {0}
Replied (some (err e)) = (e ≡ no_response) ⊎ (e ≡ link_reset)

Replied-outcome_of : (o : Outcome) → o ≢ waiting → Replied (outcome_of o)
Replied-outcome_of (response payload) h = tt
Replied-outcome_of (Exchange.link_reset why) h = inr refl
Replied-outcome_of (timed_out acked polls) h = inl refl
Replied-outcome_of waiting h = absurd (h refl)

-- `request` has ended once four of the passes of its exchange ended behind the timeout times one
-- more than the retries: with a response, with `AisgError` or with `LinkReset`.
pub request_ends :
    (addr timeout retries now : ℕ) (message : Bytes) (link : Link) (rounds : List Round)
    → 4 ≤ late_rounds (now + timeout * (retries + 1)) rounds
    → Replied (request addr message timeout retries link now rounds).0
unfolding request
request_ends addr timeout retries now message link rounds late =
    let call : Call = request_call addr message timeout retries in
    Replied-outcome_of (exchange call link now rounds).0 (
      exchange_ends call link now rounds
        (All-of (PlainRound call) (λ r. All-of (Plain call) (λ f e. cc) r.frames) rounds) late)
