-- ===== src/Link/Request.antt =====
-- openaisg/link.py: `AisgLink.request`, the wrapper of `exchange` that the command line tool uses.
pub mod Ends
mod Tests
use openaisg.Common.{ℕ, suc, ◌+◌, ◌*◌, Option, none, some, List, Bytes}
use openaisg.Errors.{Error, no_response, link_reset, Result, ok, err}
use openaisg.Link.State.{Link}
use openaisg.Link.Exchange.{
  accept_all, Call, Effect, Round, Outcome, response, timed_out, waiting, exchange,
}
use openaisg.Link.Exchange

-- The call of `exchange`, with its default poll interval.
abbrev pub request_call : ℕ → Bytes → ℕ → ℕ → Call
request_call addr message timeout retries = record {
  addr = addr;
  message = message;
  timeout = timeout * (retries + 1);
  poll_interval = 50;
  router = accept_all;
}

-- What the caller gets; `none` where the exchange has not ended with the rounds that are given.
abbrev pub outcome_of : Outcome → Option (Result Bytes)
outcome_of (response payload) = some (ok payload)
outcome_of (Exchange.link_reset why) = some (err link_reset)
outcome_of (timed_out acked polls) = some (err no_response)
outcome_of waiting = none

pub request : ℕ → Bytes → ℕ → ℕ → Link → ℕ → List Round → Option (Result Bytes) × Link × List Effect
request addr message timeout retries link now rounds =
    let (outcome, link', effects) =
      exchange (request_call addr message timeout retries) link now rounds in
    (outcome_of outcome, link', effects)
