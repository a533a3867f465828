-- ===== src/Session/Router.antt =====
-- openaisg/session.py: `RetapRouter`, which tells the responses of a device from its reports, and
-- `SerialTransport`, which sends the messages of `Ret` with it.
pub mod Responses
mod Tests
use openaisg.Common.{
  ℕ, Bool, true, ◌||◌, List, [], ◌∷◌, Option, none, some, ◌==◌, if◌then◌else◌, Bytes,
}
use openaisg.Retap.Codec.{alarm_indication, ant_alarm_indication}
use openaisg.Link.State.{Link}
use openaisg.Link.Exchange.{
  Verdict, accept, indication, unexpected, Call, Effect, Round, Outcome, exchange,
}

-- `code in INDICATION_CODES`.
abbrev pub is_indication : ℕ → Bool
is_indication code = code == alarm_indication || code == ant_alarm_indication

-- `self.expected is None or code == self.expected`.
abbrev is_expected : Option ℕ → ℕ → Bool
is_expected none code = true
is_expected (some expected) code = code == expected

-- `RetapRouter(expected)(payload)`.
pub retap_router : Option ℕ → Bytes → Verdict
retap_router expected [] = unexpected
retap_router expected (code ∷ rest) =
    if is_indication code
    then indication
    else if is_expected expected code
    then accept
    else unexpected

-- `message[0] if message else None`.
abbrev first_of : Bytes → Option ℕ
first_of [] = none
first_of (code ∷ rest) = some code

-- The call of `exchange` in `SerialTransport.request`, with its default poll interval.
abbrev pub transport_call : ℕ → Bytes → ℕ → Call
transport_call addr message timeout = record {
  addr = addr;
  message = message;
  timeout = timeout;
  poll_interval = 50;
  router = retap_router (first_of message);
}

pub transport_request : ℕ → Bytes → ℕ → Link → ℕ → List Round → Outcome × Link × List Effect
transport_request addr message timeout link now rounds =
    exchange (transport_call addr message timeout) link now rounds
