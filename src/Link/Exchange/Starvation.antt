-- ===== src/Link/Exchange/Starvation.antt =====
-- Indications in an exchange of openaisg/link.py.
use openaisg.Common.{ℕ, zero, suc, ◌+◌, ◌*◌, ◌≡◌, true, false, not, ◌&&◌, List, [], ◌∷◌, Bytes}
use openaisg.Hdlc.Control.{i_ctrl}
use openaisg.Link.State.{Link}
use openaisg.Link.Exchange.{indication, Call, Progress, Handled, goes_on, Round, next_ns}

-- A pass that reads one indication, with the number `ns` and an acknowledgement of `nr`, at a time.
abbrev indication_round : Call → ℕ → ℕ → Bytes → ℕ → Round
indication_round call ns nr payload clock = record {
  frames = (record { addr = call.addr; ctrl = i_ctrl ns nr; payload = payload }, clock) ∷ [];
  now = clock;
}

-- A pass that reads no frame.
abbrev silent_round : ℕ → Round
silent_round now = record { frames = []; now = now }

-- `n` indications, four poll intervals apart, from the number `ns` on, with three passes before each
-- that read no frame, a poll interval apart.
abbrev pub indications : Call → ℕ → Bytes → ℕ → ℕ → ℕ → List Round
indications call nr payload zero ns clock = []
indications call nr payload (suc n) ns clock =
    silent_round (clock + call.poll_interval)
    ∷ silent_round (clock + call.poll_interval * 2)
    ∷ silent_round (clock + call.poll_interval * 3)
    ∷ indication_round call ns nr payload (clock + call.poll_interval * 4)
    ∷ indications call nr payload n (next_ns ns) (clock + call.poll_interval * 4)

-- An exchange with the number `ns0` that expects the number `ns`, is not about to retransmit, and has
-- its whole timeout left at `clock`.
record Alive (call : Call) (ns0 ns clock : ℕ) (s : Progress) : Type 0 where
  pub number : s.sent_ns ≡ ns0
  pub expects : s.peer.vr ≡ ns
  pub quiet : (not s.acked && s.missing) ≡ false
  pub in_time : s.deadline ≡ clock + call.timeout

module _ (call : Call) (payload : Bytes) (reported : call.router payload ≡ indication)
    (ns0 : ℕ) where
  -- The one frame of the pass.
  abbrev Waits : ℕ → ℕ → Handled → Type 0
  Waits ns clock (goes_on s) = (s.acked ≡ true) × Alive call ns0 ns clock s
  Waits ns clock _ = ⊥
