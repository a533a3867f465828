-- ===== src/Session/Bus.antt =====
-- What `SerialWorker` of openaisg/session.py calls: the clock, `serial.Serial`, and the operations of
-- the `AisgLink` on the port. `E` is the state behind them, the link with its port and the clock.
use openaisg.Common.{ℕ, Bool, List, Option, none, some, ◌||◌, ◌==◌, if◌then◌else◌, Bytes}
use openaisg.Common.Texts.{String}
use openaisg.Errors.{Error, cannot_open, is_locked, is_wedged, Result, ok, err, Action}
use openaisg.Hdlc.Framing.{Frame}
use openaisg.Link.State.{Peer}
use openaisg.Link.Manage.{Device}

-- What `serial.Serial` comes to: a port, or a `SerialException` with its `errno`, if it has one.
pub data Opening : Type 0 where
  opened : Opening
  refused : Option ℕ → Opening

-- The tests on `errno` in `AisgLink.__init__`, with the numbers of Linux.
unfoldable pub open_error : Option ℕ → Error
open_error none = cannot_open
open_error (some errno) =
    if errno == 11 || errno == 13
    then is_locked
    else if errno == 5 || errno == 71 || errno == 19 || errno == 6
    then is_wedged
    else cannot_open

-- The constructor `AisgLink`.
unfoldable pub link_opened : Opening → Result (Unit {0})
unfolding open_error
link_opened opened = ok tt
link_opened (refused errno) = err (open_error errno)

-- The calls of the callbacks of an `exchange`.
pub data Called : Type 0 where
  on_indication : Bytes → Called
  on_poll : ℕ → Bool → Called

pub record Bus (E : Type 0) : Type 0 where
  -- `time.monotonic()`, in milliseconds, and `str` of an exception.
  pub monotonic : E → ℕ × E
  pub str : Error → String
  pub serial_open : E → Opening × E
  -- `close`, `connect`, `disconnect`, `scan`, `assign_address`, `scan_assigned` of the link.
  pub close : Action E (Unit {0})
  pub connect : ℕ → Action E (Unit {0})
  pub disconnect : ℕ → Option ℕ → Action E (Unit {0})
  pub scan : Action E (List Device)
  pub assign_address : Device → ℕ → Action E Device
  pub scan_assigned : ℕ → ℕ → Action E (List Device)
  -- `exchange` with the router of `SerialTransport`: the result and the callbacks on the way to it.
  pub exchange : ℕ → Bytes → ℕ → E → Result Bytes × List Called × E
  -- `_peer`, assignments to the peer, `_write(_rr(...))` and `_read_frames`.
  pub peer : ℕ → E → Peer
  pub put_peer : ℕ → Peer → E → E
  pub write_rr : ℕ → ℕ → Bool → Action E (Unit {0})
  pub read_frames : ℕ → Action E (List Frame)
  -- How many passes the loop of `_drain` makes at most in its 1.5 s: as many as the clock lets it.
  pub drain_passes : ℕ
