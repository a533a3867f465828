-- ===== src/Session/Worker.antt =====
-- openaisg/session.py: `SerialWorker`, the thread that owns the port. Here: its state, and the
-- operations that the others share. Times are milliseconds, tilts are tenths of a degree.
pub mod Entry
pub mod Opening
pub mod Commands
pub mod Upkeep
pub mod Loop
pub mod Calm
pub mod Asking
pub mod Inert
pub mod Linked
pub mod Passing
pub mod Settled
pub mod Establishing
pub mod Holding
pub mod Serving
pub mod Records
pub mod Turns
pub mod Stuck
pub mod Death
pub mod Desk
mod Tests
use openaisg.Common.{
  ℕ, zero, suc, ◌+◌, ◌*◌, Bool, true, false, not, ◌&&◌, ◌||◌, List, [], ◌∷◌, ◌++◌, Option, none,
  some, ltb, leb, ◌==◌, if◌then◌else◌, length, Bytes, min,
}
use openaisg.Common.Int.{ℤ}
use openaisg.Common.Texts.{String, Texts, same_text}
use openaisg.Errors.{
  LinkState, closed, opening, port_busy, port_lost, discovering, no_devices, connecting, connected,
  draining, releasing, backoff, leased, shutdown, Error, os_error, attribute_error, is_aisg_error,
  Result, ok, err, Action, modify, pure, ◌>>=◌, ◌>>◌, attempt,
}
use openaisg.Retap.Procedures.{Key}
use openaisg.Session.Alarms.{AlarmTracker, Edge}
use openaisg.Session.Bus.{Bus}

pub data MonitorMode : Type 0 where
  off duty_cycled continuous : MonitorMode

pub data AlarmMode : Type 0 where
  subscribed polled unknown : AlarmMode

-- The keys of `ALL_COMMANDS`.
pub data Name : Type 0 where
  read_information read_tilt read_alarm_status read_device_data : Name
  write_tilt write_clear_alarms write_calibrate write_self_test write_reset : Name

-- What a command returns: the dictionary of its key, or the bytes that `Ret` returns.
pub data Answer : Type 0 where
  information : List (Key × List ℕ) → Answer
  tilt_is : ℤ → Answer
  alarms_are : Texts → Answer
  device_data_is : List (ℕ × Bytes) → Answer
  nothing : Answer

-- A `concurrent.futures.Future`.
pub data Future : Type 0 where
  pending running cancelled cancelled_and_notified : Future
  finished : Result Answer → Future

-- `Command`; its future is the one that the worker keeps for its `seq`.
pub record Command : Type 0 where
  pub priority : ℕ
  pub seq : ℕ
  pub name : Name
  pub degrees : Option ℤ
  pub link_deadline : ℕ

-- What is given to `emit`.
pub data Event : Type 0 where
  link_event : LinkState → String → Event
  alarm_event : Edge → Event
  progress_event : Name → ℕ → Bool → Event
  status_event : LinkState → Option ℤ → Texts → Event

-- The fields of `SerialWorker`, and the local variable `head` of `run`. `link` tells whether
-- `self.link` is one; the link itself is part of `env`. `emitted` has the newest event first.
pub record Worker (E : Type 0) : Type 0 where
  pub monitor : MonitorMode
  pub monitor_period : ℕ
  pub keepalive : ℕ
  pub idle_release : ℕ
  pub first_address : ℕ
  pub probe_count : ℕ
  pub queue : List Command
  pub head : Option Command
  pub futures : ℕ → Future
  pub next_seq : ℕ
  pub state : LinkState
  pub link : Bool
  pub address : Option ℕ
  pub identity : List (Key × List ℕ)
  pub device_data : List (ℕ × Bytes)
  pub tilt : Option ℤ
  pub target_tilt : Option ℤ
  pub alarms : AlarmTracker
  pub alarm_mode : AlarmMode
  pub subscribe_unsupported : Bool
  pub last_error : String
  pub last_command_at : ℕ
  pub last_monitor_at : ℕ
  pub last_keepalive_at : ℕ
  pub backoff_for : ℕ
  pub backoff_until : ℕ
  pub lease_until : ℕ
  pub indications : List Bytes
  pub want_link : Bool
  pub emitted : List Event
  pub env : E

-- `SerialWorker(...)`, with the environment.
abbrev pub new_worker : {E : Type 0} → MonitorMode → ℕ → ℕ → ℕ → ℕ → ℕ → E → Worker E
new_worker monitor monitor_period keepalive idle_release first_address probe_count env = record {
  monitor = monitor;
  monitor_period = monitor_period;
  keepalive = keepalive;
  idle_release = idle_release;
  first_address = first_address;
  probe_count = probe_count;
  queue = [];
  head = none;
  futures = λ _. pending;
  next_seq = 0;
  state = closed;
  link = false;
  address = none;
  identity = [];
  device_data = [];
  tilt = none;
  target_tilt = none;
  alarms = record { active = [] };
  alarm_mode = unknown;
  subscribe_unsupported = false;
  last_error = "";
  last_command_at = 0;
  last_monitor_at = 0;
  last_keepalive_at = 0;
  backoff_for = 1000;
  backoff_until = 0;
  lease_until = 0;
  indications = [];
  want_link = false;
  emitted = [];
  env = env;
}

-- `is` on states.
pub number : LinkState → ℕ
number closed = 0
number opening = 1
number port_busy = 2
number port_lost = 3
number discovering = 4
number no_devices = 5
number connecting = 6
number connected = 7
number draining = 8
number releasing = 9
number backoff = 10
number leased = 11
number shutdown = 12

unfoldable pub same_state : LinkState → LinkState → Bool
same_state s t = number s == number t

-- `e` is caught by `except (OSError, AisgError)`.
abbrev pub is_os_or_aisg : Error → Bool
is_os_or_aisg os_error = true
is_os_or_aisg e = is_aisg_error e

abbrev pub is_os_error : Error → Bool
is_os_error os_error = true
is_os_error e = false

abbrev pub any_error : Error → Bool
any_error e = true

-- The object that `cmd.future` refers to is assigned to.
unfoldable pub put_future : ℕ → Future → (ℕ → Future) → ℕ → Future
put_future seq f futures n = if n == seq then f else futures n

module _ {E : Type 0} where
  abbrev pub emit : Event → Worker E → Worker E
  emit event w = record w { emitted = event ∷ w.emitted }

  -- The assignments and the event of `_set_state`.
  abbrev pub set_anew : LinkState → String → Worker E → Worker E
  set_anew state error w =
      emit (link_event state error) (record w {
        state = state;
        last_error = if same_text error "" then w.last_error else error;
      })

  -- `_set_state`.
  unfoldable pub set_state : LinkState → String → Worker E → Worker E
  set_state state error w =
      if same_state state w.state && same_text error w.last_error then w else set_anew state error w

  -- A call of a method of `self.link`.
  abbrev pub on_link : {A : Type 0} → Action E A → Action (Worker E) A
  on_link m w =
      let (r, env) = m w.env in
      if w.link then (r, record w { env = env }) else (err attribute_error, w)

  -- The end of `_arm_backoff`.
  unfoldable pub back_off : Worker E → Worker E
  back_off w =
      if same_state w.state port_busy
        || same_state w.state port_lost
        || same_state w.state no_devices
      then w
      else set_state backoff "" w

  module _ (bus : Bus E) where
    abbrev pub clock : Action (Worker E) ℕ
    clock w = let (now, env) = bus.monotonic w.env in (ok now, record w { env = env })

    -- `_arm_backoff`.
    unfoldable pub arm_backoff : Action (Worker E) (Unit {0})
    arm_backoff = do
      modify (λ w. record w { backoff_for = min (w.backoff_for * 2) 60000 })
      now ← clock
      modify (λ w. record w { backoff_until = now + w.backoff_for })
      modify back_off

    -- The `try` statement of `_release` around `disconnect`.
    unfoldable pub say_goodbye : Option ℕ → Action (Worker E) (Unit {0})
    say_goodbye none = pure tt
    say_goodbye (some addr) = on_link (bus.disconnect addr none)

    -- `_release`.
    unfoldable pub release_link : Action (Worker E) (Unit {0})
    release_link = do
      modify (set_state releasing "")
      attempt (λ w. say_goodbye w.address w) is_os_or_aisg (λ e. pure tt)
      attempt (on_link bus.close) is_os_error (λ e. pure tt)
      modify (λ w. record w { link = false })

    unfoldable pub release : Action (Worker E) (Unit {0})
    release w = (if w.link then release_link else pure tt) w

    -- `_fail_link`.
    unfoldable pub fail_link : String → Action (Worker E) (Unit {0})
    fail_link why = do release; modify (set_state backoff why); arm_backoff
