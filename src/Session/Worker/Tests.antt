-- ===== src/Session/Worker/Tests.antt =====
-- Runs of the model of `SerialWorker` in openaisg/session.py on a desk with one device, and the
-- witnesses of the theorems on it.
use openaisg.Common.{◌≤◌, Bool, true, false, [], ◌∷◌, none, some, ◌≡◌, refl, sym, ap, arith}
use mathlib.Core.Bool.{false≢true}
use openaisg.Common.Int.{pos}
use openaisg.Common.Texts.{same_text}
use openaisg.Errors.{LinkState, closed, leased, frame_error, struct_error, session_error, ok, err}
use openaisg.Session.Bus.{link_opened, open_error}
use openaisg.Session.Worker.{read_tilt, tilt_is, finished, Command, Worker}
use openaisg.Session.Worker.Loop.{passes, submits, cancels, leases, Reach, here, there}
use openaisg.Session.Worker.{
  same_state, put_future, set_state, back_off, arm_backoff, say_goodbye, release_link, release,
  fail_link,
}
use openaisg.Session.Worker.Entry.{
  emit_edges, take_snapshot, indicate_all, drain_indications, heard, transport, sweep,
  ask_for_alarms, subscribe, learn_identity, learn_device_data, entry_actions, on_connected,
  read_alarms, poll_alarms,
}
use openaisg.Session.Worker.Opening.{
  should_open, open_link, disconnect_all, clear_stale_links, assign_all, drop_all, discover,
  give_up, enter, bring_up, settle, search_bus, open_and_connect,
}
use openaisg.Session.Worker.Commands.{
  fails_fast, is_less, enqueue, cancel, claim, abandon, absorbed, put, absorb, aim, quarantine,
  succeeded, take, call, run_command, failed, conclude, try_command, execute, refresh_lease,
  dispatch, await_link, try_in_state, try_execute, submit, lease, unlease,
}
use openaisg.Session.Worker.Upkeep.{
  is_due, take_i_frame, listen, ask, keepalive_poll, discard, drain_until, drain, close_down,
  maybe_ask, keep_up, monitor_alarms, connected_housekeeping,
}
use openaisg.Session.Worker.Loop.{
  hand_over, maybe_open, step_in_state, step, serve, turn, pass, abandon_all, teardown,
}
use openaisg.Session.Worker.{number}
use openaisg.Retap.Codec.{pack_u16, unpack_i16}
use openaisg.Retap.Procedures.{
  proc, check_body, parse_response, get_information, get_tilt, get_device_data, get_alarm_status,
  alarm_subscribe,
}
use openaisg.Errors.Contracts.{Returns}
use openaisg.Session.Worker.Desk.{Desk, bus, desk, idle}
use openaisg.Session.Worker.Settled.{settles}
use openaisg.Session.Worker.Serving.{Reach-IsSettled}
use openaisg.Session.Worker.Records.{announced, Reach-announced, Reach-backoff_for, Reach-finished}
use openaisg.Session.Worker.Turns.{step-leased, pass-late}
use openaisg.Session.Worker.Stuck.{IsStuck, Reach-IsStuck}
use openaisg.Session.Worker.Death.{pass-garbled}

abbrev is_closed : LinkState → Bool
is_closed closed = true
is_closed s = false

abbrev first_command : Command
first_command = record {
  priority = 5;
  seq = 0;
  name = read_tilt;
  degrees = none;
  link_deadline = 20000;
}

no_events : announced idle.emitted ≡ idle.state
unfolding announced
no_events = refl

-- A command is taken by a first pass, which connects.
abbrev attached : Worker Desk
attached = (pass bus (submit bus (some read_tilt) none 5 20000 idle).1).1

-- The command is answered, and then the link is leased.
abbrev answered : Worker Desk
answered = (pass bus attached).1

-- The tilt response is a byte short.
abbrev short_desk : Desk
short_desk = record desk { response = ok (0x34 ∷ 2 ∷ 0 ∷ 0 ∷ 10 ∷ []) }

-- The worker on it, connected, and a pass later.
abbrev cut_short : Worker Desk
cut_short = record attached { env = short_desk }

abbrev stuck : Worker Desk
stuck = (pass bus cut_short).1

-- The answer to the DISC is garbled too.
abbrev garbled_desk : Desk
garbled_desk = record short_desk { goodbye = err frame_error }

abbrev garbled : Worker Desk
garbled = record attached { env = garbled_desk }

-- The runs: the first pass opens the port and connects, the second one runs the command; a response
-- that is a byte short leaves the worker stuck, and a garbled answer to the DISC behind it ends it.
runs :
    (pass bus (submit bus (some read_tilt) none 5 20000 idle).1 ≡ (ok tt, attached))
    × (answered.futures 0 ≡ finished (ok (tilt_is (pos 10))))
    × (answered.next_seq ≡ 1)
    × (turn bus garbled ≡ (err struct_error, (turn bus garbled).1))
    × ((turn bus garbled).1.link ≡ true)
    × ((turn bus garbled).1.address ≡ some 1)
    × ((turn bus garbled).1.env ≡ garbled_desk)
    × IsStuck first_command stuck
unfolding same_state put_future set_state back_off arm_backoff say_goodbye release_link release
    fail_link emit_edges take_snapshot indicate_all drain_indications heard transport sweep
    ask_for_alarms subscribe learn_identity learn_device_data entry_actions on_connected read_alarms
    poll_alarms should_open open_link disconnect_all clear_stale_links assign_all drop_all discover
    give_up enter bring_up settle search_bus open_and_connect fails_fast is_less enqueue cancel
    claim abandon absorbed put absorb aim quarantine succeeded take call run_command failed conclude
    try_command execute refresh_lease dispatch await_link try_in_state try_execute submit lease
    unlease is_due take_i_frame listen ask keepalive_poll discard drain_until drain close_down
    maybe_ask keep_up monitor_alarms connected_housekeeping hand_over maybe_open step_in_state step
    serve turn pass abandon_all teardown number get_information get_tilt get_device_data
    get_alarm_status alarm_subscribe proc check_body parse_response pack_u16 unpack_i16 link_opened
    open_error same_text
runs = (
  refl,
  refl,
  refl,
  refl,
  refl,
  refl,
  refl,
  record {
    state_is = refl;
    link_is = refl;
    head_is = refl;
    future_is = refl;
    is_old = omega arith;
  },
)

used : Reach bus idle attached
used = there (there here (submits (some read_tilt) none 5 20000)) (passes runs.0)

Reach-IsSettled_example : settles attached.state attached.link ≡ true
Reach-IsSettled_example = Reach-IsSettled bus idle attached refl used

Reach-announced_example : announced attached.emitted ≡ attached.state
Reach-announced_example = Reach-announced bus idle attached no_events used

Reach-backoff_for_example : (1000 ≤ attached.backoff_for) × (attached.backoff_for ≤ 60000)
Reach-backoff_for_example = Reach-backoff_for bus idle attached (omega arith, omega arith) used

Reach-finished_example : (lease bus 5000 answered).1.futures 0 ≡ finished (ok (tilt_is (pos 10)))
Reach-finished_example =
    Reach-finished 0 (ok (tilt_is (pos 10))) bus answered (lease bus 5000 answered).1 runs.1
      (omega (arith, runs.2)) (there here (leases 5000))

step-leased_example :
    Returns
      (λ _ w'. (w'.state ≡ leased) × (w'.link ≡ false))
      (step bus (record idle { lease_until = 5 }))
step-leased_example = step-leased bus (record idle { lease_until = 5 }) refl (omega arith)

-- A command whose deadline was the beginning of the clock.
abbrev old_command : Command
old_command = record { priority = 5; seq = 0; name = read_tilt; degrees = none; link_deadline = 0 }

abbrev overdue : Worker Desk
overdue = record idle { head = some old_command; env = record desk { now = 1 } }

pass-late_example :
    ((pass bus overdue).0 ≡ ok tt)
    × ((pass bus overdue).1.head ≡ none)
    × ((pass bus overdue).1.futures 0 ≡ finished (err (session_error closed)))
pass-late_example =
    pass-late bus old_command overdue (λ e. false≢true (sym (ap is_closed e)))
      (λ e. false≢true (sym (ap is_closed e))) refl refl (omega arith)

Reach-IsStuck_example : IsStuck first_command (cancel 0 stuck)
Reach-IsStuck_example =
    Reach-IsStuck first_command bus stuck (cancel 0 stuck) runs.7 (there here (cancels 0))

pass-garbled_example : (pass bus garbled).0 ≡ err frame_error
pass-garbled_example =
    pass-garbled bus 1 garbled_desk garbled_desk refl struct_error garbled (turn bus garbled).1
      runs.3 runs.4 runs.5 runs.6
