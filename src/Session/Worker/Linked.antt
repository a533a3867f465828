-- ===== src/Session/Worker/Linked.antt =====
-- The rule for invariants of `SerialWorker` of openaisg/session.py, continued: what the worker does on
-- a link that is up, and a step in its state.
use openaisg.Common.{ℕ, ◌+◌, true, false, not, ◌&&◌, ◌||◌, List, [], ◌∷◌, ltb, leb, ◌==◌, max}
use openaisg.Errors.{
  LinkState, closed, opening, port_busy, port_lost, discovering, no_devices, connecting, connected,
  draining, releasing, backoff, leased, shutdown, is_aisg_error,
}
use openaisg.Errors.Rules.{
  Keeps, Keeps-bind, Keeps-then, Keeps-attempt, Keeps-finally, Keeps-if, Keeps-pure, Keeps-modify,
  Keeps-here, either_way,
}
use openaisg.Hdlc.Framing.{Frame}
use openaisg.Hdlc.Control.{ns_of}
use openaisg.Session.Bus.{Bus}
use openaisg.Session.Worker.{Worker, is_os_or_aisg, same_state}
use openaisg.Session.Worker.Entry.{is_link_reset, poll_alarms}
use openaisg.Session.Worker.Opening.{should_open, is_empty}
use openaisg.Session.Worker.Commands.{refresh_lease}
use openaisg.Session.Worker.Upkeep.{
  is_down, is_i_frame, is_continuous, is_duty_cycled, is_off, vr_of, listen, ask, keepalive_poll,
  drain, is_due, close_down, maybe_ask, keep_up, monitor_alarms, connected_housekeeping,
}
use openaisg.Session.Worker.Loop.{hand_over, maybe_open, in_state, step_in_state, step}
use openaisg.Session.Worker.Calm.{drain_indications-Keeps, with_ret-Keeps, read_alarms-Keeps}
use openaisg.Session.Worker.Asking.{
  on_link-Keeps, clock-Keeps, at_address-Keeps, write-Keeps, take_i_frame-Keeps, drain_until-Keeps,
}
use openaisg.Session.Worker.Inert.{Inert, release-Keeps, fail_link-Keeps, open_and_connect-Keeps}

module _ {E : Type 0} {I : Worker E → Type 0} (c : Inert I) (bus : Bus E) where
  pub poll_alarms-Keeps : Keeps I (poll_alarms bus)
  unfolding poll_alarms
  poll_alarms-Keeps =
      Keeps-finally
        (Keeps-attempt is_aisg_error (with_ret-Keeps c.calm bus (read_alarms-Keeps c.calm bus))
          (λ e. Keeps-if (is_link_reset e) (fail_link-Keeps c bus (bus.str e)) Keeps-pure))
        (Keeps-modify (drain_indications-Keeps c.calm))

  listen-Keeps : (addr : ℕ) (fs : List Frame) → Keeps I (listen bus addr fs)
  unfolding listen
  listen-Keeps addr [] = Keeps-pure
  listen-Keeps addr (f ∷ fs) =
      let rest : Keeps I (listen bus addr fs) = listen-Keeps addr fs in
      Keeps-here (λ w. Keeps-if (not (f.addr == addr)) rest (
        Keeps-if (is_down f) (fail_link-Keeps c bus "DM/FRMR on keepalive") (
          Keeps-if (is_i_frame f && ns_of f.ctrl == vr_of bus addr w)
            (Keeps-then (take_i_frame-Keeps c.calm bus addr f) rest) rest)))

  ask-Keeps : (addr : ℕ) → Keeps I (ask bus addr)
  unfolding ask
  ask-Keeps addr =
      Keeps-then (write-Keeps c.calm bus addr true)
        (Keeps-bind (on_link-Keeps c.calm bus (bus.read_frames 200)) (listen-Keeps addr))

  keepalive_poll-Keeps : Keeps I (keepalive_poll bus)
  unfolding keepalive_poll
  keepalive_poll-Keeps =
      Keeps-attempt is_os_or_aisg
        (Keeps-here (λ w. at_address-Keeps c.calm bus w.address ask-Keeps))
        (λ e. fail_link-Keeps c bus (bus.str e))

  drain-Keeps : Keeps I (drain bus)
  unfolding drain
  drain-Keeps =
      Keeps-bind
        (Keeps-attempt is_os_or_aisg
          (Keeps-bind (clock-Keeps c.calm bus) (λ now.
            Keeps-then (drain_until-Keeps c.calm bus bus.drain_passes (now + 1500))
              (Keeps-pure {a = true})))
          (λ e. Keeps-then (fail_link-Keeps c bus (bus.str e)) (Keeps-pure {a = false})))
        (λ drained. Keeps-if drained (Keeps-modify (c.state connected "")) Keeps-pure)

  close_down-Keeps : Keeps I (close_down bus)
  unfolding close_down
  close_down-Keeps = Keeps-then (release-Keeps c bus) (Keeps-modify (c.state closed ""))

  maybe_ask-Keeps : (now : ℕ) → Keeps I (maybe_ask bus now)
  unfolding maybe_ask
  maybe_ask-Keeps now = Keeps-here (λ w.
      Keeps-if (leb (w.last_keepalive_at + w.keepalive) now)
        (Keeps-then (Keeps-modify (c.keepalive_at now)) keepalive_poll-Keeps) Keeps-pure)

  keep_up-Keeps : (now : ℕ) → Keeps I (keep_up bus now)
  unfolding keep_up
  keep_up-Keeps now = Keeps-here (λ w. Keeps-if (is_continuous w.monitor) (maybe_ask-Keeps now) (
      Keeps-if
        (is_off w.monitor && leb (max w.last_command_at w.last_monitor_at + w.idle_release) now)
        close_down-Keeps Keeps-pure))

  monitor_alarms-Keeps : (now : ℕ) → Keeps I (monitor_alarms bus now)
  unfolding monitor_alarms
  monitor_alarms-Keeps now = Keeps-then (Keeps-modify (c.monitor_at now)) (
      Keeps-then poll_alarms-Keeps (
        Keeps-here (λ w.
          Keeps-if (is_duty_cycled w.monitor && is_empty w.queue) close_down-Keeps
            (keep_up-Keeps now))))

  connected_housekeeping-Keeps : (now : ℕ) → Keeps I (connected_housekeeping bus now)
  unfolding connected_housekeeping
  connected_housekeeping-Keeps now =
      Keeps-here (λ w. Keeps-if (is_due now w) (monitor_alarms-Keeps now) (keep_up-Keeps now))

  hand_over-Keeps : Keeps I (hand_over bus)
  unfolding hand_over
  hand_over-Keeps =
      Keeps-then
        (Keeps-here (λ w.
          Keeps-if (same_state w.state leased || same_state w.state closed) Keeps-pure
            (release-Keeps c bus)))
        (Keeps-modify (c.state leased ""))

  maybe_open-Keeps : (now : ℕ) → Keeps I (maybe_open bus now)
  unfolding maybe_open
  maybe_open-Keeps now =
      Keeps-here (λ w. Keeps-if (should_open now w) (open_and_connect-Keeps c bus) Keeps-pure)

  in_state-Keeps : (s : LinkState) (now : ℕ) → Keeps I (in_state bus s now)
  in_state-Keeps closed now = maybe_open-Keeps now
  in_state-Keeps port_busy now = maybe_open-Keeps now
  in_state-Keeps port_lost now = maybe_open-Keeps now
  in_state-Keeps no_devices now = maybe_open-Keeps now
  in_state-Keeps backoff now =
      Keeps-modify (λ w i. either_way I (leb w.backoff_until now) (c.state closed "" w i) i)
  in_state-Keeps draining now = drain-Keeps
  in_state-Keeps connected now = connected_housekeeping-Keeps now
  in_state-Keeps opening now = Keeps-pure
  in_state-Keeps discovering now = Keeps-pure
  in_state-Keeps connecting now = Keeps-pure
  in_state-Keeps releasing now = Keeps-pure
  in_state-Keeps leased now = Keeps-pure
  in_state-Keeps shutdown now = Keeps-pure

  step_in_state-Keeps : (now : ℕ) → Keeps I (step_in_state bus now)
  unfolding step_in_state
  step_in_state-Keeps now = Keeps-here (λ w. in_state-Keeps w.state now)

  pub step-Keeps : Keeps I (step bus)
  unfolding step
  step-Keeps = Keeps-bind (clock-Keeps c.calm bus) (λ now. Keeps-here (λ w.
      Keeps-if (ltb now w.lease_until) hand_over-Keeps (
        Keeps-then
          (Keeps-modify (λ v i. either_way I (same_state v.state leased) (c.state closed "" v i) i))
          (step_in_state-Keeps now))))

  pub refresh_lease-Keeps : Keeps I (refresh_lease bus)
  unfolding refresh_lease
  refresh_lease-Keeps = Keeps-here (λ w.
      Keeps-if (same_state w.state leased)
        (Keeps-bind (clock-Keeps c.calm bus) (λ now.
          Keeps-modify (λ v i. either_way I (leb v.lease_until now) (c.state closed "" v i) i)))
        Keeps-pure)
