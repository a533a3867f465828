-- ===== src/Session/Worker/Holding.antt =====
-- The steps of `SerialWorker` in openaisg/session.py, commands aside, end in states that last.
use openaisg.Common.{
  ℕ, ◌+◌, Bool, true, false, not, ◌&&◌, ◌||◌, List, [], ◌∷◌, Option, none, some, ltb, leb, ◌==◌,
  ◌≡◌, refl, sym, ap, ◌∙◌, arith, if◌then◌else◌, max, inl, inr, Bool-cases,
}
use openaisg.Common.Texts.{String}
use openaisg.Errors.{
  LinkState, closed, opening, port_busy, port_lost, discovering, no_devices, connecting, connected,
  draining, releasing, backoff, leased, shutdown, is_aisg_error, Action, pure, modify,
}
use openaisg.Errors.Rules.{Keeps-modify, either_way}
use openaisg.Errors.Contracts.{
  Returns, Meets, Meets-bind, Meets-then, Meets-if, Meets-pure, Meets-raise, Meets-modify,
  Meets-here, Meets-from, Meets-to, Meets-kept, Meets-attempt, Meets-attempt_any, Meets-finally,
}
use openaisg.Hdlc.Framing.{Frame}
use openaisg.Hdlc.Control.{ns_of}
use openaisg.Session.Bus.{Bus}
use openaisg.Session.Worker.{Worker, is_os_or_aisg, same_state, set_state, release, fail_link}
use openaisg.Session.Worker.Entry.{is_link_reset, drain_indications, poll_alarms}
use openaisg.Session.Worker.Opening.{should_open, is_empty}
use openaisg.Session.Worker.Commands.{}
use openaisg.Session.Worker.Upkeep.{
  is_down, is_i_frame, is_continuous, is_duty_cycled, is_off, at_address, vr_of, heed, listen, ask,
  keepalive_poll, drain, is_due, close_down, maybe_ask, keep_up, monitor_alarms,
  connected_housekeeping,
}
use openaisg.Session.Worker.Loop.{hand_over, maybe_open, in_state, step_in_state, step}
use openaisg.Session.Worker.Calm.{drain_indications-Keeps, with_ret-Keeps, read_alarms-Keeps}
use openaisg.Session.Worker.Asking.{
  on_link-Keeps, clock-Keeps, write-Keeps, take_i_frame-Keeps, drain_until-Keeps,
}
use openaisg.Session.Worker.Settled.{
  settles, same_state→eq, IsSettled, HasLink, HasNone, set_state-IsSettled, link-set_state,
  state-set_state, IsSettled-calm, HasLink-calm,
}
use openaisg.Session.Worker.Establishing.{
  release_drops, fail_link-settles, open_and_connect-settles,
}

module _ {E : Type 0} (bus : Bus E) where
  -- A computation that keeps settled states, by what it asks of the link.
  abbrev pub Holds : {A : Type 0} → Action (Worker E) A → Type 0
  Holds m = Meets IsSettled m (λ _. IsSettled)

  failing : (why : String) → Holds (fail_link bus why)
  failing why = Meets-from (λ _ _. tt) (fail_link-settles bus why)

  poll_alarms-Holds : Holds (poll_alarms bus)
  unfolding poll_alarms
  poll_alarms-Holds =
      Meets-finally
        (Meets-attempt is_aisg_error
          (with_ret-Keeps IsSettled-calm bus (read_alarms-Keeps IsSettled-calm bus))
          (Meets-kept (with_ret-Keeps IsSettled-calm bus (read_alarms-Keeps IsSettled-calm bus)))
          (λ e. Meets-if (is_link_reset e) (failing (bus.str e)) (Meets-pure (λ w h. h))))
        (λ _. Keeps-modify {f = drain_indications} (drain_indications-Keeps IsSettled-calm))

  heed-Holds :
      (addr : ℕ) (f : Frame) {rest : Action (Worker E) (Unit {0})}
      → Holds rest
      → Holds (heed bus addr f rest)
  heed-Holds addr f h = Meets-here (λ w _. Meets-if (not (f.addr == addr)) h (
      Meets-if (is_down f) (failing "DM/FRMR on keepalive") (
        Meets-if (is_i_frame f && ns_of f.ctrl == vr_of bus addr w)
          (Meets-then (Meets-kept (take_i_frame-Keeps IsSettled-calm bus addr f)) h) h)))

  listen-Holds : (addr : ℕ) (fs : List Frame) → Holds (listen bus addr fs)
  unfolding listen
  listen-Holds addr [] = Meets-pure (λ w h. h)
  listen-Holds addr (f ∷ fs) = heed-Holds addr f (listen-Holds addr fs)

  ask-Holds : (addr : ℕ) → Holds (ask bus addr)
  unfolding ask
  ask-Holds addr = Meets-then (Meets-kept (write-Keeps IsSettled-calm bus addr true)) (
      Meets-bind (Meets-kept (on_link-Keeps IsSettled-calm bus (bus.read_frames 200)))
        (listen-Holds addr))

  at_address-Holds :
      (addr : Option ℕ) {f : ℕ → Action (Worker E) (Unit {0})}
      → ((a : ℕ) → Holds (f a))
      → Holds (at_address bus addr f)
  at_address-Holds none h = Meets-raise
  at_address-Holds (some a) h = h a

  keepalive_poll-Holds : Holds (keepalive_poll bus)
  unfolding keepalive_poll
  keepalive_poll-Holds =
      Meets-attempt_any is_os_or_aisg (Meets-here (λ w _. at_address-Holds w.address ask-Holds))
        (λ e. fail_link-settles bus (bus.str e))

  close_down-Holds : Holds (close_down bus)
  unfolding close_down
  close_down-Holds =
      Meets-then (Meets-from (λ _ _. tt) (release_drops bus))
        (Meets-modify (set_state closed "") (λ w n. set_state-IsSettled closed "" w (ap not n)))

  maybe_ask-Holds : (now : ℕ) → Holds (maybe_ask bus now)
  unfolding maybe_ask
  maybe_ask-Holds now = Meets-here (λ w _.
      Meets-if (leb (w.last_keepalive_at + w.keepalive) now)
        (Meets-then
          (Meets-modify (λ v. record v { last_keepalive_at = now }) {Q = IsSettled} (λ v h. h))
          keepalive_poll-Holds)
        (Meets-pure (λ v h. h)))

  keep_up-Holds : (now : ℕ) → Holds (keep_up bus now)
  unfolding keep_up
  keep_up-Holds now = Meets-here (λ w _. Meets-if (is_continuous w.monitor) (maybe_ask-Holds now) (
      Meets-if
        (is_off w.monitor && leb (max w.last_command_at w.last_monitor_at + w.idle_release) now)
        close_down-Holds (Meets-pure (λ v h. h))))

  monitor_alarms-Holds : (now : ℕ) → Holds (monitor_alarms bus now)
  unfolding monitor_alarms
  monitor_alarms-Holds now =
      Meets-then (Meets-modify (λ v. record v { last_monitor_at = now }) {Q = IsSettled} (λ v h. h))
        (Meets-then poll_alarms-Holds (
          Meets-here (λ w _.
            Meets-if (is_duty_cycled w.monitor && is_empty w.queue) close_down-Holds
              (keep_up-Holds now))))

  housekeeping-Holds : (now : ℕ) → Holds (connected_housekeeping bus now)
  unfolding connected_housekeeping
  housekeeping-Holds now =
      Meets-here (λ w _. Meets-if (is_due now w) (monitor_alarms-Holds now) (keep_up-Holds now))

  abbrev Drained : Bool → Worker E → Type 0
  Drained true = HasLink
  Drained false = IsSettled

  drain-settles : Meets HasLink (drain bus) (λ _. IsSettled)
  unfolding drain
  drain-settles =
      Meets-bind {Q = Drained}
        (Meets-attempt_any is_os_or_aisg
          (Meets-bind {Q = λ _. HasLink} (Meets-kept (clock-Keeps HasLink-calm bus)) (λ now.
            Meets-then {Q = HasLink}
              (Meets-kept (drain_until-Keeps HasLink-calm bus bus.drain_passes (now + 1500)))
              (Meets-pure {a = true} (λ w h. h))))
          (λ e.
            Meets-then {Q = IsSettled} (fail_link-settles bus (bus.str e))
              (Meets-pure {a = false} (λ w h. h))))
        next
    where
      next :
          (drained : Bool)
          → Meets
              (Drained drained)
              (if drained then modify (set_state connected "") else pure tt)
              (λ _. IsSettled)
      next true =
          Meets-modify (set_state connected "") (λ w h. set_state-IsSettled connected "" w h)
      next false = Meets-pure (λ w h. h)

  -- A worker that has settled in a state.
  abbrev pub At : LinkState → Worker E → Type 0
  At s w = (w.state ≡ s) × IsSettled w

  pub link-At : (s : LinkState) (w : Worker E) → At s w → settles s w.link ≡ true
  link-At s w h = ap (λ t. settles t w.link) (sym h.0) ∙ h.1

  none_at : (w : Worker E) → not w.link ≡ true → HasNone w
  none_at w h = ground (arith, h)

  open-At :
      (s : LinkState) (now : ℕ)
      → ((w : Worker E) → At s w → HasNone w)
      → Meets (At s) (maybe_open bus now) (λ _. IsSettled)
  unfolding maybe_open
  open-At s now f = Meets-here (λ w _.
      Meets-if (should_open now w) (Meets-from f (open_and_connect-settles bus))
        (Meets-pure (λ v h. h.1)))

  in_state-settles : (s : LinkState) (now : ℕ) → Meets (At s) (in_state bus s now) (λ _. IsSettled)
  in_state-settles closed now = open-At closed now (λ w h. none_at w (link-At closed w h))
  in_state-settles port_busy now = open-At port_busy now (λ w h. none_at w (link-At port_busy w h))
  in_state-settles port_lost now = open-At port_lost now (λ w h. none_at w (link-At port_lost w h))
  in_state-settles no_devices now =
      open-At no_devices now (λ w h. none_at w (link-At no_devices w h))
  in_state-settles backoff now =
      Meets-modify (λ w. if leb w.backoff_until now then set_state closed "" w else w)
        (λ w h.
          either_way IsSettled (leb w.backoff_until now)
            (set_state-IsSettled closed "" w (link-At backoff w h)) h.1)
  in_state-settles draining now = Meets-from (link-At draining) (drain-settles)
  in_state-settles connected now = Meets-from (λ w h. h.1) (housekeeping-Holds now)
  in_state-settles opening now = Meets-pure (λ w h. h.1)
  in_state-settles discovering now = Meets-pure (λ w h. h.1)
  in_state-settles connecting now = Meets-pure (λ w h. h.1)
  in_state-settles releasing now = Meets-pure (λ w h. h.1)
  in_state-settles leased now = Meets-pure (λ w h. h.1)
  in_state-settles shutdown now = Meets-pure (λ w h. h.1)

  step_in_state-Holds : (now : ℕ) → Holds (step_in_state bus now)
  unfolding step_in_state
  step_in_state-Holds now = record { run = λ w h. (in_state-settles w.state now).run w (refl, h) }

  -- The state `LEASED` or `CLOSED` is one without the link.
  none_leased :
      (w : Worker E)
      → IsSettled w
      → (same_state w.state leased || same_state w.state closed) ≡ true
      → HasNone w
  none_leased w h e = elim (Bool-cases (same_state w.state leased)) [
    | inl l ↦ none_at w (link-At leased w (same_state→eq w.state leased l, h))
    | inr n ↦ none_at w (
        link-At closed w
          (same_state→eq w.state closed (sym (ap (λ b. b || same_state w.state closed) n) ∙ e), h))
  ]

  pub hand_over-settles : Meets IsSettled (hand_over bus) (λ _ w. (w.state ≡ leased) × HasNone w)
  unfolding hand_over
  hand_over-settles =
      Meets-then {Q = HasNone}
        (record {
          run = λ w h.
              go w (same_state w.state leased || same_state w.state closed) (none_leased w h);
        })
        (Meets-modify (set_state leased "")
          (λ w n. (state-set_state leased "" w, link-set_state leased "" w ∙ n)))
    where
      go :
          (w : Worker E) (b : Bool)
          → (b ≡ true → HasNone w)
          → Returns (λ _. HasNone) ((if b then pure tt else release bus) w)
      go w true n = n refl
      go w false n = (release_drops bus).run w tt

  closed_after_lease :
      (w : Worker E)
      → IsSettled w
      → IsSettled (if same_state w.state leased then set_state closed "" w else w)
  closed_after_lease w h = elim (Bool-cases (same_state w.state leased)) [
    | inl l ↦
        rw l
          (set_state-IsSettled closed "" w (link-At leased w (same_state→eq w.state leased l, h)))
    | inr n ↦ rw n h
  ]

  pub step-Holds : Holds (step bus)
  unfolding step
  step-Holds = Meets-bind (Meets-kept (clock-Keeps IsSettled-calm bus)) (λ now. Meets-here (λ w _.
      Meets-if (ltb now w.lease_until)
        (Meets-to (λ _ v h. ap (λ l. settles v.state l) h.1 ∙ ap (λ t. settles t false) h.0)
          hand_over-settles)
        (Meets-then
          (Meets-modify (λ v. if same_state v.state leased then set_state closed "" v else v)
            {Q = IsSettled} closed_after_lease)
          (step_in_state-Holds now))))
