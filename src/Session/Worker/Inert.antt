-- ===== src/Session/Worker/Inert.antt =====
-- The rule for invariants of `SerialWorker` of openaisg/session.py: a predicate that the assignments of
-- the worker keep is kept by its operations on the link.
use openaisg.Common.{ℕ, ◌+◌, ◌*◌, Bool, true, false, Option, none, some, min}
use openaisg.Common.Int.{ℤ}
use openaisg.Common.Texts.{String}
use openaisg.Errors.{
  LinkState, opening, discovering, connecting, connected, releasing, backoff, is_aisg_error, Result,
  ok, err,
}
use openaisg.Errors.Rules.{
  Keeps, Keeps-bind, Keeps-then, Keeps-attempt, Keeps-if, Keeps-pure, Keeps-modify, Keeps-here,
  either_way,
}
use openaisg.Session.Bus.{Bus, link_opened}
use openaisg.Session.Worker.{
  Command, Worker, is_os_or_aisg, set_state, arm_backoff, back_off, is_os_error, say_goodbye,
  release_link, release, fail_link,
}
use openaisg.Session.Worker.Opening.{
  open_link, give_up, enter, bring_up, settle, search_bus, open_and_connect, state_for, reason,
  keep_link,
}
use openaisg.Session.Worker.Upkeep.{}
use openaisg.Session.Worker.Asking.{
  on_link-Keeps, clock-Keeps, clear_stale_links-Keeps, discover-Keeps,
}
use openaisg.Session.Worker.Calm.{Calm, on_connected-Keeps}

-- A predicate that the assignments of the worker keep, those to the futures and the queue aside.
pub record Inert {E : Type 0} (I : Worker E → Type 0) : Type 0 where
  pub calm : Calm I
  pub state : (s : LinkState) (text : String) (w : Worker E) → I w → I (set_state s text w)
  pub link : (b : Bool) (w : Worker E) → I w → I (record w { link = b })
  pub doubled : (w : Worker E) → I w → I (record w { backoff_for = min (w.backoff_for * 2) 60000 })
  pub restored : (w : Worker E) → I w → I (record w { backoff_for = 1000 })
  pub until : (t : ℕ) (w : Worker E) → I w → I (record w { backoff_until = t })
  pub want : (b : Bool) (w : Worker E) → I w → I (record w { want_link = b })
  pub target : (t : Option ℤ) (w : Worker E) → I w → I (record w { target_tilt = t })
  pub command_at : (t : ℕ) (w : Worker E) → I w → I (record w { last_command_at = t })
  pub monitor_at : (t : ℕ) (w : Worker E) → I w → I (record w { last_monitor_at = t })
  pub keepalive_at : (t : ℕ) (w : Worker E) → I w → I (record w { last_keepalive_at = t })
  pub head : (h : Option Command) (w : Worker E) → I w → I (record w { head = h })
  pub lease : (t : ℕ) (w : Worker E) → I w → I (record w { lease_until = t })

module _ {E : Type 0} {I : Worker E → Type 0} (c : Inert I) where
  module _ (bus : Bus E) where
    back_off-Keeps : (w : Worker E) → I w → I (back_off w)
    unfolding back_off
    back_off-Keeps w i = either_way I _ i (c.state backoff "" w i)

    pub arm_backoff-Keeps : Keeps I (arm_backoff bus)
    unfolding arm_backoff
    arm_backoff-Keeps = Keeps-then (Keeps-modify c.doubled) (
        Keeps-bind (clock-Keeps c.calm bus) (λ now.
          Keeps-then (Keeps-modify (λ w i. c.until (now + w.backoff_for) w i))
            (Keeps-modify back_off-Keeps)))

    say_goodbye-Keeps : (addr : Option ℕ) → Keeps I (say_goodbye bus addr)
    unfolding say_goodbye
    say_goodbye-Keeps none = Keeps-pure
    say_goodbye-Keeps (some addr) = on_link-Keeps c.calm bus _

    pub release-Keeps : Keeps I (release bus)
    unfolding release release_link
    release-Keeps = Keeps-here (λ w.
        Keeps-if w.link
          (Keeps-then (Keeps-modify (c.state releasing "")) (
            Keeps-then
              (Keeps-attempt is_os_or_aisg (Keeps-here (λ v. say_goodbye-Keeps v.address))
                (λ e. Keeps-pure))
              (Keeps-then
                (Keeps-attempt is_os_error (on_link-Keeps c.calm bus bus.close) (λ e. Keeps-pure))
                (Keeps-modify (c.link false)))))
          Keeps-pure)

    pub fail_link-Keeps : (why : String) → Keeps I (fail_link bus why)
    unfolding fail_link
    fail_link-Keeps why =
        Keeps-then release-Keeps (Keeps-then (Keeps-modify (c.state backoff why)) arm_backoff-Keeps)

    -- The ways of opening.
    open_link-Keeps : Keeps I (open_link bus)
    unfolding open_link
    open_link-Keeps = record {
      run = λ w i. go (link_opened (bus.serial_open w.env).0) _ (c.calm.env _ w i);
    }
      where
        go : (r : Result (Unit {0})) (w : Worker E) → I w → I (keep_link bus r w).1
        go (ok u) w i = c.link true w i
        go (err e) w i = i

    give_up-Keeps : (s : LinkState) (text : String) → Keeps I (give_up bus s text)
    unfolding give_up
    give_up-Keeps s text =
        Keeps-then release-Keeps (Keeps-then (Keeps-modify (c.state s text)) arm_backoff-Keeps)

    enter-Keeps : (addr : ℕ) → Keeps I (enter bus addr)
    unfolding enter
    enter-Keeps addr =
        Keeps-then (Keeps-modify (λ w i. c.want false _ (c.calm.address (some addr) w i))) (
          Keeps-bind (on_connected-Keeps c.calm bus) (λ usable.
            Keeps-if usable (Keeps-modify (λ w i. c.state connected "" _ (c.restored w i)))
              (Keeps-here (λ w. fail_link-Keeps (reason w)))))

    bring_up-Keeps : (addr : ℕ) → Keeps I (bring_up bus addr)
    unfolding bring_up
    bring_up-Keeps addr = Keeps-then (Keeps-modify (c.state connecting "")) (
        Keeps-bind
          (Keeps-attempt is_aisg_error
            (Keeps-then (on_link-Keeps c.calm bus (bus.connect addr)) (Keeps-pure {a = true}))
            (λ e. Keeps-then (give_up-Keeps backoff (bus.str e)) (Keeps-pure {a = false})))
          (λ up. Keeps-if up (enter-Keeps addr) Keeps-pure))

    settle-Keeps : (found : Option (Option ℕ)) → Keeps I (settle bus found)
    unfolding settle
    settle-Keeps none = Keeps-pure
    settle-Keeps (some none) = give_up-Keeps _ _
    settle-Keeps (some (some addr)) = bring_up-Keeps addr

    search_bus-Keeps : Keeps I (search_bus bus)
    unfolding search_bus
    search_bus-Keeps = Keeps-then (clear_stale_links-Keeps c.calm bus) (
        Keeps-then (Keeps-modify (c.state discovering "")) (
          Keeps-bind
            (Keeps-attempt is_aisg_error
              (Keeps-bind (discover-Keeps c.calm bus) (λ addr. Keeps-pure {a = some addr}))
              (λ e. Keeps-then (give_up-Keeps backoff (bus.str e)) (Keeps-pure {a = none})))
            settle-Keeps))

    pub open_and_connect-Keeps : Keeps I (open_and_connect bus)
    unfolding open_and_connect
    open_and_connect-Keeps = Keeps-then (Keeps-modify (c.state opening "")) (
        Keeps-bind
          (Keeps-attempt is_aisg_error (Keeps-then open_link-Keeps (Keeps-pure {a = true})) (λ e.
            Keeps-then (Keeps-modify (c.state (state_for e) (bus.str e)))
              (Keeps-then arm_backoff-Keeps (Keeps-pure {a = false}))))
          (λ opened. Keeps-if opened search_bus-Keeps Keeps-pure))
