-- ===== src/Session/Worker/Establishing.antt =====
-- `SerialWorker` of openaisg/session.py: how the opening and the release of the port settle.
use openaisg.Common.{
  ℕ, Bool, true, false, not, ◌||◌, ◌≡◌, refl, ap, ◌∙◌, Option, none, some, if◌then◌else◌, inl, inr,
  Bool-cases,
}
use openaisg.Common.Texts.{String}
use openaisg.Errors.{
  LinkState, opening, port_busy, port_lost, discovering, no_devices, connecting, connected,
  releasing, backoff, Error, is_aisg_error, Result, ok, err, modify, pure, attempt, ◌>>◌,
}
use openaisg.Errors.Rules.{bound, handled}
use openaisg.Errors.Contracts.{
  Meets, Always, Meets-bind, Meets-then, Meets-if, Meets-pure, Meets-modify, Meets-here, Meets-from,
  Meets-kept, Meets-any, Returns, Meets-attempt_any,
}
use openaisg.Session.Bus.{Bus, link_opened}
use openaisg.Session.Worker.{
  Worker, is_os_or_aisg, is_os_error, same_state, set_state, back_off, arm_backoff, say_goodbye,
  release_link, release, fail_link, on_link,
}
use openaisg.Session.Worker.Opening.{
  state_for, keep_link, open_link, give_up, enter, bring_up, settle, search_bus, open_and_connect,
  reason, refused_with,
}
use openaisg.Session.Worker.Calm.{on_connected-Keeps}
use openaisg.Session.Worker.Asking.{on_link-Keeps, clear_stale_links-Keeps, discover-Keeps}
use openaisg.Session.Worker.Settled.{
  settles, waits_settled, IsSettled, HasLink, HasNone, link-set_state, set_state-IsSettled,
  HasLink-calm,
}

module _ {E : Type 0} where
  back_off-IsSettled : (w : Worker E) → HasNone w → IsSettled (back_off w)
  unfolding back_off
  back_off-IsSettled w n =
      elim (Bool-cases (
        same_state w.state port_busy
        || same_state w.state port_lost
        || same_state w.state no_devices)) [
          | inl h ↦ rw h (ap (settles w.state) n ∙ waits_settled w.state h)
          | inr h ↦ rw h (set_state-IsSettled backoff "" w (ap not n))
        ]

  module _ (bus : Bus E) where
    arm_backoff-settles : Meets HasNone (arm_backoff bus) (λ _. IsSettled)
    unfolding arm_backoff
    arm_backoff-settles = record { run = λ w n. back_off-IsSettled _ n }

    release_link_drops : Meets Always (release_link bus) (λ _. HasNone)
    unfolding release_link
    release_link_drops = Meets-then {Q = Always} (Meets-any (modify (set_state releasing ""))) (
        Meets-then {Q = Always}
          (Meets-any (attempt (λ w. say_goodbye bus w.address w) is_os_or_aisg (λ e. pure tt)))
          (Meets-then {Q = Always}
            (Meets-any (attempt (on_link bus.close) is_os_error (λ e. pure tt)))
            (Meets-modify (λ v. record v { link = false }) (λ v _. refl))))

    pub release_drops : Meets Always (release bus) (λ _. HasNone)
    unfolding release
    release_drops = record { run = λ w _. go w w.link refl }
      where
        go :
            (w : Worker E) (b : Bool)
            → w.link ≡ b
            → Returns (λ _. HasNone) ((if b then release_link bus else pure tt) w)
        go w true e = release_link_drops.run w tt
        go w false e = e

    give_up-settles :
        (s : LinkState) (text : String) → Meets Always (give_up bus s text) (λ _. IsSettled)
    unfolding give_up
    give_up-settles s text = Meets-then release_drops (
        Meets-then
          (Meets-modify (set_state s text) {Q = HasNone} (λ w n. link-set_state s text w ∙ n))
          arm_backoff-settles)

    pub fail_link-settles : (why : String) → Meets Always (fail_link bus why) (λ _. IsSettled)
    unfolding fail_link
    fail_link-settles why = Meets-then release_drops (
        Meets-then
          (Meets-modify (set_state backoff why) {Q = HasNone}
            (λ w n. link-set_state backoff why w ∙ n))
          arm_backoff-settles)

    -- What comes behind the constructor: the link is there until the port is given up.
    abbrev Opened : Bool → Worker E → Type 0
    Opened true = HasLink
    Opened false = IsSettled

    abbrev Found : Option (Option ℕ) → Worker E → Type 0
    Found none = IsSettled
    Found (some addr) = HasLink

    enter-settles : (addr : ℕ) → Meets HasLink (enter bus addr) (λ _. IsSettled)
    unfolding enter
    enter-settles addr =
        Meets-then
          (Meets-modify (λ w. record w { address = some addr; want_link = false }) {Q = HasLink}
            (λ w h. h))
          (Meets-bind {Q = λ _. HasLink} (Meets-kept (on_connected-Keeps HasLink-calm bus))
            (λ usable.
              Meets-if usable
                (Meets-modify (λ w. set_state connected "" (record w { backoff_for = 1000 }))
                  (λ w h. set_state-IsSettled connected "" _ h))
                (Meets-here {f = λ w. fail_link bus (reason w)}
                  (λ w h. Meets-from (λ _ _. tt) (fail_link-settles (reason w))))))

    bring_up-settles : (addr : ℕ) → Meets HasLink (bring_up bus addr) (λ _. IsSettled)
    unfolding bring_up
    bring_up-settles addr =
        Meets-then
          (Meets-modify (set_state connecting "") {Q = HasLink}
            (λ w h. link-set_state connecting "" w ∙ h))
          (Meets-bind {Q = Opened}
            (Meets-attempt_any is_aisg_error
              (Meets-then {Q = HasLink}
                (Meets-kept (on_link-Keeps HasLink-calm bus (bus.connect addr)))
                (Meets-pure {a = true} (λ w h. h)))
              (λ e.
                Meets-then {Q = IsSettled} (give_up-settles backoff (bus.str e))
                  (Meets-pure {a = false} (λ w h. h))))
            next)
      where
        next :
            (up : Bool)
            → Meets (Opened up) (if up then enter bus addr else pure tt) (λ _. IsSettled)
        next true = enter-settles addr
        next false = Meets-pure (λ w h. h)

    settle-settles :
        (found : Option (Option ℕ)) → Meets (Found found) (settle bus found) (λ _. IsSettled)
    unfolding settle
    settle-settles none = Meets-pure (λ w h. h)
    settle-settles (some none) = Meets-from (λ _ _. tt) (give_up-settles _ _)
    settle-settles (some (some addr)) = bring_up-settles addr

    search_bus-settles : Meets HasLink (search_bus bus) (λ _. IsSettled)
    unfolding search_bus
    search_bus-settles = Meets-then (Meets-kept (clear_stale_links-Keeps HasLink-calm bus)) (
        Meets-then
          (Meets-modify (set_state discovering "") {Q = HasLink}
            (λ w h. link-set_state discovering "" w ∙ h))
          (Meets-bind {Q = Found}
            (Meets-attempt_any is_aisg_error
              (Meets-bind {Q = λ _. HasLink} (Meets-kept (discover-Keeps HasLink-calm bus))
                (λ addr. Meets-pure {a = some addr} (λ w h. h)))
              (λ e.
                Meets-then {Q = IsSettled} (give_up-settles backoff (bus.str e))
                  (Meets-pure {a = none} (λ w h. h))))
            settle-settles))

    refused-settles : (e : Error) → Meets HasNone (refused_with bus e) Opened
    refused-settles e =
        Meets-then
          (Meets-modify (set_state (state_for e) (bus.str e)) {Q = HasNone}
            (λ w n. link-set_state (state_for e) (bus.str e) w ∙ n))
          (Meets-then {Q = IsSettled} arm_backoff-settles (Meets-pure {a = false} (λ w h. h)))

    constructor-settles :
        Meets HasNone (attempt (open_link bus >> pure true) is_aisg_error (refused_with bus)) Opened
    unfolding open_link
    constructor-settles = record { run = λ w n. go (link_opened (bus.serial_open w.env).0) _ n }
      where
        pick :
            (b : Bool) (e : Error) (w : Worker E)
            → HasNone w
            → Returns Opened (if b then refused_with bus e w else (err e, w))
        pick true e w n = (refused-settles e).run w n
        pick false e w n = tt

        go :
            (r : Result (Unit {0})) (w : Worker E)
            → HasNone w
            → Returns Opened (
                handled is_aisg_error
                  (refused_with bus)
                  (bound (λ _. pure true) (keep_link bus r w)))
        go (ok u) w n = refl
        go (err e) w n = pick (is_aisg_error e) e w n

    pub open_and_connect-settles : Meets HasNone (open_and_connect bus) (λ _. IsSettled)
    unfolding open_and_connect
    open_and_connect-settles =
        Meets-then
          (Meets-modify (set_state opening "") {Q = HasNone}
            (λ w n. link-set_state opening "" w ∙ n))
          (Meets-bind {Q = Opened} constructor-settles next)
      where
        next :
            (opened : Bool)
            → Meets (Opened opened) (if opened then search_bus bus else pure tt) (λ _. IsSettled)
        next true = search_bus-settles
        next false = Meets-pure (λ w h. h)
