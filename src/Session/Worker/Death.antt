-- ===== src/Session/Worker/Death.antt =====
-- openaisg/session.py: the handler of `SerialWorker.run`, which "must never die", releases the link, and
-- the release can raise.
use openaisg.Common.{Bool, true, false, ◌&&◌, none, some, ℕ, ◌≡◌, sym, ap, ◌∙◌, if◌then◌else◌}
use mathlib.Core.Bool.{false≢true}
use openaisg.Common.Texts.{String, same_text}
use openaisg.Errors.{
  LinkState, releasing, backoff, frame_error, attribute_error, Error, Result, ok, err, Action, pure,
  modify, ◌>>◌, attempt, after_err,
}
use openaisg.Errors.Rules.{either_way, bound, handled}
use openaisg.Session.Bus.{Bus}
use openaisg.Session.Worker.{
  Worker, same_state, set_state, set_anew, on_link, say_goodbye, is_os_or_aisg, is_os_error,
  any_error, release_link, release, arm_backoff, fail_link,
}
use openaisg.Session.Worker.Loop.{turn, pass}

abbrev was_ok : Result (Unit {0}) → Bool
was_ok (ok u) = true
was_ok (err e) = false

module _ {E : Type 0} where
  -- The fields that `say_goodbye` reads.
  abbrev Held : ℕ → E → Worker E → Type 0
  Held addr env w = (w.link ≡ true) × (w.address ≡ some addr) × (w.env ≡ env)

  set_state-Held :
      (addr : ℕ) (env : E) (s : LinkState) (text : String) (w : Worker E)
      → Held addr env w
      → Held addr env (set_state s text w)
  unfolding set_state
  set_state-Held addr env s text w h =
      either_way (Held addr env) (same_state s w.state && same_text text w.last_error) {x = w}
        {y = set_anew s text w} h h

  module _ (bus : Bus E) (addr : ℕ) (env env' : E)
      (garbled : bus.disconnect addr none env ≡ (err frame_error, env')) where
    goodbye_raises :
        (w : Worker E)
        → Held addr env w
        → say_goodbye bus w.address w ≡ (err frame_error, record w { env = env' })
    unfolding say_goodbye
    goodbye_raises w h =
        ap (λ a. say_goodbye bus a w) h.1
        ∙ ap
            (λ (x : Result (Unit {0}) × E).
              if w.link then (x.0, record w { env = x.1 }) else (err attribute_error, w))
            (ap (bus.disconnect addr none) h.2 ∙ garbled)
        ∙ ap
            (λ (b : Bool).
              if b then (err frame_error, record w { env = env' }) else (err attribute_error, w))
            h.0

    release_raises : (w : Worker E) → Held addr env w → (release bus w).0 ≡ err frame_error
    unfolding release release_link
    release_raises w h =
        let v : Worker E = set_state releasing "" w in
        let m : Action (Worker E) (Unit {0}) =
          attempt (λ u. say_goodbye bus u.address u) is_os_or_aisg (λ e. pure tt) in
        let fails : m v ≡ (err frame_error, record v { env = env' }) =
          ap (handled is_os_or_aisg (λ e. pure tt))
            (goodbye_raises v (set_state-Held addr env releasing "" w h)) in
        let rest : Action (Worker E) (Unit {0}) =
          attempt (on_link bus.close) is_os_error (λ e. pure tt)
          >> modify (λ u. record u { link = false }) in
        ap (λ b. ((if b then release_link bus else pure tt) w).0) h.0
        ∙ ap (λ x. x.0) (after_err m (λ _. rest) v fails)

    -- Where the work of a pass raises and leaves the link with an address, and the DISC of the
    -- release raises `FrameError` from there, the pass ends with `FrameError`: the thread dies.
    pub pass-garbled :
        (e : Error) (w v : Worker E)
        → turn bus w ≡ (err e, v)
        → v.link ≡ true
        → v.address ≡ some addr
        → v.env ≡ env
        → (pass bus w).0 ≡ err frame_error
    unfolding pass fail_link
    pass-garbled e w v raises l a q =
        ap (λ x. (handled any_error (λ _. fail_link bus "internal error") x).0) raises
        ∙ lost (release bus v) (release_raises v (l, a, q))
      where
        lost :
            (x : Result (Unit {0}) × Worker E)
            → x.0 ≡ err frame_error
            → (bound (λ _. modify (set_state backoff "internal error") >> arm_backoff bus) x).0
              ≡ err frame_error
        lost (ok u, t) p = absurd (false≢true (sym (ap was_ok p)))
        lost (err e', t) p = p
