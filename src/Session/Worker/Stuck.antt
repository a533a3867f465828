-- ===== src/Session/Worker/Stuck.antt =====
-- openaisg/session.py: what becomes of `SerialWorker.run` when a command is left in `head` with a
-- future that is running, as an exception leaves it that `_execute` does not catch.
use openaisg.Common.{
  ◌+◌, ◌*◌, ◌<◌, Bool, true, false, ◌&&◌, ◌||◌, none, some, ◌==◌, ◌≡◌, refl, sym, ap, ◌∙◌, arith,
  if◌then◌else◌, min, inl, inr, Bool-cases, ==_iff,
}
use mathlib.Core.Path.{subst}
use mathlib.Core.Bool.{false≢true}
use openaisg.Common.Texts.{String, same_text}
use openaisg.Errors.{
  LinkState, connected, leased, backoff, port_busy, port_lost, no_devices, session_error,
  runtime_error, Error, ok, err, pure, modify, ◌>>◌, after_ok, after_err,
}
use openaisg.Errors.Rules.{either_way, handled}
use openaisg.Session.Bus.{Bus}
use openaisg.Session.Worker.{
  running, Command, Worker, same_state, set_state, set_anew, put_future, back_off, arm_backoff,
  release, fail_link, any_error,
}
use openaisg.Session.Worker.Commands.{
  fails_fast, claim, claim_from, abandon, finish, turn_away, try_in_state, try_execute,
  refresh_lease, cancel, cancelled_from, put, submit, lease, unlease,
}
use openaisg.Session.Worker.Loop.{
  serve_rest, turn, pass, Moves, passes, submits, cancels, leases, unleases, Reach, here, there,
}
use openaisg.Session.Worker.Settled.{state-set_state}
use openaisg.Session.Worker.Turns.{refresh_unleased, turn_head, not_in}

-- Where the states differ.
abbrev is_connected : LinkState → Bool
is_connected connected = true
is_connected s = false

abbrev is_leased : LinkState → Bool
is_leased leased = true
is_leased s = false

not_leased : same_state backoff leased ≡ false
not_leased = not_in backoff leased (λ e. false≢true (ap is_leased e))

apart : same_state backoff connected ≡ false
apart = not_in backoff connected (λ e. false≢true (ap is_connected e))

fast : fails_fast backoff ≡ true
unfolding fails_fast
fast = refl

module _ {E : Type 0} (cmd : Command) where
  -- The worker backs off with a command in hand that is already running.
  pub record IsStuck (w : Worker E) : Type 0 where
    pub state_is : w.state ≡ backoff
    pub link_is : w.link ≡ false
    pub head_is : w.head ≡ some cmd
    pub future_is : w.futures cmd.seq ≡ running
    pub is_old : cmd.seq < w.next_seq

  -- What is stuck, the state aside.
  abbrev Holds : Worker E → Type 0
  Holds w =
      (w.link ≡ false)
      × (w.head ≡ some cmd)
      × (w.futures cmd.seq ≡ running)
      × (cmd.seq < w.next_seq)

  set_state-Holds :
      (s : LinkState) (text : String) (w : Worker E) → Holds w → Holds (set_state s text w)
  unfolding set_state
  set_state-Holds s text w h =
      either_way Holds (same_state s w.state && same_text text w.last_error) {x = w}
        {y = set_anew s text w} h h

  back_off-IsStuck : (w : Worker E) → w.state ≡ backoff → Holds w → IsStuck (back_off w)
  unfolding back_off
  back_off-IsStuck w e h =
      let b : Bool =
        same_state w.state port_busy
        || same_state w.state port_lost
        || same_state w.state no_devices in
      let x : Worker E = set_state backoff "" w in
      let k : Holds (if b then w else x) =
        either_way Holds b {x = w} {y = x} h (set_state-Holds backoff "" w h) in
      record {
        state_is =
            either_way (λ (v : Worker E). v.state ≡ backoff) b {x = w} {y = x} e
              (state-set_state backoff "" w);
        link_is = k.0;
        head_is = k.1;
        future_is = k.2;
        is_old = k.3;
      }

  module _ (bus : Bus E) where
    shut : (w : Worker E) → w.link ≡ false → release bus w ≡ (ok tt, w)
    unfolding release
    shut w n = rw n refl

    -- `_fail_link` without a link.
    fail_link-IsStuck :
        (why : String) (w : Worker E)
        → Holds w
        → (v : Worker E) × (fail_link bus why w ≡ (ok tt, v)) × IsStuck v
    unfolding fail_link arm_backoff
    fail_link-IsStuck why w h =
        let s : Worker E = set_state backoff why w in
        let d : Worker E = record s { backoff_for = min (s.backoff_for * 2) 60000 } in
        let (now, env) = bus.monotonic d.env in
        let t : Worker E = record d { env = env; backoff_until = now + d.backoff_for } in
        (
          back_off t,
          after_ok (release bus) (λ _. modify (set_state backoff why) >> arm_backoff bus) w
              (shut w h.0),
          back_off-IsStuck t (state-set_state backoff why w) (set_state-Holds backoff why w h),
        )

    unleased : (w : Worker E) → w.state ≡ backoff → same_state w.state leased ≡ false
    unleased w e = ap (λ t. same_state t leased) e ∙ not_leased

    claim_stuck :
        (w : Worker E) → w.futures cmd.seq ≡ running → claim cmd.seq w ≡ (err runtime_error, w)
    unfolding claim
    claim_stuck w r = ap (λ f. claim_from f cmd.seq w) r

    turn_away_stuck :
        (w : Worker E) → w.futures cmd.seq ≡ running → turn_away bus cmd w ≡ (err runtime_error, w)
    unfolding abandon
    turn_away_stuck w r =
        let e : Error = session_error w.state in
        after_err (abandon cmd.seq e) (λ _. pure true) w
          (after_err (claim cmd.seq) (λ c. if c then modify (finish cmd.seq (err e)) else pure tt) w
            (claim_stuck w r))

    try_execute_stuck : (w : Worker E) → IsStuck w → try_execute bus cmd w ≡ (err runtime_error, w)
    unfolding try_execute try_in_state
    try_execute_stuck w s =
        let c : same_state w.state connected ≡ false =
          ap (λ t. same_state t connected) s.state_is ∙ apart in
        let f : fails_fast w.state ≡ true = ap fails_fast s.state_is ∙ fast in
        after_ok (refresh_lease bus) (λ _. try_in_state bus cmd) w
          (refresh_unleased bus w (unleased w s.state_is))
        ∙ rw (c, f) (turn_away_stuck w s.future_is)

    pass-IsStuck :
        (w : Worker E) → IsStuck w → (v : Worker E) × (pass bus w ≡ (ok tt, v)) × IsStuck v
    unfolding pass
    pass-IsStuck w s =
        let raises : turn bus w ≡ (err runtime_error, w) =
          turn_head bus cmd w (unleased w s.state_is) s.head_is
          ∙ after_err (try_execute bus cmd) (serve_rest bus) w (try_execute_stuck w s) in
        let (v, e, s') =
          fail_link-IsStuck "internal error" w (s.link_is, s.head_is, s.future_is, s.is_old) in
        (v, ap (handled any_error (λ _. fail_link bus "internal error")) raises ∙ e, s')

    Moves-IsStuck : {w w' : Worker E} → Moves bus w w' → IsStuck w → IsStuck w'
    unfolding submit put cancel lease unlease put_future
    Moves-IsStuck {w} (passes e) s =
        let (v, p, s') = pass-IsStuck w s in subst IsStuck (ap (λ x. x.1) (sym p ∙ e)) s'
    Moves-IsStuck (submits none degrees priority link_wait) s = s
    Moves-IsStuck {w} (submits (some name) degrees priority link_wait) s = record {
      state_is = s.state_is;
      link_is = s.link_is;
      head_is = s.head_is;
      future_is = ground (arith, s.is_old, s.future_is);
      is_old = omega (arith, s.is_old);
    }
    Moves-IsStuck {w} (cancels seq) s = record {
      state_is = s.state_is;
      link_is = s.link_is;
      head_is = s.head_is;
      future_is = kept;
      is_old = s.is_old;
    }
      where
        kept : put_future seq (cancelled_from (w.futures seq)) w.futures cmd.seq ≡ running
        kept = elim (Bool-cases (cmd.seq == seq)) [
          | inl e ↦ rw e (
              ap (λ m. cancelled_from (w.futures m)) (sym ((==_iff cmd.seq seq).0 e))
              ∙ ap cancelled_from s.future_is)
          | inr e ↦ rw e s.future_is
        ]
    Moves-IsStuck (leases duration) s = record {
      state_is = s.state_is;
      link_is = s.link_is;
      head_is = s.head_is;
      future_is = s.future_is;
      is_old = s.is_old;
    }
    Moves-IsStuck unleases s = record {
      state_is = s.state_is;
      link_is = s.link_is;
      head_is = s.head_is;
      future_is = s.future_is;
      is_old = s.is_old;
    }

    -- Where a worker backs off without a link, with a command in hand whose future is running, it
    -- does so in every state that its passes and the calls of `submit`, `cancel`, `lease` and
    -- `unlease` lead to, in any order: as long as `stop` is not called, the command is never
    -- answered, the state is never left and no later command is served.
    pub Reach-IsStuck : (w w' : Worker E) → IsStuck w → Reach bus w w' → IsStuck w'
    Reach-IsStuck w w' s here = s
    Reach-IsStuck w w' s (there r m) = Moves-IsStuck m (Reach-IsStuck w _ s r)
