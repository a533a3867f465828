-- ===== src/Session/Worker/Serving.antt =====
-- The passes of `SerialWorker` in openaisg/session.py end in states that last.
use openaisg.Common.{
  ℕ, Bool, true, false, List, [], ◌∷◌, Option, none, some, ltb, leb, ◌≡◌, refl, ap, ◌∙◌,
  if◌then◌else◌,
}
use mathlib.Core.Path.{subst}
use openaisg.Common.Int.{ℤ}
use openaisg.Errors.{
  LinkState, closed, connected, draining, leased, Error, session_error, is_aisg_error, err, pure,
  modify, ◌>>=◌,
}
use openaisg.Errors.Rules.{
  Keeps, Keeps-bind, Keeps-then, Keeps-if, Keeps-pure, Keeps-modify, Keeps-here, either_way,
}
use openaisg.Errors.Contracts.{
  Returns, Meets, Meets-bind, Meets-then, Meets-if, Meets-pure, Meets-raise, Meets-modify,
  Meets-here, Meets-from, Meets-kept, Meets-attempt, Meets-attempt_any, Meets-finally,
}
use openaisg.Session.Bus.{Bus}
use openaisg.Session.Worker.{
  Name, write_tilt, Answer, Future, pending, running, cancelled, cancelled_and_notified, finished,
  Command, Worker, any_error, same_state, set_state, clock,
}
use openaisg.Session.Worker.Entry.{is_link_reset, drain_indications, with_ret}
use openaisg.Session.Worker.Commands.{
  fails_fast, is_acked_timeout, finish, cancel, claim, claim_from, abandon, aim, aim_at, take,
  take_from, run_command, quarantine, failed, succeeded, conclude, try_command, execute,
  refresh_lease, dispatch, await_link, turn_away, if_not_up, try_in_state, try_execute, put, submit,
  lease, unlease,
}
use openaisg.Session.Worker.Upkeep.{}
use openaisg.Session.Worker.Loop.{
  serve_head, serve, turn, pass, Moves, passes, submits, cancels, leases, unleases, Reach, here,
  there,
}
use openaisg.Session.Worker.Calm.{
  Calm, drain_indications-Keeps, absorb-Keeps, with_ret-Keeps, run_command-Keeps,
}
use openaisg.Session.Worker.Asking.{clock-Keeps}
use openaisg.Session.Worker.Holding.{Holds, link-At, step-Holds}
use openaisg.Session.Worker.Settled.{
  settles, same_state→eq, IsSettled, set_state-IsSettled, IsSettled-calm, state_link_calm,
}
use openaisg.Session.Worker.Establishing.{fail_link-settles}

module _ {E : Type 0} (bus : Bus E) where
  -- A link that is up.
  abbrev Up : LinkState → Bool → Type 0
  Up s l = (s ≡ connected) × (l ≡ true)

  abbrev IsUp : Worker E → Type 0
  IsUp w = Up w.state w.link

  IsUp-IsSettled : (w : Worker E) → IsUp w → IsSettled w
  IsUp-IsSettled w h = ap (λ l. settles w.state l) h.1 ∙ ap (λ s. settles s true) h.0

  claim-Keeps :
      (P : LinkState → Bool → Type 0) (seq : ℕ)
      → Keeps (λ (w : Worker E). P w.state w.link) (claim seq)
  unfolding claim
  claim-Keeps P seq = Keeps-here (λ w. go (w.futures seq))
    where
      go : (future : Future) → Keeps (λ (w : Worker E). P w.state w.link) (claim_from future seq)
      go pending = record { run = λ w i. i }
      go cancelled = record { run = λ w i. i }
      go running = record { run = λ w i. i }
      go cancelled_and_notified = record { run = λ w i. i }
      go (finished r) = record { run = λ w i. i }

  abandon-Keeps : (seq : ℕ) (e : Error) → Keeps (IsSettled {E = E}) (abandon seq e)
  unfolding abandon
  abandon-Keeps seq e =
      Keeps-bind (claim-Keeps (λ s l. settles s l ≡ true) seq)
        (λ claimed. Keeps-if claimed (Keeps-modify {f = finish seq (err e)} (λ w i. i)) Keeps-pure)

  aim-Holds : (cmd : Command) → Meets IsUp (aim cmd) (λ _. IsUp)
  unfolding aim
  aim-Holds cmd = go cmd.name cmd.degrees
    where
      go : (name : Name) (degrees : Option ℤ) → Meets IsUp (aim_at name degrees) (λ _. IsUp)
      go write_tilt none = Meets-raise
      go write_tilt (some tenths) =
          Meets-modify (λ w. record w { target_tilt = some tenths }) (λ w h. h)
      go name degrees = Meets-pure (λ w h. h)

  quarantine-settles : (e : Error) (w : Worker E) → IsUp w → IsSettled (quarantine e w)
  unfolding quarantine
  quarantine-settles e w h =
      either_way IsSettled (is_acked_timeout e)
        (set_state-IsSettled draining "late response expected" w h.1) (IsUp-IsSettled w h)

  failed-settles : (cmd : Command) (e : Error) → Meets IsUp (failed bus cmd e) (λ _. IsSettled)
  unfolding failed
  failed-settles cmd e =
      Meets-then (Meets-modify (λ w. record w { last_error = bus.str e }) {Q = IsUp} (λ w h. h)) (
        Meets-then {Q = IsSettled}
          (Meets-if (is_link_reset e) (Meets-from (λ _ _. tt) (fail_link-settles bus (bus.str e)))
            (Meets-modify (quarantine e) (quarantine-settles e)))
          (Meets-modify (finish cmd.seq (err e)) (λ w h. h)))

  succeeded-Keeps :
      (cmd : Command) (answer : Option Answer) (w : Worker E)
      → IsSettled w
      → IsSettled (succeeded cmd answer w)
  unfolding succeeded
  succeeded-Keeps cmd none w h = h
  succeeded-Keeps cmd (some answer) w h = absorb-Keeps IsSettled-calm answer w h

  run-Keeps : (cmd : Command) → Keeps IsUp (with_ret bus (run_command bus cmd))
  run-Keeps cmd =
      let c : Calm IsUp = state_link_calm Up in with_ret-Keeps c bus (run_command-Keeps c bus cmd)

  try_command-settles : (cmd : Command) → Meets IsUp (try_command bus cmd) (λ _. IsSettled)
  unfolding try_command
  try_command-settles cmd =
      Meets-bind {Q = λ _. IsSettled}
        (Meets-attempt is_aisg_error (Keeps-bind (run-Keeps cmd) (λ a. Keeps-pure {a = some a}))
          (Meets-bind (Meets-kept (run-Keeps cmd)) (λ a. Meets-pure {a = some a} IsUp-IsSettled))
          (λ e.
            Meets-then {Q = IsSettled} (failed-settles cmd e) (Meets-pure {a = none} (λ w h. h))))
        (λ answer. Meets-modify (succeeded cmd answer) (succeeded-Keeps cmd answer))

  execute-settles : (cmd : Command) → Meets IsUp (execute bus cmd) (λ _. IsSettled)
  unfolding execute conclude
  execute-settles cmd = Meets-then (aim-Holds cmd) (
      Meets-finally (try_command-settles cmd) (λ _.
        Keeps-bind (clock-Keeps IsSettled-calm bus) (λ now.
          Keeps-modify {f = λ w. drain_indications (record w { last_command_at = now })} (λ w h.
            drain_indications-Keeps IsSettled-calm (record w { last_command_at = now }) h))))

  dispatch-settles : (cmd : Command) → Meets IsUp (dispatch bus cmd) (λ _. IsSettled)
  unfolding dispatch
  dispatch-settles cmd =
      Meets-bind {Q = λ _. IsUp} (Meets-kept (claim-Keeps Up cmd.seq)) (λ claimed.
        Meets-then {Q = IsSettled}
          (Meets-if claimed (execute-settles cmd) (Meets-pure IsUp-IsSettled))
          (Meets-pure {a = true} (λ w h. h)))

  turn_away-Holds : (cmd : Command) → Holds bus (turn_away bus cmd)
  turn_away-Holds cmd = Meets-kept (
      Keeps-here
        (λ w. Keeps-then (abandon-Keeps cmd.seq (session_error w.state)) (Keeps-pure {a = true})))

  await_link-Holds : (cmd : Command) → Holds bus (await_link bus cmd)
  unfolding await_link
  await_link-Holds cmd = Meets-bind (Meets-kept (clock-Keeps IsSettled-calm bus)) (λ now.
      Meets-if (ltb cmd.link_deadline now) (turn_away-Holds cmd) (
        Meets-then (Meets-modify (λ w. record w { want_link = true }) {Q = IsSettled} (λ w h. h))
          (Meets-pure {a = false} (λ w h. h))))

  try_in_state-Holds : (cmd : Command) → Holds bus (try_in_state bus cmd)
  unfolding try_in_state
  try_in_state-Holds cmd = record { run = λ w h. go w (same_state w.state connected) refl h }
    where
      otherwise : Holds bus (if_not_up bus cmd)
      otherwise =
          Meets-here
            (λ w _. Meets-if (fails_fast w.state) (turn_away-Holds cmd) (await_link-Holds cmd))

      go :
          (w : Worker E) (b : Bool)
          → same_state w.state connected ≡ b
          → IsSettled w
          → Returns (λ _. IsSettled) ((if b then dispatch bus cmd else if_not_up bus cmd) w)
      go w true e h =
          let s : w.state ≡ connected = same_state→eq w.state connected e in
          (dispatch-settles cmd).run w (s, link-At bus connected w (s, h))
      go w false e h = otherwise.run w h

  refresh_lease-Holds : Holds bus (refresh_lease bus)
  unfolding refresh_lease
  refresh_lease-Holds = record { run = λ w h. go w (same_state w.state leased) refl h }
    where
      ended :
          (w v : Worker E)
          → IsSettled v
          → w.state ≡ leased
          → v.state ≡ w.state
          → (b : Bool) → IsSettled (if b then set_state closed "" v else v)
      ended w v h e f b =
          either_way IsSettled b (set_state-IsSettled closed "" v (link-At bus leased v (f ∙ e, h)))
            h

      go :
          (w : Worker E) (b : Bool)
          → same_state w.state leased ≡ b
          → IsSettled w
          → Returns
              (λ _. IsSettled)
              ((if b
                  then clock bus >>= (λ now.
                    modify (λ v. if leb v.lease_until now then set_state closed "" v else v))
                  else pure tt)
                w)
      go w true e h =
          let (now, env) = bus.monotonic w.env in
          ended w (record w { env = env }) h (same_state→eq w.state leased e) refl
            (leb w.lease_until now)
      go w false e h = h

  try_execute-Holds : (cmd : Command) → Holds bus (try_execute bus cmd)
  unfolding try_execute
  try_execute-Holds cmd = Meets-then refresh_lease-Holds (try_in_state-Holds cmd)

  serve_head-Holds : (head : Option Command) → Holds bus (serve_head bus head)
  serve_head-Holds none = step-Holds bus
  serve_head-Holds (some cmd) = Meets-bind {Q = λ _. IsSettled} (try_execute-Holds cmd) (λ handled.
      Meets-if handled (Meets-modify (λ v. record v { head = none }) (λ v h. h)) (step-Holds bus))

  take-Holds : (w : Worker E) → IsSettled w → IsSettled (take w)
  unfolding take
  take-Holds w h = go w.head w.queue
    where
      go : (head : Option Command) (queue : List Command) → IsSettled (take_from head queue w)
      go (some cmd) queue = h
      go none [] = h
      go none (cmd ∷ cmds) = h

  pass-Holds : Holds bus (pass bus)
  unfolding pass turn serve
  pass-Holds =
      Meets-attempt_any any_error
        (Meets-then refresh_lease-Holds
          (Meets-then (Meets-modify take take-Holds) (Meets-here (λ w _. serve_head-Holds w.head))))
        (λ e. fail_link-settles bus "internal error")

  submit-Holds :
      (name : Option Name) (degrees : Option ℤ) (priority link_wait : ℕ) (w : Worker E)
      → IsSettled w
      → IsSettled (submit bus name degrees priority link_wait w).1
  unfolding submit put
  submit-Holds none degrees priority link_wait w h = h
  submit-Holds (some name) degrees priority link_wait w h = h

  Moves-hold : {w w' : Worker E} → Moves bus w w' → IsSettled w → IsSettled w'
  unfolding cancel lease unlease
  Moves-hold {w} (passes e) h = subst (Returns (λ _. IsSettled)) e (pass-Holds.run w h)
  Moves-hold {w} (submits name degrees priority link_wait) h =
      submit-Holds name degrees priority link_wait w h
  Moves-hold (cancels seq) h = h
  Moves-hold (leases duration) h = h
  Moves-hold unleases h = h

  -- However a worker is used, by passes of its loop and by calls of other threads in any order:
  -- where the state at the beginning tells whether the link is there, every later state does. The
  -- link is there in CONNECTED and DRAINING, it is not in CLOSED, PORT_BUSY, PORT_LOST, NO_DEVICES,
  -- BACKOFF, LEASED and SHUTDOWN, and no pass that lives ends in OPENING, DISCOVERING, CONNECTING
  -- or RELEASING.
  pub Reach-IsSettled : (w w' : Worker E) → IsSettled w → Reach bus w w' → IsSettled w'
  Reach-IsSettled w w' h here = h
  Reach-IsSettled w w' h (there {w'' = v} r m) = Moves-hold m (Reach-IsSettled w _ h r)
