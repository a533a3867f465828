-- ===== src/Session/Worker/Passing.antt =====
-- The rule for invariants of `SerialWorker` of openaisg/session.py, continued: its commands, a pass of
-- its loop, and the other threads.
use openaisg.Common.{ℕ, ◌+◌, true, false, List, [], ◌∷◌, Option, none, some, ltb}
use openaisg.Common.Int.{ℤ}
use mathlib.Core.Path.{subst}
use openaisg.Errors.{connected, draining, Error, session_error, is_aisg_error, Result, ok, err}
use openaisg.Errors.Rules.{
  Keeps, Keeps-bind, Keeps-then, Keeps-attempt, Keeps-finally, Keeps-if, Keeps-pure, Keeps-raise,
  Keeps-modify, Keeps-here, either_way,
}
use openaisg.Session.Bus.{Bus}
use openaisg.Session.Worker.{
  Name, write_tilt, Answer, Future, pending, running, cancelled, cancelled_and_notified, finished,
  Command, Worker, any_error, same_state,
}
use openaisg.Session.Worker.Entry.{is_link_reset}
use openaisg.Session.Worker.Commands.{
  fails_fast, is_acked_timeout, finish, cancel, claim, claim_from, abandon, aim, take, failed,
  succeeded, conclude, try_command, execute, dispatch, await_link, try_in_state, try_execute,
  aim_at, quarantine, take_from, turn_away, put, submit, lease, unlease,
}
use openaisg.Session.Worker.Upkeep.{}
use openaisg.Session.Worker.Loop.{
  serve_head, serve, turn, pass, Moves, passes, submits, cancels, leases, unleases, Reach, here,
  there,
}
use openaisg.Session.Worker.Calm.{
  drain_indications-Keeps, absorb-Keeps, with_ret-Keeps, run_command-Keeps,
}
use openaisg.Session.Worker.Asking.{clock-Keeps}
use openaisg.Session.Worker.Inert.{Inert, fail_link-Keeps}
use openaisg.Session.Worker.Linked.{step-Keeps, refresh_lease-Keeps}

module _ {E : Type 0} {I : Worker E → Type 0} (c : Inert I) (bus : Bus E) (cmd : Command)
    (fin : (r : Result Answer) (w : Worker E) → I w → I (finish cmd.seq r w)) where
  aim-Keeps : Keeps I (aim cmd)
  unfolding aim
  aim-Keeps = Keeps-here (λ w. go cmd.name cmd.degrees)
    where
      go : (name : Name) (degrees : Option ℤ) → Keeps I (aim_at name degrees)
      go write_tilt none = Keeps-raise
      go write_tilt (some tenths) = Keeps-modify (c.target (some tenths))
      go name degrees = Keeps-pure

  failed-Keeps : (e : Error) → Keeps I (failed bus cmd e)
  unfolding failed quarantine
  failed-Keeps e = Keeps-then (Keeps-modify (c.calm.error (bus.str e))) (
      Keeps-then
        (Keeps-if (is_link_reset e) (fail_link-Keeps c bus (bus.str e)) (
          Keeps-modify (λ w i.
            either_way I (is_acked_timeout e) (c.state draining "late response expected" w i) i)))
        (Keeps-modify (fin (err e))))

  succeeded-Keeps : (answer : Option Answer) (w : Worker E) → I w → I (succeeded cmd answer w)
  unfolding succeeded
  succeeded-Keeps none w i = i
  succeeded-Keeps (some answer) w i = fin (ok answer) _ (absorb-Keeps c.calm answer w i)

  try_command-Keeps : Keeps I (try_command bus cmd)
  unfolding try_command
  try_command-Keeps =
      Keeps-bind
        (Keeps-attempt is_aisg_error
          (Keeps-bind (with_ret-Keeps c.calm bus (run_command-Keeps c.calm bus cmd))
            (λ a. Keeps-pure {a = some a}))
          (λ e. Keeps-then (failed-Keeps e) (Keeps-pure {a = none})))
        (λ answer. Keeps-modify (succeeded-Keeps answer))

  pub execute-Keeps : Keeps I (execute bus cmd)
  unfolding execute conclude
  execute-Keeps = Keeps-then aim-Keeps (
      Keeps-finally try_command-Keeps (
        Keeps-bind (clock-Keeps c.calm bus)
          (λ now. Keeps-modify (λ w i. drain_indications-Keeps c.calm _ (c.command_at now w i)))))

module _ {E : Type 0} {I : Worker E → Type 0} (c : Inert I) (bus : Bus E)
    (queued : (q : List Command) (w : Worker E) → I w → I (record w { queue = q }))
    (served : (cmd : Command) → Keeps I (dispatch bus cmd))
    (abandoned : (seq : ℕ) (e : Error) → Keeps I (abandon seq e)) where
  turn_away-Keeps : (cmd : Command) → Keeps I (turn_away bus cmd)
  turn_away-Keeps cmd =
      Keeps-here
        (λ w. Keeps-then (abandoned cmd.seq (session_error w.state)) (Keeps-pure {a = true}))

  await_link-Keeps : (cmd : Command) → Keeps I (await_link bus cmd)
  unfolding await_link
  await_link-Keeps cmd = Keeps-bind (clock-Keeps c.calm bus) (λ now.
      Keeps-if (ltb cmd.link_deadline now) (turn_away-Keeps cmd)
        (Keeps-then (Keeps-modify (c.want true)) (Keeps-pure {a = false})))

  try_execute-Keeps : (cmd : Command) → Keeps I (try_execute bus cmd)
  unfolding try_execute try_in_state
  try_execute-Keeps cmd = Keeps-then (refresh_lease-Keeps c bus) (
      Keeps-here (λ w. Keeps-if (same_state w.state connected) (served cmd) (
        Keeps-here
          (λ v. Keeps-if (fails_fast v.state) (turn_away-Keeps cmd) (await_link-Keeps cmd)))))

  serve_head-Keeps : (head : Option Command) → Keeps I (serve_head bus head)
  serve_head-Keeps none = step-Keeps c bus
  serve_head-Keeps (some cmd) =
      Keeps-bind (try_execute-Keeps cmd)
        (λ handled. Keeps-if handled (Keeps-modify (c.head none)) (step-Keeps c bus))

  take-Keeps : (w : Worker E) → I w → I (take w)
  unfolding take
  take-Keeps w i = go w.head w.queue
    where
      go : (head : Option Command) (queue : List Command) → I (take_from head queue w)
      go (some cmd) queue = i
      go none [] = i
      go none (cmd ∷ cmds) = queued cmds _ (c.head (some cmd) w i)

  pub pass-Keeps : Keeps I (pass bus)
  unfolding pass turn serve
  pass-Keeps =
      Keeps-attempt any_error
        (Keeps-then (refresh_lease-Keeps c bus)
          (Keeps-then (Keeps-modify take-Keeps) (Keeps-here (λ w. serve_head-Keeps w.head))))
        (λ e. fail_link-Keeps c bus "internal error")

  -- An invariant of the passes that the other threads keep holds in every state that is reached.
  module _
      (submitted : (name : Name) (degrees : Option ℤ) (priority deadline : ℕ)
        → Keeps I (put name degrees priority deadline))
      (revoked : (seq : ℕ) (w : Worker E) → I w → I (cancel seq w)) where
    submit-Keeps :
        (name : Option Name) (degrees : Option ℤ) (priority link_wait : ℕ)
        → Keeps I (submit bus name degrees priority link_wait)
    unfolding submit
    submit-Keeps none degrees priority link_wait = Keeps-raise
    submit-Keeps (some name) degrees priority link_wait =
        Keeps-bind (clock-Keeps c.calm bus)
          (λ now. submitted name degrees priority (now + link_wait))

    lease-Keeps : (duration : ℕ) → Keeps I (lease bus duration)
    unfolding lease
    lease-Keeps duration =
        Keeps-bind (clock-Keeps c.calm bus) (λ now. Keeps-modify (c.lease (now + duration)))

    moves_keep : {w w' : Worker E} → Moves bus w w' → I w → I w'
    unfolding unlease
    moves_keep {w} (passes e) i = subst (λ x. I x.1) e (pass-Keeps.run w i)
    moves_keep {w} (submits name degrees priority link_wait) i =
        (submit-Keeps name degrees priority link_wait).run w i
    moves_keep {w} (cancels seq) i = revoked seq w i
    moves_keep {w} (leases duration) i = (lease-Keeps duration).run w i
    moves_keep {w} unleases i = c.lease 0 w i

    pub Reach-Keeps : {w w' : Worker E} → Reach bus w w' → I w → I w'
    Reach-Keeps here i = i
    Reach-Keeps (there r m) i = moves_keep m (Reach-Keeps r i)

-- A predicate that does not look at the futures.
module _ {E : Type 0} {I : Worker E → Type 0} (c : Inert I) (bus : Bus E)
    (blind : (f : ℕ → Future) (w : Worker E) → I w → I (record w { futures = f })) where
  pub claim-Keeps : (seq : ℕ) → Keeps I (claim seq)
  unfolding claim
  claim-Keeps seq = Keeps-here (λ w. go (w.futures seq))
    where
      go : (future : Future) → Keeps I (claim_from future seq)
      go pending = record { run = λ w i. blind _ w i }
      go cancelled = record { run = λ w i. blind _ w i }
      go running = record { run = λ w i. i }
      go cancelled_and_notified = record { run = λ w i. i }
      go (finished r) = record { run = λ w i. i }

  pub dispatch-Keeps : (cmd : Command) → Keeps I (dispatch bus cmd)
  unfolding dispatch
  dispatch-Keeps cmd = Keeps-bind (claim-Keeps cmd.seq) (λ claimed.
      Keeps-then (Keeps-if claimed (execute-Keeps c bus cmd (λ r w i. blind _ w i)) Keeps-pure)
        (Keeps-pure {a = true}))

  pub abandon-Keeps : (seq : ℕ) (e : Error) → Keeps I (abandon seq e)
  unfolding abandon
  abandon-Keeps seq e = Keeps-bind (claim-Keeps seq) (λ claimed.
      Keeps-if claimed (Keeps-modify {f = finish seq (err e)} (λ w i. blind _ w i)) Keeps-pure)

  pub reach_blindly :
      ((q : List Command) (w : Worker E) → I w → I (record w { queue = q }))
      → ((name : Name) (degrees : Option ℤ) (priority deadline : ℕ)
          → Keeps I (put name degrees priority deadline))
      → {w w' : Worker E} → Reach bus w w'
      → I w
      → I w'
  unfolding cancel
  reach_blindly queued submitted =
      Reach-Keeps c bus queued dispatch-Keeps abandon-Keeps submitted (λ seq w i. blind _ w i)
