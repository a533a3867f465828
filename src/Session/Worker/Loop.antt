-- ===== src/Session/Worker/Loop.antt =====
-- openaisg/session.py: the loop of `SerialWorker`. A pass is one of its loop; what other threads do
-- stands between two passes.
use openaisg.Common.{ℕ, Bool, ◌||◌, List, [], ◌∷◌, Option, none, some, ltb, leb, ◌≡◌, if◌then◌else◌}
use openaisg.Common.Int.{ℤ}
use openaisg.Errors.{
  LinkState, closed, opening, port_busy, port_lost, discovering, no_devices, connecting, connected,
  draining, releasing, backoff, leased, shutdown, session_error, ok, Action, pure, modify, ◌>>=◌,
  ◌>>◌, attempt,
}
use openaisg.Session.Bus.{Bus}
use openaisg.Session.Worker.{
  Name, Command, Worker, same_state, any_error, set_state, clock, release, fail_link,
}
use openaisg.Session.Worker.Opening.{should_open, open_and_connect}
use openaisg.Session.Worker.Commands.{
  cancel, abandon, take, refresh_lease, try_execute, submit, lease, unlease,
}
use openaisg.Session.Worker.Upkeep.{drain, connected_housekeeping}

module _ {E : Type 0} (bus : Bus E) where
  -- The part of `_step` for a lease that lasts.
  unfoldable pub hand_over : Action (Worker E) (Unit {0})
  hand_over = do
    λ w. (if same_state w.state leased || same_state w.state closed then pure tt else release bus) w
    modify (set_state leased "")

  unfoldable pub maybe_open : ℕ → Action (Worker E) (Unit {0})
  maybe_open now w = (if should_open now w then open_and_connect bus else pure tt) w

  -- The part of `_step` behind the lease.
  abbrev pub in_state : LinkState → ℕ → Action (Worker E) (Unit {0})
  in_state closed now = maybe_open now
  in_state port_busy now = maybe_open now
  in_state port_lost now = maybe_open now
  in_state no_devices now = maybe_open now
  in_state backoff now = modify (λ w. if leb w.backoff_until now then set_state closed "" w else w)
  in_state draining now = drain bus
  in_state connected now = connected_housekeeping bus now
  in_state opening now = pure tt
  in_state discovering now = pure tt
  in_state connecting now = pure tt
  in_state releasing now = pure tt
  in_state leased now = pure tt
  in_state shutdown now = pure tt

  unfoldable pub step_in_state : ℕ → Action (Worker E) (Unit {0})
  step_in_state now w = in_state w.state now w

  abbrev pub step_behind_lease : ℕ → Action (Worker E) (Unit {0})
  step_behind_lease now = do
    modify (λ w. if same_state w.state leased then set_state closed "" w else w)
    step_in_state now

  -- `_step`.
  unfoldable pub step : Action (Worker E) (Unit {0})
  step = do
    now ← clock bus
    λ w. (if ltb now w.lease_until then hand_over else step_behind_lease now) w

  abbrev pub serve_rest : Bool → Action (Worker E) (Unit {0})
  serve_rest handled = if handled then modify (λ v. record v { head = none }) else step

  abbrev pub serve_head : Option Command → Action (Worker E) (Unit {0})
  serve_head none = step
  serve_head (some cmd) = do handled ← try_execute bus cmd; serve_rest handled

  -- The commands of a pass behind `_take`.
  unfoldable pub serve : Action (Worker E) (Unit {0})
  serve w = serve_head w.head w

  -- The `try` block of `run`.
  unfoldable pub turn : Action (Worker E) (Unit {0})
  turn = do refresh_lease bus; modify take; serve

  -- A pass of the loop of `run`; an exception that is left ends the thread.
  unfoldable pub pass : Action (Worker E) (Unit {0})
  pass = attempt turn any_error (λ e. fail_link bus "internal error")

  -- The loop of `_teardown` over the queue.
  unfoldable pub abandon_all : List Command → Action (Worker E) (Unit {0})
  abandon_all [] = pure tt
  abandon_all (cmd ∷ cmds) = do abandon cmd.seq (session_error shutdown); abandon_all cmds

  -- `_teardown`, and the state behind it.
  unfoldable pub teardown : Action (Worker E) (Unit {0})
  teardown = do
    λ w. (modify (λ v. record v { queue = [] }) >> abandon_all w.queue) w
    release bus
    modify (set_state shutdown "")

  -- What moves a worker that lives: a pass, and the calls of other threads but `stop`, behind which
  -- no pass follows.
  pub data Moves (w : Worker E) : Worker E → Type 0 where
    passes : {w' : Worker E} → pass w ≡ (ok tt, w') → Moves w w'
    submits :
        (name : Option Name) (degrees : Option ℤ) (priority link_wait : ℕ)
        → Moves w (submit bus name degrees priority link_wait w).1
    cancels : (seq : ℕ) → Moves w (cancel seq w)
    leases : (duration : ℕ) → Moves w (lease bus duration w).1
    unleases : Moves w (unlease w)

  pub data Reach (w : Worker E) : Worker E → Type 0 where
    here : Reach w w
    there : {w' w'' : Worker E} → Reach w w' → Moves w' w'' → Reach w w''
