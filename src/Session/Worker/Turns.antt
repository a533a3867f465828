-- ===== src/Session/Worker/Turns.antt =====
-- Single passes of `SerialWorker` in openaisg/session.py: commands whose time is up, and leases.
use openaisg.Common.{
  ℕ, ◌<◌, Bool, true, false, none, some, ltb, ◌≡◌, ◌≢◌, refl, sym, ap, ◌∙◌, arith, if◌then◌else◌,
  inl, inr, Bool-cases, ==_refl,
}
use mathlib.Core.Path.{subst}
use mathlib.Core.Bool.{false≢true}
use openaisg.Errors.{
  LinkState, connected, leased, session_error, Error, Result, ok, err, pure, modify, ◌>>◌, after_ok,
}
use openaisg.Errors.Contracts.{Returns}
use openaisg.Errors.Rules.{bound, handled}
use openaisg.Session.Bus.{Bus}
use openaisg.Session.Worker.{
  pending, running, finished, Command, Worker, same_state, put_future, fail_link, any_error,
}
use openaisg.Session.Worker.Commands.{
  fails_fast, claim, claim_from, abandon, take, take_from, finish, turn_away, await_link, if_not_up,
  try_in_state, try_execute, refresh_lease,
}
use openaisg.Session.Worker.Loop.{
  hand_over, step_behind_lease, step, serve_rest, serve_head, serve, turn, pass,
}
use openaisg.Session.Worker.Settled.{IsSettled, same_state→eq}
use openaisg.Session.Worker.Holding.{hand_over-settles}

pub not_in : (s t : LinkState) → s ≢ t → same_state s t ≡ false
not_in s t n = elim (Bool-cases (same_state s t)) [
  | inl e ↦ absurd (n (same_state→eq s t e))
  | inr e ↦ e
]

abbrev was_ok : Result (Unit {0}) → Bool
was_ok (ok u) = true
was_ok (err e) = false

abbrev was_true : Result Bool → Bool
was_true (ok b) = b
was_true (err e) = false

module _ {E : Type 0} (bus : Bus E) where
  -- From a settled state under a lease that lasts by the clock, a step ends in LEASED without the
  -- link, whatever the state was, unless the release raises.
  pub step-leased :
      (w : Worker E)
      → IsSettled w
      → (bus.monotonic w.env).0 < w.lease_until
      → Returns (λ _ w'. (w'.state ≡ leased) × (w'.link ≡ false)) (step bus w)
  unfolding step
  step-leased w h l = let (now, env) = bus.monotonic w.env in go now (record w { env = env }) h l
    where
      go :
          (now : ℕ) (v : Worker E)
          → IsSettled v
          → now < v.lease_until
          → Returns
              (λ _ w'. (w'.state ≡ leased) × (w'.link ≡ false))
              ((if ltb now v.lease_until then hand_over bus else step_behind_lease bus now) v)
      go now v h l =
          let e : ltb now v.lease_until ≡ true = ground (arith, l) in
          rw e ((hand_over-settles bus).run v h)

  -- A lease that is not there is not refreshed.
  pub refresh_unleased :
      (w : Worker E) → same_state w.state leased ≡ false → refresh_lease bus w ≡ (ok tt, w)
  unfolding refresh_lease
  refresh_unleased w n = rw n refl

  -- What a command that is turned away leaves.
  abbrev away : Command → Worker E → Worker E
  away cmd w =
      finish cmd.seq (err (session_error w.state))
        (record w { futures = put_future cmd.seq running w.futures })

  turn_away_pending :
      (cmd : Command) (w : Worker E)
      → w.futures cmd.seq ≡ pending
      → turn_away bus cmd w ≡ (ok true, away cmd w)
  unfolding abandon claim
  turn_away_pending cmd w p =
      let e : Error = session_error w.state in
      after_ok (abandon cmd.seq e) (λ _. pure true) w
        (after_ok (claim cmd.seq)
          (λ claimed. if claimed then modify (finish cmd.seq (err e)) else pure tt) w
          (ap (λ f. claim_from f cmd.seq w) p))

  -- The outcome of a command whose time is up.
  abbrev TurnedAway : Command → LinkState → Result Bool × Worker E → Type 0
  TurnedAway cmd s x = (x.0 ≡ ok true) × (x.1.futures cmd.seq ≡ finished (err (session_error s)))

  futures-away :
      (cmd : Command) (w : Worker E)
      → (away cmd w).futures cmd.seq ≡ finished (err (session_error w.state))
  unfolding put_future
  futures-away cmd w = rw (==_refl cmd.seq) refl

  turned_away :
      (cmd : Command) (w : Worker E)
      → w.futures cmd.seq ≡ pending
      → TurnedAway cmd w.state (turn_away bus cmd w)
  turned_away cmd w p = (
    ap (λ x. x.0) (turn_away_pending cmd w p),
    ap (λ x. x.1.futures cmd.seq) (turn_away_pending cmd w p) ∙ futures-away cmd w,
  )

  if_not_up_late :
      (cmd : Command) (w : Worker E)
      → w.futures cmd.seq ≡ pending
      → cmd.link_deadline < (bus.monotonic w.env).0
      → TurnedAway cmd w.state (if_not_up bus cmd w)
  unfolding await_link
  if_not_up_late cmd w p l = elim (Bool-cases (fails_fast w.state)) [
    | inl f ↦ rw f (turned_away cmd w p)
    | inr s ↦
        let (now, env) = bus.monotonic w.env in
        let e : ltb cmd.link_deadline (bus.monotonic w.env).0 ≡ true = ground (arith, l) in
        rw (s, e) (turned_away cmd (record w { env = env }) p)
  ]

  -- What a pass makes of a command that is turned away.
  abbrev Answers : Command → LinkState → Result (Unit {0}) × Worker E → Type 0
  Answers cmd s x =
      (x.0 ≡ ok tt) × (x.1.head ≡ none) × (x.1.futures cmd.seq ≡ finished (err (session_error s)))

  try_execute_late :
      (cmd : Command) (w : Worker E)
      → same_state w.state leased ≡ false
      → same_state w.state connected ≡ false
      → w.futures cmd.seq ≡ pending
      → cmd.link_deadline < (bus.monotonic w.env).0
      → TurnedAway cmd w.state (try_execute bus cmd w)
  unfolding try_execute try_in_state
  try_execute_late cmd w n c p l =
      subst (TurnedAway cmd w.state)
        (sym (after_ok (refresh_lease bus) (λ _. try_in_state bus cmd) w (refresh_unleased w n)))
        (rw c (if_not_up_late cmd w p l))

  serve-Answers :
      (cmd : Command) (s : LinkState) (w : Worker E)
      → TurnedAway cmd s (try_execute bus cmd w)
      → Answers cmd s (serve_head bus (some cmd) w)
  serve-Answers cmd s w h = go (try_execute bus cmd w) h
    where
      go :
          (x : Result Bool × Worker E)
          → TurnedAway cmd s x
          → Answers cmd s (bound (serve_rest bus) x)
      go (ok true, v) k = (refl, refl, k.1)
      go (ok false, v) k = absurd (false≢true (ap was_true k.0))
      go (err e, v) k = absurd (false≢true (ap was_true k.0))

  pub turn_head :
      (cmd : Command) (w : Worker E)
      → same_state w.state leased ≡ false
      → w.head ≡ some cmd
      → turn bus w ≡ serve_head bus (some cmd) w
  unfolding turn serve take
  turn_head cmd w n h =
      after_ok (refresh_lease bus) (λ _. modify take >> serve bus) w (refresh_unleased w n)
      ∙ ap (serve bus) (ap (λ hd. take_from hd w.queue w) h)
      ∙ ap (λ hd. serve_head bus hd w) h

  -- In a state other than CONNECTED and LEASED, a pass with a command in hand that is pending and
  -- whose deadline has passed returns, gives the command a `SessionError` of that state and drops
  -- it, whether the state fails fast or waits.
  pub pass-late :
      (cmd : Command) (w : Worker E)
      → w.state ≢ leased
      → w.state ≢ connected
      → w.head ≡ some cmd
      → w.futures cmd.seq ≡ pending
      → cmd.link_deadline < (bus.monotonic w.env).0
      → Answers cmd w.state (pass bus w)
  unfolding pass
  pass-late cmd w n c h p l =
      let n' : same_state w.state leased ≡ false = not_in w.state leased n in
      let late : TurnedAway cmd w.state (try_execute bus cmd w) =
        try_execute_late cmd w n' (not_in w.state connected c) p l in
      go (turn bus w) (
        subst (Answers cmd w.state) (sym (turn_head cmd w n' h)) (serve-Answers cmd w.state w late))
    where
      go :
          (x : Result (Unit {0}) × Worker E)
          → Answers cmd w.state x
          → Answers cmd w.state (handled any_error (λ e. fail_link bus "internal error") x)
      go (ok u, v) k = k
      go (err e, v) k = absurd (false≢true (ap was_ok k.0))
