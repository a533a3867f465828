-- ===== src/Session/Worker/Records.antt =====
-- What stays true of a `SerialWorker` of openaisg/session.py however it is used: the events, the
-- backoff and the futures.
use openaisg.Common.{
  ℕ, ◌*◌, ◌<◌, ◌≤◌, Bool, true, ◌&&◌, List, [], ◌∷◌, Option, ◌==◌, ◌≡◌, ◌≢◌, refl, sym, ap, ◌∙◌,
  arith, min, ==_iff, inl, inr, Bool-cases,
}
use mathlib.Core.Path.{subst}
use mathlib.Core.Bool.{false≢true}
use openaisg.Common.Int.{ℤ}
use openaisg.Common.Texts.{String, Texts, same_text}
use openaisg.Errors.{LinkState, closed, Error, Result, err, Action, ◌>>=◌, after_err}
use openaisg.Errors.Rules.{
  Keeps, Keeps-bind, Keeps-then, Keeps-if, Keeps-pure, Keeps-modify, Keeps-here, either_way,
}
use openaisg.Session.Alarms.{Edge}
use openaisg.Session.Bus.{Bus}
use openaisg.Session.Worker.{
  Name, Answer, Future, pending, running, cancelled, cancelled_and_notified, finished, Command,
  Event, link_event, alarm_event, progress_event, status_event, Worker, same_state, emit, set_anew,
  set_state, put_future,
}
use openaisg.Session.Worker.Commands.{
  cancel, cancelled_from, claim, claim_from, abandon, dispatch, finish, put,
}
use openaisg.Session.Worker.Loop.{Reach}
use openaisg.Session.Worker.Inert.{Inert}
use openaisg.Session.Worker.Passing.{execute-Keeps, Reach-Keeps, reach_blindly}

-- The state of the newest event on the link; a worker begins in CLOSED without one.
unfoldable pub announced : List Event → LinkState
announced [] = closed
announced (link_event s text ∷ events) = s
announced (alarm_event edge ∷ events) = announced events
announced (progress_event name polls acked ∷ events) = announced events
announced (status_event s t alarms ∷ events) = announced events

abbrev Announces : LinkState → List Event → ℕ → (ℕ → Future) → ℕ → Type 0
Announces state emitted backoff futures next = announced emitted ≡ state

abbrev Bounds : LinkState → List Event → ℕ → (ℕ → Future) → ℕ → Type 0
Bounds state emitted backoff futures next = (1000 ≤ backoff) × (backoff ≤ 60000)

abbrev Has : ℕ → Result Answer → LinkState → List Event → ℕ → (ℕ → Future) → ℕ → Type 0
Has n r state emitted backoff futures next = (futures n ≡ finished r) × (n < next)

put_elsewhere :
    {n : ℕ} {r : Result Answer} (seq : ℕ) (f : Future) (futures : ℕ → Future)
    → seq ≢ n
    → futures n ≡ finished r
    → put_future seq f futures n ≡ finished r
unfolding put_future
put_elsewhere {n} {r} seq f futures ne e = ground (arith, ne, e)

module _ {E : Type 0} where
  -- Predicates of the state, the events, the backoff, the futures and the next number.
  module _ (P : LinkState → List Event → ℕ → (ℕ → Future) → ℕ → Type 0) where
    abbrev Of : Worker E → Type 0
    Of w = P w.state w.emitted w.backoff_for w.futures w.next_seq

    module _ (other : (edge : Edge) (w : Worker E) → Of w → Of (emit (alarm_event edge) w))
        (progressed : (name : Name) (polls : ℕ) (acked : Bool) (w : Worker E)
          → Of w
          → Of (emit (progress_event name polls acked) w))
        (shown : (s : LinkState) (t : Option ℤ) (alarms : Texts) (w : Worker E)
          → Of w
          → Of (emit (status_event s t alarms) w))
        (set : (s : LinkState) (text : String) (w : Worker E) → Of w → Of (set_anew s text w))
        (doubled : (w : Worker E)
          → Of w
          → Of (record w { backoff_for = min (w.backoff_for * 2) 60000 }))
        (restored : (w : Worker E) → Of w → Of (record w { backoff_for = 1000 })) where
      Of-inert : Inert Of
      unfolding set_state
      Of-inert = record {
        calm = record {
          env = λ _ w i. i;
          indications = λ _ w i. i;
          alarm = other;
          progress = progressed;
          status = λ w i. shown w.state w.tilt w.alarms.active w i;
          alarms = λ _ w i. i;
          tilt = λ _ w i. i;
          identity = λ _ w i. i;
          device_data = λ _ w i. i;
          alarm_mode = λ _ w i. i;
          unsupported = λ _ w i. i;
          address = λ _ w i. i;
          error = λ _ w i. i;
        };
        state = λ s text w i.
            either_way Of (same_state s w.state && same_text text w.last_error) {x = w}
              {y = set_anew s text w} i (set s text w i);
        link = λ _ w i. i;
        doubled = doubled;
        restored = restored;
        until = λ _ w i. i;
        want = λ _ w i. i;
        target = λ _ w i. i;
        command_at = λ _ w i. i;
        monitor_at = λ _ w i. i;
        keepalive_at = λ _ w i. i;
        head = λ _ w i. i;
        lease = λ _ w i. i;
      }

  -- However a worker is used: where the newest event on the link names the state of the worker at
  -- the beginning, a worker without an event being in CLOSED, it does in every later state.
  pub Reach-announced :
      (bus : Bus E) (w w' : Worker E)
      → announced w.emitted ≡ w.state
      → Reach bus w w'
      → announced w'.emitted ≡ w'.state
  unfolding put announced
  Reach-announced bus w w' i r =
      reach_blindly
        (Of-inert Announces (λ _ w i. i) (λ _ _ _ w i. i) (λ _ _ _ w i. i) (λ s text w i. refl)
          (λ w i. i) (λ w i. i))
        bus (λ f w i. i) (λ q w i. i) (λ _ _ _ _. record { run = λ w i. i }) r i

  -- However a worker is used: a backoff that is between one second and sixty at the beginning stays
  -- there.
  pub Reach-backoff_for :
      (bus : Bus E) (w w' : Worker E)
      → (1000 ≤ w.backoff_for) × (w.backoff_for ≤ 60000)
      → Reach bus w w'
      → (1000 ≤ w'.backoff_for) × (w'.backoff_for ≤ 60000)
  unfolding put
  Reach-backoff_for bus w w' i r =
      reach_blindly
        (Of-inert Bounds (λ _ w i. i) (λ _ _ _ w i. i) (λ _ _ _ w i. i) (λ s text w i. i)
          (λ w i. (ground (arith, i.0), ground (arith, i.1))) (λ w i. (omega arith, omega arith)))
        bus (λ f w i. i) (λ q w i. i) (λ _ _ _ _. record { run = λ w i. i }) r i

  -- The future of a command, submitted before, has a result.
  module _ (n : ℕ) (r : Result Answer) where
    abbrev IsAnswered : Worker E → Type 0
    IsAnswered = Of (Has n r)

    Has-inert : Inert IsAnswered
    Has-inert =
        Of-inert (Has n r) (λ _ w i. i) (λ _ _ _ w i. i) (λ _ _ _ w i. i) (λ s text w i. i)
          (λ w i. i) (λ w i. i)

    -- The future itself is claimed in vain.
    claim_raises :
        {A : Type 0} (seq : ℕ) (k : Bool → Action (Worker E) A) (w : Worker E)
        → seq ≡ n
        → IsAnswered w
        → IsAnswered ((claim seq >>= k) w).1
    unfolding claim
    claim_raises seq k w e i =
        subst (λ x. IsAnswered x.1)
          (sym (after_err (claim seq) k w (ap (λ f. claim_from f seq w) (ap w.futures e ∙ i.0)))) i

    -- Another one is claimed, and answered, without it.
    claim_elsewhere : (seq : ℕ) → seq ≢ n → Keeps IsAnswered (claim seq)
    unfolding claim
    claim_elsewhere seq ne = Keeps-here (λ w. go (w.futures seq))
      where
        go : (future : Future) → Keeps IsAnswered (claim_from future seq)
        go pending = record { run = λ w i. (put_elsewhere seq running w.futures ne i.0, i.1) }
        go cancelled = record {
          run = λ w i. (put_elsewhere seq cancelled_and_notified w.futures ne i.0, i.1);
        }
        go running = record { run = λ w i. i }
        go cancelled_and_notified = record { run = λ w i. i }
        go (finished r') = record { run = λ w i. i }

    finish_elsewhere :
        (seq : ℕ)
        → seq ≢ n
        → (r' : Result Answer) (w : Worker E) → IsAnswered w
        → IsAnswered (finish seq r' w)
    finish_elsewhere seq ne r' w i = (put_elsewhere seq (finished r') w.futures ne i.0, i.1)

    by_seq :
        {A : Type 0} (seq : ℕ) (k : Bool → Action (Worker E) A)
        → (seq ≢ n → (claimed : Bool) → Keeps IsAnswered (k claimed))
        → Keeps IsAnswered (claim seq >>= k)
    by_seq seq k h = elim (Bool-cases (seq == n)) [
      | inl e ↦ record { run = λ w i. claim_raises seq k w ((==_iff seq n).0 e) i }
      | inr e ↦
          let ne : seq ≢ n = λ q. false≢true (sym e ∙ (==_iff seq n).1 q) in
          Keeps-bind (claim_elsewhere seq ne) (h ne)
    ]

    dispatch-IsAnswered : (bus : Bus E) (cmd : Command) → Keeps IsAnswered (dispatch bus cmd)
    unfolding dispatch
    dispatch-IsAnswered bus cmd = by_seq cmd.seq _ (λ ne claimed.
        Keeps-then
          (Keeps-if claimed (execute-Keeps Has-inert bus cmd (finish_elsewhere cmd.seq ne))
            Keeps-pure)
          (Keeps-pure {a = true}))

    abandon-IsAnswered : (seq : ℕ) (e : Error) → Keeps IsAnswered (abandon seq e)
    unfolding abandon
    abandon-IsAnswered seq e = by_seq seq _ (λ ne claimed.
        Keeps-if claimed (Keeps-modify {f = finish seq (err e)} (finish_elsewhere seq ne (err e)))
          Keeps-pure)

    put-IsAnswered :
        (name : Name) (degrees : Option ℤ) (priority deadline : ℕ)
        → Keeps IsAnswered (put name degrees priority deadline)
    unfolding put
    put-IsAnswered name degrees priority deadline = record {
      run = λ w i. (
        put_elsewhere w.next_seq pending w.futures (ground (arith, i.1)) i.0,
        omega (arith, i.1),
      );
    }

    cancel-IsAnswered : (seq : ℕ) (w : Worker E) → IsAnswered w → IsAnswered (cancel seq w)
    unfolding cancel put_future
    cancel-IsAnswered seq w i = (kept, i.1)
      where
        kept : put_future seq (cancelled_from (w.futures seq)) w.futures n ≡ finished r
        kept = elim (Bool-cases (n == seq)) [
          | inl e ↦ rw e (
              ap (λ m. cancelled_from (w.futures m)) (sym ((==_iff n seq).0 e))
              ∙ ap cancelled_from i.0)
          | inr e ↦ rw e i.0
        ]

    -- However a worker is used: the result in the future of a command that was submitted before
    -- stays, so no command is answered twice, and no pass, cancellation or later command changes an
    -- answer.
    pub Reach-finished :
        (bus : Bus E) (w w' : Worker E)
        → w.futures n ≡ finished r
        → n < w.next_seq
        → Reach bus w w'
        → w'.futures n ≡ finished r
    Reach-finished bus w w' e l reach =
        (Reach-Keeps Has-inert bus (λ q w i. i) (dispatch-IsAnswered bus) abandon-IsAnswered
          put-IsAnswered cancel-IsAnswered reach (e, l)).0
