-- ===== src/Api/Service/Lifecycle.antt =====
-- What the jobs of api/app.py hold in each of their states.
use openaisg.Common.{ℕ, Bool, Option, none, some, All}
use openaisg.Errors.{Result}
use openaisg.Api.Jobs.{Job, JobState, running, done, failed, new_job}
use openaisg.Session.Bus.{Bus}
use openaisg.Session.Worker.{Name, Answer, Worker}
use openaisg.Api.Service.{
  Value, result_is, error_is, Service, Float, finish, put_tilt, confirmed, post_clear, take_lease,
  drop_lease,
}

-- A running job has no outcome; one that is done has a result, one that failed an error, and both
-- have the time of their end.
abbrev pub Holds : JobState → Option Value → Option Value → Option ℕ → Type 0
Holds running none none none = Unit {0}
Holds done (some (result_is answer)) none (some now) = Unit {0}
Holds failed none (some (error_is e)) (some now) = Unit {0}
Holds state result error finished_at = ⊥

abbrev pub IsCoherent : Job Value → Type 0
IsCoherent job = Holds job.state job.result job.error job.finished_at

-- The jobs of the store, and those whose events were emitted.
abbrev pub AllCoherent : {E : Type 0} → Service E → Type 0
AllCoherent s = All (λ p. IsCoherent p.1) s.jobs.jobs × All IsCoherent s.emitted

module _ {E D : Type 0} (bus : Bus E) (float : Float D) where
  -- What changes the service: its endpoints, the end of a job's future, and the worker, which other
  -- threads move. The callback that ends a job is the only one that assigns to it, and is called
  -- once, so it has the job as `create` made it.
  pub data Serves (s : Service E) : Service E → Type 0 where
    tilts :
        (degrees : D) (wait : Bool) (waits : ℕ → Option (Result Answer)) (id now : ℕ)
        → Serves s (put_tilt bus float degrees wait waits id now s).1
    confirms :
        (name : Name) (confirm wait : Bool) (waits : ℕ → Option (Result Answer)) (id now : ℕ)
        → Serves s (confirmed bus name confirm wait waits id now s).1
    clears :
        (waits : ℕ → Option (Result Answer)) (id now : ℕ)
        → Serves s (post_clear bus waits id now s).1
    ends :
        (id : ℕ) (command args : Value) (started now : ℕ) (r : Result Answer)
        → Serves s (finish (new_job id command args started) r now s)
    takes : (duration : ℕ) → Serves s (take_lease bus duration s)
    drops : Serves s (drop_lease s)
    works : (w : Worker E) → Serves s (record s { worker = w })

  pub data Served (s : Service E) : Service E → Type 0 where
    here : Served s s
    there : {s' s'' : Service E} → Served s s' → Serves s' s'' → Served s s''
