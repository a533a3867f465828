-- ===== src/Api/Service.antt =====
-- api/app.py: the endpoints that reach the worker. FastAPI, pydantic and asyncio are given: a handler
-- is a function of the service's state, of the body that was parsed, and of what the wait for a future
-- came to. Times are milliseconds.
pub mod Guards
pub mod Lifecycle
mod Tests
use openaisg.Common.{
  ℕ, ◌+◌, ◌*◌, Bool, true, false, not, ◌&&◌, List, [], ◌∷◌, ◌++◌, Option, none, some, leb, ◌==◌,
  if◌then◌else◌, Bytes,
}
use openaisg.Common.Int.{ℤ}
use openaisg.Errors.{
  Error, is_locked, is_wedged, session_error, link_reset, aisg_timeout, is_aisg_error, Result, ok,
  err,
}
use openaisg.Api.Jobs.{Job, JobState, done, failed, JobStore, create, lookup, store, get}
use openaisg.Session.Bus.{Bus}
use openaisg.Session.Worker.{
  Name, read_information, read_tilt, read_alarm_status, read_device_data, write_tilt,
  write_clear_alarms, write_calibrate, write_self_test, write_reset, Answer, Worker,
}
use openaisg.Session.Worker.Commands.{submit, lease, unlease}

-- What a job keeps: a command, its arguments, a result, or the text of an exception.
pub data Value : Type 0 where
  command_is : Name → Value
  degrees_are : Option ℤ → Value
  result_is : Answer → Value
  error_is : Error → Value

-- What `_run` comes to: a result, a job, or an `HTTPException` with its status.
pub data Reply : Type 0 where
  answered : Answer → Reply
  accepted : Job Value → Reply
  http_error : ℕ → Reply

-- `worker`, `jobs`, and the job events that were emitted, the newest first.
pub record Service (E : Type 0) : Type 0 where
  pub worker : Worker E
  pub jobs : JobStore Value
  pub emitted : List (Job Value)

-- The tests of `degrees` against a limit in tenths, and `round(degrees * 10)`, of Python's float.
pub record Float (D : Type 0) : Type 0 where
  pub at_least : ℕ → D → Bool
  pub at_most : ℕ → D → Bool
  pub tenths : D → ℤ

-- `_map_error`.
unfoldable pub map_error : Error → ℕ
map_error is_locked = 409
map_error is_wedged = 503
map_error (session_error state) = 503
map_error link_reset = 502
map_error (aisg_timeout acked) = 504
map_error e = if is_aisg_error e then 502 else 500

-- `int.from_bytes(..., "little")`.
unfoldable pub from_bytes : Bytes → ℕ
from_bytes [] = 0
from_bytes (b ∷ bs) = b + from_bytes bs * 256

-- `dd[key]`.
unfoldable pub field_of : List (ℕ × Bytes) → ℕ → Option Bytes
field_of [] key = none
field_of ((fid, bytes) ∷ fields) key = if fid == key then some bytes else field_of fields key

-- The limits in tenths, from the two fields.
abbrev pub limits_from : Option Bytes → Option Bytes → Option (ℕ × ℕ)
limits_from (some lo) (some hi) =
    if leb (from_bytes hi) (from_bytes lo) then none else some (from_bytes lo, from_bytes hi)
limits_from lo hi = none

-- `_tilt_limits`.
unfoldable pub tilt_limits : List (ℕ × Bytes) → Option (ℕ × ℕ)
tilt_limits dd = limits_from (field_of dd 0x07) (field_of dd 0x06)

-- `budget` of `_run`: `COMMAND_TIMEOUTS`, its default, or `SYNC_BUDGET` with its default.
abbrev pub command_timeout : Name → ℕ
command_timeout write_calibrate = 150000
command_timeout write_self_test = 45000
command_timeout write_tilt = 90000
command_timeout read_device_data = 30000
command_timeout name = 15000

abbrev pub budget_of : Name → Bool → ℕ
budget_of name wait = if wait then command_timeout name else 8000

-- `job.result` or `job.error`, `job.state` and `job.finished_at` in the callback `finish`.
unfoldable pub finished_job : Result Answer → ℕ → Job Value → Job Value
finished_job (ok answer) now job = record job {
  result = some (result_is answer);
  state = done;
  finished_at = some now;
}
finished_job (err e) now job = record job {
  error = some (error_is e);
  state = failed;
  finished_at = some now;
}

-- `not (limits[0] <= body.degrees <= limits[1])`, with limits.
abbrev pub is_outside : {D : Type 0} → Float D → Option (ℕ × ℕ) → D → Bool
is_outside float none degrees = false
is_outside float (some (lo, hi)) degrees =
    not (float.at_least lo degrees && float.at_most hi degrees)

-- The store with a job that ended, where it still has the identity: it holds the object that the
-- callback assigns to.
abbrev pub replace_job : Option (Job Value) → Job Value → JobStore Value → JobStore Value
replace_job none job jobs = jobs
replace_job (some old) job jobs = record jobs { jobs = store jobs.jobs job.id job }

module _ {E : Type 0} where
  -- What the wait for the future came to: the future's result, or `TimeoutError`, upon which a job is
  -- created with an identity at a time.
  abbrev pub settled :
      Name → Option ℤ → ℕ → ℕ → Option (Result Answer) → Service E → Reply × Service E
  settled name degrees id now (some (ok answer)) s = (answered answer, s)
  settled name degrees id now (some (err e)) s = (http_error (map_error e), s)
  settled name degrees id now none s =
      let (job, jobs) = create id (command_is name) (degrees_are degrees) now s.jobs in
      (accepted job, record s { jobs = jobs })

  -- The callback `finish` on the job that it closes over: its event goes out even where the store
  -- has dropped the job.
  unfoldable pub finish : Job Value → Result Answer → ℕ → Service E → Service E
  finish job r now s =
      let job' = finished_job r now job in
      record s {
        jobs = replace_job (lookup s.jobs.jobs job.id) job' s.jobs;
        emitted = job' ∷ s.emitted;
      }

  -- The endpoint `drop_lease`.
  unfoldable pub drop_lease : Service E → Service E
  drop_lease s = record s { worker = unlease s.worker }

module _ {E : Type 0} (bus : Bus E) where
  -- `_run`, with what the wait comes to within a budget. The names of the endpoints are commands.
  unfoldable pub run :
      Name → Option ℤ → Bool → (ℕ → Option (Result Answer)) → ℕ → ℕ → Service E → Reply × Service E
  run name degrees wait waits id now s =
      settled name degrees id now (waits (budget_of name wait))
        (record s { worker = (submit bus (some name) degrees 5 20000 s.worker).1 })

  -- The endpoint `set_tilt`.
  unfoldable pub put_tilt :
      {D : Type 0}
      → Float D
      → D
      → Bool
      → (ℕ → Option (Result Answer))
      → ℕ
      → ℕ
      → Service E
      → Reply × Service E
  put_tilt float degrees wait waits id now s =
      let ran = run write_tilt (some (float.tenths degrees)) wait waits id now s in
      if is_outside float (tilt_limits s.worker.device_data) degrees
      then (http_error 400, s)
      else ran

  -- The endpoints `calibrate`, `self_test` and `reset`, by their command.
  unfoldable pub confirmed :
      Name → Bool → Bool → (ℕ → Option (Result Answer)) → ℕ → ℕ → Service E → Reply × Service E
  confirmed name confirm wait waits id now s =
      let ran = run name none wait waits id now s in if confirm then ran else (http_error 400, s)

  -- The endpoint `clear_alarms`.
  unfoldable pub post_clear : (ℕ → Option (Result Answer)) → ℕ → ℕ → Service E → Reply × Service E
  post_clear waits id now s = run write_clear_alarms none false waits id now s

  -- The endpoint `take_lease`.
  unfoldable pub take_lease : ℕ → Service E → Service E
  take_lease duration s = record s { worker = (lease bus duration s.worker).1 }
