-- ===== src/Api/Service/Guards.antt =====
-- What the endpoints of api/app.py let through to the worker, and what they refuse.
use mathlib.Core.Path.{subst}
use openaisg.Common.{
  ℕ, sym, ◌+◌, ◌*◌, ◌<◌, ◌&&◌, ◌⊎◌, inl, inr, Bool-cases, Bytes, Bool, true, false, not, List, [],
  ◌∷◌, Option, none, some, ◌==◌, ◌≡◌, refl, arith, if◌then◌else◌, ==_refl,
}
use openaisg.Common.Int.{ℤ}
use openaisg.Errors.{Error, malformed, is_aisg_error, Result, ok, err}
use openaisg.Session.Bus.{Bus}
use openaisg.Session.Worker.{Future, pending, put_future, Name, write_tilt, Answer, Command, Worker}
use openaisg.Session.Worker.Commands.{submit, put, enqueue}
use openaisg.Api.Service.{
  field_of, from_bytes, Reply, http_error, Service, Float, map_error, tilt_limits, settled,
  budget_of, run, is_outside, put_tilt,
}

-- An error is a 500 where it is no `AisgError`, and there alone.
pub map_error-is_aisg_error : (e : Error) → (map_error e == 500) ≡ not (is_aisg_error e)
unfolding map_error
map_error-is_aisg_error malformed = refl
map_error-is_aisg_error e = refl

put_future_here :
    (seq : ℕ) (future : Future) (futures : ℕ → Future) → put_future seq future futures seq ≡ future
unfolding put_future
put_future_here seq future futures = rw (==_refl seq) refl

module _ {E : Type 0} (bus : Bus E) where
  worker-settled :
      (name : Name) (degrees : Option ℤ) (id now : ℕ) (o : Option (Result Answer)) (s : Service E)
      → (settled name degrees id now o s).1.worker ≡ s.worker
  worker-settled name degrees id now (some (ok answer)) s = refl
  worker-settled name degrees id now (some (err e)) s = refl
  worker-settled name degrees id now none s = refl

  -- One command entered the queue of a worker: to set the tilt, with a new future that is pending.
  abbrev pub Asked : ℤ → Worker E → Worker E → Type 0
  Asked tilt w w' =
      (cmd : Command) × (w'.queue ≡ enqueue cmd w.queue)
      × (cmd.name ≡ write_tilt)
      × (cmd.degrees ≡ some tilt)
      × (cmd.seq ≡ w.next_seq)
      × (w'.futures cmd.seq ≡ pending)

  run-Asked :
      (degrees : ℤ) (wait : Bool) (waits : ℕ → Option (Result Answer)) (id now : ℕ) (s : Service E)
      → Asked degrees s.worker (run bus write_tilt (some degrees) wait waits id now s).1.worker
  unfolding run submit put
  run-Asked degrees wait waits id now s =
      subst (Asked degrees s.worker)
        (sym (
          worker-settled write_tilt (some degrees) id now (waits (budget_of write_tilt wait))
            (record s {
              worker = (submit bus (some write_tilt) (some degrees) 5 20000 s.worker).1;
            })))
        (_, refl, refl, refl, refl, put_future_here s.worker.next_seq pending s.worker.futures)

  -- What a request to set the tilt comes to, with limits in tenths of a degree.
  abbrev pub Limited : {D : Type 0} → Float D → D → ℕ → ℕ → Service E → Reply × Service E → Type 0
  Limited float degrees lo hi s x =
      ((x.0 ≡ http_error 400)
        × (x.1 ≡ s)
        × ((float.at_least lo degrees && float.at_most hi degrees) ≡ false))
      ⊎ ((float.at_least lo degrees ≡ true)
          × (float.at_most hi degrees ≡ true)
          × Asked (float.tenths degrees) s.worker x.1.worker)

  within :
      {D : Type 0} (float : Float D) (degrees : D) (lo hi : ℕ) (s : Service E)
      (x : Reply × Service E)
      → Asked (float.tenths degrees) s.worker x.1.worker
      → Limited float degrees lo hi s
          (if is_outside float (some (lo, hi)) degrees then (http_error 400, s) else x)
  within float degrees lo hi s x asked = elim (Bool-cases (float.at_least lo degrees)) [
    | inr low ↦ rw low (inl (refl, refl, refl))
    | inl high_enough ↦ elim (Bool-cases (float.at_most hi degrees)) [
      | inr high ↦ rw (high_enough, high) (inl (refl, refl, refl))
      | inl low_enough ↦ rw (high_enough, low_enough) (inr (refl, refl, asked))
    ]
  ]

  limits_are :
      (dd : List (ℕ × Bytes)) (lo0 lo1 hi0 hi1 : ℕ)
      → field_of dd 0x07 ≡ some (lo0 ∷ lo1 ∷ [])
      → field_of dd 0x06 ≡ some (hi0 ∷ hi1 ∷ [])
      → lo0 + 256 * lo1 < hi0 + 256 * hi1
      → tilt_limits dd ≡ some (lo0 + 256 * lo1, hi0 + 256 * hi1)
  unfolding tilt_limits from_bytes
  limits_are dd lo0 lo1 hi0 hi1 l h less = ground (arith, l, h, less)

  -- Where the antenna's device data has a minimum and a larger maximum of the tilt, each of two
  -- octets with the lower one first: a request to set the tilt either is refused with 400, changes
  -- nothing and is not within the two, or is at least the minimum and at most the maximum, and puts
  -- exactly one command into the worker's queue, to set the tilt to the tenths that were asked for,
  -- with a new future that is pending, whatever its wait comes to.
  pub put_tilt-Limited :
      {D : Type 0} (float : Float D) (degrees : D) (wait : Bool)
      (waits : ℕ → Option (Result Answer)) (id now : ℕ) (s : Service E) (lo0 lo1 hi0 hi1 : ℕ)
      → field_of s.worker.device_data 0x07 ≡ some (lo0 ∷ lo1 ∷ [])
      → field_of s.worker.device_data 0x06 ≡ some (hi0 ∷ hi1 ∷ [])
      → lo0 + 256 * lo1 < hi0 + 256 * hi1
      → Limited float degrees
          (lo0 + 256 * lo1)
          (hi0 + 256 * hi1)
          s
          (put_tilt bus float degrees wait waits id now s)
  unfolding put_tilt
  put_tilt-Limited float degrees wait waits id now s lo0 lo1 hi0 hi1 l h less =
      rw (limits_are s.worker.device_data lo0 lo1 hi0 hi1 l h less) (
        within float degrees (lo0 + 256 * lo1) (hi0 + 256 * hi1) s _
          (run-Asked (float.tenths degrees) wait waits id now s))
