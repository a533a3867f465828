-- ===== src/Api/Service/Tests.antt =====
-- Runs of the endpoints of api/app.py, and the witnesses of the theorems on them.
use openaisg.Common.{arith, ℕ, false, [], ◌∷◌, none, some, leb, ◌≡◌, refl}
use openaisg.Common.Int.{pos}
use openaisg.Errors.{ok}
use openaisg.Api.Jobs.{done, create, trim, store, new_store, new_job, lookup}
use openaisg.Session.Worker.{tilt_is, write_tilt}
use openaisg.Session.Worker.Desk.{Desk, bus, idle}
use openaisg.Api.Service.{
  run, result_is, command_is, degrees_are, http_error, Service, Float, tilt_limits, from_bytes,
  field_of, put_tilt, finish, finished_job,
}
use openaisg.Api.Service.Guards.{Limited, put_tilt-Limited}
use openaisg.Session.Worker.Commands.{submit, put}

-- Degrees that are whole tenths.
abbrev tenths : Float ℕ
tenths = record { at_least = leb; at_most = λ limit d. leb d limit; tenths = pos }

-- An antenna from 0 to 10 degrees.
abbrev service : Service Desk
service = record {
  worker = record idle { device_data = (0x06, 100 ∷ 0 ∷ []) ∷ (0x07, 0 ∷ 0 ∷ []) ∷ [] };
  jobs = new_store 200;
  emitted = [];
}

limits : tilt_limits service.worker.device_data ≡ some (0, 100)
unfolding tilt_limits from_bytes field_of
limits = refl

-- 10.1 degrees are refused.
refused_tilt : (put_tilt bus tenths 101 false (λ budget. none) 1 0 service).0 ≡ http_error 400
unfolding put_tilt tilt_limits from_bytes field_of
refused_tilt = refl

fields_are :
    (field_of service.worker.device_data 0x07 ≡ some (0 ∷ 0 ∷ []))
    × (field_of service.worker.device_data 0x06 ≡ some (100 ∷ 0 ∷ []))
unfolding field_of
fields_are = (refl, refl)

put_tilt-Limited_example :
    Limited bus tenths 55 0 100 service (put_tilt bus tenths 55 false (λ budget. none) 1 0 service)
put_tilt-Limited_example =
    put_tilt-Limited bus tenths 55 false (λ budget. none) 1 0 service 0 0 100 0 fields_are.0
      fields_are.1 (omega arith)

-- A tilt that takes longer than the request, and ends.
abbrev accepted_tilt : Service Desk
accepted_tilt = (put_tilt bus tenths 55 false (λ budget. none) 1 0 service).1

abbrev moved : Service Desk
moved =
    finish (new_job 1 (command_is write_tilt) (degrees_are (some (pos 55))) 0)
      (ok (tilt_is (pos 55))) 9000 accepted_tilt

-- The job is done, with its result.
moved_jobs :
    moved.jobs.jobs
    ≡ (
      1,
      record (new_job 1 (command_is write_tilt) (degrees_are (some (pos 55))) 0) {
        state = done;
        result = some (result_is (tilt_is (pos 55)));
        finished_at = some 9000;
      },
    )
      ∷ []
unfolding finish finished_job put_tilt run tilt_limits from_bytes field_of submit put create trim
    store lookup
moved_jobs = refl
