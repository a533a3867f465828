-- ===== src/Session/Worker/Desk.antt =====
-- A desk with one device, for runs of the model of `SerialWorker` in openaisg/session.py.
use openaisg.Common.{ℕ, suc, true, [], ◌∷◌, none, some, Bytes}
use openaisg.Errors.{Result, ok}
use openaisg.Link.Manage.{Device}
use openaisg.Session.Bus.{Bus, Opening, opened}
use openaisg.Session.Worker.{off, Worker, new_worker}
use openaisg.Session.Worker.{}
use openaisg.Session.Worker.Entry.{}
use openaisg.Session.Worker.Opening.{}
use openaisg.Session.Worker.Commands.{}
use openaisg.Session.Worker.Upkeep.{}
use openaisg.Session.Worker.Loop.{}
use openaisg.Retap.Procedures.{}

-- A desk: the clock, what opening comes to, how a DISC is answered, and the device's tilt response.
pub record Desk : Type 0 where
  pub now : ℕ
  pub opening : Opening
  pub goodbye : Result (Unit {0})
  pub response : Result Bytes

abbrev pub device : Device
device = record { unique_id = 65 ∷ []; device_type = some 1; vendor = none; address = none }

abbrev pub bus : Bus Desk
bus = record {
  monotonic = λ d. (d.now, d);
  str = λ e. "error";
  serial_open = λ d. (d.opening, d);
  close = λ d. (ok tt, d);
  connect = λ addr d. (ok tt, d);
  disconnect = λ addr timeout d. (d.goodbye, d);
  scan = λ d. (ok (device ∷ []), d);
  assign_address = λ dev addr d. (ok (record dev { address = some addr }), d);
  scan_assigned = λ first count d. (ok [], d);
  exchange = λ addr message timeout d. (d.response, [], d);
  peer = λ addr d. record { vs = 0; vr = 0; connected = true };
  put_peer = λ addr p d. d;
  write_rr = λ addr vr poll d. (ok tt, d);
  read_frames = λ budget d. (ok [], record d { now = suc d.now });
  drain_passes = 1500;
}

-- The device answers every request with the tilt response of 1.0 degrees.
abbrev pub desk : Desk
desk = record {
  now = 0;
  opening = opened;
  goodbye = ok tt;
  response = ok (0x34 ∷ 3 ∷ 0 ∷ 0 ∷ 10 ∷ 0 ∷ []);
}

abbrev pub idle : Worker Desk
idle = new_worker off 60000 1000 60000 1 4 desk
