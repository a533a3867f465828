-- ===== src/Lib.antt =====
-- The library openaisg (openaisg/, api/, utils/) talks to antenna line devices by AISG v2.0: an
-- HDLC link on a half-duplex RS-485 bus, and the RETAP procedures of remote electrical tilt above
-- it. This development models the link and the procedures and proves what makes them correct.
--
-- Parts, from the wire upwards, and the files that model them:
--   Hdlc.Crc        openaisg/hdlc.py `_crc_table`, `fcs16`.
--   Hdlc.Framing    openaisg/hdlc.py `stuff`, `unstuff`, `build_frame`, `parse_frames`. The generator is
--                   the data type `Frames`: it ends, raises `FrameError`, or yields and goes on.
--   Hdlc.Deframer   openaisg/hdlc.py `Deframer`: `feed`, its buffer limit and its counters, and
--                   `partial`. Hdlc.Deframer.Receiver is the abstract receiver that it implements.
--   Hdlc.Control    openaisg/hdlc.py `kind`, `ns_of`, `nr_of`, and the control bytes that
--                   openaisg/link.py builds.
--   Hdlc.Xid        openaisg/hdlc.py `xid_encode`, `xid_decode`.
--   Link.State      openaisg/link.py `PeerState`, `AisgLink._peers`, `AisgLink.stats`.
--   Link.Exchange   openaisg/link.py `AisgLink.exchange`, `_apply_ack`, `_rr`.
--   Errors          the exceptions that reach the callers, and computations that may raise one;
--                   Errors.Rules and Errors.Contracts carry invariants and contracts through them.
--   Link.Pump       openaisg/link.py `AisgLink._read_frames`.
--   Link.Manage     openaisg/link.py `_xfer`, `_command`, `assign_address`, `connect`, `disconnect`,
--                   `probe_address`, `scan_assigned`.
--   Link.Scan       openaisg/link.py `scan_once`, `scan`.
--   Link.Request    openaisg/link.py `AisgLink.request`.
--   Session.Router  openaisg/session.py `RetapRouter`, `SerialTransport`.
--   Session.Alarms  openaisg/session.py `AlarmTracker`; Retap.Names has the names of the return codes.
--   Session.Bus     what the worker calls: the clock, the opening of the port, the link's operations.
--   Session.Worker  openaisg/session.py `SerialWorker`. Entry: what it asks of the device; Opening:
--                   `_open_and_connect` and its parts; Commands: `submit` to `_execute`, leases;
--                   Upkeep: keepalive, quarantine, monitor; Loop: `_step`, `run`, `_teardown`, and the
--                   relation `Reach` of what the worker and other threads do in any order.
--                   The other children are proofs: Calm, Asking, Inert, Linked and Passing carry a
--                   predicate through every operation, Settled, Establishing, Holding and Serving the
--                   states that last.
--   Retap.Codec     openaisg/retap.py: procedure codes, and the integers of a message.
--   Retap.Procedures  openaisg/retap.py `Ret`: `_proc` and every procedure of the class.
--   Api.Events      api/events.py `Subscriber`, `EventBus`.
--   Api.Jobs        api/jobs.py `Job`, `JobStore`.
--   Api.Service     api/app.py `_run`, `_map_error`, `_tilt_limits`, and the endpoints that reach the
--                   worker; what the wait for a future comes to is given.
--   Api.Stream      api/app.py `events`: the WebSocket handler.
--   Common          lists and Boolean tests over the native numbers, and the laws of `&`, `|`, `^`.
--
-- How they interact: `Ret` sends a message by `link.request`, which is the record `Transport` here;
-- the record stands for `AisgLink` and for the session's `SerialTransport`. The link wraps it into
-- an I-frame by `build_frame`, and reads the frames that `Deframer.feed` finds. `exchange` takes
-- the reads as data: a `Round` is what one call of `_read_frames` returned with the times at which
-- its frames were handled, and the clock behind the `for` loop. A theorem for every list of rounds
-- is one for every behaviour of the device, the bus and the clock. An exchange whose rounds are
-- used up before it ended is `waiting`, so a prefix of a longer run is a run too. What it writes
-- and its callbacks are the list of its effects. `_read_frames` itself takes its reads in the same
-- way, and the one-shot path of Link.Manage takes the serial port as the record `Serial`, which
-- gives what arrives after a frame is written. Identities of jobs stand in place of `uuid`.
--
-- The worker is a state with exceptions: an operation returns or raises, and keeps what it did. Its
-- link is a field that is there or not, with the operations of the record `Bus` on an environment,
-- so a theorem holds for every behaviour of the port, the device and the clock. A future is the
-- entry of a map at the number of its command, which the queue, the worker and the caller share.
-- What other threads do stands between two passes of the loop. Texts of exceptions are `str` of the
-- bus.
--
-- Bounds and fuel: bytes are natural numbers, and theorems that need them below 256 say so;
-- sequence numbers keep their `& 7`. Times are natural numbers of milliseconds, tilts are integers
-- of tenths of a degree (`round(degrees * 10)`). `Deframer.feed` runs on one pass more than it has
-- bytes, and each pass but the last drops one; `xid_decode` on one more than the field has bytes,
-- and each pass takes two. `scan` is structural on the depths that are left. The loops of
-- `exchange` are structural on the rounds. The loop of `_drain` has as many passes as the
-- bus gives it, `drain_passes`; its theorems hold for each number of them, so for one that the clock
-- ends first, as in the code.
--
-- Not modelled: the preemption of a pass of the worker by other threads; `stop` among the moves of
-- the relation `Reach`, which ends where it is called (`teardown`, which the loop then runs, is a
-- definition of its own); the waiting of `_take`, the heartbeat, the field `device`, and in `snapshot`
-- what the status event does not show; the endpoints of api/app.py that only show the snapshot;
-- `Job.as_dict`; log lines and `repr`; the tools in utils/, which are serial and operating system I/O;
-- the user interface, the deployment and the tests.
pub mod Common
pub mod Errors
pub mod Hdlc
pub mod Link
pub mod Retap
pub mod Session
pub mod Api
