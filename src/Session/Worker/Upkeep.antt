-- ===== src/Session/Worker/Upkeep.antt =====
-- openaisg/session.py: what `SerialWorker` does on a link that is up: keepalive polls, the quarantine
-- behind a timeout, and the monitor.
use openaisg.Common.{
  ℕ, zero, suc, ◌+◌, ◌%◌, Bool, true, false, not, ◌&&◌, ◌||◌, List, [], ◌∷◌, Option, none, some,
  ltb, leb, ◌==◌, if◌then◌else◌, Bytes, max,
}
use openaisg.Errors.{
  closed, connected, type_error, Action, pure, raise, modify, ◌>>=◌, ◌>>◌, attempt,
}
use openaisg.Hdlc.Framing.{Frame}
use openaisg.Hdlc.Control.{i_frame, u_frame, kind, ns_of, without_pf, ctrl_dm, ctrl_frmr}
use openaisg.Session.Router.{is_indication}
use openaisg.Session.Bus.{Bus}
use openaisg.Session.Worker.{
  MonitorMode, off, duty_cycled, continuous, AlarmMode, polled, Worker, is_os_or_aisg, set_state,
  clock, on_link, release, fail_link,
}
use openaisg.Session.Worker.Entry.{indicate_all, poll_alarms}
use openaisg.Session.Worker.Opening.{is_empty}

-- `pl and pl[0] in INDICATION_CODES`.
abbrev pub starts_indication : Bytes → Bool
starts_indication [] = false
starts_indication (code ∷ rest) = is_indication code

-- `k == U_FRAME and (ctrl & ~PF) in (CTRL_DM, CTRL_FRMR)`.
abbrev pub is_down : Frame → Bool
is_down f = elim (kind f.ctrl) [
  | u_frame ↦ without_pf f.ctrl == ctrl_dm || without_pf f.ctrl == ctrl_frmr
  | _ ↦ false
]

abbrev pub is_i_frame : Frame → Bool
is_i_frame f = elim (kind f.ctrl) [ i_frame ↦ true | _ ↦ false ]

-- `mode == "polled"`.
abbrev pub is_polled : AlarmMode → Bool
is_polled polled = true
is_polled mode = false

abbrev pub is_continuous : MonitorMode → Bool
is_continuous continuous = true
is_continuous mode = false

abbrev pub is_duty_cycled : MonitorMode → Bool
is_duty_cycled duty_cycled = true
is_duty_cycled mode = false

abbrev pub is_off : MonitorMode → Bool
is_off off = true
is_off mode = false

-- `due_monitor or ...` of `_connected_housekeeping`.
unfoldable pub is_due : {E : Type 0} → ℕ → Worker E → Bool
is_due now w =
    (is_duty_cycled w.monitor || (is_continuous w.monitor && is_polled w.alarm_mode))
    && leb (w.last_monitor_at + w.monitor_period) now

module _ {E : Type 0} (bus : Bus E) where
  -- `self.address`, which an operation of the link needs as a number.
  abbrev pub at_address :
      Option ℕ → (ℕ → Action (Worker E) (Unit {0})) → Action (Worker E) (Unit {0})
  at_address none f = raise type_error
  at_address (some addr) f = f addr

  abbrev pub with_address : (ℕ → Action (Worker E) (Unit {0})) → Action (Worker E) (Unit {0})
  with_address f w = at_address w.address f w

  abbrev pub vr_of : ℕ → Worker E → ℕ
  vr_of addr w = (bus.peer addr w.env).vr

  -- `p.vr = (ns + 1) & 7`.
  abbrev pub follow : ℕ → ℕ → Worker E → Worker E
  follow addr ns w = record w {
    env = bus.put_peer addr (record (bus.peer addr w.env) { vr = (ns + 1) % 8 }) w.env;
  }

  -- An I-frame in sequence, in `_keepalive_poll`.
  unfoldable pub take_i_frame : ℕ → Frame → Action (Worker E) (Unit {0})
  take_i_frame addr f = do
    modify (follow addr (ns_of f.ctrl))
    λ w. on_link (bus.write_rr addr (vr_of addr w) false) w
    modify (λ w. if starts_indication f.payload then indicate_all (f.payload ∷ []) w else w)

  -- A frame in `_keepalive_poll`, and the later ones.
  abbrev pub heed : ℕ → Frame → Action (Worker E) (Unit {0}) → Action (Worker E) (Unit {0})
  heed addr f rest w =
      (if not (f.addr == addr)
          then rest
          else if is_down f
          then fail_link bus "DM/FRMR on keepalive"
          else if is_i_frame f && ns_of f.ctrl == vr_of addr w
          then take_i_frame addr f >> rest
          else rest)
        w

  -- The loop of `_keepalive_poll` over the frames.
  unfoldable pub listen : ℕ → List Frame → Action (Worker E) (Unit {0})
  listen addr [] = pure tt
  listen addr (f ∷ fs) = heed addr f (listen addr fs)

  -- The `try` block of `_keepalive_poll`.
  unfoldable pub ask : ℕ → Action (Worker E) (Unit {0})
  ask addr = do
    λ w. on_link (bus.write_rr addr (vr_of addr w) true) w
    frames ← on_link (bus.read_frames 200)
    listen addr frames

  -- `_keepalive_poll`.
  unfoldable pub keepalive_poll : Action (Worker E) (Unit {0})
  keepalive_poll = attempt (with_address ask) is_os_or_aisg (λ e. fail_link bus (bus.str e))

  -- A frame in `_drain`, and the later ones.
  abbrev pub ignore : ℕ → Frame → Action (Worker E) (Unit {0}) → Action (Worker E) (Unit {0})
  ignore addr f rest =
      if f.addr == addr && is_i_frame f
      then modify (follow addr (ns_of f.ctrl))
        >> ((λ w. on_link (bus.write_rr addr (vr_of addr w) true) w) >> rest)
      else rest

  -- The loop of `_drain` over the frames.
  unfoldable pub discard : ℕ → List Frame → Action (Worker E) (Unit {0})
  discard addr [] = pure tt
  discard addr (f ∷ fs) = ignore addr f (discard addr fs)

  -- No frame is from an address of None.
  abbrev pub discard_from : Option ℕ → List Frame → Action (Worker E) (Unit {0})
  discard_from none fs = pure tt
  discard_from (some addr) fs = discard addr fs

  -- What a pass of `_drain` does with the frames that were read, and the later passes.
  abbrev pub drain_frames : List Frame → Action (Worker E) (Unit {0}) → Action (Worker E) (Unit {0})
  drain_frames [] rest = pure tt
  drain_frames (f ∷ fs) rest = (λ w. discard_from w.address (f ∷ fs) w) >> rest

  -- The loop of `_drain`, with the passes that are left; behind the last one its test fails.
  unfoldable pub drain_until : ℕ → ℕ → Action (Worker E) (Unit {0})
  drain_until zero end = clock bus >> pure tt
  drain_until (suc left) end = do
    let rest = drain_until left end
    now ← clock bus
    (if ltb now end
        then (on_link (bus.read_frames 200) >>= λ frames. drain_frames frames rest)
        else pure tt)

  -- `_drain`.
  unfoldable pub drain : Action (Worker E) (Unit {0})
  drain = do
    drained ←
        attempt (clock bus >>= λ now. drain_until bus.drain_passes (now + 1500) >> pure true)
          is_os_or_aisg (λ e. fail_link bus (bus.str e) >> pure false)
    if drained then modify (set_state connected "") else pure tt

  unfoldable pub close_down : Action (Worker E) (Unit {0})
  close_down = do release bus; modify (set_state closed "")

  unfoldable pub maybe_ask : ℕ → Action (Worker E) (Unit {0})
  maybe_ask now w =
      (if leb (w.last_keepalive_at + w.keepalive) now
          then modify (λ v. record v { last_keepalive_at = now }) >> keepalive_poll
          else pure tt)
        w

  -- The part of `_connected_housekeeping` behind the alarm poll.
  unfoldable pub keep_up : ℕ → Action (Worker E) (Unit {0})
  keep_up now w =
      (if is_continuous w.monitor
          then maybe_ask now
          else if is_off w.monitor
              && leb (max w.last_command_at w.last_monitor_at + w.idle_release) now
          then close_down
          else pure tt)
        w

  abbrev pub after_poll : ℕ → Action (Worker E) (Unit {0})
  after_poll now w =
      (if is_duty_cycled w.monitor && is_empty w.queue then close_down else keep_up now) w

  -- The alarm poll of `_connected_housekeeping`, and what follows it.
  unfoldable pub monitor_alarms : ℕ → Action (Worker E) (Unit {0})
  monitor_alarms now = do
    modify (λ v. record v { last_monitor_at = now })
    poll_alarms bus
    after_poll now

  -- `_connected_housekeeping`.
  unfoldable pub connected_housekeeping : ℕ → Action (Worker E) (Unit {0})
  connected_housekeeping now w = (if is_due now w then monitor_alarms now else keep_up now) w
