-- ===== src/Session/Worker/Calm.antt =====
-- What `SerialWorker` of openaisg/session.py asks of the device keeps every predicate of the worker
-- that does not look at what the device tells.
use openaisg.Common.{ℕ, ◌%◌, Bool, true, false, List, [], ◌∷◌, Option, none, some, ◌==◌, Bytes}
use openaisg.Common.Int.{ℤ}
use openaisg.Common.Texts.{String}
use openaisg.Errors.{is_aisg_error, Result, Action}
use openaisg.Errors.Rules.{
  Keeps, Keeps-bind, Keeps-then, Keeps-attempt, Keeps-if, Keeps-pure, Keeps-modify, Keeps-here,
  Keeps-raise, either_way,
}
use openaisg.Retap.Procedures.{Key, Transport, Ret}
use openaisg.Retap.Procedures.Keeping.{
  Keeps-get_information, Keeps-get_alarm_status, Keeps-clear_alarms, Keeps-alarm_subscribe,
  Keeps-self_test, Keeps-reset, Keeps-calibrate, Keeps-set_tilt, Keeps-get_tilt,
  Keeps-get_device_data,
}
use openaisg.Session.Alarms.{AlarmTracker, Edge, names_of}
use openaisg.Session.Bus.{Bus, Called, on_indication, on_poll}
use openaisg.Session.Worker.{
  AlarmMode, Name, read_information, read_tilt, read_alarm_status, read_device_data, write_tilt,
  write_clear_alarms, write_calibrate, write_self_test, write_reset, Answer, information, tilt_is,
  alarms_are, device_data_is, nothing, Command, alarm_event, progress_event, status_event, Worker,
  emit,
}
use openaisg.Session.Worker.Entry.{
  is_link_reset, is_unsupported, fields, emit_edges, take_snapshot, indicate_all, drain_indications,
  heard, transport, ret_for, with_ret, is_none, ask_for_alarms, sweep, subscribe, learn_identity,
  learn_device_data, entry_actions, on_connected, read_alarms,
}
use openaisg.Session.Worker.Commands.{absorbed, absorb, call, run_with, run_command}

-- A predicate does not look at what the device tells, nor at the events that are not of the link.
pub record Calm {E : Type 0} (I : Worker E → Type 0) : Type 0 where
  pub env : (env : E) (w : Worker E) → I w → I (record w { env = env })
  pub indications : (l : List Bytes) (w : Worker E) → I w → I (record w { indications = l })
  pub alarm : (edge : Edge) (w : Worker E) → I w → I (emit (alarm_event edge) w)
  pub progress :
      (name : Name) (polls : ℕ) (acked : Bool) (w : Worker E)
      → I w
      → I (emit (progress_event name polls acked) w)
  pub status : (w : Worker E) → I w → I (emit (status_event w.state w.tilt w.alarms.active) w)
  pub alarms : (t : AlarmTracker) (w : Worker E) → I w → I (record w { alarms = t })
  pub tilt : (t : Option ℤ) (w : Worker E) → I w → I (record w { tilt = t })
  pub identity : (p : List (Key × List ℕ)) (w : Worker E) → I w → I (record w { identity = p })
  pub device_data : (d : List (ℕ × Bytes)) (w : Worker E) → I w → I (record w { device_data = d })
  pub alarm_mode : (mode : AlarmMode) (w : Worker E) → I w → I (record w { alarm_mode = mode })
  pub unsupported : (b : Bool) (w : Worker E) → I w → I (record w { subscribe_unsupported = b })
  pub address : (addr : Option ℕ) (w : Worker E) → I w → I (record w { address = addr })
  pub error : (text : String) (w : Worker E) → I w → I (record w { last_error = text })

module _ {E : Type 0} {I : Worker E → Type 0} (c : Calm I) where
  emit_edges-Keeps : (edges : List Edge) (w : Worker E) → I w → I (emit_edges edges w)
  unfolding emit_edges
  emit_edges-Keeps [] w i = i
  emit_edges-Keeps (edge ∷ edges) w i = emit_edges-Keeps edges _ (c.alarm edge w i)

  pub take_snapshot-Keeps :
      (names : List String) (emits : Bool) (w : Worker E) → I w → I (take_snapshot names emits w)
  unfolding take_snapshot
  take_snapshot-Keeps names emits w i = emit_edges-Keeps _ _ (c.alarms _ w i)

  pub indicate_all-Keeps : (l : List Bytes) (w : Worker E) → I w → I (indicate_all l w)
  unfolding indicate_all
  indicate_all-Keeps [] w i = i
  indicate_all-Keeps (payload ∷ l) w i =
      indicate_all-Keeps l _ (emit_edges-Keeps _ _ (c.alarms _ w i))

  pub drain_indications-Keeps : (w : Worker E) → I w → I (drain_indications w)
  unfolding drain_indications
  drain_indications-Keeps w i = indicate_all-Keeps w.indications _ (c.indications [] w i)

  heard-Keeps :
      (name : Option Name) (called : List Called) (w : Worker E) → I w → I (heard name called w)
  unfolding heard
  heard-Keeps name [] w i = i
  heard-Keeps none (on_indication payload ∷ called) w i =
      heard-Keeps none called _ (c.indications _ w i)
  heard-Keeps (some name) (on_indication payload ∷ called) w i =
      heard-Keeps (some name) called _ (c.indications _ w i)
  heard-Keeps none (on_poll polls acked ∷ called) w i = heard-Keeps none called w i
  heard-Keeps (some name) (on_poll polls acked ∷ called) w i =
      heard-Keeps (some name) called _
        (either_way I (polls % 20 == 0) (c.progress name polls acked w i) i)

  pub absorb-Keeps : (answer : Answer) (w : Worker E) → I w → I (absorb answer w)
  unfolding absorb absorbed
  absorb-Keeps answer w i = c.status (absorbed answer w) (kept answer)
    where
      kept : (answer : Answer) → I (absorbed answer w)
      kept (information pairs) = c.identity pairs w i
      kept (tilt_is t) = c.tilt (some t) w i
      kept (alarms_are names) = take_snapshot-Keeps names true w i
      kept (device_data_is swept) = c.device_data swept w i
      kept nothing = i

  module _ (bus : Bus E) where
    transport-Keeps :
        (name : Option Name) (addr : ℕ) (message : Bytes) (timeout : ℕ)
        → Keeps I ((transport bus name).request addr message timeout)
    unfolding transport
    transport-Keeps name addr message timeout = record {
      run = λ w i.
          either_way (λ (x : Result Bytes × Worker E). I x.1) w.link
            (heard-Keeps name _ _ (c.env _ w i)) i;
    }

    ret_for-Keeps :
        {A : Type 0} (address : Option ℕ) {f : Ret → Action (Worker E) A}
        → ((ret : Ret) → Keeps I (f ret))
        → Keeps I (ret_for bus address f)
    ret_for-Keeps none h = Keeps-raise
    ret_for-Keeps (some addr) h = h _

    pub with_ret-Keeps :
        {A : Type 0} {f : Ret → Action (Worker E) A}
        → ((ret : Ret) → Keeps I (f ret))
        → Keeps I (with_ret bus f)
    with_ret-Keeps h = Keeps-here (λ w. ret_for-Keeps w.address h)

    sweep-Keeps :
        (name : Option Name) (ret : Ret) (fids : List ℕ)
        → Keeps I (sweep bus (transport bus name) ret fids)
    unfolding sweep
    sweep-Keeps name ret [] = Keeps-pure
    sweep-Keeps name ret (fid ∷ fids) =
        Keeps-bind
          (Keeps-attempt is_aisg_error
            (Keeps-bind (Keeps-get_device_data (transport bus name) (transport-Keeps name) ret fid)
              (λ bytes. Keeps-pure))
            (λ e. Keeps-pure))
          (λ answer. Keeps-bind (sweep-Keeps name ret fids) (λ rest. Keeps-pure))

    ask_for_alarms-Keeps : (ret : Ret) → Keeps I (ask_for_alarms bus ret)
    unfolding ask_for_alarms
    ask_for_alarms-Keeps ret =
        Keeps-attempt is_aisg_error
          (Keeps-then (Keeps-alarm_subscribe (transport bus none) (transport-Keeps none) ret)
            Keeps-pure)
          (λ e.
            Keeps-then
              (Keeps-modify (λ w i. either_way I (is_unsupported e) (c.unsupported true w i) i))
              Keeps-pure)

    subscribe-Keeps : (ret : Ret) → Keeps I (subscribe bus ret)
    unfolding subscribe
    subscribe-Keeps ret =
        Keeps-here (λ w. Keeps-if w.subscribe_unsupported Keeps-pure (ask_for_alarms-Keeps ret))

    learn_identity-Keeps : (ret : Ret) → Keeps I (learn_identity bus ret)
    unfolding learn_identity
    learn_identity-Keeps ret = Keeps-here (λ w.
        Keeps-if (is_none w.identity)
          (Keeps-bind (Keeps-get_information (transport bus none) (transport-Keeps none) ret)
            (λ pairs. Keeps-modify (c.identity pairs)))
          Keeps-pure)

    learn_device_data-Keeps : (ret : Ret) → Keeps I (learn_device_data bus ret)
    unfolding learn_device_data
    learn_device_data-Keeps ret = Keeps-here (λ w.
        Keeps-if (is_none w.device_data)
          (Keeps-bind (sweep-Keeps none ret fields) (λ swept. Keeps-modify (c.device_data swept)))
          Keeps-pure)

    pub read_alarms-Keeps : (ret : Ret) → Keeps I (read_alarms bus ret)
    unfolding read_alarms
    read_alarms-Keeps ret =
        Keeps-bind (Keeps-get_alarm_status (transport bus none) (transport-Keeps none) ret)
          (λ codes. Keeps-then (Keeps-modify (take_snapshot-Keeps (names_of codes) true)) (
            Keeps-bind (Keeps-get_tilt (transport bus none) (transport-Keeps none) ret)
              (λ t. Keeps-modify (c.tilt (some t)))))

    entry_actions-Keeps : (ret : Ret) → Keeps I (entry_actions bus ret)
    unfolding entry_actions
    entry_actions-Keeps ret = Keeps-then (learn_identity-Keeps ret) (
        Keeps-then (learn_device_data-Keeps ret) (
          Keeps-bind (subscribe-Keeps ret) (λ mode. Keeps-then (Keeps-modify (c.alarm_mode mode)) (
            Keeps-bind (Keeps-get_alarm_status (transport bus none) (transport-Keeps none) ret)
              (λ codes. Keeps-then (Keeps-modify (take_snapshot-Keeps (names_of codes) false)) (
                Keeps-bind (Keeps-get_tilt (transport bus none) (transport-Keeps none) ret)
                  (λ t. Keeps-then (Keeps-modify (c.tilt (some t))) (Keeps-pure))))))))

    pub on_connected-Keeps : Keeps I (on_connected bus)
    unfolding on_connected
    on_connected-Keeps = Keeps-attempt is_aisg_error (with_ret-Keeps entry_actions-Keeps) (λ e.
        Keeps-if (is_link_reset e) (Keeps-then (Keeps-modify (c.error (bus.str e))) Keeps-pure)
          Keeps-pure)

    pub call-Keeps :
        (name command : Name) (ret : Ret)
        → Keeps I (call bus (transport bus (some name)) command ret)
    unfolding call
    call-Keeps name read_information ret =
        Keeps-bind (Keeps-get_information _ (transport-Keeps (some name)) ret) (λ pairs. Keeps-pure)
    call-Keeps name read_tilt ret =
        Keeps-bind (Keeps-get_tilt _ (transport-Keeps (some name)) ret) (λ t. Keeps-pure)
    call-Keeps name read_alarm_status ret =
        Keeps-bind (Keeps-get_alarm_status _ (transport-Keeps (some name)) ret)
          (λ codes. Keeps-pure)
    call-Keeps name read_device_data ret =
        Keeps-bind (sweep-Keeps (some name) ret fields) (λ swept. Keeps-pure)
    call-Keeps name write_tilt ret = Keeps-raise
    call-Keeps name write_clear_alarms ret =
        Keeps-then (Keeps-clear_alarms _ (transport-Keeps (some name)) ret) Keeps-pure
    call-Keeps name write_calibrate ret =
        Keeps-then (Keeps-calibrate _ (transport-Keeps (some name)) ret) Keeps-pure
    call-Keeps name write_self_test ret =
        Keeps-then (Keeps-self_test _ (transport-Keeps (some name)) ret) Keeps-pure
    call-Keeps name write_reset ret =
        Keeps-then (Keeps-reset _ (transport-Keeps (some name)) ret) Keeps-pure

    pub run_command-Keeps : (cmd : Command) (ret : Ret) → Keeps I (run_command bus cmd ret)
    unfolding run_command
    run_command-Keeps cmd ret = go cmd.degrees cmd.name
      where
        t : Transport (Worker E)
        t = transport bus (some cmd.name)

        go : (degrees : Option ℤ) (name : Name) → Keeps I (run_with bus t degrees name ret)
        go none name = call-Keeps cmd.name name ret
        go (some tenths) write_tilt =
            Keeps-then (Keeps-set_tilt t (transport-Keeps (some cmd.name)) ret tenths) (
              Keeps-bind (Keeps-get_tilt t (transport-Keeps (some cmd.name)) ret)
                (λ tilt. Keeps-pure))
        go (some tenths) read_information = Keeps-raise
        go (some tenths) read_tilt = Keeps-raise
        go (some tenths) read_alarm_status = Keeps-raise
        go (some tenths) read_device_data = Keeps-raise
        go (some tenths) write_clear_alarms = Keeps-raise
        go (some tenths) write_calibrate = Keeps-raise
        go (some tenths) write_self_test = Keeps-raise
        go (some tenths) write_reset = Keeps-raise
