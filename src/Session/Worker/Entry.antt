-- ===== src/Session/Worker/Entry.antt =====
-- openaisg/session.py: what `SerialWorker` asks of the device, `SerialTransport` for it, the entry
-- actions of a connection and the alarm poll.
use openaisg.Common.{
  ℕ, ◌%◌, Bool, true, false, List, [], ◌∷◌, ◌++◌, Option, none, some, ◌==◌, if◌then◌else◌, Bytes,
}
use openaisg.Common.Texts.{String}
use openaisg.Errors.{
  Error, link_reset, ret_error, attribute_error, type_error, is_aisg_error, err, Action, pure,
  raise, modify, ◌>>=◌, ◌>>◌, attempt, and_finally,
}
use openaisg.Retap.Procedures.{
  Transport, Ret, get_information, get_alarm_status, alarm_subscribe, get_device_data, get_tilt,
}
use openaisg.Session.Alarms.{Edge, snapshot, indicate, names_of}
use openaisg.Session.Bus.{Bus, Called, on_indication, on_poll}
use openaisg.Session.Worker.{
  AlarmMode, subscribed, polled, Name, alarm_event, progress_event, Worker, emit, fail_link,
}

abbrev pub is_link_reset : Error → Bool
is_link_reset link_reset = true
is_link_reset e = false

-- `"UnknownProcedure"` or `"UnsupportedProcedure"` is part of `str(e)`, which ends for a `RetError` in
-- the name of its code and for the other errors in none.
abbrev pub is_unsupported : Error → Bool
is_unsupported (ret_error code rc) = if rc == 0x19 then true else rc == 0x25
is_unsupported e = false

-- The loop of `_sweep_device_data` puts what a field answers in front of the later ones.
abbrev pub and_field : ℕ → Option Bytes → List (ℕ × Bytes) → List (ℕ × Bytes)
and_field fid none rest = rest
and_field fid (some bytes) rest = (fid, bytes) ∷ rest

-- `not d`, of a dictionary.
abbrev pub is_none : {A : Type 0} → List A → Bool
is_none [] = true
is_none (x ∷ xs) = false

-- `range(1, 0x0B + 1)`.
abbrev pub fields : List ℕ
fields = 1 ∷ 2 ∷ 3 ∷ 4 ∷ 5 ∷ 6 ∷ 7 ∷ 8 ∷ 9 ∷ 10 ∷ 11 ∷ []

module _ {E : Type 0} where
  unfoldable pub emit_edges : List Edge → Worker E → Worker E
  emit_edges [] w = w
  emit_edges (edge ∷ edges) w = emit_edges edges (emit (alarm_event edge) w)

  -- `for ev in self.alarms.snapshot(names, emit): self._emit(ev)`.
  unfoldable pub take_snapshot : List String → Bool → Worker E → Worker E
  take_snapshot names emits w =
      let (edges, alarms) = snapshot names emits w.alarms in
      emit_edges edges (record w { alarms = alarms })

  -- The loop of `_drain_indications`.
  unfoldable pub indicate_all : List Bytes → Worker E → Worker E
  indicate_all [] w = w
  indicate_all (payload ∷ payloads) w =
      let (edges, alarms) = indicate payload w.alarms in
      indicate_all payloads (emit_edges edges (record w { alarms = alarms }))

  unfoldable pub drain_indications : Worker E → Worker E
  drain_indications w = indicate_all w.indications (record w { indications = [] })

  -- `_queue_indication`, and `on_poll` of `_execute` for the command that is given.
  unfoldable pub heard : Option Name → List Called → Worker E → Worker E
  heard name [] w = w
  heard name (on_indication payload ∷ called) w =
      heard name called (record w { indications = w.indications ++ (payload ∷ []) })
  heard none (on_poll polls acked ∷ called) w = heard none called w
  heard (some name) (on_poll polls acked ∷ called) w =
      heard (some name) called
        (if polls % 20 == 0 then emit (progress_event name polls acked) w else w)

  module _ (bus : Bus E) where
    -- `SerialTransport(self.link, ...)`.
    unfoldable pub transport : Option Name → Transport (Worker E)
    transport name = record {
      request = λ addr message timeout w.
          let (r, called, env) = bus.exchange addr message timeout w.env in
          if w.link
          then (r, heard name called (record w { env = env }))
          else (err attribute_error, w);
    }

    -- `Ret(transport, self.address)`; without an address the first request raises.
    abbrev pub ret_for : {A : Type 0} → Option ℕ → (Ret → Action (Worker E) A) → Action (Worker E) A
    ret_for none f = raise type_error
    ret_for (some addr) f = f (record { addr = addr; antenna = none })

    abbrev pub with_ret : {A : Type 0} → (Ret → Action (Worker E) A) → Action (Worker E) A
    with_ret f w = ret_for w.address f w

    -- `_sweep_device_data`.
    unfoldable pub sweep :
        Transport (Worker E) → Ret → List ℕ → Action (Worker E) (List (ℕ × Bytes))
    sweep t ret [] = pure []
    sweep t ret (fid ∷ fids) = do
      answer ←
          attempt (get_device_data t ret fid >>= λ bytes. pure (some bytes)) is_aisg_error
            (λ e. pure none)
      rest ← sweep t ret fids
      pure (and_field fid answer rest)

    -- The `try` statement of `_subscribe`.
    unfoldable pub ask_for_alarms : Ret → Action (Worker E) AlarmMode
    ask_for_alarms ret =
        attempt (alarm_subscribe (transport none) ret >> pure subscribed) is_aisg_error (λ e. do
          modify (λ w. if is_unsupported e then record w { subscribe_unsupported = true } else w)
          pure polled)

    -- `_subscribe`.
    unfoldable pub subscribe : Ret → Action (Worker E) AlarmMode
    subscribe ret w = (if w.subscribe_unsupported then pure polled else ask_for_alarms ret) w

    abbrev pub learn_if : Bool → Action (Worker E) (Unit {0}) → Action (Worker E) (Unit {0})
    learn_if b m = if b then m else pure tt

    -- `if not self.identity`, and `if not self.device_data`.
    unfoldable pub learn_identity : Ret → Action (Worker E) (Unit {0})
    learn_identity ret w =
        learn_if (is_none w.identity)
          (get_information (transport none) ret >>= λ identity.
            modify (λ w. record w { identity = identity }))
          w

    unfoldable pub learn_device_data : Ret → Action (Worker E) (Unit {0})
    learn_device_data ret w =
        learn_if (is_none w.device_data)
          (sweep (transport none) ret fields >>= λ swept.
            modify (λ w. record w { device_data = swept }))
          w

    -- The `try` block of `_on_connected`.
    unfoldable pub entry_actions : Ret → Action (Worker E) Bool
    entry_actions ret = do
      learn_identity ret
      learn_device_data ret
      mode ← subscribe ret
      modify (λ w. record w { alarm_mode = mode })
      codes ← get_alarm_status (transport none) ret
      modify (take_snapshot (names_of codes) false)
      tilt ← get_tilt (transport none) ret
      modify (λ w. record w { tilt = some tilt })
      pure true

    -- `_on_connected`.
    unfoldable pub on_connected : Action (Worker E) Bool
    on_connected = attempt (with_ret entry_actions) is_aisg_error (λ e.
        if is_link_reset e
        then modify (λ w. record w { last_error = bus.str e }) >> pure false
        else pure true)

    -- The `try` block of `_poll_alarms`.
    unfoldable pub read_alarms : Ret → Action (Worker E) (Unit {0})
    read_alarms ret = do
      codes ← get_alarm_status (transport none) ret
      modify (take_snapshot (names_of codes) true)
      tilt ← get_tilt (transport none) ret
      modify (λ w. record w { tilt = some tilt })

    -- `_poll_alarms`.
    unfoldable pub poll_alarms : Action (Worker E) (Unit {0})
    poll_alarms =
        and_finally
          (attempt (with_ret read_alarms) is_aisg_error
            (λ e. if is_link_reset e then fail_link bus (bus.str e) else pure tt))
          (modify drain_indications)
