-- ===== src/Session/Worker/Commands.antt =====
-- openaisg/session.py: the commands of `SerialWorker`, from `submit` to the answer in the future. What
-- other threads do to the worker stands between two passes of its loop.
use openaisg.Common.{
  ℕ, suc, ◌+◌, Bool, true, false, ◌&&◌, ◌||◌, List, [], ◌∷◌, Option, none, some, ltb, leb, ◌==◌,
  if◌then◌else◌,
}
use openaisg.Common.Int.{ℤ}
use openaisg.Errors.{
  LinkState, closed, connected, draining, leased, Error, aisg_timeout, session_error, type_error,
  runtime_error, value_error, is_aisg_error, Result, ok, err, Action, pure, raise, modify, ◌>>=◌,
  ◌>>◌, attempt, and_finally,
}
use openaisg.Errors.{port_busy, port_lost, no_devices, backoff, shutdown}
use openaisg.Retap.Procedures.{
  Transport, Ret, get_information, get_alarm_status, clear_alarms, self_test, reset, calibrate,
  set_tilt, get_tilt,
}
use openaisg.Session.Alarms.{names_of}
use openaisg.Session.Bus.{Bus}
use openaisg.Session.Worker.{
  Name, read_information, read_tilt, read_alarm_status, read_device_data, write_tilt,
  write_clear_alarms, write_calibrate, write_self_test, write_reset, Answer, information, tilt_is,
  alarms_are, device_data_is, nothing, Future, pending, running, cancelled, cancelled_and_notified,
  finished, Command, status_event, Worker, same_state, put_future, emit, set_state, clock,
  fail_link,
}
use openaisg.Session.Worker.Entry.{
  is_link_reset, fields, take_snapshot, drain_indications, transport, with_ret, sweep,
}

-- `FAIL_FAST`.
unfoldable pub fails_fast : LinkState → Bool
fails_fast port_busy = true
fails_fast port_lost = true
fails_fast no_devices = true
fails_fast backoff = true
fails_fast leased = true
fails_fast shutdown = true
fails_fast state = false

-- `Command.__lt__`, by priority and then by number.
unfoldable pub is_less : Command → Command → Bool
is_less c d = ltb c.priority d.priority || (c.priority == d.priority && ltb c.seq d.seq)

-- `_q.put`.
unfoldable pub enqueue : Command → List Command → List Command
enqueue cmd [] = cmd ∷ []
enqueue cmd (c ∷ cmds) =
    let rest = enqueue cmd cmds in if is_less cmd c then cmd ∷ c ∷ cmds else c ∷ rest

-- `isinstance(e, AisgTimeout) and e.acked`.
abbrev pub is_acked_timeout : Error → Bool
is_acked_timeout (aisg_timeout acked) = acked
is_acked_timeout e = false

-- `Future.cancel()`.
abbrev pub cancelled_from : Future → Future
cancelled_from pending = cancelled
cancelled_from future = future

module _ {E : Type 0} where
  abbrev pub finish : ℕ → Result Answer → Worker E → Worker E
  finish seq r w = record w { futures = put_future seq (finished r) w.futures }

  -- `cancel` of the future of a command.
  unfoldable pub cancel : ℕ → Worker E → Worker E
  cancel seq w = record w { futures = put_future seq (cancelled_from (w.futures seq)) w.futures }

  -- `set_running_or_notify_cancel` of the future of a command.
  abbrev pub claim_from : Future → ℕ → Action (Worker E) Bool
  claim_from pending seq w = (ok true, record w { futures = put_future seq running w.futures })
  claim_from cancelled seq w =
      (ok false, record w { futures = put_future seq cancelled_and_notified w.futures })
  claim_from future seq w = (err runtime_error, w)

  unfoldable pub claim : ℕ → Action (Worker E) Bool
  claim seq w = claim_from (w.futures seq) seq w

  -- `_abandon`.
  unfoldable pub abandon : ℕ → Error → Action (Worker E) (Unit {0})
  abandon seq e = do claimed ← claim seq; if claimed then modify (finish seq (err e)) else pure tt

  -- What `_absorb` keeps of the dictionary of an answer.
  unfoldable pub absorbed : Answer → Worker E → Worker E
  absorbed (information pairs) w = record w { identity = pairs }
  absorbed (tilt_is tilt) w = record w { tilt = some tilt }
  absorbed (alarms_are names) w = take_snapshot names true w
  absorbed (device_data_is swept) w = record w { device_data = swept }
  absorbed nothing w = w

  -- The command of `submit`, its deadline given.
  unfoldable pub put : Name → Option ℤ → ℕ → ℕ → Action (Worker E) ℕ
  put name degrees priority link_deadline w =
      let cmd : Command = record {
        priority = priority;
        seq = w.next_seq;
        name = name;
        degrees = degrees;
        link_deadline = link_deadline;
      } in
      (
        ok w.next_seq,
        record w {
          queue = enqueue cmd w.queue;
          futures = put_future w.next_seq pending w.futures;
          next_seq = suc w.next_seq;
        },
      )

  -- `_absorb`; of `snapshot()`, the event shows the state, the tilt and the alarms.
  unfoldable pub absorb : Answer → Worker E → Worker E
  absorb answer w =
      let w' = absorbed answer w in emit (status_event w'.state w'.tilt w'.alarms.active) w'

  -- `self.target_tilt = float(...)` of `_execute`.
  abbrev pub aim_at : Name → Option ℤ → Action (Worker E) (Unit {0})
  aim_at write_tilt none = raise type_error
  aim_at write_tilt (some tenths) = modify (λ w. record w { target_tilt = some tenths })
  aim_at name degrees = pure tt

  unfoldable pub aim : Command → Action (Worker E) (Unit {0})
  aim cmd = aim_at cmd.name cmd.degrees

  -- The state behind a timeout.
  unfoldable pub quarantine : Error → Worker E → Worker E
  quarantine e w = if is_acked_timeout e then set_state draining "late response expected" w else w

  -- The `else` clause of `_execute`.
  unfoldable pub succeeded : Command → Option Answer → Worker E → Worker E
  succeeded cmd none w = w
  succeeded cmd (some answer) w = finish cmd.seq (ok answer) (absorb answer w)

  -- `_take`, which leaves a command in `head`.
  abbrev pub take_from : Option Command → List Command → Worker E → Worker E
  take_from (some cmd) queue w = w
  take_from none [] w = w
  take_from none (cmd ∷ cmds) w = record w { head = some cmd; queue = cmds }

  unfoldable pub take : Worker E → Worker E
  take w = take_from w.head w.queue w

  module _ (bus : Bus E) where
    -- `_set_tilt`.
    abbrev set_and_get : Transport (Worker E) → ℤ → Ret → Action (Worker E) Answer
    set_and_get t tenths ret =
        set_tilt t ret tenths >> (get_tilt t ret >>= λ tilt. pure (tilt_is tilt))

    -- `ALL_COMMANDS[name]`, called without arguments.
    unfoldable pub call : Transport (Worker E) → Name → Ret → Action (Worker E) Answer
    call t read_information ret = get_information t ret >>= λ pairs. pure (information pairs)
    call t read_tilt ret = get_tilt t ret >>= λ tilt. pure (tilt_is tilt)
    call t read_alarm_status ret =
        get_alarm_status t ret >>= λ codes. pure (alarms_are (names_of codes))
    call t read_device_data ret = sweep bus t ret fields >>= λ swept. pure (device_data_is swept)
    call t write_tilt ret = raise type_error
    call t write_clear_alarms ret = clear_alarms t ret >> pure nothing
    call t write_calibrate ret = calibrate t ret >> pure nothing
    call t write_self_test ret = self_test t ret >> pure nothing
    call t write_reset ret = reset t ret >> pure nothing

    -- `fn(ret, **cmd.args) if cmd.args else fn(ret)`.
    abbrev pub run_with : Transport (Worker E) → Option ℤ → Name → Ret → Action (Worker E) Answer
    run_with t none name ret = call t name ret
    run_with t (some tenths) write_tilt ret = set_and_get t tenths ret
    run_with t (some tenths) name ret = raise type_error

    unfoldable pub run_command : Command → Ret → Action (Worker E) Answer
    run_command cmd ret = run_with (transport bus (some cmd.name)) cmd.degrees cmd.name ret

    -- The two `except` clauses of `_execute`.
    unfoldable pub failed : Command → Error → Action (Worker E) (Unit {0})
    failed cmd e = do
      modify (λ w. record w { last_error = bus.str e })
      if is_link_reset e then fail_link bus (bus.str e) else modify (quarantine e)
      modify (finish cmd.seq (err e))

    -- The `finally` clause.
    unfoldable pub conclude : Action (Worker E) (Unit {0})
    conclude = do
      now ← clock bus
      modify (λ w. drain_indications (record w { last_command_at = now }))

    -- The `try` statement of `_execute`.
    unfoldable pub try_command : Command → Action (Worker E) (Unit {0})
    try_command cmd = do
      answer ←
          attempt (with_ret bus (run_command cmd) >>= λ a. pure (some a)) is_aisg_error
            (λ e. failed cmd e >> pure none)
      modify (succeeded cmd answer)

    -- `_execute`.
    unfoldable pub execute : Command → Action (Worker E) (Unit {0})
    execute cmd = do aim cmd; and_finally (try_command cmd) conclude

    -- `_refresh_lease`.
    unfoldable pub refresh_lease : Action (Worker E) (Unit {0})
    refresh_lease w =
        (if same_state w.state leased
            then (clock bus >>= λ now.
                modify (λ v. if leb v.lease_until now then set_state closed "" v else v))
            else pure tt)
          w

    -- `_try_execute` in `CONNECTED`, in a state of `FAIL_FAST`, and in another one.
    unfoldable pub dispatch : Command → Action (Worker E) Bool
    dispatch cmd = do claimed ← claim cmd.seq; if claimed then execute cmd else pure tt; pure true

    -- `SessionError` of the state; its text is not kept.
    abbrev pub turn_away : Command → Action (Worker E) Bool
    turn_away cmd w = (abandon cmd.seq (session_error w.state) >> pure true) w

    unfoldable pub await_link : Command → Action (Worker E) Bool
    await_link cmd = do
      now ← clock bus
      if ltb cmd.link_deadline now
          then turn_away cmd
          else modify (λ w. record w { want_link = true }) >> pure false

    abbrev pub if_not_up : Command → Action (Worker E) Bool
    if_not_up cmd w = (if fails_fast w.state then turn_away cmd else await_link cmd) w

    unfoldable pub try_in_state : Command → Action (Worker E) Bool
    try_in_state cmd w = (if same_state w.state connected then dispatch cmd else if_not_up cmd) w

    -- `_try_execute`.
    unfoldable pub try_execute : Command → Action (Worker E) Bool
    try_execute cmd = do refresh_lease; try_in_state cmd

    -- `submit`, called with a key of `ALL_COMMANDS` or with another name.
    unfoldable pub submit : Option Name → Option ℤ → ℕ → ℕ → Action (Worker E) ℕ
    submit none degrees priority link_wait = raise value_error
    submit (some name) degrees priority link_wait = do
      now ← clock bus
      put name degrees priority (now + link_wait)

    -- `lease`.
    unfoldable pub lease : ℕ → Action (Worker E) (Unit {0})
    lease duration = do now ← clock bus; modify (λ w. record w { lease_until = now + duration })

  -- `unlease`.
  unfoldable pub unlease : Worker E → Worker E
  unlease w = record w { lease_until = 0 }
