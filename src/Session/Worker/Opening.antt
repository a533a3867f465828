-- ===== src/Session/Worker/Opening.antt =====
-- openaisg/session.py: how `SerialWorker` opens the port, finds a device and connects to it. Its field
-- `device`, which nothing reads, is not kept.
use openaisg.Common.{
  ℕ, suc, ◌+◌, Bool, true, false, not, ◌||◌, List, [], ◌∷◌, Option, none, some, leb, ◌==◌,
  if◌then◌else◌,
}
use openaisg.Common.Texts.{String, same_text}
use openaisg.Errors.{
  LinkState, opening, port_busy, port_lost, discovering, no_devices, connecting, connected, backoff,
  Error, is_locked, is_wedged, type_error, is_aisg_error, Result, ok, err, Action, pure, raise,
  modify, ◌>>=◌, ◌>>◌, attempt,
}
use openaisg.Link.Manage.{Device}
use openaisg.Session.Bus.{Bus, link_opened}
use openaisg.Session.Worker.{
  off, duty_cycled, continuous, Command, Worker, set_state, on_link, arm_backoff, release,
  fail_link,
}
use openaisg.Session.Worker.Entry.{on_connected}

abbrev pub is_empty : List Command → Bool
is_empty [] = true
is_empty (cmd ∷ cmds) = false

-- The state for an `AisgError` of the constructor `AisgLink`.
abbrev pub state_for : Error → LinkState
state_for is_locked = port_busy
state_for is_wedged = port_lost
state_for e = backoff

-- `devices[0].address` and `found[1:]`.
abbrev pub address_of : List Device → Option ℕ
address_of [] = none
address_of (dev ∷ devs) = dev.address

abbrev pub rest_of : List Device → List Device
rest_of [] = []
rest_of (dev ∷ devs) = devs

module _ {E : Type 0} where
  -- `_should_open`.
  unfoldable pub should_open : ℕ → Worker E → Bool
  should_open now w = if w.want_link || not (is_empty w.queue) then true else elim w.monitor [
    | continuous ↦ true
    | duty_cycled ↦ leb (w.last_monitor_at + w.monitor_period) now
    | off ↦ false
  ]

  -- The addresses of the loop of `_clear_stale_links`; of the two orders of a set of two, this one.
  abbrev pub stale : Worker E → List ℕ
  stale w = elim w.address [
    | none ↦ w.first_address ∷ []
    | some addr ↦ if addr == w.first_address then addr ∷ [] else addr ∷ w.first_address ∷ []
  ]

  -- `self._last_error or "entry actions failed"`.
  abbrev pub reason : Worker E → String
  reason w = if same_text w.last_error "" then "entry actions failed" else w.last_error

  module _ (bus : Bus E) where
    -- `self.link = AisgLink(...)`.
    abbrev pub keep_link : Result (Unit {0}) → Action (Worker E) (Unit {0})
    keep_link (ok u) w = (ok tt, record w { link = true })
    keep_link (err e) w = (err e, w)

    unfoldable pub open_link : Action (Worker E) (Unit {0})
    open_link w =
        let (o, env) = bus.serial_open w.env in keep_link (link_opened o) (record w { env = env })

    abbrev pub hang_up : ℕ → Option ℕ → Action (Worker E) (Unit {0})
    hang_up addr timeout =
        attempt (on_link (bus.disconnect addr timeout)) is_aisg_error (λ e. pure tt)

    unfoldable pub disconnect_all : List ℕ → Action (Worker E) (Unit {0})
    disconnect_all [] = pure tt
    disconnect_all (addr ∷ addrs) = do hang_up addr (some 300); disconnect_all addrs

    -- `_clear_stale_links`.
    unfoldable pub clear_stale_links : Action (Worker E) (Unit {0})
    clear_stale_links = do
      λ w. disconnect_all (stale w) w
      modify (λ w. record w { address = none })

    -- The loop of `_discover` that assigns the addresses from one on.
    unfoldable pub assign_all : List Device → ℕ → Action (Worker E) (List Device)
    assign_all [] addr = pure []
    assign_all (dev ∷ devs) addr = do
      dev' ← on_link (bus.assign_address dev addr)
      devs' ← assign_all devs (suc addr)
      pure (dev' ∷ devs')

    abbrev pub drop_one : Option ℕ → Action (Worker E) (Unit {0})
    drop_one none = raise type_error
    drop_one (some addr) = hang_up addr none

    -- The loop of `_discover` over `found[1:]`.
    unfoldable pub drop_all : List Device → Action (Worker E) (Unit {0})
    drop_all [] = pure tt
    drop_all (dev ∷ devs) = do drop_one dev.address; drop_all devs

    -- The part of `_discover` behind the broadcast scan.
    abbrev pub pick_one : List Device → Action (Worker E) (Option ℕ)
    pick_one [] = do
      found ← (λ w. on_link (bus.scan_assigned w.first_address w.probe_count) w)
      drop_all (rest_of found)
      pure (address_of found)
    pick_one (dev ∷ devs) = do
      assigned ← (λ w. assign_all (dev ∷ devs) w.first_address w)
      pure (address_of assigned)

    -- `_discover`.
    unfoldable pub discover : Action (Worker E) (Option ℕ)
    discover = do devices ← on_link bus.scan; pick_one devices

    -- The end of the ways of `_open_and_connect` on which the port was opened and no session is.
    unfoldable pub give_up : LinkState → String → Action (Worker E) (Unit {0})
    give_up state error = do release bus; modify (set_state state error); arm_backoff bus

    -- The part of `_open_and_connect` behind `connect`.
    unfoldable pub enter : ℕ → Action (Worker E) (Unit {0})
    enter addr = do
      modify (λ w. record w { address = some addr; want_link = false })
      usable ← on_connected bus
      if usable
          then modify (λ w. set_state connected "" (record w { backoff_for = 1000 }))
          else (λ w. fail_link bus (reason w) w)

    -- The part behind `_discover`.
    unfoldable pub bring_up : ℕ → Action (Worker E) (Unit {0})
    bring_up addr = do
      modify (set_state connecting "")
      up ←
          attempt (on_link (bus.connect addr) >> pure true) is_aisg_error
            (λ e. give_up backoff (bus.str e) >> pure false)
      if up then enter addr else pure tt

    -- `addr`, where `_discover` returned one or none, and where it raised.
    unfoldable pub settle : Option (Option ℕ) → Action (Worker E) (Unit {0})
    settle none = pure tt
    settle (some none) = give_up no_devices "no AISG devices answered (power feed? RS-485 wiring?)"
    settle (some (some addr)) = bring_up addr

    -- The part behind the constructor.
    unfoldable pub search_bus : Action (Worker E) (Unit {0})
    search_bus = do
      clear_stale_links
      modify (set_state discovering "")
      found ←
          attempt (discover >>= λ addr. pure (some addr)) is_aisg_error
            (λ e. give_up backoff (bus.str e) >> pure none)
      settle found

    -- The `except` clauses around the constructor.
    abbrev pub refused_with : Error → Action (Worker E) Bool
    refused_with e = do modify (set_state (state_for e) (bus.str e)); arm_backoff bus; pure false

    -- `_open_and_connect`.
    unfoldable pub open_and_connect : Action (Worker E) (Unit {0})
    open_and_connect = do
      modify (set_state opening "")
      opened ← attempt (open_link >> pure true) is_aisg_error refused_with
      if opened then search_bus else pure tt
