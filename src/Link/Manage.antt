-- ===== src/Link/Manage.antt =====
-- openaisg/link.py: the one-shot path of `AisgLink`, `_xfer` and `_command`, and what is built on it:
-- address assignment, connecting, disconnecting and probing. Times are milliseconds.
pub mod Connection
pub mod Probing
pub mod Sweep
mod Tests
use openaisg.Common.{
  ℕ, zero, suc, ◌+◌, Bool, true, false, not, ◌&&◌, List, [], ◌∷◌, ◌++◌, Option, none, some, ltb,
  leb, ◌==◌, if◌then◌else◌, length, Bytes, bit_or,
}
use openaisg.Errors.{
  Error, frame_error, value_error, os_error, no_ua, no_xid, is_aisg_error, Result, ok, err, Action,
  pure, lift, ◌>>=◌,
}
use openaisg.Hdlc.Framing.{flag, Frame, build_frame, parse_frames, list_of}
use openaisg.Hdlc.Deframer.{Deframer, empty}
use openaisg.Hdlc.Control.{ctrl_snrm, ctrl_xid, ctrl_ua, ctrl_disc, pf, without_pf}
use openaisg.Hdlc.Xid.{xid_encode, pi_unique_id, pi_hdlc_addr}
use openaisg.Link.State.{Peer, Peers, reset, peer_of, with_peer}

-- A pass of the loop of `_xfer`: the clock at its test, counted from the write, the chunk that is
-- read, and whether more is waiting behind it.
pub record Arrival : Type 0 where
  pub clock : ℕ
  pub chunk : Bytes
  pub in_waiting : Bool

-- The serial port: what the passes see after a frame is written. `none` is a `SerialException` of
-- `reset_input_buffer`, `write`, `flush`, `read` or `in_waiting`, which is an `OSError`.
pub record Serial (S : Type 0) : Type 0 where
  pub transfer : Bytes → S → Option (List Arrival) × S

-- An `AisgLink` on a port.
pub record Station (S : Type 0) : Type 0 where
  pub port : S
  pub peers : Peers
  pub deframer : Deframer
  pub timeout : ℕ

-- `buf.count(FLAG)`.
count_flags : Bytes → ℕ
count_flags [] = 0
count_flags (b ∷ bs) = (if b == flag then 1 else 0) + count_flags bs

-- The loop of `_xfer`.
pub collect : ℕ → Bytes → List Arrival → Bytes
unfolding count_flags
collect deadline buf [] = buf
collect deadline buf (a ∷ rest) =
    let buf' = buf ++ a.chunk in
    let more = collect deadline buf' rest in
    if not (ltb a.clock deadline)
    then buf
    else if not (length a.chunk == 0) && leb 2 (count_flags buf') && not a.in_waiting
    then buf'
    else more

-- The result of `_xfer`.
abbrev pub collected : ℕ → Option (List Arrival) → Result Bytes
collected deadline none = err os_error
collected deadline (some arrivals) = ok (collect deadline [] arrivals)

-- `list(hdlc.parse_frames(raw))`.
unfoldable pub parsed : Bytes → Result (List Frame)
parsed raw = elim (list_of (parse_frames raw)) [ none ↦ err frame_error | some frames ↦ ok frames ]

-- `timeout or self.timeout`.
abbrev timeout_or : Option ℕ → ℕ → ℕ
timeout_or none t = t
timeout_or (some zero) t = t
timeout_or (some (suc n)) t = suc n

pub record Device : Type 0 where
  pub unique_id : Bytes
  pub device_type : Option ℕ
  pub vendor : Option Bytes
  pub address : Option ℕ

-- A frame from an address with a control byte, the P/F bit aside.
abbrev pub is_answer : ℕ → ℕ → Frame → Bool
is_answer addr ctrl f = f.addr == addr && without_pf f.ctrl == ctrl

abbrev pub any_of : (Frame → Bool) → List Frame → Bool
any_of test [] = false
any_of test (f ∷ fs) = if test f then true else any_of test fs

-- The part of a pass of `scan_assigned` that extends `found`, in front of the later passes.
abbrev pub found_at : ℕ → Bool → List Device → List Device
found_at addr found rest =
    if found
    then record { unique_id = []; device_type = none; vendor = none; address = some addr } ∷ rest
    else rest

module _ {S : Type 0} (serial : Serial S) where
  unfoldable pub xfer : Bytes → Option ℕ → Action (Station S) Bytes
  xfer frame timeout st =
      let (read, port) = serial.transfer frame st.port in
      (
        collected (timeout_or timeout st.timeout) read,
        record st { port = port; deframer = empty 512 },
      )

  unfoldable pub command : ℕ → ℕ → Bytes → Option ℕ → Action (Station S) (List Frame)
  command addr ctrl payload timeout =
      xfer (build_frame addr ctrl payload) timeout >>= λ raw. lift (parsed raw)

  -- The loop of `assign_address` over the frames.
  assigned : Device → ℕ → List Frame → Result Device
  assigned dev addr frames =
      if any_of (is_answer addr ctrl_xid) frames
      then ok (record dev { address = some addr })
      else err no_xid

  unfoldable assign_address : Device → ℕ → Action (Station S) Device
  unfolding assigned
  assign_address dev addr st =
      elim (xid_encode ((pi_unique_id, dev.unique_id) ∷ (pi_hdlc_addr, addr ∷ []) ∷ [])) [
        | none ↦ (err value_error, st)
        | some payload ↦
            (command 0xff (bit_or ctrl_xid pf) payload none >>= λ frames.
            lift (assigned dev addr frames))
              st
      ]

  -- The loop of `connect` over the frames.
  pub brought_up : ℕ → List Frame → Action (Station S) (Unit {0})
  brought_up addr frames st =
      if any_of (is_answer addr ctrl_ua) frames
      then (
        ok tt,
        record st {
          peers =
              with_peer st.peers addr (record (reset (peer_of st.peers addr)) { connected = true });
        },
      )
      else (err no_ua, st)

  pub connect : ℕ → Action (Station S) (Unit {0})
  connect addr = do frames ← command addr (bit_or ctrl_snrm pf) [] none; brought_up addr frames

  -- The assignments behind the command of `disconnect`.
  abbrev pub taken_down : ℕ → Action (Station S) (Unit {0})
  taken_down addr st = (
    ok tt,
    record st {
      peers =
          with_peer st.peers addr (record (reset (peer_of st.peers addr)) { connected = false });
    },
  )

  pub disconnect : ℕ → Option ℕ → Action (Station S) (Unit {0})
  disconnect addr timeout = do
    frames ← command addr (bit_or ctrl_disc pf) [] timeout
    taken_down addr

  -- `try: self.disconnect(addr)`, `except AisgError: pass`, and the return.
  abbrev pub caught : Result (Unit {0}) × Station S → Result Bool × Station S
  caught (ok u, st) = (ok true, st)
  caught (err e, st) = if is_aisg_error e then (ok true, st) else (err e, st)

  -- The part of `probe_address` behind `connect`.
  pub hang_up : ℕ → Bool → Action (Station S) Bool
  hang_up addr tear_down st = if tear_down then caught (disconnect addr none st) else (ok true, st)

  pub probe_address : ℕ → Bool → Action (Station S) Bool
  unfolding hang_up
  probe_address addr tear_down st =
      let (r, st') = connect addr st in
      elim r [
        | ok u ↦ hang_up addr tear_down st'
        | err e ↦ if is_aisg_error e then (ok false, st') else (err e, st')
      ]

  pub scan_assigned : ℕ → ℕ → Action (Station S) (List Device)
  scan_assigned first zero = pure []
  scan_assigned first (suc count) = do
    found ← probe_address first false
    rest ← scan_assigned (suc first) count
    pure (found_at first found rest)
