-- ===== src/Session/Worker/Asking.antt =====
-- What `SerialWorker` of openaisg/session.py asks of the link keeps every predicate of the worker that
-- does not look at what comes back.
use openaisg.Common.{
  ℕ, zero, suc, Bool, true, false, ◌&&◌, List, [], ◌∷◌, Option, none, some, ltb, ◌==◌,
}
use openaisg.Errors.{is_aisg_error, Result, Action, modify}
use openaisg.Hdlc.Framing.{Frame}
use openaisg.Link.Manage.{Device}
use openaisg.Session.Bus.{Bus}
use openaisg.Session.Worker.{Worker, clock, on_link}
use openaisg.Session.Worker.Opening.{
  stale, hang_up, disconnect_all, clear_stale_links, assign_all, drop_one, drop_all, discover,
  pick_one, address_of, rest_of,
}
use openaisg.Session.Worker.Upkeep.{
  is_i_frame, starts_indication, at_address, take_i_frame, discard, discard_from, drain_frames,
  drain_until, vr_of, follow,
}
use openaisg.Hdlc.Control.{ns_of}
use openaisg.Errors.Rules.{
  Keeps, Keeps-bind, Keeps-then, Keeps-attempt, Keeps-if, Keeps-pure, Keeps-raise, Keeps-modify,
  Keeps-here, either_way,
}
use openaisg.Session.Worker.Calm.{Calm, indicate_all-Keeps}

module _ {E : Type 0} {I : Worker E → Type 0} (c : Calm I) (bus : Bus E) where
  pub on_link-Keeps : {A : Type 0} (m : Action E A) → Keeps I (on_link m)
  on_link-Keeps {A} m = record {
    run = λ w i. either_way (λ (x : Result A × Worker E). I x.1) w.link (c.env _ w i) i;
  }

  pub clock-Keeps : Keeps I (clock bus)
  clock-Keeps = record { run = λ w i. c.env _ w i }

  pub hang_up-Keeps : (addr : ℕ) (timeout : Option ℕ) → Keeps I (hang_up bus addr timeout)
  hang_up-Keeps addr timeout =
      Keeps-attempt is_aisg_error (on_link-Keeps (bus.disconnect addr timeout)) (λ e. Keeps-pure)

  pub disconnect_all-Keeps : (addrs : List ℕ) → Keeps I (disconnect_all bus addrs)
  unfolding disconnect_all
  disconnect_all-Keeps [] = Keeps-pure
  disconnect_all-Keeps (addr ∷ addrs) =
      Keeps-then (hang_up-Keeps addr (some 300)) (disconnect_all-Keeps addrs)

  pub clear_stale_links-Keeps : Keeps I (clear_stale_links bus)
  unfolding clear_stale_links
  clear_stale_links-Keeps =
      Keeps-then (Keeps-here (λ w. disconnect_all-Keeps (stale w))) (Keeps-modify (c.address none))

  pub assign_all-Keeps : (devs : List Device) (addr : ℕ) → Keeps I (assign_all bus devs addr)
  unfolding assign_all
  assign_all-Keeps [] addr = Keeps-pure
  assign_all-Keeps (dev ∷ devs) addr =
      Keeps-bind (on_link-Keeps _)
        (λ dev'. Keeps-bind (assign_all-Keeps devs (suc addr)) (λ devs'. Keeps-pure))

  pub drop_one-Keeps : (addr : Option ℕ) → Keeps I (drop_one bus addr)
  drop_one-Keeps none = Keeps-raise
  drop_one-Keeps (some addr) = hang_up-Keeps addr none

  pub drop_all-Keeps : (devs : List Device) → Keeps I (drop_all bus devs)
  unfolding drop_all
  drop_all-Keeps [] = Keeps-pure
  drop_all-Keeps (dev ∷ devs) = Keeps-then (drop_one-Keeps dev.address) (drop_all-Keeps devs)

  pub pick_one-Keeps : (devs : List Device) → Keeps I (pick_one bus devs)
  pick_one-Keeps [] =
      Keeps-bind (Keeps-here (λ w. on_link-Keeps (bus.scan_assigned w.first_address w.probe_count)))
        (λ found. Keeps-then (drop_all-Keeps (rest_of found)) (Keeps-pure {a = address_of found}))
  pick_one-Keeps (dev ∷ devs) =
      Keeps-bind (Keeps-here (λ w. assign_all-Keeps (dev ∷ devs) w.first_address))
        (λ assigned. Keeps-pure)

  pub discover-Keeps : Keeps I (discover bus)
  unfolding discover
  discover-Keeps = Keeps-bind (on_link-Keeps _) pick_one-Keeps

  pub at_address-Keeps :
      (addr : Option ℕ) {f : ℕ → Action (Worker E) (Unit {0})}
      → ((a : ℕ) → Keeps I (f a))
      → Keeps I (at_address bus addr f)
  at_address-Keeps none h = Keeps-raise
  at_address-Keeps (some a) h = h a

  pub write-Keeps :
      (addr : ℕ) (poll : Bool)
      → Keeps I (λ w. on_link (bus.write_rr addr (vr_of bus addr w) poll) w)
  write-Keeps addr poll =
      Keeps-here (λ w. on_link-Keeps (bus.write_rr addr (vr_of bus addr w) poll))

  pub follow-Keeps : (addr ns : ℕ) → Keeps I (modify (follow bus addr ns))
  follow-Keeps addr ns = Keeps-modify (λ w i. c.env _ w i)

  pub take_i_frame-Keeps : (addr : ℕ) (f : Frame) → Keeps I (take_i_frame bus addr f)
  unfolding take_i_frame
  take_i_frame-Keeps addr f = Keeps-then (follow-Keeps addr (ns_of f.ctrl)) (
      Keeps-then (write-Keeps addr false) (
        Keeps-modify (λ w i.
          either_way I (starts_indication f.payload) (indicate_all-Keeps c (f.payload ∷ []) w i)
            i)))

  pub discard-Keeps : (addr : ℕ) (fs : List Frame) → Keeps I (discard bus addr fs)
  unfolding discard
  discard-Keeps addr [] = Keeps-pure
  discard-Keeps addr (f ∷ fs) =
      Keeps-if (f.addr == addr && is_i_frame f)
        (Keeps-then (follow-Keeps addr (ns_of f.ctrl))
          (Keeps-then (write-Keeps addr true) (discard-Keeps addr fs)))
        (discard-Keeps addr fs)

  discard_from-Keeps : (addr : Option ℕ) (fs : List Frame) → Keeps I (discard_from bus addr fs)
  discard_from-Keeps none fs = Keeps-pure
  discard_from-Keeps (some addr) fs = discard-Keeps addr fs

  pub drain_frames-Keeps :
      (frames : List Frame) {rest : Action (Worker E) (Unit {0})}
      → Keeps I rest
      → Keeps I (drain_frames bus frames rest)
  drain_frames-Keeps [] h = Keeps-pure
  drain_frames-Keeps (f ∷ fs) h =
      Keeps-then (Keeps-here (λ w. discard_from-Keeps w.address (f ∷ fs))) h

  pub drain_until-Keeps : (left end : ℕ) → Keeps I (drain_until bus left end)
  unfolding drain_until
  drain_until-Keeps zero end = Keeps-then clock-Keeps Keeps-pure
  drain_until-Keeps (suc left) end = Keeps-bind clock-Keeps (λ now.
      Keeps-if (ltb now end)
        (Keeps-bind (on_link-Keeps (bus.read_frames 200))
          (λ frames. drain_frames-Keeps frames (drain_until-Keeps left end)))
        Keeps-pure)
