-- ===== src/Link/Manage/Connection.antt =====
-- How `connect` and `disconnect` of openaisg/link.py move the state of the peers.
use openaisg.Common.{
  ℕ, ◌≡◌, refl, arith, Bool, true, false, List, [], Option, none, if◌then◌else◌, Bool-cases, inl,
  inr, Bytes, bit_or,
}
use mathlib.Core.Path.{subst}
use openaisg.Errors.{no_ua, Result, ok, err, Action, ◌>>=◌}
use openaisg.Hdlc.Framing.{Frame, build_frame}
use openaisg.Hdlc.Framing.RoundTrip.{wire, parse_frames-wire}
use openaisg.Hdlc.Control.{ctrl_snrm, ctrl_ua, ctrl_disc, pf}
use openaisg.Link.State.{Peer, Peers, with_peer}
use openaisg.Link.Manage.{
  Serial, Station, collected, parsed, is_answer, any_of, xfer, command, brought_up, taken_down,
  connect, disconnect,
}

-- A peer whose link was set up or torn down.
abbrev pub fresh : Bool → Peer
fresh connected = record { vs = 0; vr = 0; connected = connected }

-- What a call that sets a link up, or tears it down, leaves of the peers.
abbrev pub Settles : Bool → ℕ → {A : Type 0} → Result A → Peers → Peers → Type 0
Settles connected addr (ok a) peers peers' = peers' ≡ with_peer peers addr (fresh connected)
Settles connected addr (err e) peers peers' = peers' ≡ peers

-- A call that leaves the peers alone, and one that settles them behind it.
bind-Settles :
    {S A B : Type 0} (connected : Bool) (addr : ℕ) (m : Action (Station S) A)
    (f : A → Action (Station S) B) (st : Station S)
    → (m st).1.peers ≡ st.peers
    → ((a : A) (st' : Station S) → Settles connected addr (f a st').0 st'.peers (f a st').1.peers)
    → Settles connected addr ((m >>= f) st).0 st.peers ((m >>= f) st).1.peers
bind-Settles {S} {A} {B} connected addr m f st quiet next = go (m st) quiet
  where
    go :
        (x : Result A × Station S)
        → x.1.peers ≡ st.peers
        → let y : Result B × Station S = elim x.0 [ ok a ↦ f a x.1 | err e ↦ (err e, x.1) ] in
          Settles connected addr y.0 st.peers y.1.peers
    go (ok a, st1) q =
        subst (λ ps. Settles connected addr (f a st1).0 ps (f a st1).1.peers) q (next a st1)
    go (err e, st1) q = q

module _ {S : Type 0} (serial : Serial S) where
  command-quiet :
      (addr ctrl : ℕ) (payload : Bytes) (timeout : Option ℕ) (st : Station S)
      → (command serial addr ctrl payload timeout st).1.peers ≡ st.peers
  unfolding command xfer
  command-quiet addr ctrl payload timeout st = ground arith

  brought_up-Settles :
      (addr : ℕ) (frames : List Frame) (st : Station S)
      → Settles true addr
          (brought_up serial addr frames st).0
          st.peers
          (brought_up serial addr frames st).1.peers
  unfolding brought_up
  brought_up-Settles addr frames st = elim (Bool-cases (any_of (is_answer addr ctrl_ua) frames)) [
    | inl up ↦ rw up refl
    | inr none_up ↦ rw none_up refl
  ]

  -- `connect` that succeeds gives the peer at the address sequence numbers 0 and a link that is up,
  -- and changes no other peer; `connect` that raises changes no peer.
  pub connect-Settles :
      (addr : ℕ) (st : Station S)
      → let (r, st') = connect serial addr st in Settles true addr r st.peers st'.peers
  unfolding connect
  connect-Settles addr st =
      bind-Settles true addr (command serial addr (bit_or ctrl_snrm pf) [] none)
        (brought_up serial addr) st (command-quiet addr (bit_or ctrl_snrm pf) [] none st)
        (brought_up-Settles addr)

  -- `disconnect` that succeeds gives the peer at the address sequence numbers 0 and a link that is
  -- down, and changes no other peer; `disconnect` that raises changes no peer.
  pub disconnect-Settles :
      (addr : ℕ) (timeout : Option ℕ) (st : Station S)
      → let (r, st') = disconnect serial addr timeout st in Settles false addr r st.peers st'.peers
  unfolding disconnect
  disconnect-Settles addr timeout st =
      bind-Settles false addr (command serial addr (bit_or ctrl_disc pf) [] timeout)
        (λ frames. taken_down serial addr) st
        (command-quiet addr (bit_or ctrl_disc pf) [] timeout st) (λ frames st'. refl)

  -- What the passes collect in reply to a frame.
  abbrev reply_to : Bytes → Station S → Result Bytes
  reply_to frame st = collected st.timeout (serial.transfer frame st.port).0

  -- Where the passes of `_xfer` collect the wire form of some frames in reply to the SNRM,
  -- `connect` succeeds if one of them is a UA from the address, and raises `AisgError` if none is.
  pub connect_answered :
      (addr : ℕ) (st : Station S) (fs : List Frame)
      → reply_to (build_frame addr (bit_or ctrl_snrm pf) []) st ≡ ok (wire fs)
      → (connect serial addr st).0
        ≡ (if any_of (is_answer addr ctrl_ua) fs then ok tt else err no_ua)
  unfolding connect command xfer brought_up parsed
  connect_answered addr st fs e = ground (arith, e, parse_frames-wire fs)
