-- ===== src/Link/Manage/Probing.antt =====
-- How `probe_address` of openaisg/link.py moves the state of the peers.
use openaisg.Common.{
  ℕ, ◌≡◌, ◌≢◌, refl, ap, ◌∙◌, arith, Bool, true, false, not, Option, none, if◌then◌else◌, inl, inr,
  ◌⊎◌,
}
use openaisg.Errors.{Error, frame_error, os_error, no_ua, is_aisg_error, Result, ok, err}
use openaisg.Link.State.{Peers, peer_of}
use openaisg.Link.State.Laws.{peer_of-with_peer, peer_of-with_peer_ne}
use openaisg.Link.Manage.{
  Serial, Station, parsed, xfer, command, brought_up, connect, disconnect, caught, hang_up,
  probe_address,
}
use openaisg.Link.Manage.Connection.{fresh, Settles, connect-Settles, disconnect-Settles}

-- The exceptions of a call that sets a link up, or tears it down.
abbrev RaisesOnly : {A : Type 0} → (Error → Type 0) → Result A → Type 0
RaisesOnly E (ok a) = Unit {0}
RaisesOnly E (err e) = E e

-- The exceptions that `except AisgError` does not catch.
abbrev pub IsUncaught : Error → Type 0
IsUncaught e = (e ≡ frame_error) ⊎ (e ≡ os_error)

-- What a probe leaves of the peers, by its result.
abbrev pub Probed : Bool → ℕ → Result Bool → Peers → Peers → Type 0
Probed tear_down addr (ok true) peers peers' = peer_of peers' addr ≡ fresh (not tear_down)
Probed tear_down addr (ok false) peers peers' = peers' ≡ peers
Probed tear_down addr (err e) peers peers' = IsUncaught e

-- No peer at another address changes.
abbrev pub Elsewhere : ℕ → Peers → Peers → Type 0
Elsewhere addr peers peers' =
    (other : ℕ) → other ≢ addr → peer_of peers' other ≡ peer_of peers other

Settles-Elsewhere :
    {A : Type 0} (connected : Bool) (addr : ℕ) (r : Result A) (peers peers' : Peers)
    → Settles connected addr r peers peers'
    → Elsewhere addr peers peers'
Settles-Elsewhere connected addr (ok a) peers peers' e other ne =
    ap (λ ps. peer_of ps other) e ∙ peer_of-with_peer_ne peers addr other (fresh connected) ne
Settles-Elsewhere connected addr (err x) peers peers' e other ne = ap (λ ps. peer_of ps other) e

module _ {S : Type 0} (serial : Serial S) where
  connect-RaisesOnly :
      (addr : ℕ) (st : Station S)
      → RaisesOnly (λ e. (e ≡ no_ua) ⊎ IsUncaught e) (connect serial addr st).0
  unfolding connect command xfer brought_up parsed
  connect-RaisesOnly addr st = ground arith

  disconnect-RaisesOnly :
      (addr : ℕ) (timeout : Option ℕ) (st : Station S)
      → RaisesOnly IsUncaught (disconnect serial addr timeout st).0
  unfolding disconnect command xfer parsed
  disconnect-RaisesOnly addr timeout st = ground arith

  -- The part of the probe behind `connect`.
  HungUp : Bool → ℕ → Peers → Result Bool × Station S → Type 0
  HungUp tear_down addr peers (ok true, st) =
      (peer_of st.peers addr ≡ fresh (not tear_down)) × Elsewhere addr peers st.peers
  HungUp tear_down addr peers (ok false, st) = ⊥
  HungUp tear_down addr peers (err e, st) = IsUncaught e × Elsewhere addr peers st.peers

  hang_up-HungUp :
      (addr : ℕ) (tear_down : Bool) (st : Station S)
      → peer_of st.peers addr ≡ fresh true
      → HungUp tear_down addr st.peers (hang_up serial addr tear_down st)
  unfolding hang_up HungUp
  hang_up-HungUp addr false st up = (up, λ other ne. refl)
  hang_up-HungUp addr true st up =
      go (disconnect serial addr none st) (disconnect-Settles serial addr none st)
        (disconnect-RaisesOnly addr none st)
    where
      go :
          (x : Result (Unit {0}) × Station S)
          → Settles false addr x.0 st.peers x.1.peers
          → RaisesOnly IsUncaught x.0
          → HungUp true addr st.peers (caught serial x)
      go (ok u, st') h k = (
        ap (λ ps. peer_of ps addr) h ∙ peer_of-with_peer st.peers addr (fresh false),
        Settles-Elsewhere false addr (ok u) st.peers st'.peers h,
      )
      go (err e, st') h (inl k) =
          rw k (inl refl, Settles-Elsewhere {A = Unit {0}} false addr (err e) st.peers st'.peers h)
      go (err e, st') h (inr k) =
          rw k (inr refl, Settles-Elsewhere {A = Unit {0}} false addr (err e) st.peers st'.peers h)

  -- A probe and the peers that it leaves.
  abbrev pub Probes : Bool → ℕ → Peers → Result Bool × Station S → Type 0
  Probes tear_down addr peers (r, st) =
      Probed tear_down addr r peers st.peers × Elsewhere addr peers st.peers

  Probes-HungUp :
      (tear_down : Bool) (addr : ℕ) (peers peers' : Peers) (x : Result Bool × Station S)
      → Elsewhere addr peers peers'
      → HungUp tear_down addr peers' x
      → Probes tear_down addr peers x
  unfolding HungUp
  Probes-HungUp tear_down addr peers peers' (ok true, st) e h =
      (h.0, λ other ne. h.1 other ne ∙ e other ne)
  Probes-HungUp tear_down addr peers peers' (ok false, st) e h = absurd h
  Probes-HungUp tear_down addr peers peers' (err x, st) e h =
      (h.0, λ other ne. h.1 other ne ∙ e other ne)

  pub probe_address-Probes :
      (addr : ℕ) (tear_down : Bool) (st : Station S)
      → Probes tear_down addr st.peers (probe_address serial addr tear_down st)
  unfolding probe_address
  probe_address-Probes addr tear_down st =
      go (connect serial addr st) (connect-Settles serial addr st) (connect-RaisesOnly addr st)
    where
      go :
          (x : Result (Unit {0}) × Station S)
          → Settles true addr x.0 st.peers x.1.peers
          → RaisesOnly (λ e. (e ≡ no_ua) ⊎ IsUncaught e) x.0
          → Probes tear_down addr st.peers (elim x.0 [
            | ok u ↦ hang_up serial addr tear_down x.1
            | err e ↦ if is_aisg_error e then (ok false, x.1) else (err e, x.1)
          ])
      go (ok u, st') h k =
          Probes-HungUp tear_down addr st.peers st'.peers (hang_up serial addr tear_down st')
            (Settles-Elsewhere true addr (ok u) st.peers st'.peers h)
            (hang_up-HungUp addr tear_down st'
              (ap (λ ps. peer_of ps addr) h ∙ peer_of-with_peer st.peers addr (fresh true)))
      go (err e, st') h (inl q) = rw q (h, λ other ne. ap (λ ps. peer_of ps other) h)
      go (err e, st') h (inr (inl q)) = rw q (inl refl, λ other ne. ap (λ ps. peer_of ps other) h)
      go (err e, st') h (inr (inr q)) = rw q (inr refl, λ other ne. ap (λ ps. peer_of ps other) h)

  -- A probe that succeeds leaves the peer with sequence numbers 0 and a link that is up, or down
  -- where it is to be torn down; one that fails leaves the peers as they are; one that raises
  -- raises `FrameError` or the `OSError` of the port; and none changes a peer at another address.
  pub probe_address-Probed :
      (addr : ℕ) (tear_down : Bool) (st : Station S)
      → let (r, st') = probe_address serial addr tear_down st in
        Probed tear_down addr r st.peers st'.peers × Elsewhere addr st.peers st'.peers
  probe_address-Probed addr tear_down st = probe_address-Probes addr tear_down st
