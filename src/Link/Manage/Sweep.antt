-- ===== src/Link/Manage/Sweep.antt =====
-- What `scan_assigned` of openaisg/link.py finds.
use openaisg.Common.{
  ℕ, zero, suc, ◌+◌, ◌<◌, ◌≤◌, ◌≡◌, refl, ◌∙◌, arith, Bool, true, false, List, [], ◌∷◌, some, All,
}
use mathlib.Core.Path.{subst}
use openaisg.Errors.{Error, Result, ok, err, ◌>>=◌, pure}
use openaisg.Link.State.{Peers, peer_of}
use openaisg.Link.Manage.{Serial, Station, Device, probe_address, found_at, scan_assigned}
use openaisg.Link.Manage.Connection.{fresh}
use openaisg.Link.Manage.Probing.{IsUncaught, Probed, Elsewhere, Probes, probe_address-Probes}

-- A device that was found: its address is one of `count` from `first` on, and its peer's link is up
-- with fresh sequence numbers.
abbrev pub Found : ℕ → ℕ → Peers → Device → Type 0
Found first count peers dev =
    (a : ℕ) × (dev.address ≡ some a)
    × (first ≤ a)
    × (a < first + count)
    × (peer_of peers a ≡ fresh true)

abbrev AllFound : ℕ → ℕ → Peers → Result (List Device) → Type 0
AllFound first count peers (ok devs) = All (Found first count peers) devs
AllFound first count peers (err e) = IsUncaught e

All-widened :
    (first count : ℕ) (peers : Peers) (devs : List Device)
    → All (Found (suc first) count peers) devs
    → All (Found first (suc count) peers) devs
All-widened first count peers [] h = tt
All-widened first count peers (dev ∷ devs) h =
    let (a, e, low, high, up) = h.0 in
    ((a, e, omega arith, omega arith, up), All-widened first count peers devs h.1)

module _ {S : Type 0} (serial : Serial S) where
  -- A scan of addresses from `first` on, and the peers below `first`.
  abbrev Scans : ℕ → ℕ → Peers → Result (List Device) × Station S → Type 0
  Scans first count peers (r, st) =
      AllFound first count st.peers r
      × ((other : ℕ) → other < first → peer_of st.peers other ≡ peer_of peers other)

  below-Scans :
      (first : ℕ) (peers peers' peers'' : Peers)
      → Elsewhere first peers peers'
      → ((other : ℕ) → other < suc first → peer_of peers'' other ≡ peer_of peers' other)
      → (other : ℕ) → other < first
      → peer_of peers'' other ≡ peer_of peers other
  below-Scans first peers peers' peers'' e h other below =
      h other (omega arith) ∙ e other (λ q. omega (arith, q))

  -- A probe and the scan of the later addresses.
  found_at-Scans :
      (first count : ℕ) (peers peers' : Peers) (found : Bool) (y : Result (List Device) × Station S)
      → Probed false first (ok found) peers peers'
      → Elsewhere first peers peers'
      → Scans (suc first) count peers' y
      → Scans first
          (suc count)
          peers
          (elim y.0 [ ok rest ↦ pure (found_at first found rest) y.1 | err e ↦ (err e, y.1) ])
  found_at-Scans first count peers peers' true (ok rest, st) p e h = (
    (
      (first, refl, omega arith, omega arith, h.1 first (omega arith) ∙ p),
      All-widened first count st.peers rest h.0,
    ),
    below-Scans first peers peers' st.peers e h.1,
  )
  found_at-Scans first count peers peers' false (ok rest, st) p e h =
      (All-widened first count st.peers rest h.0, below-Scans first peers peers' st.peers e h.1)
  found_at-Scans first count peers peers' found (err x, st) p e h =
      (h.0, below-Scans first peers peers' st.peers e h.1)

  scan_pass-Scans :
      (first count : ℕ) (peers : Peers) (x : Result Bool × Station S)
      → Probes serial false first peers x
      → ((st : Station S)
          → Scans (suc first) count st.peers (scan_assigned serial (suc first) count st))
      → Scans first (suc count) peers (elim x.0 [
        | ok found ↦
            (scan_assigned serial (suc first) count >>= λ rest. pure (found_at first found rest))
              x.1
        | err e ↦ (err e, x.1)
      ])
  scan_pass-Scans first count peers (ok found, st) h next =
      found_at-Scans first count peers st.peers found (scan_assigned serial (suc first) count st)
        h.0 h.1 (next st)
  scan_pass-Scans first count peers (err e, st) h next =
      (h.0, λ other below. h.1 other (λ q. omega (arith, q)))

  scan_assigned-Scans :
      (first count : ℕ) (st : Station S)
      → Scans first count st.peers (scan_assigned serial first count st)
  unfolding scan_assigned
  scan_assigned-Scans first zero st = (tt, λ other below. refl)
  scan_assigned-Scans first (suc count) st =
      scan_pass-Scans first count st.peers (probe_address serial first false st)
        (probe_address-Probes serial first false st) (scan_assigned-Scans (suc first) count)

  -- Each device that `scan_assigned` returns has one of the addresses that were asked for, and at
  -- the end of the scan its peer has sequence numbers 0 and a link that is up.
  pub scan_assigned-Found :
      (first count : ℕ) (st st' : Station S) (devs : List Device)
      → scan_assigned serial first count st ≡ (ok devs, st')
      → All (Found first count st'.peers) devs
  scan_assigned-Found first count st st' devs e =
      subst (λ (x : Result (List Device) × Station S). AllFound first count x.1.peers x.0) e
        (scan_assigned-Scans first count st).0

  -- The only exceptions that `scan_assigned` raises are `FrameError` and the port's `OSError`.
  pub scan_assigned_raises :
      (first count : ℕ) (st st' : Station S) (e : Error)
      → scan_assigned serial first count st ≡ (err e, st')
      → IsUncaught e
  scan_assigned_raises first count st st' e q =
      subst (λ (x : Result (List Device) × Station S). AllFound first count x.1.peers x.0) q
        (scan_assigned-Scans first count st).0
