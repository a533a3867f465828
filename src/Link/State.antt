-- ===== src/Link/State.antt =====
-- openaisg/link.py: the state of an `AisgLink` that the layer-7 exchange reads and writes: the
-- sequence state of each peer and the statistics.
pub mod Laws
use openaisg.Common.{ℕ, Bool, false, List, [], ◌∷◌, ◌==◌, if◌then◌else◌}

-- `PeerState`: V(S), V(R), and whether the link is up.
pub record Peer : Type 0 where
  pub vs : ℕ
  pub vr : ℕ
  pub connected : Bool

-- `PeerState()`.
abbrev new_peer : Peer
new_peer = record { vs = 0; vr = 0; connected = false }

-- `PeerState.reset`.
abbrev pub reset : Peer → Peer
reset p = record p { vs = 0; vr = 0 }

-- The dictionary `AisgLink.stats`.
pub record Stats : Type 0 where
  pub polls : ℕ
  pub dup_i : ℕ
  pub unexpected : ℕ
  pub foreign : ℕ
  pub rnr : ℕ
  pub retx : ℕ
  pub link_resets : ℕ

abbrev pub no_stats : Stats
no_stats = record {
  polls = 0;
  dup_i = 0;
  unexpected = 0;
  foreign = 0;
  rnr = 0;
  retx = 0;
  link_resets = 0;
}

-- `AisgLink._peers`, from addresses to peers.
abbrev pub Peers : Type 0
Peers = List (ℕ × Peer)

-- `AisgLink._peer`: a peer that is not known yet is a new one.
unfoldable pub peer_of : Peers → ℕ → Peer
peer_of [] addr = new_peer
peer_of ((a, p) ∷ peers) addr = if a == addr then p else peer_of peers addr

-- What `p` holds after the fields of the object at `addr` were assigned.
unfoldable pub with_peer : Peers → ℕ → Peer → Peers
with_peer [] addr p = (addr, p) ∷ []
with_peer ((a, q) ∷ peers) addr p =
    if a == addr then (a, p) ∷ peers else (a, q) ∷ with_peer peers addr p

pub record Link : Type 0 where
  pub peers : Peers
  pub stats : Stats
