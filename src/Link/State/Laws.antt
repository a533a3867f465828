-- ===== src/Link/State/Laws.antt =====
-- The map of peers of openaisg/link.py's `AisgLink`.
use openaisg.Common.{ℕ, ◌≡◌, ◌≢◌, arith, [], ◌∷◌}
use openaisg.Link.State.{Peer, Peers, peer_of, with_peer}

pub peer_of-with_peer :
    (peers : Peers) (addr : ℕ) (p : Peer) → peer_of (with_peer peers addr p) addr ≡ p
unfolding peer_of with_peer
peer_of-with_peer [] addr p = ground arith
peer_of-with_peer ((a, q) ∷ peers) addr p = ground (arith, peer_of-with_peer peers addr p)

pub peer_of-with_peer_ne :
    (peers : Peers) (addr other : ℕ) (p : Peer)
    → other ≢ addr
    → peer_of (with_peer peers addr p) other ≡ peer_of peers other
unfolding peer_of with_peer
peer_of-with_peer_ne [] addr other p h = ground arith
peer_of-with_peer_ne ((a, q) ∷ peers) addr other p h =
    ground (arith, peer_of-with_peer_ne peers addr other p)
