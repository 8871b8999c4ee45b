-- ===== src/View/PeerIter.antt =====
-- lib/bgpview.c, "PEER ITERATORS". The macros are functions from iterators to iterators, the
-- external functions are actions.
pub mod Order
pub mod Seek
use bgpview.Base.{
  ℕ, ◌+◌, Bool, true, false, not, Option, none, some, ltb, ◌==◌, length, drop, if◌then◌else◌,
}
use bgpview.Khash.Buckets.{slot}
use bgpview.Khash.Scan.{skip}
use bgpview.View.Field.{matches}
use bgpview.View.Types.{PeerInfo, Env, View, Iter}
use bgpview.View.State.{Action, pure, get_view, get_iter, put_iter, assert, ◌>>=◌, ◌>>◌}

-- Does the bucket hold a peer in one of the states of the mask?
abbrev pub peer_matches : ℕ → Option (ℕ × PeerInfo) → Bool
peer_matches mask none = false
peer_matches mask (some (id, p)) = matches mask p.state

module _ {E : Env} where
  -- __iter_first_peer
  unfoldable pub first_peer : View E → ℕ → Iter → Iter
  first_peer v mask it = record it {
    peer_it = skip (peer_matches mask) v.peerinfo 0;
    peer_state_mask = mask;
    pfx_peer_it_valid = false;
  }

  -- __iter_next_peer
  unfoldable pub next_peer : View E → Iter → Iter
  next_peer v it = record it {
    peer_it =
        skip (peer_matches it.peer_state_mask) (drop (it.peer_it + 1) v.peerinfo) (it.peer_it + 1);
  }

  -- __iter_has_more_peer
  unfoldable pub has_more_peer : View E → Iter → Bool
  has_more_peer v it = not (it.peer_it == length v.peerinfo)

  -- __iter_seek_peer
  unfoldable pub seek_peer : View E → ℕ → ℕ → Iter → Iter
  seek_peer v peerid mask it = record it {
    peer_state_mask = mask;
    peer_it = E.peerinfo_hash.get v.peerinfo peerid;
  }

  unfoldable pub iter_first_peer : ℕ → Action E Bool
  iter_first_peer mask = do
    v ← get_view
    it ← get_iter
    put_iter (first_peer v mask it)
    pure (has_more_peer v (first_peer v mask it))

  -- Past the end of the table there is no bucket to read.
  unfoldable pub iter_next_peer : Action E Bool
  iter_next_peer = do
    v ← get_view
    it ← get_iter
    assert (ltb it.peer_it (length v.peerinfo))
    put_iter (next_peer v it)
    pure (has_more_peer v (next_peer v it))

  unfoldable pub iter_has_more_peer : Action E Bool
  iter_has_more_peer = do v ← get_view; it ← get_iter; pure (has_more_peer v it)

  -- The end of the branches of iter_seek_peer: a peer that does not match counts as missing.
  settle_peer : View E → Iter → Iter × Bool
  settle_peer v it =
      if peer_matches it.peer_state_mask (slot v.peerinfo it.peer_it)
      then (it, true)
      else (record it { peer_it = length v.peerinfo }, false)

  unfoldable pub iter_seek_peer : ℕ → ℕ → Action E Bool
  unfolding settle_peer
  iter_seek_peer peerid mask = do
    v ← get_view
    it ← get_iter
    let sought = seek_peer v peerid mask (record it { pfx_peer_it_valid = false })
    if sought.peer_it == length v.peerinfo
        then (do put_iter sought; pure false)
        else (do let settled = settle_peer v sought; put_iter settled.0; pure settled.1)
