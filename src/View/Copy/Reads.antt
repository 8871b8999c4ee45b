-- ===== src/View/Copy/Reads.antt =====
-- The operations of lib/bgpview.c with which bgpview_copy walks over its source.
use bgpview.Base.{ℕ, ◌≡◌, some, arith}
use bgpview.View.Types.{unknown, Env, State}
use bgpview.View.State.{Action}
use bgpview.View.PeerIter.{iter_first_peer, iter_next_peer, iter_has_more_peer}
use bgpview.View.PfxIter.{iter_first_pfx, iter_next_pfx, iter_has_more_pfx, move_next_pfx}
use bgpview.View.PfxPeerIter.{
  pfx_peerinfos, iter_pfx_first_peer, iter_pfx_next_peer, iter_pfx_has_more_peer,
  move_first_pfx_peer, move_next_pfx_peer,
}
use bgpview.View.Store.{get_peer_id}
use bgpview.View.Access.{iter_pfx_get_pfx, iter_pfx_peer_get_as_path_store_path_id}

-- An action on a view that leaves the view alone, whenever it returns.
unfoldable pub Reads : {E : Env} {A : Type 0} → Action E A → Type 0
Reads {E} {A} m = (a : A) (s s' : State E) → m s ≡ some (a, s') → s'.view ≡ s.view

module _ (E : Env) where
  pub iter_has_more_peer-Reads : Reads {E = E} iter_has_more_peer
  unfolding Reads iter_has_more_peer
  iter_has_more_peer-Reads a s s' e = ground arith

  pub iter_next_peer-Reads : Reads {E = E} iter_next_peer
  unfolding Reads iter_next_peer
  iter_next_peer-Reads a s s' e = ground arith

  pub iter_first_peer-Reads : (mask : ℕ) → Reads {E = E} (iter_first_peer mask)
  unfolding Reads iter_first_peer
  iter_first_peer-Reads mask a s s' e = ground arith

  pub iter_has_more_pfx-Reads : Reads {E = E} iter_has_more_pfx
  unfolding Reads iter_has_more_pfx
  iter_has_more_pfx-Reads a s s' e = ground arith

  pub iter_first_pfx-Reads : (mask : ℕ) → Reads {E = E} (iter_first_pfx unknown mask)
  unfolding Reads iter_first_pfx
  iter_first_pfx-Reads mask a s s' e = ground arith

  pub iter_next_pfx-Reads : Reads {E = E} iter_next_pfx
  unfolding Reads iter_next_pfx move_next_pfx iter_has_more_pfx
  iter_next_pfx-Reads a s s' e = ground arith

  pub iter_pfx_get_pfx-Reads : Reads {E = E} iter_pfx_get_pfx
  unfolding Reads iter_pfx_get_pfx
  iter_pfx_get_pfx-Reads a s s' e = ground arith

  pub pfx_peerinfos-Reads : Reads {E = E} pfx_peerinfos
  unfolding Reads
  pfx_peerinfos-Reads a s s' e = ground arith

  pub get_peer_id-Reads : Reads {E = E} get_peer_id
  unfolding Reads
  get_peer_id-Reads a s s' e = ground arith

  pub iter_pfx_has_more_peer-Reads : Reads {E = E} iter_pfx_has_more_peer
  unfolding Reads iter_pfx_has_more_peer
  iter_pfx_has_more_peer-Reads a s s' e = ground arith

  pub iter_pfx_first_peer-Reads : (mask : ℕ) → Reads {E = E} (iter_pfx_first_peer mask)
  unfolding Reads iter_pfx_first_peer move_first_pfx_peer iter_pfx_has_more_peer
  iter_pfx_first_peer-Reads mask a s s' e = ground arith

  pub iter_pfx_next_peer-Reads : Reads {E = E} iter_pfx_next_peer
  unfolding Reads iter_pfx_next_peer move_next_pfx_peer iter_pfx_has_more_peer
  iter_pfx_next_peer-Reads a s s' e = ground arith

  pub path_id-Reads : Reads {E = E} iter_pfx_peer_get_as_path_store_path_id
  unfolding Reads iter_pfx_peer_get_as_path_store_path_id
  path_id-Reads a s s' e = ground arith
