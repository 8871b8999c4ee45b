-- ===== src/Io/Examples/Written.antt =====
-- The prefix of the small view is written, and read.
use native.Mathlib.Decide.{ℕ_discrete}
use bgpview.Base.{◌≡◌, refl, false, none, [], ◌∷◌, ◌++◌, arith}
use bgpview.Khash.Scan.{skip}
use bgpview.View.Field.{field_active, matches}
use bgpview.View.Types.{State}
use bgpview.View.PeerIter.{seek_peer, has_more_peer}
use bgpview.View.PfxPeerIter.{
  iter_pfx_first_peer, first_pfx_peer, iter_pfx_next_peer, next_pfx_peer, iter_pfx_has_more_peer,
  move_first_pfx_peer, move_next_pfx_peer, stop_at,
}
use bgpview.View.Access.{iter_pfx_get_pfx, iter_pfx_peer_get_as_path_store_path_id}
use bgpview.View.Examples.{small, at_pair}
use bgpview.Io.Outcome.{ok}
use bgpview.Io.Ip.{serialize_ip, serialize_pfx}
use bgpview.Io.Row.{
  Row, index, serialize_pfx_peer, serialize_loop, serialize_pfx_peers, serialize_pfx_row,
}
use bgpview.Io.Row.Written.{deserialize_pfx_row-serialize_pfx_row}
use bgpview.Io.ReadRow.{deserialize_pfx_row}
use bgpview.Io.ReadRow.Framing.{skim}
use bgpview.Io.Examples.{small_io}

-- One active entry, of peer 1, with the path 7.
abbrev row : Row
row = record {
  bytes = 4 ∷ 10 ∷ 8 ∷ 0 ∷ 0 ∷ 16 ∷ 0 ∷ 1 ∷ 7 ∷ 0 ∷ 0 ∷ 0 ∷ 255 ∷ 255 ∷ 0 ∷ 1 ∷ [];
  peers_cnt = 1;
}

abbrev after_row : State small
after_row = record (at_pair 0 0) {
  iter = record (at_pair 0 0).iter {
    pfx_peer_it = 3;
    pfx_peer_it_valid = false;
    pfx_peer_state_mask = field_active;
    peer_state_mask = field_active;
  };
}

written : serialize_pfx_row small_io none index 100 (at_pair 0 0) ≡ ok (row, after_row)
unfolding serialize_pfx_row serialize_pfx_peers serialize_loop serialize_pfx_peer serialize_pfx
    serialize_ip iter_pfx_get_pfx iter_pfx_peer_get_as_path_store_path_id iter_pfx_first_peer
    first_pfx_peer iter_pfx_next_peer next_pfx_peer iter_pfx_has_more_peer move_first_pfx_peer
    move_next_pfx_peer stop_at skip matches seek_peer has_more_peer ℕ_discrete
written = refl

deserialize_pfx_row-serialize_pfx_row_example :
    deserialize_pfx_row small_io (skim small_io) 50 (row.bytes ++ (9 ∷ [])) (at_pair 2 1)
    ≡ ok (16, at_pair 2 1)
deserialize_pfx_row-serialize_pfx_row_example =
    deserialize_pfx_row-serialize_pfx_row small_io (λ p. omega arith) 100 50 row (9 ∷ [])
      (at_pair 0 0) after_row (at_pair 2 1) (λ p. (refl, omega arith)) written (omega arith)
      (omega arith) (omega arith) (omega arith)
