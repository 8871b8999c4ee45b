-- ===== src/Moas/Examples/Views.antt =====
-- A view with a prefix of two origins is processed.
use native.Mathlib.Decide.{ℕ_discrete}
use bgpview.Base.{ℕ, ◌≡◌, ◌≤◌, ◌<◌, refl, some, false, [], ◌∷◌, arith}
use bgpview.Khash.Scan.{skip}
use bgpview.Khash.Walk.{for_each, walk}
use bgpview.View.Field.{active, field_active, matches}
use bgpview.View.Types.{ipv6, PfxInfo, PfxPeerInfo, State}
use bgpview.View.PeerIter.{seek_peer, has_more_peer}
use bgpview.View.PfxIter.{
  iter_first_pfx, iter_has_more_pfx, has_more_pfx, first_pfx, first_pfx_v4, first_pfx_v6,
  iter_next_pfx, move_next_pfx, next_pfx, next_pfx_v4, next_pfx_v6,
}
use bgpview.View.PfxPeerIter.{
  iter_pfx_first_peer, first_pfx_peer, iter_pfx_next_peer, next_pfx_peer, iter_pfx_has_more_peer,
  move_first_pfx_peer, move_next_pfx_peer, stop_at,
}
use bgpview.View.Access.{iter_pfx_get_pfx, iter_pfx_peer_get_as_path_store_path_id}
use bgpview.View.Examples.{small, sample, at_pair, counts}
use bgpview.Io.Outcome.{ok}
use bgpview.Moas.Types.{MoasState, update_moas_counters, write_event}
use bgpview.Moas.Table.{again, clean_moas, clean_ms, clean_pfx, find_pfx, note_moas, note_ms}
use bgpview.Moas.Process.{
  process_pfx, collect_origin, add_moas, add_origin, for_active_peers, for_active_pfxs, log_moas,
  log_path, peers_loop, pfxs_loop, process_pfxs, start_view, process_view,
}
use bgpview.Moas.Process.Detection.{GoodAfter, process_view-GoodAfter}
use bgpview.Moas.Process.Windows.{first_view, next_view, process_view-current_window_size}
use bgpview.Moas.Examples.{moas_env, moases, moases-Placed, ended, empty_log, same_ms, both}

-- The prefix 8 has the origins 8 and 7, of the peers 1 and 2.
abbrev entry_of : ℕ → PfxPeerInfo
entry_of path_id = record { as_path_id = path_id; state = active; user = 0 }

abbrev two_origins : PfxInfo
two_origins = record {
  peers = some (some (1, entry_of 8) ∷ some (2, entry_of 7) ∷ []);
  peers_cnt = counts 2 0;
  state = active;
  user = 0;
}

abbrev view_10 : State small
view_10 = record (at_pair 0 0) {
  view = record sample { v4pfxs = some (8, two_origins) ∷ []; v4pfxs_cnt = counts 1 0 };
}

abbrev before_view : MoasState ℕ
before_view = record {
  first_ts = 5;
  window_size = 7;
  current_window_size = 4;
  current_moases = moases;
  log = empty_log;
}

abbrev after_view : MoasState ℕ
after_view = record {
  first_ts = 5;
  window_size = 7;
  current_window_size = 5;
  current_moases =
      some (8, some (7 ∷ 8 ∷ [], record { first_seen = 5; start = 5; end = 10 }) ∷ []) ∷ [];
  log = record empty_log { ongoing_moas_pfxs_count = 1 };
}

abbrev done_10 : State small
done_10 = record view_10 {
  iter = record {
    version_ptr = ipv6;
    version_filter = ipv6;
    pfx_it = 0;
    pfx_state_mask = field_active;
    pfx_peer_it = 2;
    pfx_peer_it_valid = false;
    pfx_peer_state_mask = field_active;
    peer_it = 1;
    peer_state_mask = field_active;
  };
}

processed : process_view moas_env before_view view_10 ≡ ok (after_view, done_10)
unfolding process_view start_view iter_first_pfx iter_has_more_pfx has_more_pfx first_pfx skip
    matches process_pfx iter_pfx_get_pfx iter_pfx_first_peer first_pfx_peer seek_peer has_more_peer
    ℕ_discrete collect_origin iter_pfx_peer_get_as_path_store_path_id iter_pfx_next_peer
    next_pfx_peer for_each walk add_moas add_origin for_active_peers for_active_pfxs log_moas
    log_path peers_loop pfxs_loop process_pfxs again clean_moas clean_ms clean_pfx find_pfx
    note_moas note_ms update_moas_counters write_event first_pfx_v4 first_pfx_v6 iter_next_pfx
    move_next_pfx next_pfx next_pfx_v4 next_pfx_v6 iter_pfx_has_more_peer move_first_pfx_peer
    move_next_pfx_peer stop_at same_ms both
processed = refl

process_view-GoodAfter_example : GoodAfter moas_env 10 after_view.current_moases
process_view-GoodAfter_example =
    process_view-GoodAfter moas_env ℕ_discrete before_view after_view view_10 done_10 processed
      (omega arith) (omega arith) (omega arith) moases-Placed ended

-- Two views of a consumer that has seen none before, of the times 10 and 12.
abbrev no_view : MoasState ℕ
no_view = record before_view { first_ts = 0; current_window_size = 0 }

abbrev after_first : MoasState ℕ
after_first = record after_view { first_ts = 10; current_window_size = 0 }

processed_first : process_view moas_env no_view view_10 ≡ ok (after_first, done_10)
unfolding process_view start_view iter_first_pfx iter_has_more_pfx has_more_pfx first_pfx skip
    matches process_pfx iter_pfx_get_pfx iter_pfx_first_peer first_pfx_peer seek_peer has_more_peer
    ℕ_discrete collect_origin iter_pfx_peer_get_as_path_store_path_id iter_pfx_next_peer
    next_pfx_peer for_each walk add_moas add_origin for_active_peers for_active_pfxs log_moas
    log_path peers_loop pfxs_loop process_pfxs again clean_moas clean_ms clean_pfx find_pfx
    note_moas note_ms update_moas_counters write_event first_pfx_v4 first_pfx_v6 iter_next_pfx
    move_next_pfx next_pfx next_pfx_v4 next_pfx_v6 iter_pfx_has_more_peer move_first_pfx_peer
    move_next_pfx_peer stop_at same_ms both
processed_first = refl

abbrev at_12 : State small → State small
at_12 s = record s { view = record s.view { time = 12 } }

abbrev after_second : MoasState ℕ
after_second = record after_first {
  current_window_size = 2;
  current_moases =
      some (8, some (7 ∷ 8 ∷ [], record { first_seen = 5; start = 5; end = 12 }) ∷ []) ∷ [];
}

processed_second :
    process_view moas_env after_first (at_12 view_10) ≡ ok (after_second, at_12 done_10)
unfolding process_view start_view iter_first_pfx iter_has_more_pfx has_more_pfx first_pfx skip
    matches process_pfx iter_pfx_get_pfx iter_pfx_first_peer first_pfx_peer seek_peer has_more_peer
    ℕ_discrete collect_origin iter_pfx_peer_get_as_path_store_path_id iter_pfx_next_peer
    next_pfx_peer for_each walk add_moas add_origin for_active_peers for_active_pfxs log_moas
    log_path peers_loop pfxs_loop process_pfxs again clean_moas clean_ms clean_pfx find_pfx
    note_moas note_ms update_moas_counters write_event first_pfx_v4 first_pfx_v6 iter_next_pfx
    move_next_pfx next_pfx next_pfx_v4 next_pfx_v6 iter_pfx_has_more_peer move_first_pfx_peer
    move_next_pfx_peer stop_at same_ms both
processed_second = refl

process_view-current_window_size_example :
    (after_second.first_ts ≡ 10)
    × (after_second.window_size ≡ 7)
    × (12 < 17 → after_second.current_window_size ≡ 2)
    × (17 ≤ 12 → after_second.current_window_size ≡ 7)
process_view-current_window_size_example =
    process_view-current_window_size moas_env 7 10 12 after_second (omega arith) (omega arith)
      (omega arith)
      (next_view 10 after_first after_second (at_12 view_10) (at_12 done_10)
        (first_view no_view after_first view_10 done_10 refl refl refl processed_first)
        (omega arith) (omega arith) processed_second)
