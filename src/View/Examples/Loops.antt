-- ===== src/View/Examples/Loops.antt =====
-- Loops over the small view, and its counts.
use bgpview.Base.{ℕ, ◌≡◌, refl, true, false, some, none, [], ◌∷◌}
use bgpview.Khash.Buckets.{Buckets}
use bgpview.View.Field.{inactive, no_counts, all_valid}
use bgpview.View.Types.{PfxInfo, unknown, ipv4, ipv6, PfxInfo, State}
use bgpview.View.PeerIter.Order.{for_peers, for_peers-matching}
use bgpview.View.PfxIter.Order.{for_pfxs, for_pfxs-matching}
use bgpview.Khash.Scan.{matching}
use bgpview.View.Field.{matches}
use bgpview.Base.{inr}
use bgpview.View.Access.{v4pfx_cnt, v6pfx_cnt, pfx_cnt, peer_cnt}
use bgpview.View.Access.Counted.{pfx_cnt-Counted}
use bgpview.Base.{Bool}
use bgpview.Khash.Scan.{skip}
use bgpview.View.PfxIter.{has_more_pfx, move_next_pfx, next_pfx}
use bgpview.View.PfxPeerIter.{
  move_next_pfx_peer, next_pfx_peer, stop_at, iter_next_pfx_peer, iter_has_more_pfx_peer,
}
use bgpview.View.PfxPeerIter.Stops.{iter_next_pfx_peer_stops}
use bgpview.View.Examples.{small, one_pfx, sample, at_pair, sample-Counted}

for_peers-matching_example :
    (s' : State small) × (for_peers 3 all_valid (at_pair 0 0) ≡ some (0 ∷ 1 ∷ [], s'))
    × (s'.view ≡ sample)
unfolding matching matches
for_peers-matching_example = for_peers-matching (at_pair 0 0) all_valid

for_pfxs-matching_example :
    (s' : State small) × (for_pfxs 4 unknown all_valid (at_pair 0 0) ≡ some ((ipv4, 1) ∷ [], s'))
    × (s'.view ≡ sample)
unfolding matching matches
for_pfxs-matching_example = for_pfxs-matching (at_pair 0 0) unknown all_valid

pfx_cnt-Counted_example :
    (v4pfx_cnt sample all_valid ≡ 1)
    × (v6pfx_cnt sample all_valid ≡ 0)
    × (pfx_cnt sample all_valid ≡ 1)
    × (peer_cnt sample all_valid ≡ 2)
unfolding matches
pfx_cnt-Counted_example = pfx_cnt-Counted sample all_valid sample-Counted (inr (inr refl))

-- Three prefixes: the one in the middle is inactive and has no entries.
abbrev empty_pfx : PfxInfo
empty_pfx = record { peers = none; peers_cnt = no_counts; state = inactive; user = 0 }

abbrev three_pfxs : Buckets ℕ PfxInfo
three_pfxs = some (200, one_pfx) ∷ some (201, empty_pfx) ∷ some (202, one_pfx) ∷ []

-- An iterator over them, at the entry `j` of the prefix at `i`.
abbrev in_three : ℕ → ℕ → Bool → State small
in_three i j valid =
    let s = at_pair j 1 in
    record s {
      view = record sample { v6pfxs = three_pfxs };
      iter = record s.iter { version_ptr = ipv6; pfx_it = i; pfx_peer_it_valid = valid };
    }

iter_next_pfx_peer_stops_example :
    (s3 : State small) × (iter_next_pfx_peer (in_three 0 2 true) ≡ some (false, s3))
    × (s3.view ≡ (in_three 1 3 false).view)
    × (s3.iter.pfx_it ≡ 1)
    × (s3.iter.version_ptr ≡ ipv6)
    × (iter_has_more_pfx_peer s3 ≡ some (false, s3))
unfolding has_more_pfx move_next_pfx_peer next_pfx_peer stop_at skip move_next_pfx next_pfx matches
iter_next_pfx_peer_stops_example =
    iter_next_pfx_peer_stops (in_three 0 2 true) (in_three 0 3 false) (in_three 1 3 false) 201
      empty_pfx refl refl refl refl refl refl (λ l. refl)
