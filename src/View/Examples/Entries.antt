-- ===== src/View/Examples/Entries.antt =====
-- Entries of a prefix are activated and deactivated in the small view.
use bgpview.Base.{ℕ, ◌⊎◌, some, [], ◌∷◌, arith}
use bgpview.Khash.Buckets.{AllEntries-slot}
use bgpview.View.Field.{inactive, active, no_counts}
use bgpview.View.Types.{PeerInfo, View, State, unknown, ipv4, ipv6, zero_ret}
use bgpview.View.Invariant.{Counted, PairsCounted, peer_pfx_cnt}
use bgpview.View.Activate.{iter_activate_peer}
use bgpview.View.Activate.Peer.{iter_activate_peer-Counted}
use bgpview.View.Examples.{peer, counts, two_keys}
use bgpview.Base.{zero, suc, ◌≡◌, refl, some, arith}
use bgpview.View.Field.{active, inactive}
use bgpview.View.Types.{PfxInfo, ipv4, PfxInfo, State, one_ret}
use bgpview.View.Invariant.{Counted, pfx_state, entry_state, active_peers}
use bgpview.Khash.Buckets.{slot}
use bgpview.View.Activate.Stopped.{KnownPeers}
use bgpview.View.Activate.Prefix.{iter_deactivate_pfx-Counted}
use bgpview.View.Activate.{iter_deactivate_pfx, iter_pfx_activate_peer, iter_pfx_deactivate_peer}
use bgpview.View.Activate.Counted.{iter_pfx_activate_peer-Counted, iter_pfx_deactivate_peer-Counted}
use bgpview.View.Examples.{
  small, two_peers, one_pfx, sample, at_pair, sample-Counted, at_first, at_second,
}

iter_pfx_activate_peer-Counted_example :
    (s' : State small) × (iter_pfx_activate_peer (at_pair 2 1) ≡ some (one_ret, s'))
    × Counted s'.view
    × (pfx_state s'.view ipv4 1 ≡ some active)
    × (entry_state s'.view ipv4 1 2 ≡ some active)
iter_pfx_activate_peer-Counted_example =
    iter_pfx_activate_peer-Counted at_second sample-Counted refl refl

iter_pfx_deactivate_peer-Counted_example :
    (s' : State small) × (iter_pfx_deactivate_peer (at_pair 0 0) ≡ some (one_ret, s'))
    × Counted s'.view
    × (pfx_state s'.view ipv4 1 ≡ some inactive)
    × (entry_state s'.view ipv4 1 0 ≡ some inactive)
iter_pfx_deactivate_peer-Counted_example =
    iter_pfx_deactivate_peer-Counted at_first sample-Counted refl

known_peers : KnownPeers two_peers sample.peerinfo
known_peers zero id q e v gone = gone 0 1 _ refl (ground arith)
known_peers (suc zero) id q e v gone = cc
known_peers (suc (suc zero)) id q e v gone = gone 1 2 _ refl (ground arith)
known_peers (suc (suc (suc j))) id q e v gone = cc

iter_deactivate_pfx-Counted_example :
    (s' : State small) × (info' : PfxInfo) × (iter_deactivate_pfx (at_pair 0 0)
      ≡ some (one_ret, s'))
    × Counted s'.view
    × (s'.iter ≡ (at_pair 0 0).iter)
    × (slot s'.view.v4pfxs 1 ≡ some (8, info'))
    × (info'.state ≡ inactive)
    × (active_peers info' ≡ 0)
iter_deactivate_pfx-Counted_example =
    iter_deactivate_pfx-Counted (at_pair 0 0) ipv4 8 one_pfx refl refl refl sample-Counted
      sample-Counted.unique known_peers

-- The sample where the second peer is inactive.
abbrev idle_peer : PeerInfo
idle_peer = record (peer (counts 0 1)) { state = inactive }

abbrev with_idle : View small
with_idle = record sample {
  peerinfo = some (1, peer (counts 1 0)) ∷ some (2, idle_peer) ∷ [];
  peerinfo_cnt = counts 1 1;
}

with_idle-Counted : Counted with_idle
with_idle-Counted = record {
  infos = elim [
    | unknown ↦ sample-Counted.infos unknown
    | ipv4 ↦ sample-Counted.infos ipv4
    | ipv6 ↦ sample-Counted.infos ipv6
  ];
  pfxs = elim [
    | unknown ↦ sample-Counted.pfxs unknown
    | ipv4 ↦ sample-Counted.pfxs ipv4
    | ipv6 ↦ sample-Counted.pfxs ipv6
  ];
  pairs = elim [
    | unknown ↦
        AllEntries-slot (λ id p. PairsCounted {P = ℕ} id [] no_counts) with_idle.peerinfo
          (omega arith)
    | ipv4 ↦
        AllEntries-slot (λ id p. PairsCounted id with_idle.v4pfxs (peer_pfx_cnt ipv4 p))
          with_idle.peerinfo (omega arith)
    | ipv6 ↦
        AllEntries-slot (λ id p. PairsCounted {P = ℕ} id [] (peer_pfx_cnt ipv6 p))
          with_idle.peerinfo (omega arith)
  ];
  peers = omega arith;
  unique = two_keys _ _;
}

abbrev at_idle : State small
at_idle = record (at_pair 2 1) { view = with_idle }

iter_activate_peer-Counted_example :
    ((idle_peer.state ≡ active) × (iter_activate_peer at_idle ≡ some (zero_ret, at_idle)))
    ⊎ ((s' : State small) × (idle_peer.state ≡ inactive)
        × (iter_activate_peer at_idle ≡ some (one_ret, s'))
        × Counted s'.view
        × (slot s'.view.peerinfo 1 ≡ some (2, record idle_peer { state = active })))
iter_activate_peer-Counted_example =
    iter_activate_peer-Counted at_idle 2 idle_peer refl refl with_idle-Counted
