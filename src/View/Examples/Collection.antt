-- ===== src/View/Examples/Collection.antt =====
-- A removed prefix of the small view is collected.
use bgpview.Base.{List, ◌↔◌, ℕ, ◌+◌, ◌≡◌, refl, true, false, some, none, [], ◌∷◌, arith}
use bgpview.Khash.Buckets.{AllEntries-slot}
use bgpview.View.Field.{is_valid, invalid, no_counts}
use bgpview.View.Types.{AddrVersion, Call, PfxInfo, unknown, ipv4, ipv6, PfxInfo, PeerInfo, View}
use bgpview.View.Invariant.{StateAgrees, InfoCounted, PairsCounted, Counted, peer_pfx_cnt}
use bgpview.Khash.Buckets.{slot}
use bgpview.View.State.{pfx_table}
use bgpview.View.Lifecycle.{invalid_pfx, invalid_peer, destroy, gc}
use bgpview.View.Lifecycle.Gc.{Flagged, gc-Counted}
use bgpview.View.Lifecycle.Ledger.{weight, gc-destroy}
use bgpview.View.Examples.{small, sample, sample-Counted}

-- The sample with a removed prefix that has a user pointer.
abbrev removed_pfx : PfxInfo
removed_pfx = record { peers = none; peers_cnt = no_counts; state = invalid; user = 5 }

abbrev with_removed : View small
with_removed = record sample {
  v6pfxs = some (200, removed_pfx) ∷ [];
  need_gc_v6pfxs = true;
  pfx_user_destructor = 9;
}

with_removed-Counted : Counted with_removed
with_removed-Counted = record {
  infos = elim [
    | unknown ↦ sample-Counted.infos unknown
    | ipv4 ↦ sample-Counted.infos ipv4
    | ipv6 ↦
        AllEntries-slot (λ p info. InfoCounted info (StateAgrees info)) with_removed.v6pfxs
          (
            record {
              peers = omega arith;
              agrees = record { active_iff = refl; invalid_empty = λ e. refl };
            },
            tt,
          )
  ];
  pfxs = elim [ unknown ↦ omega arith | ipv4 ↦ omega arith | ipv6 ↦ omega arith ];
  pairs = elim [
    | unknown ↦ sample-Counted.pairs unknown
    | ipv4 ↦ sample-Counted.pairs ipv4
    | ipv6 ↦
        AllEntries-slot (λ id p. PairsCounted id with_removed.v6pfxs (peer_pfx_cnt ipv6 p))
          with_removed.peerinfo (omega arith)
  ];
  peers = omega arith;
  unique = sample-Counted.unique;
}

with_removed-Flagged : Flagged with_removed
with_removed-Flagged = record {
  v4pfxs = λ e. AllEntries-slot (λ p info. invalid_pfx info ≡ false) with_removed.v4pfxs (refl, tt);
  v6pfxs = λ e. cc;
  peers = λ e.
      AllEntries-slot (λ id p. invalid_peer p ≡ false) with_removed.peerinfo (refl, (refl, tt));
}

abbrev collection : View small × List Call
collection = gc with_removed []

gc-Counted_example :
    Counted collection.0
    × ((ver : AddrVersion) (i : ℕ) (p : ℕ) (info : PfxInfo)
        → (slot (pfx_table ver collection.0) i ≡ some (p, info))
          ↔ ((slot (pfx_table ver with_removed) i ≡ some (p, info)) × (is_valid info.state ≡ true)))
    × ((i id : ℕ) (p : PeerInfo)
        → (slot collection.0.peerinfo i ≡ some (id, p))
          ↔ ((slot with_removed.peerinfo i ≡ some (id, p)) × (is_valid p.state ≡ true)))
    × (collection.1 ≡ record { destructor = 9; pointer = 5 } ∷ [])
gc-Counted_example = gc-Counted with_removed [] with_removed-Counted with_removed-Flagged

gc-destroy_example :
    weight (λ c. c.pointer) collection.1 + weight (λ c. c.pointer) (destroy collection.0).calls
    ≡ weight (λ c. c.pointer) [] + weight (λ c. c.pointer) (destroy with_removed).calls
gc-destroy_example = gc-destroy (λ c. c.pointer) with_removed [] with_removed-Flagged
