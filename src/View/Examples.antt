-- ===== src/View/Examples.antt =====
-- A small view, and the theorems about lib/bgpview.c applied to it.
pub mod Entries
pub mod Loops
pub mod Collection
pub mod Seek
pub mod Clear
pub mod Copy
use native.Mathlib.Decide.{ℕ_discrete}
use bgpview.Base.{
  List, ◌↔◌, ℕ, zero, suc, ◌+◌, ◌≡◌, refl, true, false, some, none, [], ◌∷◌, ltb, arith,
  if◌then◌else◌,
}
use bgpview.Khash.Buckets.{Buckets, AllEntries-slot, Unique}
use bgpview.Khash.Linear.{linear}
use bgpview.View.Field.{
  is_valid, FieldState, invalid, active, inactive, Counts, no_counts, all_valid,
}
use bgpview.View.Types.{
  AddrVersion, Call, PfxInfo, unknown, ipv4, ipv6, PfxPeerInfo, PfxInfo, PeerInfo, Env, View, State,
  one_ret,
}
use bgpview.View.Create.{new_pfxinfo, new_peerinfo, no_entry}
use bgpview.View.Invariant.{
  StateAgrees, InfoCounted, PairsCounted, Counted, pfx_state, entry_state, peer_pfx_cnt,
  active_peers,
}
use bgpview.View.PeerIter.Order.{for_peers, for_peers-matching}
use bgpview.View.PfxIter.Order.{for_pfxs, for_pfxs-matching}
use bgpview.Khash.Buckets.{slot}
use bgpview.Khash.Scan.{matching}
use bgpview.View.Field.{matches}
use bgpview.View.State.{pfx_table}
use bgpview.View.Lifecycle.{invalid_pfx, invalid_peer, destroy, gc}
use bgpview.View.Lifecycle.Gc.{Flagged, gc-Counted}
use bgpview.View.Lifecycle.Ledger.{weight, gc-destroy}
use bgpview.View.Activate.Stopped.{KnownPeers}
use bgpview.View.Activate.Prefix.{iter_deactivate_pfx-Counted}
use bgpview.View.Activate.{iter_deactivate_pfx, iter_pfx_activate_peer, iter_pfx_deactivate_peer}
use bgpview.View.Activate.Pair.{OnPair}
use bgpview.View.Activate.Counted.{iter_pfx_activate_peer-Counted, iter_pfx_deactivate_peer-Counted}

-- Prefixes, signatures and paths are numbers; a prefix below 100 is an IPv4 one, and a signature is
-- the id of its peer.
abbrev pub small : Env
small = record {
  Pfx = ℕ;
  version = λ p. if ltb p 100 then ipv4 else ipv6;
  Sig = ℕ;
  SigMap = Unit {0};
  get_id = λ m sig. (sig, m);
  get_sig = λ m id. some id;
  peer_asnumber = λ sig. sig + 64000;
  AsPath = ℕ;
  PathStore = Unit {0};
  get_path_id = λ m path asn. (some (path + asn), m);
  v4_hash = linear ℕ_discrete new_pfxinfo;
  v6_hash = linear ℕ_discrete new_pfxinfo;
  peers_hash = linear ℕ_discrete no_entry;
  peerinfo_hash = linear ℕ_discrete new_peerinfo;
}

abbrev pub counts : ℕ → ℕ → Counts
counts a i = record { active = a; inactive = i }

abbrev entry : FieldState → PfxPeerInfo
entry s = record { as_path_id = 7; state = s; user = 0 }

abbrev pub peer : Counts → PeerInfo
peer c = record { v4_pfx_cnt = c; v6_pfx_cnt = no_counts; state = active; user = 0 }

-- The peers of the one prefix: 1, active, and 2, inactive.
abbrev pub two_peers : Buckets ℕ PfxPeerInfo
two_peers = some (1, entry active) ∷ none ∷ some (2, entry inactive) ∷ []

abbrev pub one_pfx : PfxInfo
one_pfx = record { peers = some two_peers; peers_cnt = counts 1 1; state = active; user = 0 }

abbrev pub sample : View small
sample = record {
  time = 10;
  time_created = 20;
  v4pfxs = none ∷ some (8, one_pfx) ∷ [];
  v4pfxs_cnt = counts 1 0;
  v6pfxs = [];
  v6pfxs_cnt = no_counts;
  peersigns = tt;
  peersigns_shared = false;
  pathstore = tt;
  pathstore_shared = false;
  peerinfo = some (1, peer (counts 1 0)) ∷ some (2, peer (counts 0 1)) ∷ [];
  peerinfo_cnt = counts 2 0;
  user_destructor = 0;
  peer_user_destructor = 0;
  pfx_user_destructor = 0;
  pfx_peer_user_destructor = 0;
  state = invalid;
  user = 0;
  disable_extended = false;
  need_gc_v4pfxs = false;
  need_gc_v6pfxs = false;
  need_gc_peerinfo = false;
}

-- An iterator on the prefix and on one of its peers.
abbrev pub at_pair : ℕ → ℕ → State small
at_pair j k = record {
  view = sample;
  iter = record {
    version_ptr = ipv4;
    version_filter = unknown;
    pfx_it = 1;
    pfx_state_mask = all_valid;
    pfx_peer_it = j;
    pfx_peer_it_valid = true;
    pfx_peer_state_mask = all_valid;
    peer_it = k;
    peer_state_mask = all_valid;
  };
  calls = [];
}

pub two_keys : {V : Type 0} (u v : V) → Unique {K = ℕ} (some (1, u) ∷ some (2, v) ∷ [])
two_keys u v zero zero k x y ha hb = refl
two_keys u v zero (suc zero) k x y ha hb = ground arith
two_keys u v (suc zero) zero k x y ha hb = ground arith
two_keys u v (suc zero) (suc zero) k x y ha hb = refl
two_keys u v zero (suc (suc j)) k x y ha hb = cc
two_keys u v (suc zero) (suc (suc j)) k x y ha hb = cc
two_keys u v (suc (suc i)) j k x y ha hb = cc

one_pfx-InfoCounted : InfoCounted one_pfx (StateAgrees one_pfx)
one_pfx-InfoCounted = record {
  peers = omega arith;
  agrees = record { active_iff = refl; invalid_empty = λ e. cc };
}

pub sample-Counted : Counted sample
sample-Counted = record {
  infos = elim [
    | unknown ↦ λ i p info e. cc
    | ipv4 ↦
        AllEntries-slot (λ p info. InfoCounted info (StateAgrees info)) sample.v4pfxs
          (one_pfx-InfoCounted, tt)
    | ipv6 ↦ λ i p info e. cc
  ];
  pfxs = elim [ unknown ↦ omega arith | ipv4 ↦ omega arith | ipv6 ↦ omega arith ];
  pairs = elim [
    | unknown ↦
        AllEntries-slot (λ id p. PairsCounted {P = ℕ} id [] no_counts) sample.peerinfo (omega arith)
    | ipv4 ↦
        AllEntries-slot (λ id p. PairsCounted id sample.v4pfxs (peer_pfx_cnt ipv4 p))
          sample.peerinfo (omega arith)
    | ipv6 ↦
        AllEntries-slot (λ id p. PairsCounted {P = ℕ} id [] (peer_pfx_cnt ipv6 p)) sample.peerinfo
          (omega arith)
  ];
  peers = omega arith;
  unique = two_keys _ _;
}

pub at_first : OnPair (at_pair 0 0) ipv4 8 one_pfx two_peers 1 (entry active) (peer (counts 1 0))
at_first = record {
  at_version = refl;
  at_pfx = refl;
  has_table = refl;
  at_pfx_peer = refl;
  is_on = refl;
  at_peer = refl;
  pfx_valid = refl;
}

pub at_second : OnPair (at_pair 2 1) ipv4 8 one_pfx two_peers 2 (entry inactive) (peer (counts 0 1))
at_second = record {
  at_version = refl;
  at_pfx = refl;
  has_table = refl;
  at_pfx_peer = refl;
  is_on = refl;
  at_peer = refl;
  pfx_valid = refl;
}
