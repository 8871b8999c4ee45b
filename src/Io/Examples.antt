-- ===== src/Io/Examples.antt =====
-- A little-endian machine and a small view, and the theorems about lib/io/bgpview_io.c applied to
-- them.
pub mod Written
use native.Mathlib.Decide.{ℕ_discrete}
use bgpview.Base.{
  ◌%◌, ◌^◌, ◌≡◌, refl, ℕ, ◌<◌, some, none, true, false, List, [], ◌∷◌, ◌++◌, arith, length,
}
use bgpview.View.Field.{inactive, all_valid, matches}
use bgpview.View.Types.{ipv4, State}
use bgpview.View.PfxIter.{iter_seek_pfx}
use bgpview.View.PfxPeerIter.{iter_seek_pfx_peer, iter_pfx_seek_peer, seek_pfx_peer}
use bgpview.View.Examples.{small, at_pair}
use bgpview.Io.Outcome.{ok, fault}
use bgpview.Io.Host.Little.{little}
use bgpview.Io.Ip.{v4, BgpPfx, serialize_pfx, deserialize_pfx}
use bgpview.Io.Ip.RoundTrip.{pfx_bytes, deserialize_pfx-serialize_pfx}
use bgpview.Io.Peer.{PeerSig, serialize_peer, deserialize_peer}
use bgpview.Io.Peer.RoundTrip.{peer_bytes, deserialize_peer-serialize_peer, serialize_peer_overruns}
use bgpview.Io.Path.{IoEnv}
use bgpview.Io.ReadRow.{RowArgs, RowPos, drop_entry, deserialize_pfx_row}
use bgpview.Io.ReadRow.Framing.{skim, row_bytes, deserialize_pfx_row-row_bytes}
use bgpview.Io.ReadRow.Missing.{drop_entry-missing}

-- 10.0.0.0/8
abbrev ten : BgpPfx
ten = record { address = v4 (10 ∷ 0 ∷ 0 ∷ 0 ∷ []); mask_len = 8 }

deserialize_pfx-serialize_pfx_example :
    (serialize_pfx little 100 ten ≡ ok (pfx_bytes little ten))
    × (deserialize_pfx little 100 (pfx_bytes little ten ++ (9 ∷ [])) ≡ ok (ten, 6))
deserialize_pfx-serialize_pfx_example =
    deserialize_pfx-serialize_pfx little 100 ten (9 ∷ []) refl (omega arith) (omega arith)
      (omega arith)

-- "rv", 192.0.2.1, AS 64500
abbrev sig : PeerSig
sig = record {
  collector_str = 114 ∷ 118 ∷ [];
  peer_ip_addr = v4 (192 ∷ 0 ∷ 2 ∷ 1 ∷ []);
  peer_asnumber = 64500;
}

deserialize_peer-serialize_peer_example :
    (serialize_peer little 100 7 sig ≡ ok (peer_bytes little 7 sig))
    × (deserialize_peer little 100 (peer_bytes little 7 sig ++ (9 ∷ [])) ≡ ok (7, sig, 15))
deserialize_peer-serialize_peer_example =
    deserialize_peer-serialize_peer little 100 7 sig refl (omega arith) (omega arith) (omega arith)
      (omega arith) (omega arith) (9 ∷ [])

serialize_peer_overruns_example :
    (bytes : List ℕ) × (serialize_peer little 6 7 sig ≡ ok bytes) × (6 < length bytes)
serialize_peer_overruns_example =
    serialize_peer_overruns little 6 7 (114 ∷ 118 ∷ []) (192 ∷ 0 ∷ 2 ∷ 1 ∷ []) 64500 refl
      (omega arith) (omega arith) (omega arith) (omega arith)

-- A path of the small view is its index, and its data is one byte; a prefix 10.x.y.z of any length
-- is the number x.
abbrev pub small_io : IoEnv small
small_io = record {
  host = little;
  to_pfx = λ p. record { address = v4 (10 ∷ p ∷ 0 ∷ 0 ∷ []); mask_len = 16 };
  from_pfx = λ pfx. elim pfx.address [ v4 (a ∷ p ∷ r) ↦ p | _ ↦ 0 ];
  StorePath = ℕ;
  get_store_path = λ store id. id;
  path_idx = λ path. path % 2 ^ 32;
  is_core = λ path. 0;
  path_data = λ path. path ∷ [];
  insert_path = λ store bytes core. (some (length bytes), store);
}

-- Two entries, of the peers 1 and 2.
deserialize_pfx_row-row_bytes_example :
    deserialize_pfx_row small_io
      (skim small_io)
      100
      (row_bytes little ten ((1, 70) ∷ (2, 71) ∷ []) ++ (9 ∷ []))
      (at_pair 0 0)
    ≡ ok (22, at_pair 0 0)
deserialize_pfx_row-row_bytes_example =
    deserialize_pfx_row-row_bytes small_io 100 (omega arith) ten ((1, 70) ∷ (2, 71) ∷ []) (9 ∷ [])
      (at_pair 0 0) refl (omega arith) (omega arith, omega arith, (omega arith, omega arith, tt))
      (omega arith) (omega arith)

-- The reader of a row of entries to be deactivated, where the ids stay the same.
abbrev dropping : RowArgs small_io
dropping = record {
  has_it = true;
  pfx_cb = none;
  pfx_peer_cb = none;
  peerid_map = 0 ∷ 1 ∷ 2 ∷ 3 ∷ [];
  pathid_map = none;
  state = inactive;
}

abbrev start : RowPos
start = record { buf = []; read = 6; pfx_peers_added = 0; pfx_peer_rx = 0 }

abbrev pfx8 : BgpPfx
pfx8 = record { address = v4 (10 ∷ 8 ∷ 0 ∷ 0 ∷ []); mask_len = 16 }

-- The iterator after the search for an entry of peer 3.
abbrev after : State small
after = record (at_pair 0 0) {
  iter = record (at_pair 0 0).iter { version_filter = ipv4; pfx_it = 2; pfx_peer_it_valid = false };
}

missing : iter_seek_pfx_peer 8 3 all_valid all_valid (at_pair 0 0) ≡ some (false, after)
unfolding iter_seek_pfx_peer iter_seek_pfx iter_pfx_seek_peer ℕ_discrete matches seek_pfx_peer
missing = refl

-- Peer 3 has no entry, and peer 2 has one.
drop_entry-missing_example :
    (drop_entry small_io dropping 100 pfx8 false 3 start (at_pair 0 0)
      ≡ ok (record start { pfx_peers_added = 1 }, after))
    × (drop_entry small_io dropping 100 pfx8 false 2 (record start { pfx_peers_added = 1 }) after
        ≡ fault)
drop_entry-missing_example =
    drop_entry-missing small_io dropping 100 pfx8 false 3 2 3 2 start (at_pair 0 0) after refl refl
      refl missing
