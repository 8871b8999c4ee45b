-- ===== src/View/Clear.antt =====
-- lib/bgpview.c: bgpview_clear.
pub mod Peers
pub mod Prefixes
pub mod Whole
use bgpview.Base.{
  ℕ, zero, suc, ◌+◌, Bool, true, false, Option, none, some, List, length, ltb, if◌then◌else◌,
}
use bgpview.Khash.Buckets.{Buckets, entries}
use bgpview.View.Field.{invalid, all_valid, no_counts}
use bgpview.View.Types.{unknown, PfxPeerInfo, PfxInfo, Env, View, State}
use bgpview.View.State.{
  Action, pure, fault, with_iter, get_view, get_iter, put_view, put_iter, ◌>>=◌, ◌>>◌,
}
use bgpview.View.PeerIter.{first_peer, next_peer, has_more_peer}
use bgpview.View.PfxIter.{iter_first_pfx, iter_has_more_pfx, move_next_pfx}
use bgpview.View.PfxIter.Order.{pfx_rounds}
use bgpview.View.PfxPeerIter.{pfx_peerinfos}
use bgpview.View.Store.{put_pfxinfo, get_peerinfo, put_peerinfo}
use bgpview.View.Activate.{new_iter}
use bgpview.View.Remove.{peerinfo_reset}

-- kh_size
abbrev pub kh_size : {K V : Type 0} → Buckets K V → ℕ
kh_size t = length (entries t)

-- kh_clear is khash.h's.
abbrev pub cleared_pfx : (Buckets ℕ PfxPeerInfo → Buckets ℕ PfxPeerInfo) → PfxInfo → PfxInfo
cleared_pfx kh_clear info = record info {
  peers = elim info.peers [ none ↦ none | some t ↦ some (kh_clear t) ];
  peers_cnt = no_counts;
  state = invalid;
}

module _ {E : Env} (kh_clear : Buckets ℕ PfxPeerInfo → Buckets ℕ PfxPeerInfo) where
  -- The loop over the prefixes.
  unfoldable pub clear_pfxs : ℕ → Action E (Unit {0})
  clear_pfxs zero = fault
  clear_pfxs (suc fuel) = do
    more ← iter_has_more_pfx
    elim more [
      | false ↦ pure tt
      | true ↦ (do
        info ← pfx_peerinfos
        put_pfxinfo (cleared_pfx kh_clear info)
        move_next_pfx
        clear_pfxs fuel)
    ]

module _ {E : Env} where
  -- The loop over the peers.
  unfoldable pub clear_peers : ℕ → Action E (Unit {0})
  clear_peers zero = fault
  clear_peers (suc fuel) = do
    v ← get_view
    it ← get_iter
    elim (has_more_peer v it) [
      | false ↦ pure tt
      | true ↦ (do
        p ← get_peerinfo
        put_peerinfo (peerinfo_reset p)
        w ← get_view
        put_iter (next_peer w it)
        clear_peers fuel)
    ]

  -- What is set between the loops.
  abbrev pub clear_pfx_cnts : View E → View E
  clear_pfx_cnts v = record v {
    need_gc_v4pfxs = ltb 0 (kh_size v.v4pfxs);
    need_gc_v6pfxs = ltb 0 (kh_size v.v6pfxs);
    v4pfxs_cnt = no_counts;
    v6pfxs_cnt = no_counts;
  }

  -- The loop over the peers with its start, and what is set after it.
  unfoldable pub clear_peerinfo : Action E (Unit {0})
  unfolding clear_peers
  clear_peerinfo = do
    v ← get_view
    it ← get_iter
    put_iter (first_peer v all_valid it)
    clear_peers (suc (length v.peerinfo))
    w ← get_view
    put_view (record w { need_gc_peerinfo = ltb 0 (kh_size w.peerinfo); peerinfo_cnt = no_counts })

module _ {E : Env} (kh_clear : Buckets ℕ PfxPeerInfo → Buckets ℕ PfxPeerInfo) where
  -- bgpview_clear at the time `now`
  unfoldable pub clear : ℕ → Action E (Unit {0})
  unfolding clear_pfxs clear_peerinfo
  clear now = do
    v ← get_view
    put_view (record v { time = 0; time_created = now })
    with_iter (new_iter v) (do
      _ ← iter_first_pfx unknown all_valid
      clear_pfxs kh_clear (pfx_rounds v)
      w ← get_view
      put_view (clear_pfx_cnts w)
      clear_peerinfo)
