-- ===== src/View/Lifecycle.antt =====
-- lib/bgpview.c: bgpview_create_shared, bgpview_destroy, bgpview_gc, and what they call.
pub mod Gc
pub mod Ledger
use bgpview.Base.{
  ℕ, Bool, true, false, not, Option, none, some, List, [], ◌∷◌, ◌++◌, ◌==◌, length, if◌then◌else◌,
}
use bgpview.Khash.Buckets.{Buckets}
use bgpview.Khash.Sweep.{sweep}
use bgpview.View.Field.{invalid, is_state, no_counts}
use bgpview.View.Types.{PfxPeerInfo, PfxInfo, PeerInfo, Env, View, Call}
use bgpview.View.User.{destroy_user}

-- `for (k = kh_begin(h); k != kh_end(h); ++k) { if (!kh_exist(h, k)) continue; destroy(h, k); }`
abbrev pub destroy_each : {K V : Type 0} → (V → List Call) → Buckets K V → List Call
destroy_each f [] = []
destroy_each f (none ∷ t) = destroy_each f t
destroy_each f (some (k, v) ∷ t) = f v ++ destroy_each f t

abbrev pub invalid_pfx : PfxInfo → Bool
invalid_pfx info = is_state invalid info.state

abbrev pub invalid_peer : PeerInfo → Bool
invalid_peer p = is_state invalid p.state

-- What bgpview_destroy calls, and which of the shared tables it frees.
pub record Destroyed : Type 0 where
  pub calls : List Call
  pub frees_peersigns : Bool
  pub frees_pathstore : Bool

module _ {E : Env} where
  -- pfx_peer_info_ext_destroy
  abbrev pub pfx_peer_info_ext_destroy : View E → PfxPeerInfo → List Call
  pfx_peer_info_ext_destroy v p = destroy_user v.pfx_peer_user_destructor p.user

  -- The calls of destructors for the peers of a prefix; a view with disable_extended has no pointers
  -- in them.
  abbrev pub destroy_peers : View E → Option (Buckets ℕ PfxPeerInfo) → List Call
  destroy_peers v none = []
  destroy_peers v (some t) =
      if v.disable_extended then [] else destroy_each (pfx_peer_info_ext_destroy v) t

  abbrev pub peerid_pfxinfo_destroy : View E → PfxInfo → List Call
  peerid_pfxinfo_destroy v info =
      destroy_peers v info.peers ++ destroy_user v.pfx_user_destructor info.user

  abbrev pub peer_destroy_user : View E → PeerInfo → List Call
  peer_destroy_user v p = destroy_user v.peer_user_destructor p.user

  abbrev pub peerinfo_destroy_user : View E → List Call
  peerinfo_destroy_user v =
      if v.peer_user_destructor == 0 then [] else destroy_each (peer_destroy_user v) v.peerinfo

  unfoldable pub destroy : View E → Destroyed
  destroy v = record {
    calls =
        destroy_each (peerid_pfxinfo_destroy v) v.v4pfxs
        ++ (destroy_each (peerid_pfxinfo_destroy v) v.v6pfxs
            ++ (peerinfo_destroy_user v ++ destroy_user v.user_destructor v.user));
    frees_peersigns = not v.peersigns_shared;
    frees_pathstore = not v.pathstore_shared;
  }

  -- Each of the three parts of bgpview_gc: the view after it and the log of calls.
  unfoldable pub gc_v4pfxs : View E → List Call → View E × List Call
  gc_v4pfxs v calls =
      let t = v.v4pfxs in
      let r = sweep E.v4_hash invalid_pfx (peerid_pfxinfo_destroy v) (length t) 0 t calls in
      if v.need_gc_v4pfxs
      then (record v { v4pfxs = r.0; need_gc_v4pfxs = false }, r.1)
      else (v, calls)

  unfoldable pub gc_v6pfxs : View E → List Call → View E × List Call
  gc_v6pfxs v calls =
      let t = v.v6pfxs in
      let r = sweep E.v6_hash invalid_pfx (peerid_pfxinfo_destroy v) (length t) 0 t calls in
      if v.need_gc_v6pfxs
      then (record v { v6pfxs = r.0; need_gc_v6pfxs = false }, r.1)
      else (v, calls)

  unfoldable pub gc_peerinfo : View E → List Call → View E × List Call
  gc_peerinfo v calls =
      let t = v.peerinfo in
      let r = sweep E.peerinfo_hash invalid_peer (peer_destroy_user v) (length t) 0 t calls in
      if v.need_gc_peerinfo
      then (record v { peerinfo = r.0; need_gc_peerinfo = false }, r.1)
      else (v, calls)

  unfoldable pub gc : View E → List Call → View E × List Call
  unfolding gc_v4pfxs gc_v6pfxs gc_peerinfo
  gc v calls =
      let (v4, calls4) = gc_v4pfxs v calls in
      let (v6, calls6) = gc_v6pfxs v4 calls4 in gc_peerinfo v6 calls6

  -- bgpview_create_shared: a table that is given is shared, and otherwise one is made.
  unfoldable pub create_shared :
      (now : ℕ) (made_signs : E.SigMap) (made_paths : E.PathStore)
      → Option E.SigMap
      → Option E.PathStore
      → (user_destructor peer_user_destructor pfx_user_destructor pfx_peer_user_destructor : ℕ)
      → View E
  create_shared now made_signs made_paths signs paths du dpeer dpfx dpair = record {
    time = 0;
    time_created = now;
    v4pfxs = [];
    v4pfxs_cnt = no_counts;
    v6pfxs = [];
    v6pfxs_cnt = no_counts;
    peersigns = elim signs [ none ↦ made_signs | some m ↦ m ];
    peersigns_shared = elim signs [ none ↦ false | some m ↦ true ];
    pathstore = elim paths [ none ↦ made_paths | some p ↦ p ];
    pathstore_shared = elim paths [ none ↦ false | some p ↦ true ];
    peerinfo = [];
    peerinfo_cnt = no_counts;
    user_destructor = du;
    peer_user_destructor = dpeer;
    pfx_user_destructor = dpfx;
    pfx_peer_user_destructor = dpair;
    state = invalid;
    user = 0;
    disable_extended = false;
    need_gc_v4pfxs = false;
    need_gc_v6pfxs = false;
    need_gc_peerinfo = false;
  }
