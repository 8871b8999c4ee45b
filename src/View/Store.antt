-- ===== src/View/Store.antt =====
-- lib/bgpview.c: reads and writes of what an iterator stands on, as the macros kh_val,
-- __pfx_peerinfos, __peer_field and BWV_PFX_GET_PEER_PTR do them.
use bgpview.Base.{ℕ, Option, none, some}
use bgpview.Khash.Buckets.{slot, put_val}
use bgpview.View.Field.{FieldState, Counts}
use bgpview.View.Types.{AddrVersion, unknown, ipv4, ipv6, PfxPeerInfo, PfxInfo, PeerInfo, Env, View}
use bgpview.View.State.{Action, ◌>>=◌, pfx_table, set_pfx_table, set_pfx_cnt}
use bgpview.View.PfxPeerIter.{pfx_peerinfos}

-- The entry of a prefix for the peer at an index.
abbrev pub pfx_peer_at : PfxInfo → ℕ → Option PfxPeerInfo
pfx_peer_at info i = elim info.peers [
  | none ↦ none
  | some t ↦ elim (slot t i) [ none ↦ none | some (id, p) ↦ some p ]
]

-- A write to it.
abbrev pub put_pfx_peer : PfxInfo → ℕ → PfxPeerInfo → PfxInfo
put_pfx_peer info i p = elim info.peers [
  | none ↦ info
  | some t ↦ record info { peers = some (put_val t i p) }
]

-- The counters that a peer keeps for a version, changed by a function.
abbrev pub on_pfx_cnt : AddrVersion → (Counts → Counts) → PeerInfo → PeerInfo
on_pfx_cnt unknown f p = p
on_pfx_cnt ipv4 f p = record p { v4_pfx_cnt = f p.v4_pfx_cnt }
on_pfx_cnt ipv6 f p = record p { v6_pfx_cnt = f p.v6_pfx_cnt }

module _ {E : Env} where
  -- A write to the prefix that the iterator stands on.
  abbrev pub put_pfxinfo : PfxInfo → Action E (Unit {0})
  put_pfxinfo info s =
      let ver = s.iter.version_ptr in
      let t = put_val (pfx_table ver s.view) s.iter.pfx_it info in
      some (tt, record s { view = set_pfx_table ver t s.view })

  -- The entry of the current prefix for the current peer of it.
  abbrev pub get_pfx_peer : PfxInfo → Action E PfxPeerInfo
  get_pfx_peer info s = elim (pfx_peer_at info s.iter.pfx_peer_it) [
    | none ↦ none
    | some p ↦ some (p, s)
  ]

  -- BWV_PFX_SET_PEER_STATE
  abbrev pub set_pfx_peer_state : FieldState → Action E (Unit {0})
  set_pfx_peer_state state = do
    info ← pfx_peerinfos
    p ← get_pfx_peer info
    λ s. put_pfxinfo (put_pfx_peer info s.iter.pfx_peer_it (record p { state = state })) s

  -- kh_val(view->peerinfo, iter->peer_it)
  abbrev pub get_peerinfo : Action E PeerInfo
  get_peerinfo s = elim (slot s.view.peerinfo s.iter.peer_it) [
    | none ↦ none
    | some (id, p) ↦ some (p, s)
  ]

  -- __iter_peer_get_peer_id
  abbrev pub get_peer_id : Action E ℕ
  get_peer_id s = elim (slot s.view.peerinfo s.iter.peer_it) [
    | none ↦ none
    | some (id, p) ↦ some (id, s)
  ]

  abbrev pub put_peerinfo : PeerInfo → Action E (Unit {0})
  put_peerinfo p s = some (
    tt,
    record s { view = record s.view { peerinfo = put_val s.view.peerinfo s.iter.peer_it p } },
  )

  -- The switch on version_ptr that changes a counter array of the current peer. In its default case
  -- the functions return -1; none gets there, since an iterator of no version stands on no prefix.
  abbrev pub count_for_peer : (Counts → Counts) → Action E (Unit {0})
  count_for_peer f = do p ← get_peerinfo; λ s. put_peerinfo (on_pfx_cnt s.iter.version_ptr f p) s

  -- The view with another prefix at an index and the counters of its table changed.
  abbrev pub info_view : View E → AddrVersion → ℕ → PfxInfo → (Counts → Counts) → View E
  info_view v ver i info f =
      set_pfx_cnt ver f (set_pfx_table ver (put_val (pfx_table ver v) i info) v)

  -- The same with another peer at an index.
  abbrev pub pair_view :
      View E → AddrVersion → ℕ → PfxInfo → (Counts → Counts) → ℕ → PeerInfo → View E
  pair_view v ver i info f k p =
      let w = info_view v ver i info f in record w { peerinfo = put_val v.peerinfo k p }
