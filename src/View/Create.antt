-- ===== src/View/Create.antt =====
-- lib/bgpview.c, "CREATION FUNCS", the part that adds, and the private functions it calls.
use bgpview.Base.{ℕ, Bool, true, false, not, Option, none, some, [], ◌==◌, length, if◌then◌else◌}
use bgpview.Khash.Buckets.{Buckets, slot, put_val}
use bgpview.Khash.Interface.{Khash}
use bgpview.View.Field.{
  invalid, inactive, is_state, is_valid, u16, u32, all_valid, add_inactive, no_counts,
}
use bgpview.View.Types.{
  AddrVersion, unknown, ipv4, ipv6, PfxPeerInfo, PfxInfo, PeerInfo, Env, Ret, minus_one, zero_ret,
}
use bgpview.View.State.{
  Action, pure, from_option, get_view, put_view, get_iter, put_iter, ◌>>=◌, ◌>>◌, pfx_table,
  set_pfx_table, set_pfx_cnt,
}
use bgpview.View.PeerIter.{seek_peer, iter_seek_peer}
use bgpview.View.PfxIter.{iter_seek_pfx}
use bgpview.View.PfxPeerIter.{pfx_peerinfos}
use bgpview.View.Store.{put_pfxinfo, put_peerinfo, get_peerinfo, get_peer_id, count_for_peer}

-- peerid_pfxinfo_create; the memory is zeroed
abbrev pub new_pfxinfo : PfxInfo
new_pfxinfo = record { peers = none; peers_cnt = no_counts; state = invalid; user = 0 }

-- `memset(.., 0, sizeof(bwv_peerinfo_t))`
abbrev pub new_peerinfo : PeerInfo
new_peerinfo = record { v4_pfx_cnt = no_counts; v6_pfx_cnt = no_counts; state = invalid; user = 0 }

-- The peer entry after kh_put in peerid_pfxinfo_insert: a new one is initialised.
abbrev pub init_entry : Bool → PfxPeerInfo → PfxPeerInfo
init_entry true p = record p { state = invalid; user = 0 }
init_entry false p = p

-- The value of an entry that is there; a default where there is none.
abbrev pub value_or : {K V : Type 0} → V → Option (K × V) → V
value_or d none = d
value_or d (some (k, v)) = v

abbrev pub no_entry : PfxPeerInfo
no_entry = record { as_path_id = 0; state = invalid; user = 0 }

-- The table of the peers of a prefix, made if there is none.
abbrev pub peer_table : PfxInfo → Buckets ℕ PfxPeerInfo
peer_table info = elim info.peers [ none ↦ [] | some t ↦ t ]

-- The outcome of kh_put in peerid_pfxinfo_insert: the prefix with the entry put in, the index of
-- the entry, and whether it was absent or invalid before.
pub record Inserted : Type 0 where
  pub info : PfxInfo
  pub at : ℕ
  pub fresh : Bool

-- peerid_pfxinfo_insert up to the counters of the peer.
unfoldable pub put_entry : Khash ℕ PfxPeerInfo → PfxInfo → ℕ → ℕ → Inserted
put_entry h info peerid path_id =
    let r = h.put (peer_table info) peerid in
    let entry = init_entry r.absent (value_or no_entry (slot r.table r.at)) in
    let fresh = is_state invalid entry.state in
    record {
      info = record info {
        peers = some (
            put_val r.table r.at (record entry {
              as_path_id = path_id;
              state = if fresh then inactive else entry.state;
            }));
        peers_cnt = if fresh then add_inactive u16 info.peers_cnt else info.peers_cnt;
      };
      at = r.at;
      fresh = fresh;
    }

-- The peer table of the view with the peer in it, and its index: kh_get, and kh_put with zeroed
-- memory if it is not there.
unfoldable pub find_or_put_peer : Khash ℕ PeerInfo → Buckets ℕ PeerInfo → ℕ → Buckets ℕ PeerInfo × ℕ
find_or_put_peer h t id =
    let r = h.put t id in
    if h.get t id == length t then (put_val r.table r.at new_peerinfo, r.at) else (t, h.get t id)

module _ {E : Env} where
  -- peerid_pfxinfo_insert, for the prefix that the iterator stands on
  unfoldable pub pfxinfo_insert : ℕ → ℕ → Action E Ret
  unfolding put_entry
  pfxinfo_insert peerid path_id = do
    info ← pfx_peerinfos
    let r = put_entry E.peers_hash info peerid path_id
    put_pfxinfo r.info
    if r.fresh then count_for_peer (add_inactive u32) else pure tt
    it ← get_iter
    put_iter (record it {
      pfx_peer_it = r.at;
      pfx_peer_it_valid = true;
      pfx_peer_state_mask = all_valid;
    })
    pure zero_ret

  -- add_v4pfx and add_v6pfx
  unfoldable pub add_pfx_to : AddrVersion → Khash E.Pfx PfxInfo → E.Pfx → Action E Ret
  add_pfx_to ver h p = do
    v ← get_view
    it ← get_iter
    let r = h.put (pfx_table ver v) p
    let info = if r.absent then new_pfxinfo else value_or new_pfxinfo (slot r.table r.at)
    put_iter (record it { pfx_it = r.at; version_ptr = ver; pfx_peer_it_valid = false })
    if is_valid info.state
        then put_view (set_pfx_table ver r.table v)
        else put_view (
            set_pfx_cnt ver (add_inactive u32)
              (set_pfx_table ver (put_val r.table r.at (record info { state = inactive })) v))
    pure zero_ret

  unfoldable pub add_pfx : E.Pfx → Action E Ret
  unfolding add_pfx_to
  add_pfx p = elim (E.version p) [
    | ipv4 ↦ add_pfx_to ipv4 E.v4_hash p
    | ipv6 ↦ add_pfx_to ipv6 E.v6_hash p
    | unknown ↦ pure minus_one
  ]

  -- bgpview_iter_add_peer: the peer's id, 0 if the map of signatures gives none
  unfoldable pub iter_add_peer : E.Sig → Action E ℕ
  unfolding find_or_put_peer
  iter_add_peer sig = do
    v ← get_view
    it ← get_iter
    let (id, peersigns) = E.get_id v.peersigns sig
    let signed = record v { peersigns = peersigns }
    if id == 0 then (do put_view signed; pure 0) else (do
      let (t, k) = find_or_put_peer E.peerinfo_hash v.peerinfo id
      put_view (record signed { peerinfo = t })
      put_iter (record it { peer_it = k; peer_state_mask = all_valid; pfx_peer_it_valid = false })
      p ← get_peerinfo
      if is_valid p.state then pure id else (do
        put_peerinfo (record p { state = inactive })
        w ← get_view
        put_view (record w { peerinfo_cnt = add_inactive u32 w.peerinfo_cnt })
        pure id))

  -- `__iter_seek_peer(iter, peer_id, BGPVIEW_FIELD_ALL_VALID)`
  abbrev pub move_seek_peer : ℕ → Action E (Unit {0})
  move_seek_peer id = do v ← get_view; it ← get_iter; put_iter (seek_peer v id all_valid it)

  unfoldable pub iter_pfx_add_peer_by_id : ℕ → ℕ → Action E Ret
  unfolding pfxinfo_insert
  iter_pfx_add_peer_by_id peer_id path_id = do
    move_seek_peer peer_id
    pfxinfo_insert peer_id path_id

  -- The path's id from the store, for the AS number of the peer that the iterator stands on.
  unfoldable pub path_id_for : E.AsPath → Action E (Option ℕ)
  path_id_for path = do
    id ← get_peer_id
    v ← get_view
    sig ← from_option (E.get_sig v.peersigns id)
    let (found, store) = E.get_path_id v.pathstore path (E.peer_asnumber sig)
    put_view (record v { pathstore = store })
    pure found

  unfoldable pub iter_pfx_add_peer : ℕ → E.AsPath → Action E Ret
  unfolding path_id_for iter_pfx_add_peer_by_id
  iter_pfx_add_peer peer_id path = do
    found ← path_id_for path
    elim found [ none ↦ pure minus_one | some path_id ↦ iter_pfx_add_peer_by_id peer_id path_id ]

  -- `if (bgpview_iter_seek_pfx(..) == 0) { if (add_pfx(iter, pfx) != 0) return -1; }`, as a test
  -- for success
  unfoldable pub seek_or_add_pfx : E.Pfx → Action E Bool
  unfolding add_pfx
  seek_or_add_pfx p = do
    found ← iter_seek_pfx p all_valid
    if found
        then pure true
        else (do r ← add_pfx p; elim r [ zero_ret ↦ pure true | _ ↦ pure false ])

  unfoldable pub iter_add_pfx_peer : E.Pfx → ℕ → E.AsPath → Action E Ret
  unfolding seek_or_add_pfx path_id_for iter_pfx_add_peer_by_id
  iter_add_pfx_peer p peer_id path = do
    placed ← seek_or_add_pfx p
    if not placed then pure minus_one else (do
      move_seek_peer peer_id
      v ← get_view
      it ← get_iter
      put_iter (record it { pfx_peer_it_valid = false })
      if it.peer_it == length v.peerinfo then pure minus_one else (do
        found ← path_id_for path
        elim found [
          | none ↦ pure minus_one
          | some path_id ↦ iter_pfx_add_peer_by_id peer_id path_id
        ]))

  unfoldable pub iter_add_pfx_peer_by_id : E.Pfx → ℕ → ℕ → Action E Ret
  unfolding seek_or_add_pfx iter_pfx_add_peer_by_id
  iter_add_pfx_peer_by_id p peer_id path_id = do
    known ← iter_seek_peer peer_id all_valid
    if not known then pure minus_one else (do
      placed ← seek_or_add_pfx p
      if placed then iter_pfx_add_peer_by_id peer_id path_id else pure minus_one)
