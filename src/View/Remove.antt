-- ===== src/View/Remove.antt =====
-- lib/bgpview.c, "CREATION FUNCS", the part that removes.
use bgpview.Base.{ℕ, zero, suc, ◌+◌, ◌%◌, Bool, true, false, ◌&&◌, ltb, ◌==◌, if◌then◌else◌}
use bgpview.View.Field.{
  invalid, active, inactive, is_state, is_valid, u32, u16, all_valid, remove_inactive, cnt_by_mask,
  no_counts,
}
use bgpview.View.Types.{unknown, PeerInfo, Env, Ret, zero_ret}
use bgpview.View.State.{
  Action, pure, fault, get_view, put_view, get_iter, assert, with_iter, ◌>>=◌, ◌>>◌, set_need_gc,
}
use bgpview.View.PfxPeerIter.{
  pfx_peerinfos, move_first_pfx_peer, iter_first_pfx_peer, iter_next_pfx_peer,
  iter_has_more_pfx_peer,
}
use bgpview.View.Store.{
  put_pfxinfo, get_pfx_peer, set_pfx_peer_state, get_peerinfo, get_peer_id, put_peerinfo,
  count_for_peer,
}
use bgpview.View.Activate.{
  new_iter, assert_has_peer, count_pfx, pfx_peer_loop, peer_fuel, pair_fuel, iter_deactivate_pfx,
  iter_pfx_deactivate_peer, iter_deactivate_peer,
}

-- peerinfo_reset; the user pointer stays
abbrev pub peerinfo_reset : PeerInfo → PeerInfo
peerinfo_reset p = record p { state = invalid; v4_pfx_cnt = no_counts; v6_pfx_cnt = no_counts }

-- bgpview_iter_peer_get_pfx_cnt for all versions, as a test whether the int is positive
unfoldable pub has_pfxs : PeerInfo → Bool
has_pfxs p =
    let cnt =
      (cnt_by_mask u32 p.v4_pfx_cnt all_valid + cnt_by_mask u32 p.v6_pfx_cnt all_valid) % u32 in
    ltb 0 cnt && ltb cnt 2147483648

module _ {E : Env} where
  -- bgpview_iter_remove_pfx and bgpview_iter_pfx_remove_peer call one another. Each is written over
  -- the other, and `remove_pfx` ties them up, with a bound on the calls that are nested.
  unfoldable pub pfx_remove_peer_by : Action E Ret → Action E Ret
  pfx_remove_peer_by remove = do
    info ← pfx_peerinfos
    p ← get_pfx_peer info
    _ ← if is_state active p.state then iter_pfx_deactivate_peer else pure zero_ret
    info ← pfx_peerinfos
    p ← get_pfx_peer info
    assert (is_state inactive p.state)
    set_pfx_peer_state invalid
    info ← pfx_peerinfos
    let cnt = remove_inactive u16 info.peers_cnt
    put_pfxinfo (record info { peers_cnt = cnt })
    assert_has_peer
    count_for_peer (remove_inactive u32)
    if is_valid info.state && cnt.inactive == 0 && cnt.active == 0 then remove else pure zero_ret

  unfoldable pub remove_pfx_by : Action E Ret → Action E Ret
  remove_pfx_by remove_peer = do
    info ← pfx_peerinfos
    _ ← if is_state active info.state then iter_deactivate_pfx else pure zero_ret
    info ← pfx_peerinfos
    assert (is_state inactive info.state)
    put_pfxinfo (record info { state = invalid })
    if ltb 0 (cnt_by_mask u32 info.peers_cnt all_valid)
        then (do
          it ← get_iter
          with_iter it
              (do move_first_pfx_peer all_valid; pfx_peer_loop (peer_fuel info) remove_peer))
        else pure tt
    info ← pfx_peerinfos
    assert (info.peers_cnt.inactive == 0 && info.peers_cnt.active == 0)
    count_pfx (remove_inactive u32)
    v ← get_view
    it ← get_iter
    put_view (set_need_gc it.version_ptr v)
    pure zero_ret

  unfoldable pub remove_pfx : ℕ → Action E Ret
  unfolding remove_pfx_by pfx_remove_peer_by
  remove_pfx zero = fault
  remove_pfx (suc depth) = remove_pfx_by (pfx_remove_peer_by (remove_pfx depth))

  -- Two nested calls are enough: the prefix is marked invalid before its peers are removed.
  unfoldable pub iter_remove_pfx : Action E Ret
  unfolding remove_pfx
  iter_remove_pfx = remove_pfx 1

  unfoldable pub iter_pfx_remove_peer : Action E Ret
  unfolding pfx_remove_peer_by iter_remove_pfx
  iter_pfx_remove_peer = pfx_remove_peer_by iter_remove_pfx

  -- The loop of bgpview_iter_remove_peer over all peers of all prefixes.
  unfoldable pub remove_all : ℕ → ℕ → Action E (Unit {0})
  remove_all zero peerid = fault
  remove_all (suc fuel) peerid = do
    more ← iter_has_more_pfx_peer
    elim more [
      | false ↦ pure tt
      | true ↦ (do
        id ← get_peer_id
        _ ← if peerid == id then iter_pfx_remove_peer else pure zero_ret
        _ ← iter_next_pfx_peer
        remove_all fuel peerid)
    ]

  unfoldable pub iter_remove_peer : Action E Ret
  unfolding has_pfxs
  iter_remove_peer = do
    assert_has_peer
    p ← get_peerinfo
    _ ← if is_state active p.state then iter_deactivate_peer else pure zero_ret
    p ← get_peerinfo
    assert (is_state inactive p.state)
    id ← get_peer_id
    v ← get_view
    if has_pfxs p
        then with_iter (new_iter v)
            (do _ ← iter_first_pfx_peer unknown all_valid all_valid; remove_all (pair_fuel v) id)
        else pure tt
    p ← get_peerinfo
    put_peerinfo (peerinfo_reset p)
    v ← get_view
    put_view
        (record v { need_gc_peerinfo = true; peerinfo_cnt = remove_inactive u32 v.peerinfo_cnt })
    pure zero_ret
