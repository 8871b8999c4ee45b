-- ===== src/View/Activate.antt =====
-- lib/bgpview.c, "ACTIVATE/DEACTIVATE".
pub mod Pair
pub mod Pfx
pub mod Stopped
pub mod Loop
pub mod PfxLoop
pub mod PfxRound
pub mod Prefix
pub mod Entry
pub mod Counted
pub mod Peer
use bgpview.Base.{
  ℕ, zero, suc, ◌+◌, ◌%◌, ◌≡◌, refl, Bool, true, false, Option, none, some, ltb, ◌==◌, length,
  if◌then◌else◌,
}
use bgpview.Khash.Buckets.{total}
use bgpview.View.Field.{
  FieldState, invalid, active, inactive, is_state, is_valid, u16, u32, field_active, all_valid,
  Counts, activate_field_cnt, deactivate_field_cnt, cnt_by_mask, no_counts,
}
use bgpview.View.Types.{
  AddrVersion, unknown, ipv4, ipv6, PfxPeerInfo, PfxInfo, PeerInfo, Env, View, Iter, State, Ret,
  minus_one, zero_ret, one_ret,
}
use bgpview.View.State.{
  Action, pure, fault, get_view, put_view, get_iter, put_iter, assert, with_iter, ◌>>=◌, ◌>>◌,
  pfx_table, set_pfx_cnt,
}
use bgpview.View.PeerIter.{has_more_peer}
use bgpview.View.PfxPeerIter.{
  pfx_peerinfos, move_first_pfx_peer, move_next_pfx_peer, move_next_all, iter_first_pfx_peer,
  iter_has_more_pfx_peer,
}
use bgpview.View.Store.{
  put_pfxinfo, get_pfx_peer, set_pfx_peer_state, get_peerinfo, get_peer_id, put_peerinfo,
  count_for_peer,
}

-- A fresh iterator, as bgpview_iter_create makes it.
abbrev pub new_iter : {E : Env} → View E → Iter
new_iter v = record {
  version_ptr = ipv4;
  version_filter = unknown;
  pfx_it = 0;
  pfx_state_mask = all_valid;
  pfx_peer_it = 0;
  pfx_peer_it_valid = false;
  pfx_peer_state_mask = all_valid;
  peer_it = length v.peerinfo;
  peer_state_mask = all_valid;
}

-- One more round than the prefix has buckets for peers.
abbrev pub peer_fuel : PfxInfo → ℕ
peer_fuel info = elim info.peers [ none ↦ 1 | some t ↦ suc (length t) ]

module _ {E : Env} where
  -- `assert(__iter_has_more_peer(iter))`
  abbrev pub assert_has_peer : Action E (Unit {0})
  assert_has_peer = do v ← get_view; it ← get_iter; assert (has_more_peer v it)

  -- A change of the counters of the prefix table that the iterator is in.
  abbrev pub count_pfx : (Counts → Counts) → Action E (Unit {0})
  count_pfx f s = some (tt, record s { view = set_pfx_cnt s.iter.version_ptr f s.view })

  unfoldable pub iter_activate_peer : Action E Ret
  iter_activate_peer = do
    assert_has_peer
    p ← get_peerinfo
    assert (is_valid p.state)
    if is_state inactive p.state
        then (do
          put_peerinfo (record p { state = active })
          v ← get_view
          put_view (record v { peerinfo_cnt = activate_field_cnt u32 v.peerinfo_cnt })
          pure one_ret)
        else pure zero_ret

  unfoldable pub activate_pfx : Action E Ret
  activate_pfx = do
    info ← pfx_peerinfos
    assert (is_valid info.state)
    if is_state inactive info.state
        then (do
          put_pfxinfo (record info { state = active })
          count_pfx (activate_field_cnt u32)
          pure one_ret)
        else pure zero_ret

  unfoldable pub iter_pfx_activate_peer : Action E Ret
  unfolding activate_pfx
  iter_pfx_activate_peer = do
    info ← pfx_peerinfos
    it ← get_iter
    assert it.pfx_peer_it_valid
    p ← get_pfx_peer info
    assert (is_valid p.state)
    if is_state inactive p.state
        then (do
          let cnt = activate_field_cnt u16 info.peers_cnt
          put_pfxinfo (record info { peers_cnt = cnt })
          _ ← if cnt.active == 1 then activate_pfx else pure zero_ret
          peer ← get_peerinfo
          assert (is_state active peer.state)
          count_for_peer (activate_field_cnt u32)
          set_pfx_peer_state active
          pure one_ret)
        else pure zero_ret

  -- bgpview_iter_deactivate_pfx and bgpview_iter_pfx_deactivate_peer call one another. Each is
  -- written over the other, and `deactivate_pfx` ties them up, with a bound on the calls that are
  -- nested.
  unfoldable pub pfx_deactivate_peer_by : Action E Ret → Action E Ret
  pfx_deactivate_peer_by deactivate = do
    info ← pfx_peerinfos
    it ← get_iter
    assert it.pfx_peer_it_valid
    p ← get_pfx_peer info
    assert (is_valid p.state)
    if is_state active p.state
        then (do
          set_pfx_peer_state inactive
          after ← pfx_peerinfos
          let cnt = deactivate_field_cnt u16 after.peers_cnt
          put_pfxinfo (record after { peers_cnt = cnt })
          _ ← if cnt.active == 0 then deactivate else pure zero_ret
          count_for_peer (deactivate_field_cnt u32)
          pure one_ret)
        else pure zero_ret

  -- `while (__iter_pfx_has_more_peer(&ti)) { body(&ti); __iter_pfx_next_peer(&ti); }`
  unfoldable pub pfx_peer_loop : ℕ → Action E Ret → Action E (Unit {0})
  pfx_peer_loop zero body = fault
  pfx_peer_loop (suc fuel) body = do
    it ← get_iter
    elim it.pfx_peer_it_valid [
      | false ↦ pure tt
      | true ↦ (do _ ← body; move_next_pfx_peer; pfx_peer_loop fuel body)
    ]

  unfoldable pub deactivate_pfx_by : Action E Ret → Action E Ret
  deactivate_pfx_by deactivate_peer = do
    info ← pfx_peerinfos
    it ← get_iter
    assert (is_valid info.state)
    if is_state active info.state
        then (do
          put_pfxinfo (record info { state = inactive })
          with_iter it
              (do move_first_pfx_peer field_active; pfx_peer_loop (peer_fuel info) deactivate_peer)
          count_pfx (deactivate_field_cnt u32)
          pure one_ret)
        else pure zero_ret

  unfoldable pub deactivate_pfx : ℕ → Action E Ret
  unfolding deactivate_pfx_by pfx_deactivate_peer_by
  deactivate_pfx zero = fault
  deactivate_pfx (suc depth) = deactivate_pfx_by (pfx_deactivate_peer_by (deactivate_pfx depth))

  -- Two levels are enough: the prefix is inactive before its entries are, so the nested call stops
  -- at its first test.
  unfoldable pub iter_deactivate_pfx : Action E Ret
  unfolding deactivate_pfx
  iter_deactivate_pfx = deactivate_pfx 2

  pub iter_deactivate_pfx_lem :
      (s : State E)
      → iter_deactivate_pfx s ≡ deactivate_pfx_by (pfx_deactivate_peer_by (deactivate_pfx 1)) s
  unfolding iter_deactivate_pfx
  iter_deactivate_pfx_lem s = refl

  unfoldable pub iter_pfx_deactivate_peer : Action E Ret
  unfolding pfx_deactivate_peer_by iter_deactivate_pfx
  iter_pfx_deactivate_peer = pfx_deactivate_peer_by iter_deactivate_pfx

  pub iter_pfx_deactivate_peer_lem :
      (s : State E) → iter_pfx_deactivate_peer s ≡ pfx_deactivate_peer_by (deactivate_pfx 2) s
  unfolding iter_pfx_deactivate_peer
  iter_pfx_deactivate_peer_lem s = refl

  -- The loop of bgpview_iter_deactivate_peer over all active peers of active prefixes.
  unfoldable pub deactivate_all : ℕ → ℕ → Action E (Unit {0})
  deactivate_all zero peerid = fault
  deactivate_all (suc fuel) peerid = do
    more ← iter_has_more_pfx_peer
    elim more [
      | false ↦ pure tt
      | true ↦ (do
        id ← get_peer_id
        _ ← if id == peerid then iter_pfx_deactivate_peer else pure zero_ret
        move_next_all
        deactivate_all fuel peerid)
    ]

  -- More rounds than there are buckets for prefixes and their peers.
  abbrev pub pair_fuel : View E → ℕ
  pair_fuel v =
      total (λ p info. peer_fuel info) v.v4pfxs + total (λ p info. peer_fuel info) v.v6pfxs + 1

  unfoldable pub iter_deactivate_peer : Action E Ret
  iter_deactivate_peer = do
    assert_has_peer
    p ← get_peerinfo
    assert (is_valid p.state)
    if is_state active p.state
        then (do
          let cnt = cnt_by_mask u32 p.v4_pfx_cnt field_active
          let pfx_cnt = (cnt + cnt_by_mask u32 p.v6_pfx_cnt field_active) % u32
          if ltb 0 pfx_cnt
              then (do
                id ← get_peer_id
                v ← get_view
                with_iter (new_iter v) (do
                  _ ← iter_first_pfx_peer unknown field_active field_active
                  deactivate_all (pair_fuel v) id))
              else pure tt
          q ← get_peerinfo
          put_peerinfo (record q { state = inactive })
          v ← get_view
          put_view (record v { peerinfo_cnt = deactivate_field_cnt u32 v.peerinfo_cnt })
          pure one_ret)
        else pure zero_ret
