-- ===== src/View/User.antt =====
-- lib/bgpview.c, the user pointers: getters, setters and destructors. A pointer is a number, and
-- NULL is 0. A call of a destructor is logged.
use bgpview.Base.{ℕ, not, some, List, [], ◌∷◌, ◌++◌, ◌==◌, if◌then◌else◌}
use bgpview.View.Types.{Env, View, Call, Ret, zero_ret, one_ret}
use bgpview.View.State.{Action, pure, get_view, put_view, assert, ◌>>=◌, ◌>>◌}
use bgpview.View.PfxPeerIter.{pfx_peerinfos}
use bgpview.View.Store.{put_pfxinfo, put_pfx_peer, get_pfx_peer, get_peerinfo, put_peerinfo}

-- `if (user != NULL && destructor != NULL) destructor(user)`
abbrev pub destroy_user : ℕ → ℕ → List Call
destroy_user d u =
    if u == 0 then [] else if d == 0 then [] else record { destructor = d; pointer = u } ∷ []

module _ {E : Env} where
  abbrev pub log_calls : List Call → Action E (Unit {0})
  log_calls cs s = some (tt, record s { calls = s.calls ++ cs })

  -- bgpview_get_user and bgpview_set_user
  unfoldable pub get_user : View E → ℕ
  get_user v = v.user

  unfoldable pub set_user : ℕ → Action E Ret
  set_user user = do
    v ← get_view
    if v.user == user then pure zero_ret else (do
      log_calls (destroy_user v.user_destructor v.user)
      put_view (record v { user = user })
      pure one_ret)

  unfoldable pub iter_pfx_get_user : Action E ℕ
  iter_pfx_get_user = do info ← pfx_peerinfos; pure info.user

  unfoldable pub iter_pfx_set_user : ℕ → Action E Ret
  iter_pfx_set_user user = do
    info ← pfx_peerinfos
    if info.user == user then pure zero_ret else (do
      v ← get_view
      log_calls (destroy_user v.pfx_user_destructor info.user)
      put_pfxinfo (record info { user = user })
      pure one_ret)

  unfoldable pub iter_peer_get_user : Action E ℕ
  iter_peer_get_user = do p ← get_peerinfo; pure p.user

  unfoldable pub iter_peer_set_user : ℕ → Action E Ret
  iter_peer_set_user user = do
    p ← get_peerinfo
    if p.user == user then pure zero_ret else (do
      v ← get_view
      log_calls (destroy_user v.peer_user_destructor p.user)
      put_peerinfo (record p { user = user })
      pure one_ret)

  -- ASSERT_BWV_PFX_PEERINFO_EXT
  abbrev pub assert_extended : Action E (Unit {0})
  assert_extended = do v ← get_view; assert (not v.disable_extended)

  unfoldable pub iter_pfx_peer_get_user : Action E ℕ
  iter_pfx_peer_get_user = do
    assert_extended
    info ← pfx_peerinfos
    p ← get_pfx_peer info
    pure p.user

  unfoldable pub iter_pfx_peer_set_user : ℕ → Action E Ret
  iter_pfx_peer_set_user user = do
    assert_extended
    info ← pfx_peerinfos
    p ← get_pfx_peer info
    if p.user == user then pure zero_ret else (do
      v ← get_view
      log_calls (destroy_user v.pfx_peer_user_destructor p.user)
      λ s. put_pfxinfo (put_pfx_peer info s.iter.pfx_peer_it (record p { user = user })) s
      pure one_ret)

  -- bgpview_set_user_destructor and the like: a destructor that is set cannot be changed.
  unfoldable pub set_user_destructor : ℕ → Action E (Unit {0})
  set_user_destructor d = do
    v ← get_view
    if v.user_destructor == d
        then pure tt
        else (do assert (v.user_destructor == 0); put_view (record v { user_destructor = d }))

  unfoldable pub set_pfx_user_destructor : ℕ → Action E (Unit {0})
  set_pfx_user_destructor d = do
    v ← get_view
    if v.pfx_user_destructor == d then pure tt else (do
      assert (v.pfx_user_destructor == 0)
      put_view (record v { pfx_user_destructor = d }))

  unfoldable pub set_peer_user_destructor : ℕ → Action E (Unit {0})
  set_peer_user_destructor d = do
    v ← get_view
    if v.peer_user_destructor == d then pure tt else (do
      assert (v.peer_user_destructor == 0)
      put_view (record v { peer_user_destructor = d }))

  unfoldable pub set_pfx_peer_user_destructor : ℕ → Action E (Unit {0})
  set_pfx_peer_user_destructor d = do
    assert_extended
    v ← get_view
    if v.pfx_peer_user_destructor == d then pure tt else (do
      assert (v.pfx_peer_user_destructor == 0)
      put_view (record v { pfx_peer_user_destructor = d }))
