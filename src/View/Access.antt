-- ===== src/View/Access.antt =====
-- lib/bgpview.c, "ITER GETTER/SETTERS" and "SIMPLE ACCESSOR FUNCTIONS".
pub mod Counted
use bgpview.Base.{ℕ, ◌+◌, ◌%◌, Bool, true, false, Option, none, some, ◌==◌, if◌then◌else◌}
use bgpview.Khash.Buckets.{slot}
use bgpview.View.Field.{FieldState, u32, all_valid, cnt_by_mask}
use bgpview.View.Types.{
  AddrVersion, unknown, ipv4, ipv6, PfxPeerInfo, Env, View, Ret, minus_one, zero_ret,
}
use bgpview.View.State.{
  Action, pure, from_option, get_view, put_view, assert, ◌>>=◌, ◌>>◌, pfx_table,
}
use bgpview.View.PfxPeerIter.{pfx_peerinfos}
use bgpview.View.Store.{put_pfxinfo, put_pfx_peer, get_pfx_peer, get_peerinfo}
use bgpview.View.Create.{path_id_for}

module _ {E : Env} where
  unfoldable pub v4pfx_cnt : View E → ℕ → ℕ
  v4pfx_cnt v mask = cnt_by_mask u32 v.v4pfxs_cnt mask

  unfoldable pub v6pfx_cnt : View E → ℕ → ℕ
  v6pfx_cnt v mask = cnt_by_mask u32 v.v6pfxs_cnt mask

  unfoldable pub pfx_cnt : View E → ℕ → ℕ
  pfx_cnt v mask = (cnt_by_mask u32 v.v4pfxs_cnt mask + cnt_by_mask u32 v.v6pfxs_cnt mask) % u32

  unfoldable pub peer_cnt : View E → ℕ → ℕ
  peer_cnt v mask = cnt_by_mask u32 v.peerinfo_cnt mask

  unfoldable pub get_time : View E → ℕ
  get_time v = v.time

  unfoldable pub set_time : ℕ → View E → View E
  set_time time v = record v { time = time }

  unfoldable pub get_time_created : View E → ℕ
  get_time_created v = v.time_created

  -- bgpview_disable_user_data
  unfoldable pub disable_user_data : Action E (Unit {0})
  unfolding pfx_cnt
  disable_user_data = do
    v ← get_view
    assert (v.pfx_peer_user_destructor == 0)
    assert (pfx_cnt v all_valid == 0)
    put_view (record v { disable_extended = true })

  -- bgpview_get_peer_id, which makes an id for a new signature
  unfoldable pub get_peer_id_of : E.Sig → Action E ℕ
  get_peer_id_of sig = do
    v ← get_view
    let (id, peersigns) = E.get_id v.peersigns sig
    put_view (record v { peersigns = peersigns })
    pure id

  unfoldable pub iter_pfx_get_pfx : Action E E.Pfx
  iter_pfx_get_pfx s = elim (slot (pfx_table s.iter.version_ptr s.view) s.iter.pfx_it) [
    | none ↦ none
    | some (p, info) ↦ some (p, s)
  ]

  -- The counters of a prefix have 16 bits, and their sum is an int.
  unfoldable pub iter_pfx_get_peer_cnt : ℕ → Action E ℕ
  iter_pfx_get_peer_cnt mask = do info ← pfx_peerinfos; pure (cnt_by_mask u32 info.peers_cnt mask)

  unfoldable pub iter_pfx_get_state : Action E FieldState
  iter_pfx_get_state = do info ← pfx_peerinfos; pure info.state

  -- For a version that is neither IPv4 nor IPv6 both are added. The value is the unsigned one; the int
  -- that the source returns is the same below 2^31.
  unfoldable pub iter_peer_get_pfx_cnt : AddrVersion → ℕ → Action E ℕ
  iter_peer_get_pfx_cnt ver mask = do
    p ← get_peerinfo
    pure (elim ver [
      | ipv4 ↦ cnt_by_mask u32 p.v4_pfx_cnt mask
      | ipv6 ↦ cnt_by_mask u32 p.v6_pfx_cnt mask
      | unknown ↦ (cnt_by_mask u32 p.v4_pfx_cnt mask + cnt_by_mask u32 p.v6_pfx_cnt mask) % u32
    ])

  unfoldable pub iter_peer_get_state : Action E FieldState
  iter_peer_get_state = do p ← get_peerinfo; pure p.state

  unfoldable pub iter_pfx_peer_get_state : Action E FieldState
  iter_pfx_peer_get_state = do info ← pfx_peerinfos; p ← get_pfx_peer info; pure p.state

  unfoldable pub iter_pfx_peer_get_as_path_store_path_id : Action E ℕ
  iter_pfx_peer_get_as_path_store_path_id = do
    info ← pfx_peerinfos
    p ← get_pfx_peer info
    pure p.as_path_id

  unfoldable pub iter_pfx_peer_set_as_path_by_id : ℕ → Action E Ret
  iter_pfx_peer_set_as_path_by_id path_id = do
    info ← pfx_peerinfos
    p ← get_pfx_peer info
    (λ s. put_pfxinfo (put_pfx_peer info s.iter.pfx_peer_it (record p { as_path_id = path_id })) s)
    pure zero_ret

  -- If the store gives no id the entry keeps the one it has.
  unfoldable pub iter_pfx_peer_set_as_path : E.AsPath → Action E Ret
  unfolding iter_pfx_peer_set_as_path_by_id path_id_for
  iter_pfx_peer_set_as_path path = do
    found ← path_id_for path
    elim found [ none ↦ pure minus_one | some id ↦ iter_pfx_peer_set_as_path_by_id id ]
