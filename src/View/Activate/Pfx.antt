-- ===== src/View/Activate/Pfx.antt =====
-- bgpview_iter_deactivate_pfx where no peer of the prefix is active any more, which is how
-- bgpview_iter_pfx_deactivate_peer calls it.
use bgpview.Base.{ℕ, suc, ◌+◌, ◌≡◌, refl, false, none, some, [], ◌∷◌, arith, length}
use bgpview.Khash.Buckets.{Buckets, slot, total, slot-put_val_self}
use bgpview.Khash.Scan.{skip}
use bgpview.View.Field.{
  active, inactive, field_active, u32, deactivate_field_cnt, one_if_active, matches,
}
use bgpview.View.Types.{
  AddrVersion, unknown, ipv4, ipv6, PfxPeerInfo, PfxInfo, Env, View, Iter, State, Ret, zero_ret,
  one_ret,
}
use bgpview.View.State.{Action, pfx_table}
use bgpview.View.PfxPeerIter.{pfx_peer_matches, first_pfx_peer, move_first_pfx_peer}
use bgpview.View.Store.{info_view}
use bgpview.View.Activate.{deactivate_pfx, pfx_peer_loop, pfx_deactivate_peer_by}

slot-length : {K V : Type 0} (t : Buckets K V) → slot t (length t) ≡ none
slot-length [] = refl
slot-length (b ∷ t) = slot-length t

-- Where no entry is active, the scan for active ones goes to the end.
pub skip_no_active :
    (t : Buckets ℕ PfxPeerInfo) (it : ℕ)
    → total (λ id q. one_if_active q.state) t ≡ 0
    → skip (pfx_peer_matches field_active) t it ≡ it + length t
unfolding skip matches
skip_no_active [] it h = omega arith
skip_no_active (none ∷ t) it h = omega (arith, skip_no_active t (it + 1) h)
skip_no_active (some (id, q) ∷ t) it h = ground (arith, skip_no_active t (it + 1))

module _ {E : Env} where
  -- An iterator over the active peers of a prefix that has none is not valid.
  first_pfx_peer-none :
      (v : View E) (info : PfxInfo) (t : Buckets ℕ PfxPeerInfo) (it : Iter)
      → info.peers ≡ some t
      → total (λ id q. one_if_active q.state) t ≡ 0
      → (first_pfx_peer v info field_active it).pfx_peer_it_valid ≡ false
  unfolding first_pfx_peer
  first_pfx_peer-none v info t it has h = ground (arith, skip_no_active t 0 h, slot-length t)

  loop_not_valid :
      (n : ℕ) (body : Action E Ret) (s : State E)
      → s.iter.pfx_peer_it_valid ≡ false
      → pfx_peer_loop (suc n) body s ≡ some (tt, s)
  unfolding pfx_peer_loop
  loop_not_valid n body s h = ground arith

  -- An inactive prefix is left as it is.
  pub deactivate_pfx_idle :
      (n : ℕ) (s : State E) (ver : AddrVersion) (pfx : E.Pfx) (info : PfxInfo)
      → s.iter.version_ptr ≡ ver
      → slot (pfx_table ver s.view) s.iter.pfx_it ≡ some (pfx, info)
      → info.state ≡ inactive
      → deactivate_pfx (suc n) s ≡ some (zero_ret, s)
  unfolding deactivate_pfx
  deactivate_pfx_idle n s unknown pfx info e h k = ground arith
  deactivate_pfx_idle n s ipv4 pfx info e h k = ground arith
  deactivate_pfx_idle n s ipv6 pfx info e h k = ground arith

  -- An active prefix with no active peer becomes inactive, and is counted so.
  pub deactivate_pfx_empty :
      (n : ℕ) (s : State E) (ver : AddrVersion) (pfx : E.Pfx) (info : PfxInfo)
      (t : Buckets ℕ PfxPeerInfo)
      → s.iter.version_ptr ≡ ver
      → slot (pfx_table ver s.view) s.iter.pfx_it ≡ some (pfx, info)
      → info.state ≡ active
      → info.peers ≡ some t
      → total (λ id q. one_if_active q.state) t ≡ 0
      → deactivate_pfx (suc n) s
        ≡ some (
          one_ret,
          record s {
            view =
                info_view s.view ver s.iter.pfx_it
                  (record info { state = inactive })
                  (deactivate_field_cnt u32);
          },
        )
  unfolding deactivate_pfx move_first_pfx_peer
  deactivate_pfx_empty n s unknown pfx info t e h k has z = ground arith
  deactivate_pfx_empty n s ipv4 pfx info t e h k has z =
      let info' = record info { state = inactive } in
      let v' = info_view s.view ipv4 s.iter.pfx_it info' (λ c. c) in
      let it' = first_pfx_peer v' info' field_active s.iter in
      ground (
        arith,
        slot-put_val_self s.view.v4pfxs s.iter.pfx_it pfx info info' h,
        loop_not_valid (length t) (pfx_deactivate_peer_by (deactivate_pfx n))
            (record s { view = v'; iter = it' }) (first_pfx_peer-none v' info' t s.iter has z),
      )
  deactivate_pfx_empty n s ipv6 pfx info t e h k has z =
      let info' = record info { state = inactive } in
      let v' = info_view s.view ipv6 s.iter.pfx_it info' (λ c. c) in
      let it' = first_pfx_peer v' info' field_active s.iter in
      ground (
        arith,
        slot-put_val_self s.view.v6pfxs s.iter.pfx_it pfx info info' h,
        loop_not_valid (length t) (pfx_deactivate_peer_by (deactivate_pfx n))
            (record s { view = v'; iter = it' }) (first_pfx_peer-none v' info' t s.iter has z),
      )
