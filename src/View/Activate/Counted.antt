-- ===== src/View/Activate/Counted.antt =====
-- bgpview_iter_pfx_activate_peer and bgpview_iter_pfx_deactivate_peer keep the counters right.
use bgpview.Base.{
  ℕ, ◌<◌, ◌≡◌, ◌≢◌, refl, sym, ap, subst, ◌∙◌, Bool, true, false, some, arith, ◌==◌, inl, inr,
  if◌then◌else◌, Bool-cases,
}
use bgpview.Khash.Buckets.{Buckets, slot, put_val, slot-put_val_self}
use bgpview.View.Field.{
  active, inactive, u32, Counts, activate_field_cnt, deactivate_field_cnt, one_if_active,
}
use bgpview.View.Types.{
  AddrVersion, unknown, ipv4, ipv6, PfxPeerInfo, PfxInfo, PeerInfo, Env, View, State, one_ret,
}
use bgpview.View.State.{pfx_table}
use bgpview.View.Store.{on_pfx_cnt, info_view, pair_view}
use bgpview.View.Invariant.{settled, Counted, active_peers, pfx_state, entry_state}
use bgpview.View.Invariant.Change.{TableChange}
use bgpview.View.Invariant.Keep.{pair_view-Counted, info_view-info_view, slot-info_view}
use bgpview.View.Activate.{
  iter_pfx_activate_peer, iter_pfx_deactivate_peer, deactivate_pfx, pfx_deactivate_peer_by,
  iter_pfx_deactivate_peer_lem,
}
use bgpview.View.Activate.Pair.{
  OnPair, activated_info, deactivated_entry, first_activates, store_pair, activate_pair,
  deactivate_pair_more, deactivate_pair_last,
}
use bgpview.View.Activate.Pfx.{deactivate_pfx_empty}
use bgpview.View.Activate.Entry.{
  activated_info-InfoCounted, deactivated_entry-Tracks, entry_change, peers-put_val,
}

-- What is there to be seen of the prefix and the entry that were written.
pub states-pair_view :
    {E : Env} (v : View E) (ver : AddrVersion) (i j : ℕ) (pfx : E.Pfx) (info info' : PfxInfo)
    (f : Counts → Counts) (k : ℕ) (p : PeerInfo) (t : Buckets ℕ PfxPeerInfo) (id : ℕ)
    (q q' : PfxPeerInfo)
    → slot (pfx_table ver v) i ≡ some (pfx, info)
    → slot t j ≡ some (id, q)
    → info'.peers ≡ some (put_val t j q')
    → (pfx_state (pair_view v ver i info' f k p) ver i ≡ some info'.state)
      × (entry_state (pair_view v ver i info' f k p) ver i j ≡ some q'.state)
states-pair_view v unknown i j pfx info info' f k p t id q q' h at has = cc
states-pair_view v ipv4 i j pfx info info' f k p t id q q' h at has =
    let wrote = slot-put_val_self v.v4pfxs i pfx info info' h in
    let entry = slot-put_val_self t j id q q' at in (ground arith, ground arith)
states-pair_view v ipv6 i j pfx info info' f k p t id q q' h at has =
    let wrote = slot-put_val_self v.v6pfxs i pfx info info' h in
    let entry = slot-put_val_self t j id q q' at in (ground arith, ground arith)

module _ {E : Env} {s : State E} {ver : AddrVersion} {pfx : E.Pfx} {info : PfxInfo}
    {t : Buckets ℕ PfxPeerInfo} {id : ℕ} {q : PfxPeerInfo} {p : PeerInfo}
    (o : OnPair s ver pfx info t id q p) (h : Counted s.view) where
  activate_table :
      q.state ≡ inactive
      → TableChange settled settled s.view ver s.iter.pfx_it pfx info
          (activated_info info t s.iter.pfx_peer_it q)
          (λ c. if first_activates info then activate_field_cnt u32 c else c)
  activate_table hq =
      let counted = h.infos ver s.iter.pfx_it pfx info o.at_pfx in
      record {
        at_pfx = o.at_pfx;
        counted =
            (activated_info-InfoCounted info t s.iter.pfx_peer_it id q o.has_table o.at_pfx_peer hq
              o.pfx_valid counted).0;
        pfxs = λ a b ea eb. ground (arith, h.pfxs ver, counted.agrees, counted.peers, o.pfx_valid);
        agree_same = λ j x d a. a;
        agree_other = λ w j x d a. a;
        pending_other = λ w c d. refl;
      }

  -- An inactive entry of a valid prefix, for an active peer, is activated: the function returns 1,
  -- the entry and the prefix are active, and every counter of the view stays right.
  pub iter_pfx_activate_peer-Counted :
      q.state ≡ inactive
      → p.state ≡ active
      → (s' : State E) × (iter_pfx_activate_peer s ≡ some (one_ret, s'))
        × Counted s'.view
        × (pfx_state s'.view ver s.iter.pfx_it ≡ some active)
        × (entry_state s'.view ver s.iter.pfx_it s.iter.pfx_peer_it ≡ some active)
  iter_pfx_activate_peer-Counted hq hp =
      let q' = record q { state = active } in
      let info' = activated_info info t s.iter.pfx_peer_it q in
      let f = λ (c : Counts). if first_activates info then activate_field_cnt u32 c else c in
      let p' = on_pfx_cnt ver (activate_field_cnt u32) p in
      let change =
        entry_change o settled q' info' f (activate_field_cnt u32) h refl (activate_table hq)
          (λ a b ea eb. ground (arith, h.pairs ver s.iter.peer_it id p o.at_peer)) in
      let seen =
        states-pair_view s.view ver s.iter.pfx_it s.iter.pfx_peer_it pfx info info' f s.iter.peer_it
          p' t id q q' o.at_pfx o.at_pfx_peer refl in
      (
        store_pair s ver info' f p',
        activate_pair s ver pfx info t id q p o hq hp,
        pair_view-Counted h change,
        seen.0
            ∙ ap some
                (activated_info-InfoCounted info t s.iter.pfx_peer_it id q o.has_table o.at_pfx_peer
                  hq o.pfx_valid (h.infos ver s.iter.pfx_it pfx info o.at_pfx)).1,
        seen.1,
      )

  -- The prefix after one of its peers has become inactive: it follows if that was the last one.
  abbrev deactivated_info : PfxInfo
  deactivated_info =
      let info1 = deactivated_entry info t s.iter.pfx_peer_it q in
      record info1 { state = if active_peers info == 1 then inactive else active }

  abbrev count_deactivated : Counts → Counts
  count_deactivated c = if active_peers info == 1 then deactivate_field_cnt u32 c else c

  -- A prefix with an active entry is active.
  active_prefix : q.state ≡ active → (0 < active_peers info) × (info.state ≡ active)
  active_prefix hq =
      let counted = h.infos ver s.iter.pfx_it pfx info o.at_pfx in
      let some_active : 0 < active_peers info = omega (
        arith,
        peers-put_val info t s.iter.pfx_peer_it id q o.has_table o.at_pfx_peer
            (λ j x. one_if_active x.state) (record q { state = inactive }),
        ap one_if_active hq,
      ) in
      (some_active, ground (arith, counted.agrees, counted.peers, some_active))

  deactivate_table :
      q.state ≡ active
      → TableChange settled settled s.view ver s.iter.pfx_it pfx info deactivated_info
          count_deactivated
  deactivate_table hq =
      let counted = h.infos ver s.iter.pfx_it pfx info o.at_pfx in
      let tracks =
        deactivated_entry-Tracks info t s.iter.pfx_peer_it id q o.has_table o.at_pfx_peer hq
          counted.peers in
      record {
        at_pfx = o.at_pfx;
        counted = record {
          peers = tracks;
          agrees = record {
            active_iff = ground (arith, counted.peers, counted.agrees, tracks);
            invalid_empty = ground (arith, counted.peers, counted.agrees, tracks);
          };
        };
        pfxs = λ a b ea eb. ground (arith, h.pfxs ver, active_prefix hq);
        agree_same = λ j x d a. a;
        agree_other = λ w j x d a. a;
        pending_other = λ w c d. refl;
      }

  -- The state of the prefix, and the counters, where the test for the last active entry is `b`.
  abbrev info_by : Bool → PfxInfo
  info_by b =
      let info1 = deactivated_entry info t s.iter.pfx_peer_it q in
      record info1 { state = if b then inactive else active }

  abbrev after_by : Bool → State E
  after_by b =
      store_pair s ver (info_by b) (λ c. if b then deactivate_field_cnt u32 c else c)
        (on_pfx_cnt ver (deactivate_field_cnt u32) p)

  last_entry :
      q.state ≡ active
      → active_peers info ≡ 1
      → pfx_deactivate_peer_by (deactivate_pfx 2) s ≡ some (one_ret, after_by true)
  last_entry hq last =
      let i = s.iter.pfx_it in
      let info1 = deactivated_entry info t s.iter.pfx_peer_it q in
      let v1 = info_view s.view ver i info1 (λ c. c) in
      let counted = h.infos ver i pfx info o.at_pfx in
      let tracks =
        deactivated_entry-Tracks info t s.iter.pfx_peer_it id q o.has_table o.at_pfx_peer hq
          counted.peers in
      deactivate_pair_last s ver pfx info t id q p (deactivate_pfx 2) one_ret
        (record info1 { state = inactive }) (deactivate_field_cnt u32) o hq
        (omega (arith, counted.peers, last))
        (deactivate_pfx_empty 1 (record s { view = v1 }) ver pfx info1 _ o.at_version
            (slot-info_view s.view ver i pfx info info1 (λ c. c) o.at_pfx) (active_prefix hq).1 refl
            (omega (arith, counted.peers, tracks, last))
          ∙ ap (λ v. some (one_ret, record s { view = v }))
              (info_view-info_view s.view ver i info1 (record info1 { state = inactive }) (λ c. c)
                (deactivate_field_cnt u32)))

  other_entries :
      q.state ≡ active
      → active_peers info ≢ 1
      → pfx_deactivate_peer_by (deactivate_pfx 2) s ≡ some (one_ret, after_by false)
  other_entries hq more =
      let counted = h.infos ver s.iter.pfx_it pfx info o.at_pfx in
      let some_active = active_prefix hq in
      let info1 = deactivated_entry info t s.iter.pfx_peer_it q in
      let p' = on_pfx_cnt ver (deactivate_field_cnt u32) p in
      deactivate_pair_more s ver pfx info t id q p (deactivate_pfx 2) o hq
        (omega (arith, counted.peers, some_active.0, more))
      ∙ ap (λ x. some (one_ret, store_pair s ver (record info1 { state = x }) (λ c. c) p'))
          some_active.1

  deactivate_runs :
      q.state ≡ active
      → pfx_deactivate_peer_by (deactivate_pfx 2) s
        ≡ some (one_ret, after_by (active_peers info == 1))
  deactivate_runs hq =
      let Goal =
        λ (b : Bool). pfx_deactivate_peer_by (deactivate_pfx 2) s ≡ some (one_ret, after_by b) in
      elim (Bool-cases (active_peers info == 1)) [
        | inl e ↦ subst Goal (sym e) (last_entry hq (ground arith))
        | inr e ↦ subst Goal (sym e) (other_entries hq (ground arith))
      ]

  -- An active entry is deactivated: the function returns 1, the entry is inactive, the prefix stays
  -- active exactly if another entry of it is active, and every counter of the view stays right.
  pub iter_pfx_deactivate_peer-Counted :
      q.state ≡ active
      → (s' : State E) × (iter_pfx_deactivate_peer s ≡ some (one_ret, s'))
        × Counted s'.view
        × (pfx_state s'.view ver s.iter.pfx_it
            ≡ some (if active_peers info == 1 then inactive else active))
        × (entry_state s'.view ver s.iter.pfx_it s.iter.pfx_peer_it ≡ some inactive)
  iter_pfx_deactivate_peer-Counted hq =
      let q' = record q { state = inactive } in
      let p' = on_pfx_cnt ver (deactivate_field_cnt u32) p in
      let change =
        entry_change o settled q' deactivated_info count_deactivated (deactivate_field_cnt u32) h
          refl (deactivate_table hq)
          (λ a b ea eb. ground (arith, h.pairs ver s.iter.peer_it id p o.at_peer)) in
      let seen =
        states-pair_view s.view ver s.iter.pfx_it s.iter.pfx_peer_it pfx info deactivated_info
          count_deactivated s.iter.peer_it p' t id q q' o.at_pfx o.at_pfx_peer refl in
      (
        store_pair s ver deactivated_info count_deactivated p',
        iter_pfx_deactivate_peer_lem s ∙ deactivate_runs hq,
        pair_view-Counted h change,
        seen.0,
        seen.1,
      )
