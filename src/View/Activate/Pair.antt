-- ===== src/View/Activate/Pair.antt =====
-- What activating and deactivating a peer of a prefix does to the view.
use bgpview.Base.{ℕ, ◌≡◌, ◌≢◌, Bool, true, some, arith, ◌==◌, ◌&&◌, if◌then◌else◌}
use bgpview.Khash.Buckets.{Buckets, slot, put_val, slot-put_val_self, put_val-put_val}
use bgpview.View.Field.{
  active, inactive, is_state, is_valid, u16, u32, Counts, activate_field_cnt, deactivate_field_cnt,
}
use bgpview.View.Types.{
  AddrVersion, unknown, ipv4, ipv6, PfxPeerInfo, PfxInfo, PeerInfo, Env, State, Ret, one_ret,
}
use bgpview.View.State.{Action, pfx_table}
use bgpview.View.Store.{on_pfx_cnt, info_view, pair_view}
use bgpview.View.Activate.{iter_pfx_activate_peer, pfx_deactivate_peer_by}

-- The iterator of `s` stands on the prefix `pfx` and on its peer `id`.
pub record OnPair {E : Env} (s : State E) (ver : AddrVersion) (pfx : E.Pfx) (info : PfxInfo)
    (t : Buckets ℕ PfxPeerInfo) (id : ℕ) (q : PfxPeerInfo) (p : PeerInfo) : Type 0 where
  pub at_version : s.iter.version_ptr ≡ ver
  pub at_pfx : slot (pfx_table ver s.view) s.iter.pfx_it ≡ some (pfx, info)
  pub has_table : info.peers ≡ some t
  pub at_pfx_peer : slot t s.iter.pfx_peer_it ≡ some (id, q)
  pub is_on : s.iter.pfx_peer_it_valid ≡ true
  pub at_peer : slot s.view.peerinfo s.iter.peer_it ≡ some (id, p)
  pub pfx_valid : is_valid info.state ≡ true

-- The prefix after one more peer of it has become active.
abbrev pub activated_info : PfxInfo → Buckets ℕ PfxPeerInfo → ℕ → PfxPeerInfo → PfxInfo
activated_info info t i q =
    let cnt = activate_field_cnt u16 info.peers_cnt in
    record info {
      peers = some (put_val t i (record q { state = active }));
      peers_cnt = cnt;
      state = if cnt.active == 1 then active else info.state;
    }

-- Is it the first one, so that the prefix becomes active too?
abbrev pub first_activates : PfxInfo → Bool
first_activates info =
    (activate_field_cnt u16 info.peers_cnt).active == 1 && is_state inactive info.state

-- The prefix after one peer of it has become inactive, and before the prefix follows.
abbrev pub deactivated_entry : PfxInfo → Buckets ℕ PfxPeerInfo → ℕ → PfxPeerInfo → PfxInfo
deactivated_entry info t i q = record info {
  peers = some (put_val t i (record q { state = inactive }));
  peers_cnt = deactivate_field_cnt u16 info.peers_cnt;
}

module _ {E : Env} where
  -- A prefix and its counters in place of the old ones, and the counters of the peer.
  abbrev pub store_pair : State E → AddrVersion → PfxInfo → (Counts → Counts) → PeerInfo → State E
  store_pair s ver info f p = record s {
    view = pair_view s.view ver s.iter.pfx_it info f s.iter.peer_it p;
  }

  pub activate_pair :
      (s : State E) (ver : AddrVersion) (pfx : E.Pfx) (info : PfxInfo) (t : Buckets ℕ PfxPeerInfo)
      (id : ℕ) (q : PfxPeerInfo) (p : PeerInfo)
      → OnPair s ver pfx info t id q p
      → q.state ≡ inactive
      → p.state ≡ active
      → iter_pfx_activate_peer s
        ≡ some (
          one_ret,
          store_pair s ver
              (activated_info info t s.iter.pfx_peer_it q)
              (λ c. if first_activates info then activate_field_cnt u32 c else c)
              (on_pfx_cnt ver (activate_field_cnt u32) p),
        )
  unfolding iter_pfx_activate_peer
  activate_pair s unknown pfx info t id q p o hq hp = ground (arith, o.at_pfx)
  activate_pair s ipv4 pfx info t id q p o hq hp =
      let it = s.iter.pfx_it in
      let v4 = s.view.v4pfxs in
      let info1 = record info { peers_cnt = activate_field_cnt u16 info.peers_cnt } in
      let info2 = record info1 { state = active } in
      let info3 = activated_info info t s.iter.pfx_peer_it q in
      ground (
        arith,
        slot-put_val_self v4 it pfx info info1 o.at_pfx,
        slot-put_val_self v4 it pfx info info2 o.at_pfx,
        put_val-put_val v4 it info1 info2,
        put_val-put_val v4 it info1 info3,
        put_val-put_val v4 it info2 info3,
      )
  activate_pair s ipv6 pfx info t id q p o hq hp =
      let it = s.iter.pfx_it in
      let v6 = s.view.v6pfxs in
      let info1 = record info { peers_cnt = activate_field_cnt u16 info.peers_cnt } in
      let info2 = record info1 { state = active } in
      let info3 = activated_info info t s.iter.pfx_peer_it q in
      ground (
        arith,
        slot-put_val_self v6 it pfx info info1 o.at_pfx,
        slot-put_val_self v6 it pfx info info2 o.at_pfx,
        put_val-put_val v6 it info1 info2,
        put_val-put_val v6 it info1 info3,
        put_val-put_val v6 it info2 info3,
      )

  pub deactivate_pair_more :
      (s : State E) (ver : AddrVersion) (pfx : E.Pfx) (info : PfxInfo) (t : Buckets ℕ PfxPeerInfo)
      (id : ℕ) (q : PfxPeerInfo) (p : PeerInfo) (d : Action E Ret)
      → OnPair s ver pfx info t id q p
      → q.state ≡ active
      → (deactivate_field_cnt u16 info.peers_cnt).active ≢ 0
      → pfx_deactivate_peer_by d s
        ≡ some (
          one_ret,
          store_pair s ver
              (deactivated_entry info t s.iter.pfx_peer_it q)
              (λ c. c)
              (on_pfx_cnt ver (deactivate_field_cnt u32) p),
        )
  unfolding pfx_deactivate_peer_by
  deactivate_pair_more s unknown pfx info t id q p d o hq hc = ground (arith, o.at_pfx)
  deactivate_pair_more s ipv4 pfx info t id q p d o hq hc =
      let it = s.iter.pfx_it in
      let v4 = s.view.v4pfxs in
      let info1 = record info {
        peers = some (put_val t s.iter.pfx_peer_it (record q { state = inactive }));
      } in
      let info2 = deactivated_entry info t s.iter.pfx_peer_it q in
      ground (
        arith,
        slot-put_val_self v4 it pfx info info1 o.at_pfx,
        slot-put_val_self v4 it pfx info info2 o.at_pfx,
        put_val-put_val v4 it info1 info2,
      )
  deactivate_pair_more s ipv6 pfx info t id q p d o hq hc =
      let it = s.iter.pfx_it in
      let v6 = s.view.v6pfxs in
      let info1 = record info {
        peers = some (put_val t s.iter.pfx_peer_it (record q { state = inactive }));
      } in
      let info2 = deactivated_entry info t s.iter.pfx_peer_it q in
      ground (
        arith,
        slot-put_val_self v6 it pfx info info1 o.at_pfx,
        slot-put_val_self v6 it pfx info info2 o.at_pfx,
        put_val-put_val v6 it info1 info2,
      )

  pub deactivate_pair_last :
      (s : State E) (ver : AddrVersion) (pfx : E.Pfx) (info : PfxInfo) (t : Buckets ℕ PfxPeerInfo)
      (id : ℕ) (q : PfxPeerInfo) (p : PeerInfo) (d : Action E Ret) (r : Ret) (info' : PfxInfo)
      (f : Counts → Counts)
      → OnPair s ver pfx info t id q p
      → q.state ≡ active
      → (deactivate_field_cnt u16 info.peers_cnt).active ≡ 0
      → d (record s {
        view =
            info_view s.view ver s.iter.pfx_it
              (deactivated_entry info t s.iter.pfx_peer_it q)
              (λ c. c);
      })
        ≡ some (r, record s { view = info_view s.view ver s.iter.pfx_it info' f })
      → pfx_deactivate_peer_by d s
        ≡ some (one_ret, store_pair s ver info' f (on_pfx_cnt ver (deactivate_field_cnt u32) p))
  unfolding pfx_deactivate_peer_by
  deactivate_pair_last s unknown pfx info t id q p d r info' f o hq hc hd = ground (arith, o.at_pfx)
  deactivate_pair_last s ipv4 pfx info t id q p d r info' f o hq hc hd =
      let it = s.iter.pfx_it in
      let v4 = s.view.v4pfxs in
      let info1 = record info {
        peers = some (put_val t s.iter.pfx_peer_it (record q { state = inactive }));
      } in
      let info2 = deactivated_entry info t s.iter.pfx_peer_it q in
      ground (
        arith,
        slot-put_val_self v4 it pfx info info1 o.at_pfx,
        slot-put_val_self v4 it pfx info info2 o.at_pfx,
        put_val-put_val v4 it info1 info2,
        hd,
      )
  deactivate_pair_last s ipv6 pfx info t id q p d r info' f o hq hc hd =
      let it = s.iter.pfx_it in
      let v6 = s.view.v6pfxs in
      let info1 = record info {
        peers = some (put_val t s.iter.pfx_peer_it (record q { state = inactive }));
      } in
      let info2 = deactivated_entry info t s.iter.pfx_peer_it q in
      ground (
        arith,
        slot-put_val_self v6 it pfx info info1 o.at_pfx,
        slot-put_val_self v6 it pfx info info2 o.at_pfx,
        put_val-put_val v6 it info1 info2,
        hd,
      )
