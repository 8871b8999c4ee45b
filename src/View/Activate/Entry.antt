-- ===== src/View/Activate/Entry.antt =====
-- What a change of the state of one entry of a prefix, a pfx-peer, does to the counters.
use bgpview.Base.{ℕ, ◌+◌, ◌≡◌, ◌≢◌, refl, ap, true, some, arith}
use bgpview.Khash.Buckets.{Buckets, slot, put_val, total, total-put_val}
use bgpview.View.Field.{
  active, inactive, is_valid, u16, u32, Counts, one_if_active, one_if_inactive,
}
use bgpview.View.Types.{
  AddrVersion, unknown, ipv4, ipv6, PfxPeerInfo, PfxInfo, PeerInfo, Env, State,
}
use bgpview.View.Store.{on_pfx_cnt}
use bgpview.View.Create.{peer_table}
use bgpview.View.Invariant.{
  Tracks, StateAgrees, InfoCounted, Mode, CountedBy, active_for, inactive_for, active_peers,
  inactive_peers, peer_pfx_cnt,
}
use bgpview.View.Invariant.Change.{TableChange, PairChange}
use bgpview.View.Invariant.Keep.{known_version}
use bgpview.View.Activate.Pair.{OnPair, activated_info, deactivated_entry}

-- One entry of a table of peers is written: what every sum over the table makes of it.
module _ (info : PfxInfo) (t : Buckets ℕ PfxPeerInfo) (i id : ℕ) (q : PfxPeerInfo)
    (has : info.peers ≡ some t) (at : slot t i ≡ some (id, q)) where
  pub peers-put_val :
      (w : ℕ → PfxPeerInfo → ℕ) (q' : PfxPeerInfo)
      → total w (put_val t i q') + w id q ≡ total w (peer_table info) + w id q'
  peers-put_val w q' = rw has (total-put_val w t i id q q' at)

  pub activated_info-InfoCounted :
      q.state ≡ inactive
      → is_valid info.state ≡ true
      → InfoCounted info (StateAgrees info)
      → let info' = activated_info info t i q in
        InfoCounted info' (StateAgrees info') × (info'.state ≡ active)
  activated_info-InfoCounted hq valid h =
      let q' = record q { state = active } in
      let ea = peers-put_val (λ j x. one_if_active x.state) q' in
      let eb = peers-put_val (λ j x. one_if_inactive x.state) q' in
      let sa = ap one_if_active hq in
      let sb = ap one_if_inactive hq in
      (
        record {
          peers = record {
            count_active = omega (arith, h.peers, ea, eb, sa, sb);
            count_inactive = omega (arith, h.peers, ea, eb, sa, sb);
            fits = omega (arith, h.peers, ea, eb, sa, sb);
          };
          agrees = record {
            active_iff = ground (arith, h.peers, h.agrees, ea, eb, sa, sb);
            invalid_empty = ground (arith, h.peers, h.agrees, ea, eb, sa, sb);
          };
        },
        ground (arith, h.peers, h.agrees),
      )

  -- After a peer has become inactive; the state of the prefix is left to the caller.
  pub deactivated_entry-Tracks :
      q.state ≡ active
      → Tracks u16 info.peers_cnt (active_peers info) (inactive_peers info)
      → let info' = deactivated_entry info t i q in
        Tracks u16 info'.peers_cnt (active_peers info') (inactive_peers info')
  deactivated_entry-Tracks hq h =
      let q' = record q { state = inactive } in
      let ea = peers-put_val (λ j x. one_if_active x.state) q' in
      let eb = peers-put_val (λ j x. one_if_inactive x.state) q' in
      let sa = ap one_if_active hq in
      let sb = ap one_if_inactive hq in
      record {
        count_active = omega (arith, ea, eb, sa, sb);
        count_inactive = omega (arith, ea, eb, sa, sb);
        fits = omega (arith, ea, eb, sa, sb);
      }

  -- The sums for one peer change at its own entry only.
  active_for-others :
      (q' : PfxPeerInfo) (j : ℕ)
      → j ≢ id
      → (total (active_for j) (put_val t i q') ≡ total (active_for j) (peer_table info))
        × (total (inactive_for j) (put_val t i q') ≡ total (inactive_for j) (peer_table info))
  active_for-others q' j d =
      let ea = peers-put_val (active_for j) q' in
      let eb = peers-put_val (inactive_for j) q' in (ground arith, ground arith)

  active_for_self :
      (q' : PfxPeerInfo)
      → (total (active_for id) (put_val t i q') + one_if_active q.state
          ≡ total (active_for id) (peer_table info) + one_if_active q'.state)
        × (total (inactive_for id) (put_val t i q') + one_if_inactive q.state
            ≡ total (inactive_for id) (peer_table info) + one_if_inactive q'.state)
  active_for_self q' =
      let ea = peers-put_val (active_for id) q' in
      let eb = peers-put_val (inactive_for id) q' in (ground arith, ground arith)

peer_pfx_cnt-on_pfx_cnt_ne :
    (w ver : AddrVersion) (f : Counts → Counts) (p : PeerInfo)
    → w ≢ ver
    → peer_pfx_cnt w (on_pfx_cnt ver f p) ≡ peer_pfx_cnt w p
peer_pfx_cnt-on_pfx_cnt_ne unknown ver f p h = refl
peer_pfx_cnt-on_pfx_cnt_ne ipv4 unknown f p h = refl
peer_pfx_cnt-on_pfx_cnt_ne ipv4 ipv4 f p h = absurd (h refl)
peer_pfx_cnt-on_pfx_cnt_ne ipv4 ipv6 f p h = refl
peer_pfx_cnt-on_pfx_cnt_ne ipv6 unknown f p h = refl
peer_pfx_cnt-on_pfx_cnt_ne ipv6 ipv4 f p h = refl
peer_pfx_cnt-on_pfx_cnt_ne ipv6 ipv6 f p h = absurd (h refl)

peer_pfx_cnt-on_pfx_cnt_self :
    (ver : AddrVersion) (f : Counts → Counts) (p : PeerInfo)
    → ver ≢ unknown
    → peer_pfx_cnt ver (on_pfx_cnt ver f p) ≡ f (peer_pfx_cnt ver p)
peer_pfx_cnt-on_pfx_cnt_self unknown f p h = absurd (h refl)
peer_pfx_cnt-on_pfx_cnt_self ipv4 f p h = refl
peer_pfx_cnt-on_pfx_cnt_self ipv6 f p h = refl

state-on_pfx_cnt :
    (ver : AddrVersion) (f : Counts → Counts) (p : PeerInfo) → (on_pfx_cnt ver f p).state ≡ p.state
state-on_pfx_cnt unknown f p = refl
state-on_pfx_cnt ipv4 f p = refl
state-on_pfx_cnt ipv6 f p = refl

module _ {E : Env} {s : State E} {ver : AddrVersion} {pfx : E.Pfx} {info : PfxInfo}
    {t : Buckets ℕ PfxPeerInfo} {id : ℕ} {q : PfxPeerInfo} {p : PeerInfo}
    (o : OnPair s ver pfx info t id q p) where
  -- What any change of the state of the entry has to show to keep the counters: its table part, and
  -- that the counters of the peer follow the entry.
  pub entry_change :
      (m : Mode) (q' : PfxPeerInfo) (info' : PfxInfo) (f g : Counts → Counts)
      → CountedBy m s.view
      → info'.peers ≡ some (put_val t s.iter.pfx_peer_it q')
      → TableChange m m s.view ver s.iter.pfx_it pfx info info' f
      → ((a b : ℕ)
          → a + one_if_active q.state ≡ (peer_pfx_cnt ver p).active + one_if_active q'.state
          → b + one_if_inactive q.state ≡ (peer_pfx_cnt ver p).inactive + one_if_inactive q'.state
          → Tracks u32 (g (peer_pfx_cnt ver p)) a b)
      → PairChange m m s.view ver s.iter.pfx_it pfx info info' f s.iter.peer_it id p
          (on_pfx_cnt ver g p)
  entry_change m q' info' f g h has c follow =
      let i = s.iter.pfx_peer_it in
      let known = known_version s.view ver s.iter.pfx_it o.at_pfx in
      let change = active_for_self info t i id q o.has_table o.at_pfx_peer q' in
      record {
        table = c;
        at_peer = o.at_peer;
        pairs = λ a b ea eb.
            rw (peer_pfx_cnt-on_pfx_cnt_self ver g p known)
              (follow a b (ground (arith, has, change)) (ground (arith, has, change)));
        others = λ j d. rw has (active_for-others info t i id q o.has_table o.at_pfx_peer q' j d);
        other_versions = λ w. peer_pfx_cnt-on_pfx_cnt_ne w ver g p;
        same_state = state-on_pfx_cnt ver g p;
      }
