-- ===== src/View/Invariant/Keep.antt =====
-- A change of one prefix and one peer that follows the rules keeps every counter of a view right.
use bgpview.Base.{ℕ, ◌≡◌, ◌≢◌, refl, ap, some, arith, inl, inr, ◌⊎◌}
use bgpview.Khash.Buckets.{slot, put_val, total, total-put_val, put_val-put_val, slot-put_val_self}
use bgpview.View.Field.{Counts, one_if_active, one_if_inactive}
use bgpview.View.Types.{AddrVersion, unknown, ipv4, ipv6, PfxInfo, PeerInfo, Env, View}
use bgpview.View.State.{pfx_table}
use bgpview.View.Store.{info_view, pair_view}
use bgpview.View.Create.{peer_table}
use bgpview.View.Invariant.{
  Mode, InfosCounted, PfxsCounted, PairsCounted, PeersCounted, CountedBy, active_for, inactive_for,
  peer_pfx_cnt, pfx_cnt,
}
use bgpview.View.Invariant.Change.{
  TableChange, PairChange, SameEntries, slot-put_val_cases, put_val-Unique, put_val-InfosCounted,
  put_val-PairsCounted_ne,
}

pub AddrVersion-cases : (w ver : AddrVersion) → (w ≡ ver) ⊎ (w ≢ ver)
AddrVersion-cases unknown unknown = inl refl
AddrVersion-cases ipv4 ipv4 = inl refl
AddrVersion-cases ipv6 ipv6 = inl refl
AddrVersion-cases unknown ipv4 = inr (λ e. cc)
AddrVersion-cases unknown ipv6 = inr (λ e. cc)
AddrVersion-cases ipv4 unknown = inr (λ e. cc)
AddrVersion-cases ipv4 ipv6 = inr (λ e. cc)
AddrVersion-cases ipv6 unknown = inr (λ e. cc)
AddrVersion-cases ipv6 ipv4 = inr (λ e. cc)

module _ {E : Env} (v : View E) (i : ℕ) (info' : PfxInfo) (f : Counts → Counts) where
  -- The table of the version that changes, and the others.
  pub table-info_view_self :
      (ver : AddrVersion)
      → pfx_table ver (info_view v ver i info' f) ≡ put_val (pfx_table ver v) i info'
  table-info_view_self unknown = refl
  table-info_view_self ipv4 = refl
  table-info_view_self ipv6 = refl

  table-info_view_ne :
      (w ver : AddrVersion) → w ≢ ver → pfx_table w (info_view v ver i info' f) ≡ pfx_table w v
  table-info_view_ne unknown ver h = refl
  table-info_view_ne ipv4 unknown h = refl
  table-info_view_ne ipv4 ipv4 h = absurd (h refl)
  table-info_view_ne ipv4 ipv6 h = refl
  table-info_view_ne ipv6 unknown h = refl
  table-info_view_ne ipv6 ipv4 h = refl
  table-info_view_ne ipv6 ipv6 h = absurd (h refl)

  pfx_cnt-info_view_ne :
      (w ver : AddrVersion) → w ≢ ver → pfx_cnt w (info_view v ver i info' f) ≡ pfx_cnt w v
  pfx_cnt-info_view_ne unknown ver h = refl
  pfx_cnt-info_view_ne ipv4 unknown h = refl
  pfx_cnt-info_view_ne ipv4 ipv4 h = absurd (h refl)
  pfx_cnt-info_view_ne ipv4 ipv6 h = refl
  pfx_cnt-info_view_ne ipv6 unknown h = refl
  pfx_cnt-info_view_ne ipv6 ipv4 h = refl
  pfx_cnt-info_view_ne ipv6 ipv6 h = absurd (h refl)

  pfx_cnt-info_view_self :
      (ver : AddrVersion)
      → ver ≢ unknown
      → pfx_cnt ver (info_view v ver i info' f) ≡ f (pfx_cnt ver v)
  pfx_cnt-info_view_self unknown h = absurd (h refl)
  pfx_cnt-info_view_self ipv4 h = refl
  pfx_cnt-info_view_self ipv6 h = refl

  peers-info_view :
      (ver : AddrVersion)
      → ((info_view v ver i info' f).peerinfo ≡ v.peerinfo)
        × ((info_view v ver i info' f).peerinfo_cnt ≡ v.peerinfo_cnt)
  peers-info_view unknown = (refl, refl)
  peers-info_view ipv4 = (refl, refl)
  peers-info_view ipv6 = (refl, refl)

module _ {E : Env} (v : View E) (i : ℕ) (info' : PfxInfo) (f : Counts → Counts) (k : ℕ)
    (p' : PeerInfo) where
  -- A peer written besides changes no prefix table.
  pub table-pair_view :
      (w ver : AddrVersion)
      → pfx_table w (pair_view v ver i info' f k p') ≡ pfx_table w (info_view v ver i info' f)
  table-pair_view unknown ver = refl
  table-pair_view ipv4 ver = refl
  table-pair_view ipv6 ver = refl

  pfx_cnt-pair_view :
      (w ver : AddrVersion)
      → pfx_cnt w (pair_view v ver i info' f k p') ≡ pfx_cnt w (info_view v ver i info' f)
  pfx_cnt-pair_view unknown ver = refl
  pfx_cnt-pair_view ipv4 ver = refl
  pfx_cnt-pair_view ipv6 ver = refl

-- A second write to the same prefix replaces the first.
pub info_view-info_view :
    {E : Env} (v : View E) (ver : AddrVersion) (i : ℕ) (x y : PfxInfo) (f g : Counts → Counts)
    → info_view (info_view v ver i x f) ver i y g ≡ info_view v ver i y (λ c. g (f c))
info_view-info_view v unknown i x y f g = refl
info_view-info_view v ipv4 i x y f g = rw (put_val-put_val v.v4pfxs i x y)
info_view-info_view v ipv6 i x y f g = rw (put_val-put_val v.v6pfxs i x y)

-- The prefix that was written is there.
pub slot-info_view :
    {E : Env} (v : View E) (ver : AddrVersion) (i : ℕ) (pfx : E.Pfx) (x y : PfxInfo)
    (f : Counts → Counts)
    → slot (pfx_table ver v) i ≡ some (pfx, x)
    → slot (pfx_table ver (info_view v ver i y f)) i ≡ some (pfx, y)
slot-info_view v ver i pfx x y f h =
    rw (table-info_view_self v i y f ver) (slot-put_val_self (pfx_table ver v) i pfx x y h)

-- An iterator of no version stands on no prefix.
pub known_version :
    {E : Env} (v : View E) (ver : AddrVersion) (i : ℕ) {e : E.Pfx × PfxInfo}
    → slot (pfx_table ver v) i ≡ some e
    → ver ≢ unknown
known_version v unknown i h = cc
known_version v ipv4 i h = λ e. cc
known_version v ipv6 i h = λ e. cc

module _ {E : Env} {m n : Mode} {v : View E} {ver : AddrVersion} {i : ℕ} {pfx : E.Pfx}
    {info info' : PfxInfo} {f : Counts → Counts} (h : CountedBy m v)
    (c : TableChange m n v ver i pfx info info' f) where
  infos_kept :
      (w : AddrVersion) → InfosCounted (n.agree w) (pfx_table w (info_view v ver i info' f))
  infos_kept w = elim (AddrVersion-cases w ver) [
    | inl e ↦
        rw (e, table-info_view_self v i info' f ver)
          (put_val-InfosCounted (pfx_table ver v) i pfx info info' c.at_pfx (m.agree ver)
            (n.agree ver) c.agree_same (h.infos ver) c.counted)
    | inr d ↦ rw (table-info_view_ne v i info' f w ver d) (λ j p x e. record {
      peers = (h.infos w j p x e).peers;
      agrees = c.agree_other w j x d (h.infos w j p x e).agrees;
    })
  ]

  table_pfxs_kept :
      PfxsCounted (put_val (pfx_table ver v) i info') (n.pending ver (f (pfx_cnt ver v)))
  table_pfxs_kept =
      let wa = λ (q : E.Pfx) (x : PfxInfo). one_if_active x.state in
      let wb = λ (q : E.Pfx) (x : PfxInfo). one_if_inactive x.state in
      c.pfxs _ _
        (omega (
          arith,
          (h.pfxs ver).count_active,
          total-put_val wa (pfx_table ver v) i pfx info info' c.at_pfx,
        ))
        (omega (
          arith,
          (h.pfxs ver).count_inactive,
          total-put_val wb (pfx_table ver v) i pfx info info' c.at_pfx,
        ))

  pfxs_kept :
      (w : AddrVersion)
      → PfxsCounted
          (pfx_table w (info_view v ver i info' f))
          (n.pending w (pfx_cnt w (info_view v ver i info' f)))
  pfxs_kept w = elim (AddrVersion-cases w ver) [
    | inl e ↦
        rw
          (
            e,
            table-info_view_self v i info' f ver,
            pfx_cnt-info_view_self v i info' f ver (known_version v ver i c.at_pfx),
          )
          table_pfxs_kept
    | inr d ↦
        rw
          (
            table-info_view_ne v i info' f w ver d,
            pfx_cnt-info_view_ne v i info' f w ver d,
            c.pending_other w (pfx_cnt w v) d,
          )
          (h.pfxs w)
  ]

  -- The counters of a peer whose entry in the prefix stays.
  pairs_stay :
      (w : AddrVersion) (l : ℕ) (d : Counts)
      → SameEntries info info' l
      → PairsCounted l (pfx_table w v) d
      → PairsCounted l (pfx_table w (info_view v ver i info' f)) d
  pairs_stay w l d same k = elim (AddrVersion-cases w ver) [
    | inl e ↦
        rw (e, table-info_view_self v i info' f ver)
          (put_val-PairsCounted_ne (pfx_table ver v) i pfx info info' c.at_pfx l d same (rw e at k))
    | inr e ↦ rw (table-info_view_ne v i info' f w ver e) k
  ]

  -- A change of a prefix that leaves the states of its peers alone.
  pub info_view-Counted :
      ((j : ℕ) → SameEntries info info' j) → CountedBy n (info_view v ver i info' f)
  info_view-Counted same = record {
    infos = infos_kept;
    pfxs = pfxs_kept;
    pairs = λ w j l q e.
        pairs_stay w l (peer_pfx_cnt w q) (same l)
          (h.pairs w j l q (rw (peers-info_view v i info' f ver).0 at e));
    peers = rw ((peers-info_view v i info' f ver).0, (peers-info_view v i info' f ver).1) h.peers;
    unique = rw (peers-info_view v i info' f ver).0 h.unique;
  }

module _ {E : Env} {m n : Mode} {v : View E} {ver : AddrVersion} {i : ℕ} {pfx : E.Pfx}
    {info info' : PfxInfo} {f : Counts → Counts} {k id : ℕ} {p p' : PeerInfo} (h : CountedBy m v)
    (c : PairChange m n v ver i pfx info info' f k id p p') where
  table_pairs_kept : PairsCounted id (put_val (pfx_table ver v) i info') (peer_pfx_cnt ver p')
  table_pairs_kept =
      let wa = λ (q : E.Pfx) (x : PfxInfo). total (active_for id) (peer_table x) in
      let wb = λ (q : E.Pfx) (x : PfxInfo). total (inactive_for id) (peer_table x) in
      c.pairs _ _
        (omega (
          arith,
          (h.pairs ver k id p c.at_peer).count_active,
          total-put_val wa (pfx_table ver v) i pfx info info' c.table.at_pfx,
        ))
        (omega (
          arith,
          (h.pairs ver k id p c.at_peer).count_inactive,
          total-put_val wb (pfx_table ver v) i pfx info info' c.table.at_pfx,
        ))

  -- The counters of the peer itself.
  pairs_own :
      (w : AddrVersion)
      → PairsCounted id (pfx_table w (info_view v ver i info' f)) (peer_pfx_cnt w p')
  pairs_own w = elim (AddrVersion-cases w ver) [
    | inl d ↦ rw (d, table-info_view_self v i info' f ver) table_pairs_kept
    | inr d ↦
        rw (table-info_view_ne v i info' f w ver d, c.other_versions w d)
          (h.pairs w k id p c.at_peer)
  ]

  pairs_kept :
      (w : AddrVersion) (j l : ℕ) (q : PeerInfo)
      → slot (put_val v.peerinfo k p') j ≡ some (l, q)
      → PairsCounted l (pfx_table w (info_view v ver i info' f)) (peer_pfx_cnt w q)
  pairs_kept w j l q e = elim (slot-put_val_cases v.peerinfo k id p p' j l q c.at_peer e) [
    | inl (_, d, x) ↦ rw (← d, ← x) (pairs_own w)
    | inr (d, x) ↦
        pairs_stay h c.table w l (peer_pfx_cnt w q)
          (c.others l (λ same. d (h.unique k j id p q c.at_peer (rw (← same) x))))
          (h.pairs w j l q x)
  ]

  peers_kept : PeersCounted (put_val v.peerinfo k p') v.peerinfo_cnt
  peers_kept =
      let wa = λ (q : ℕ) (x : PeerInfo). one_if_active x.state in
      let wb = λ (q : ℕ) (x : PeerInfo). one_if_inactive x.state in
      let ea = total-put_val wa v.peerinfo k id p p' c.at_peer in
      let eb = total-put_val wb v.peerinfo k id p p' c.at_peer in
      let sa = ap one_if_active c.same_state in
      let sb = ap one_if_inactive c.same_state in
      record {
        count_active = omega (arith, h.peers.count_active, ea, sa);
        count_inactive = omega (arith, h.peers.count_inactive, eb, sb);
        fits = omega (arith, h.peers.fits, ea, eb, sa, sb);
      }

  pub pair_view-Counted : CountedBy n (pair_view v ver i info' f k p')
  pair_view-Counted = record {
    infos = λ w. rw (table-pair_view v i info' f k p' w ver) (infos_kept h c.table w);
    pfxs = λ w.
        rw (table-pair_view v i info' f k p' w ver, pfx_cnt-pair_view v i info' f k p' w ver)
          (pfxs_kept h c.table w);
    pairs = λ w. rw (table-pair_view v i info' f k p' w ver) (pairs_kept w);
    peers = rw (peers-info_view v i info' f ver).1 peers_kept;
    unique = put_val-Unique v.peerinfo k id p p' c.at_peer h.unique;
  }
