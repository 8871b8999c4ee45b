-- ===== src/View/Activate/Loop.antt =====
-- The loop of bgpview_iter_deactivate_pfx over the active peers of the prefix.
use bgpview.Base.{ℕ, ◌≡◌, ◌≢◌, refl, ◌⊎◌, inl, inr, Bool, true, false, some, arith, if◌then◌else◌}
use native.Mathlib.Decide.{ℕ_discrete}
use bgpview.Khash.Buckets.{Buckets}
use bgpview.View.Field.{active, inactive, u16, u32, deactivate_field_cnt}
use bgpview.View.Types.{
  AddrVersion, unknown, ipv4, ipv6, PfxPeerInfo, PfxInfo, PeerInfo, Env, State, one_ret, zero_ret,
}
use bgpview.View.Store.{on_pfx_cnt, info_view}
use bgpview.View.Invariant.{StateAgrees, Mode, CountedBy}
use bgpview.View.Invariant.Change.{TableChange}
use bgpview.View.Invariant.Keep.{pair_view-Counted, slot-info_view}
use bgpview.View.Activate.{deactivate_pfx, pfx_deactivate_peer_by}
use bgpview.View.Activate.Pair.{
  OnPair, deactivated_entry, store_pair, deactivate_pair_more, deactivate_pair_last,
}
use bgpview.View.Activate.Pfx.{deactivate_pfx_idle}
use bgpview.View.Activate.Entry.{deactivated_entry-Tracks, entry_change}

abbrev pub same_version : AddrVersion → AddrVersion → Bool
same_version unknown unknown = true
same_version ipv4 ipv4 = true
same_version ipv6 ipv6 = true
same_version _ _ = false

-- While the entries of a prefix are deactivated its own state is ahead of its entries, and the
-- counters of its table are still to follow.
abbrev pub closing : AddrVersion → ℕ → Mode
closing ver i = record {
  agree = λ w j x. (w ≢ ver) ⊎ (j ≢ i) → StateAgrees x;
  pending = λ w c. if same_version w ver then deactivate_field_cnt u32 c else c;
}

-- One entry is deactivated and the prefix left alone, since it is inactive already.
module _ {E : Env} {s : State E} {ver : AddrVersion} {pfx : E.Pfx} {info : PfxInfo}
    {t : Buckets ℕ PfxPeerInfo} {id : ℕ} {q : PfxPeerInfo} {p : PeerInfo}
    (o : OnPair s ver pfx info t id q p) (closed : info.state ≡ inactive)
    (hq : q.state ≡ active) where
  abbrev pub after_entry : State E
  after_entry =
      store_pair s ver (deactivated_entry info t s.iter.pfx_peer_it q) (λ c. c)
        (on_pfx_cnt ver (deactivate_field_cnt u32) p)

  pub entry_runs : pfx_deactivate_peer_by (deactivate_pfx 1) s ≡ some (one_ret, after_entry)
  entry_runs =
      let i = s.iter.pfx_it in
      let info1 = deactivated_entry info t s.iter.pfx_peer_it q in
      let v1 = info_view s.view ver i info1 (λ c. c) in
      elim (ℕ_discrete (deactivate_field_cnt u16 info.peers_cnt).active 0) [
        | yes last ↦
            deactivate_pair_last s ver pfx info t id q p (deactivate_pfx 1) zero_ret info1 (λ c. c)
              o hq last
              (deactivate_pfx_idle 0 (record s { view = v1 }) ver pfx info1 o.at_version
                (slot-info_view s.view ver i pfx info info1 (λ c. c) o.at_pfx) closed)
        | no more ↦ deactivate_pair_more s ver pfx info t id q p (deactivate_pfx 1) o hq more
      ]

  entry_table :
      CountedBy (closing ver s.iter.pfx_it) s.view
      → TableChange
          (closing ver s.iter.pfx_it)
          (closing ver s.iter.pfx_it)
          s.view
          ver
          s.iter.pfx_it
          pfx
          info
          (deactivated_entry info t s.iter.pfx_peer_it q)
          (λ c. c)
  entry_table h =
      let counted = h.infos ver s.iter.pfx_it pfx info o.at_pfx in
      record {
        at_pfx = o.at_pfx;
        counted = record {
          peers =
              deactivated_entry-Tracks info t s.iter.pfx_peer_it id q o.has_table o.at_pfx_peer hq
                counted.peers;
          agrees = elim [ inl d ↦ absurd (d refl) | inr d ↦ absurd (d refl) ];
        };
        pfxs = λ a b ea eb. omega (arith, h.pfxs ver);
        agree_same = λ j x d a. a;
        agree_other = λ w j x d a. a;
        pending_other = λ w c d. refl;
      }

  pub entry-Counted :
      CountedBy (closing ver s.iter.pfx_it) s.view
      → CountedBy (closing ver s.iter.pfx_it) after_entry.view
  entry-Counted h = pair_view-Counted h (
      entry_change o (closing ver s.iter.pfx_it) (record q { state = inactive })
        (deactivated_entry info t s.iter.pfx_peer_it q) (λ c. c) (deactivate_field_cnt u32) h refl
        (entry_table h) (λ a b ea eb. ground (arith, h.pairs ver s.iter.peer_it id p o.at_peer)))
