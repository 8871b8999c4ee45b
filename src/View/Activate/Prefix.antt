-- ===== src/View/Activate/Prefix.antt =====
-- bgpview_iter_deactivate_pfx keeps the counters right.
use bgpview.Base.{
  ℕ, suc, ◌≡◌, ◌≢◌, refl, sym, subst, ◌∙◌, inl, inr, true, false, some, arith, length, Option-cases,
}
use bgpview.Khash.Buckets.{Buckets, slot, slot-put_val_self, put_val_self}
use bgpview.Khash.Scan.{skip}
use bgpview.View.Field.{active, inactive, field_active, u32, Counts, deactivate_field_cnt}
use bgpview.View.Types.{
  AddrVersion, unknown, ipv4, ipv6, PfxPeerInfo, PfxInfo, Env, View, State, Ret, one_ret,
}
use bgpview.View.State.{Action, pfx_table, set_pfx_cnt}
use bgpview.View.Store.{info_view}
use bgpview.View.Create.{peer_table}
use bgpview.View.PfxPeerIter.{pfx_peer_matches, stop_at, first_pfx_peer, move_first_pfx_peer}
use bgpview.View.Invariant.{StateAgrees, InfoCounted, CountedBy, Counted, active_peers}
use bgpview.View.Invariant.Keep.{info_view-Counted, slot-info_view}
use bgpview.View.Activate.{
  iter_deactivate_pfx, iter_deactivate_pfx_lem, deactivate_pfx, pfx_deactivate_peer_by,
  pfx_peer_loop, deactivate_pfx_by,
}
use bgpview.View.Activate.Loop.{closing, same_version}
use bgpview.View.Activate.Stopped.{KnownPeers, stop_at-Stopped, stop_at-fields}
use bgpview.View.Activate.PfxLoop.{AtHead, AtExit}
use bgpview.View.Activate.PfxRound.{pfx_peer_loop-AtExit}

same_version_self : (ver : AddrVersion) → same_version ver ver ≡ true
same_version_self unknown = refl
same_version_self ipv4 = refl
same_version_self ipv6 = refl

same_version_ne : (w ver : AddrVersion) → w ≢ ver → same_version w ver ≡ false
same_version_ne unknown unknown h = absurd (h refl)
same_version_ne ipv4 ipv4 h = absurd (h refl)
same_version_ne ipv6 ipv6 h = absurd (h refl)
same_version_ne unknown ipv4 h = refl
same_version_ne unknown ipv6 h = refl
same_version_ne ipv4 unknown h = refl
same_version_ne ipv4 ipv6 h = refl
same_version_ne ipv6 unknown h = refl
same_version_ne ipv6 ipv4 h = refl

-- An active prefix has a table of peers.
table-Counted :
    (info : PfxInfo)
    → InfoCounted info (StateAgrees info)
    → info.state ≡ active
    → info.peers ≡ some (peer_table info)
table-Counted info h on = elim (Option-cases info.peers) [
  | inl e ↦
      let empty : active_peers info ≡ 0 = rw e refl in absurd (ground (arith, h.agrees, h.peers))
  | inr (t, e) ↦ rw e refl
]

module _ {E : Env} where
  -- The prefix becomes inactive before its entries.
  opened :
      {v : View E} {ver : AddrVersion} {i : ℕ} {pfx : E.Pfx} {info : PfxInfo}
      → slot (pfx_table ver v) i ≡ some (pfx, info)
      → info.state ≡ active
      → Counted v
      → CountedBy (closing ver i) (info_view v ver i (record info { state = inactive }) (λ c. c))
  opened {v} {ver} {i} {pfx} {info} at on h =
      info_view-Counted h
        (record {
          at_pfx = at;
          counted = record {
            peers = (h.infos ver i pfx info at).peers;
            agrees = elim [ inl d ↦ absurd (d refl) | inr d ↦ absurd (d refl) ];
          };
          pfxs = λ a b ea eb. ground (arith, h.pfxs ver, same_version_self ver);
          agree_same = λ j x d a _. a;
          agree_other = λ w j x d a _. a;
          pending_other = λ w c d. rw (same_version_ne w ver d) refl;
        })
        (λ j. (refl, refl))

  -- The counters of the table follow when the loop is done.
  finished :
      {s : State E} {ver : AddrVersion} {i : ℕ} {pfx : E.Pfx} {info : PfxInfo}
      → AtExit s ver i pfx info
      → Counted (info_view s.view ver i info (deactivate_field_cnt u32))
  finished {s} {ver} {i} {pfx} {info} x =
      let counted = x.counted.infos ver i pfx info x.at_pfx in
      info_view-Counted x.counted
        (record {
          at_pfx = x.at_pfx;
          counted = record {
            peers = counted.peers;
            agrees = record {
              active_iff = ground (arith, x.closed, counted.peers, x.none_active);
              invalid_empty = ground (arith, x.closed);
            };
          };
          pfxs = λ a b ea eb. ground (arith, x.counted.pfxs ver, same_version_self ver);
          agree_same = λ j y d a. a (inr (λ e. d (sym e)));
          agree_other = λ w j y d a. a (inl d);
          pending_other = λ w c d. rw (same_version_ne w ver d) refl;
        })
        (λ j. (refl, refl))

  info_view_self :
      (v : View E) (ver : AddrVersion) (i : ℕ) (pfx : E.Pfx) (info : PfxInfo) (f : Counts → Counts)
      → slot (pfx_table ver v) i ≡ some (pfx, info)
      → set_pfx_cnt ver f v ≡ info_view v ver i info f
  info_view_self v unknown i pfx info f h = refl
  info_view_self v ipv4 i pfx info f h = rw (put_val_self v.v4pfxs i pfx info h) refl
  info_view_self v ipv6 i pfx info f h = rw (put_val_self v.v6pfxs i pfx info h) refl

  -- The head of the loop: the iterator over the active entries has just started.
  abbrev opened_view : State E → AddrVersion → PfxInfo → View E
  opened_view s ver info =
      info_view s.view ver s.iter.pfx_it (record info { state = inactive }) (λ c. c)

  abbrev started : State E → AddrVersion → PfxInfo → Buckets ℕ PfxPeerInfo → State E
  started s ver info t = record s {
    view = opened_view s ver info;
    iter =
        stop_at (opened_view s ver info) t (skip (pfx_peer_matches field_active) t 0)
          (record s.iter {
            pfx_peer_state_mask = field_active;
            pfx_peer_it = 0;
            pfx_peer_it_valid = false;
          });
  }

  peerinfo-opened_view :
      (s : State E) (ver : AddrVersion) (info : PfxInfo)
      → (opened_view s ver info).peerinfo ≡ s.view.peerinfo
  peerinfo-opened_view s unknown info = refl
  peerinfo-opened_view s ipv4 info = refl
  peerinfo-opened_view s ipv6 info = refl

  module _ (s : State E) (ver : AddrVersion) (pfx : E.Pfx) (info : PfxInfo)
      (t : Buckets ℕ PfxPeerInfo) (at_version : s.iter.version_ptr ≡ ver)
      (at : slot (pfx_table ver s.view) s.iter.pfx_it ≡ some (pfx, info)) (on : info.state ≡ active)
      (has : info.peers ≡ some t) where
    started-AtHead :
        Counted s.view
        → E.peerinfo_hash.Placed s.view.peerinfo
        → KnownPeers t s.view.peerinfo
        → AtHead
            (started s ver info t)
            ver
            (started s ver info t).iter.pfx_it
            pfx
            (record info { state = inactive })
            t
          × ((started s ver info t).iter.pfx_it ≡ s.iter.pfx_it)
    started-AtHead h placed known =
        let info0 = record info { state = inactive } in
        let start = record s.iter {
          pfx_peer_state_mask = field_active;
          pfx_peer_it = 0;
          pfx_peer_it_valid = false;
        } in
        let j = skip (pfx_peer_matches field_active) t 0 in
        let fields = stop_at-fields (opened_view s ver info) t start j in
        let same = peerinfo-opened_view s ver info in
        let placed' = subst (λ x. E.peerinfo_hash.Placed x) (sym same) placed in
        let known' = subst (λ x. KnownPeers t x) (sym same) known in
        (
          subst (λ i. AtHead (started s ver info t) ver i pfx info0 t) (sym fields.1)
              (record {
                at_version = fields.0 ∙ at_version;
                at_index = fields.1;
                mask = fields.2;
                at_pfx = slot-info_view s.view ver s.iter.pfx_it pfx info info0 (λ c. c) at;
                closed = refl;
                has_table = has;
                counted = opened at on h;
                placed = placed';
                known = known';
                stopped =
                    stop_at-Stopped (opened_view s ver info) t start 0 (omega arith) refl placed'
                      known' (λ l lt. absurd (omega arith));
              }),
          fields.1,
        )

  -- What the function does, once the run of its loop is known.
  deactivate_runs :
      (s s' : State E) (ver : AddrVersion) (pfx : E.Pfx) (info : PfxInfo)
      (t : Buckets ℕ PfxPeerInfo) (body : Action E Ret)
      → s.iter.version_ptr ≡ ver
      → slot (pfx_table ver s.view) s.iter.pfx_it ≡ some (pfx, info)
      → info.state ≡ active
      → info.peers ≡ some t
      → pfx_peer_loop (suc (length t)) body (started s ver info t) ≡ some (tt, s')
      → deactivate_pfx_by body s
        ≡ some (
          one_ret,
          record s' { view = set_pfx_cnt ver (deactivate_field_cnt u32) s'.view; iter = s.iter },
        )
  unfolding deactivate_pfx_by move_first_pfx_peer first_pfx_peer
  deactivate_runs s s' unknown pfx info t body at_version at on has run = cc
  deactivate_runs s s' ipv4 pfx info t body at_version at on has run = ground (
    arith,
    slot-put_val_self s.view.v4pfxs s.iter.pfx_it pfx info (record info { state = inactive }) at,
  )
  deactivate_runs s s' ipv6 pfx info t body at_version at on has run = ground (
    arith,
    slot-put_val_self s.view.v6pfxs s.iter.pfx_it pfx info (record info { state = inactive }) at,
  )

  -- An active prefix is deactivated: the function returns 1 and leaves the iterator as it was, the
  -- prefix and all of its entries are inactive, and every counter of the view stays right. The peers
  -- of the prefix's entries have to be in the table of peers, and the table one that khash.h built.
  pub iter_deactivate_pfx-Counted :
      (s : State E) (ver : AddrVersion) (pfx : E.Pfx) (info : PfxInfo)
      → s.iter.version_ptr ≡ ver
      → slot (pfx_table ver s.view) s.iter.pfx_it ≡ some (pfx, info)
      → info.state ≡ active
      → Counted s.view
      → E.peerinfo_hash.Placed s.view.peerinfo
      → KnownPeers (peer_table info) s.view.peerinfo
      → (s' : State E) × (info' : PfxInfo) × (iter_deactivate_pfx s ≡ some (one_ret, s'))
        × Counted s'.view
        × (s'.iter ≡ s.iter)
        × (slot (pfx_table ver s'.view) s.iter.pfx_it ≡ some (pfx, info'))
        × (info'.state ≡ inactive)
        × (active_peers info' ≡ 0)
  iter_deactivate_pfx-Counted s ver pfx info at_version at on h placed known =
      let t = peer_table info in
      let has = table-Counted info (h.infos ver s.iter.pfx_it pfx info at) on in
      let head = started-AtHead s ver pfx info t at_version at on has h placed known in
      let info0 = record info { state = inactive } in
      let run =
        pfx_peer_loop-AtExit (suc (length t)) (started s ver info t) ver pfx info0 t head.0
          (omega arith) in
      let exit = subst (λ i. AtExit run.0 ver i pfx run.1) head.1 run.3 in
      let same =
        info_view_self run.0.view ver s.iter.pfx_it pfx run.1 (deactivate_field_cnt u32)
          exit.at_pfx in
      (
        record run.0 {
          view = set_pfx_cnt ver (deactivate_field_cnt u32) run.0.view;
          iter = s.iter;
        },
        run.1,
        iter_deactivate_pfx_lem s
            ∙ deactivate_runs s run.0 ver pfx info t (pfx_deactivate_peer_by (deactivate_pfx 1))
                at_version at on has run.2,
        rw same (finished exit),
        refl,
        rw same (
            slot-info_view run.0.view ver s.iter.pfx_it pfx run.1 run.1 (deactivate_field_cnt u32)
              exit.at_pfx),
        exit.closed,
        exit.none_active,
      )
