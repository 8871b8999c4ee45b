-- ===== src/View/Activate/PfxRound.antt =====
-- A round of the loop of bgpview_iter_deactivate_pfx, and the whole loop, which ends.
use bgpview.Base.{
  ℕ, zero, suc, ◌+◌, ◌≤◌, ◌<◌, ◌≡◌, refl, sym, subst, ◌∙◌, inl, inr, true, false, some, arith,
  length, drop,
}
use bgpview.Khash.Buckets.{Buckets, slot, put_val, slot-lt, length-put_val}
use bgpview.Khash.Scan.{skip, skip-le}
use bgpview.View.Field.{u32, deactivate_field_cnt, active, inactive, field_active}
use bgpview.View.Types.{
  AddrVersion, PfxPeerInfo, PfxInfo, PeerInfo, Env, View, Iter, State, one_ret,
}
use bgpview.View.State.{pfx_table}
use bgpview.View.Store.{on_pfx_cnt}
use bgpview.View.PfxPeerIter.{pfx_peer_matches}
use bgpview.View.Invariant.Keep.{slot-info_view, table-pair_view}
use bgpview.View.Activate.{deactivate_pfx, pfx_deactivate_peer_by, pfx_peer_loop}
use bgpview.View.Activate.Pair.{OnPair, deactivated_entry}
use bgpview.View.Activate.Loop.{after_entry, entry_runs, entry-Counted}
use bgpview.View.Activate.Stopped.{Stopped, stop_at-Stopped, stop_at-fields}
use bgpview.View.Activate.PfxLoop.{
  AtHead, AtExit, no_active-total, loop_step, loop_end, next_iter, move_next, deactivated-before,
  KnownPeers-put_val,
}

-- One round of the loop.
module _ {E : Env} {s : State E} {ver : AddrVersion} {pfx : E.Pfx} {info : PfxInfo}
    {t : Buckets ℕ PfxPeerInfo} {id : ℕ} {q : PfxPeerInfo} {p : PeerInfo}
    (h : AtHead s ver s.iter.pfx_it pfx info t) (on : s.iter.pfx_peer_it_valid ≡ true)
    (at : slot t s.iter.pfx_peer_it ≡ some (id, q)) (hq : q.state ≡ active)
    (at_peer : slot s.view.peerinfo s.iter.peer_it ≡ some (id, p)) where
  pair_at : OnPair s ver pfx info t id q p
  pair_at = record {
    at_version = h.at_version;
    at_pfx = h.at_pfx;
    has_table = h.has_table;
    at_pfx_peer = at;
    is_on = on;
    at_peer = at_peer;
    pfx_valid = ground (arith, h.closed);
  }

  abbrev next_table : Buckets ℕ PfxPeerInfo
  next_table = put_val t s.iter.pfx_peer_it (record q { state = inactive })

  abbrev middle : State E
  middle = after_entry pair_at h.closed hq

  abbrev next_head : State E
  next_head = record middle { iter = next_iter middle.view next_table s.iter }

  middle-pfx :
      slot (pfx_table ver middle.view) s.iter.pfx_it
      ≡ some (pfx, deactivated_entry info t s.iter.pfx_peer_it q)
  middle-pfx =
      rw
        (table-pair_view s.view s.iter.pfx_it (deactivated_entry info t s.iter.pfx_peer_it q)
          (λ c. c) s.iter.peer_it (on_pfx_cnt ver (deactivate_field_cnt u32) p) ver ver)
        (slot-info_view s.view ver s.iter.pfx_it pfx info
          (deactivated_entry info t s.iter.pfx_peer_it q) (λ c. c) h.at_pfx)

  next_head_runs :
      (fuel : ℕ)
      → pfx_peer_loop (suc fuel) (pfx_deactivate_peer_by (deactivate_pfx 1)) s
        ≡ pfx_peer_loop fuel (pfx_deactivate_peer_by (deactivate_pfx 1)) next_head
  next_head_runs fuel =
      loop_step fuel (pfx_deactivate_peer_by (deactivate_pfx 1)) s middle next_head one_ret on
        (entry_runs pair_at h.closed hq)
        (move_next middle ver pfx (deactivated_entry info t s.iter.pfx_peer_it q) next_table
          h.at_version middle-pfx refl
          (omega (
            arith,
            slot-lt t s.iter.pfx_peer_it at,
            length-put_val t s.iter.pfx_peer_it (record q { state = inactive }),
          ))
          h.mask)

  next_head-AtHead :
      AtHead next_head ver s.iter.pfx_it pfx
        (deactivated_entry info t s.iter.pfx_peer_it q)
        next_table
  next_head-AtHead =
      let k = s.iter.pfx_peer_it + 1 in
      let q' = record q { state = inactive } in
      let v' = middle.view in
      let it = record s.iter { pfx_peer_it_valid = false } in
      let j = skip (pfx_peer_matches field_active) (drop k next_table) k in
      let fields = stop_at-fields v' next_table it j in
      let placed' : E.peerinfo_hash.Placed v'.peerinfo =
        E.peerinfo_hash.val_placed s.view.peerinfo s.iter.peer_it _ h.placed in
      let known' =
        KnownPeers-put_val t s.iter.pfx_peer_it id q q' s.view.peerinfo s.iter.peer_it id p _ at
          (ground (arith, hq)) at_peer h.known in
      record {
        at_version = fields.0 ∙ h.at_version;
        at_index = fields.1;
        mask = fields.2 ∙ h.mask;
        at_pfx = middle-pfx;
        closed = h.closed;
        has_table = refl;
        counted = entry-Counted pair_at h.closed hq h.counted;
        placed = placed';
        known = known';
        stopped =
            stop_at-Stopped v' next_table it k
              (omega
                (arith, slot-lt t s.iter.pfx_peer_it at, length-put_val t s.iter.pfx_peer_it q'))
              refl placed' known'
              (deactivated-before t s.iter.pfx_peer_it id q at h.stopped.before);
      }

  -- The loop moves on, and the table keeps its length.
  next_head-lt : (s.iter.pfx_peer_it < next_head.iter.pfx_peer_it) × (length next_table ≡ length t)
  next_head-lt =
      let k = s.iter.pfx_peer_it + 1 in
      let it = record s.iter { pfx_peer_it_valid = false } in
      let j = skip (pfx_peer_matches field_active) (drop k next_table) k in
      (
        omega (
          arith,
          skip-le (pfx_peer_matches field_active) (drop k next_table) k,
          stop_at-fields middle.view next_table it j,
        ),
        length-put_val t s.iter.pfx_peer_it (record q { state = inactive }),
      )

Stopped-le :
    {E : Env} (v : View E) (t : Buckets ℕ PfxPeerInfo) (it : Iter)
    → Stopped v t it
    → it.pfx_peer_it ≤ length t
Stopped-le v t it h = elim h.place [
  | inl (off, at_end) ↦ omega arith
  | inr (on, (id, q, p, at, _, _)) ↦ omega (arith, slot-lt t it.pfx_peer_it at)
]

-- The loop from its head on: it ends, and then no entry is active.
module _ {E : Env} where
  at_exit :
      (s : State E) (ver : AddrVersion) (pfx : E.Pfx) (info : PfxInfo) (t : Buckets ℕ PfxPeerInfo)
      → AtHead s ver s.iter.pfx_it pfx info t
      → s.iter.pfx_peer_it ≡ length t
      → AtExit s ver s.iter.pfx_it pfx info
  at_exit s ver pfx info t h at_end = record {
    at_pfx = h.at_pfx;
    closed = h.closed;
    counted = h.counted;
    none_active =
        rw h.has_table (no_active-total t (λ l lt. h.stopped.before l (omega (arith, at_end))));
  }

  -- What the loop does from a state at its head.
  abbrev Closes : ℕ → State E → AddrVersion → ℕ → E.Pfx → Type 0
  Closes fuel s ver i pfx =
      (s' : State E) × (info' : PfxInfo) × (pfx_peer_loop fuel
          (pfx_deactivate_peer_by (deactivate_pfx 1)) s
        ≡ some (tt, s'))
      × AtExit s' ver i pfx info'

  pub pfx_peer_loop-AtExit :
      (fuel : ℕ) (s : State E) (ver : AddrVersion) (pfx : E.Pfx) (info : PfxInfo)
      (t : Buckets ℕ PfxPeerInfo)
      → AtHead s ver s.iter.pfx_it pfx info t
      → length t < s.iter.pfx_peer_it + fuel
      → Closes fuel s ver s.iter.pfx_it pfx
  pfx_peer_loop-AtExit zero s ver pfx info t h lt =
      let bound = Stopped-le s.view t s.iter h.stopped in absurd (omega arith)
  pfx_peer_loop-AtExit (suc fuel) s ver pfx info t h lt = elim h.stopped.place [
    | inl (off, at_end) ↦ (
      s,
      info,
      loop_end fuel (pfx_deactivate_peer_by (deactivate_pfx 1)) s off,
      at_exit s ver pfx info t h at_end,
    )
    | inr (on, (id, q, p, at, hq, at_peer)) ↦
        let s2 = next_head h on at hq at_peer in
        let same = (next_head-AtHead h on at hq at_peer).at_index in
        let rest =
          pfx_peer_loop-AtExit fuel s2 ver pfx (deactivated_entry info t s.iter.pfx_peer_it q)
            (next_table h on at hq at_peer)
            (subst
              (λ i.
                AtHead s2 ver i pfx (deactivated_entry info t s.iter.pfx_peer_it q)
                  (next_table h on at hq at_peer))
              (sym same) (next_head-AtHead h on at hq at_peer))
            (omega (arith, next_head-lt h on at hq at_peer)) in
        (
          rest.0,
          rest.1,
          next_head_runs h on at hq at_peer fuel ∙ rest.2,
          subst (λ i. AtExit rest.0 ver i pfx rest.1) same rest.3,
        )
  ]
