-- ===== src/View/Clear/Peers.antt =====
-- The loop of bgpview_clear over the peers.
use bgpview.Base.{
  ℕ, zero, suc, ◌+◌, ◌≤◌, ◌<◌, ◌≡◌, refl, sym, ap, subst, ◌∙◌, true, false, some, inl, inr, arith,
  length, drop, length-drop, ◌==◌, ltb, Bool-cases, Option-cases, if◌then◌else◌,
}
use bgpview.Khash.Buckets.{Buckets, slot, put_val, length-put_val}
use bgpview.Khash.Reset.{Swept, start-Swept, skip-Swept, put_val-Swept}
use bgpview.Khash.Scan.{skip, skip-le}
use bgpview.Khash.Stop.{skip_stops}
use bgpview.View.Field.{matches, all_valid, no_counts}
use bgpview.View.Types.{PeerInfo, Env, View, State}
use bgpview.View.PeerIter.{peer_matches, first_peer, next_peer, has_more_peer}
use bgpview.View.Remove.{peerinfo_reset}
use bgpview.View.Clear.{kh_size, clear_peers, clear_peerinfo}

-- What bgpview_clear does to a peer.
abbrev pub reset_one : PeerInfo → PeerInfo
reset_one p = if matches all_valid p.state then peerinfo_reset p else p

unmatched : (p : PeerInfo) → matches all_valid p.state ≡ false → reset_one p ≡ p
unmatched p e = ground arith

valid_reset : (p : PeerInfo) → matches all_valid p.state ≡ true → reset_one p ≡ peerinfo_reset p
valid_reset p e = ground arith

-- The scan from an index passes over invalid peers only.
scanned :
    (t0 t : Buckets ℕ PeerInfo) (j : ℕ)
    → Swept reset_one j t0 t
    → Swept reset_one (skip (peer_matches all_valid) (drop j t) j) t0 t
scanned t0 t j = skip-Swept reset_one (peer_matches all_valid) (λ id p. unmatched p) t0 t j

module _ {E : Env} where
  -- The loop ends; it resets the valid peers, and changes nothing else.
  clear_peers_lem :
      (t0 : Buckets ℕ PeerInfo) (fuel : ℕ) (s : State E) (j : ℕ)
      → s.iter.peer_state_mask ≡ all_valid
      → s.iter.peer_it ≡ skip (peer_matches all_valid) (drop j s.view.peerinfo) j
      → j ≤ length s.view.peerinfo
      → length s.view.peerinfo < j + fuel
      → Swept reset_one j t0 s.view.peerinfo
      → (s' : State E) × (clear_peers fuel s ≡ some (tt, s'))
        × Swept reset_one (length t0) t0 s'.view.peerinfo
        × (s'.view ≡ record s.view { peerinfo = s'.view.peerinfo })
        × (s'.calls ≡ s.calls)
  unfolding clear_peers has_more_peer next_peer
  clear_peers_lem t0 zero s j mask at le h inv = absurd (omega arith)
  clear_peers_lem t0 (suc fuel) s j mask at le h inv =
      let t = s.view.peerinfo in
      let k = skip (peer_matches all_valid) (drop j t) j in
      let bounds = skip-le (peer_matches all_valid) (drop j t) j in
      let len = length-drop j t in
      elim (Bool-cases (k == length t)) [
        | inl done ↦ (
          s,
          ground arith,
          subst (λ n. Swept reset_one n t0 t) (ground (arith, inv.len)) (scanned t0 t j inv),
          refl,
          refl,
        )
        | inr more ↦
            let inside : k < length t = ground arith in
            let stops =
              skip_stops (peer_matches all_valid) t (drop j t) j refl (omega (arith, len)) inside in
            elim (Option-cases (slot t k)) [
              | inl e ↦ absurd (nothing (sym stops ∙ ap (peer_matches all_valid) e))
              | inr ((id, p), e) ↦
                  let t' = put_val t k (peerinfo_reset p) in
                  let same = length-put_val t k (peerinfo_reset p) in
                  let s1 = record s {
                    view = record s.view { peerinfo = t' };
                    iter = record s.iter {
                      peer_it = skip (peer_matches all_valid) (drop (k + 1) t') (k + 1);
                    };
                  } in
                  let (s', run, all, rest, calls) =
                    clear_peers_lem t0 fuel s1 (k + 1) mask refl (omega (arith, same))
                      (omega (arith, same, bounds.0))
                      (put_val-Swept reset_one t0 t k id p (peerinfo_reset p) e
                        (valid_reset p (sym (ap (peer_matches all_valid) e) ∙ stops))
                        (scanned t0 t j inv)) in
                  (s', ground (arith, run, e), all, rest, calls)
            ]
      ]
    where
      nothing : true ≡ false → ⊥
      nothing q = cc

module _ {E : Env} where
  -- The loop with what is set after it.
  pub clear_peerinfo-Swept :
      (s : State E)
      → (s' : State E) × (clear_peerinfo s ≡ some (tt, s'))
        × Swept reset_one (length s.view.peerinfo) s.view.peerinfo s'.view.peerinfo
        × (s'.view ≡ record s.view {
          peerinfo = s'.view.peerinfo;
          peerinfo_cnt = no_counts;
          need_gc_peerinfo = ltb 0 (kh_size s'.view.peerinfo);
        })
        × (s'.calls ≡ s.calls)
  unfolding clear_peerinfo first_peer
  clear_peerinfo-Swept s =
      let s1 = record s { iter = first_peer s.view all_valid s.iter } in
      let (s', run, all, rest, calls) =
        clear_peers_lem s.view.peerinfo (suc (length s.view.peerinfo)) s1 0 refl refl (omega arith)
          (omega arith) (start-Swept reset_one s.view.peerinfo) in
      (
        record s' {
          view = record s'.view {
            need_gc_peerinfo = ltb 0 (kh_size s'.view.peerinfo);
            peerinfo_cnt = no_counts;
          };
        },
        ground (arith, run),
        all,
        ap
            (λ (v : View E). record v {
              need_gc_peerinfo = ltb 0 (kh_size s'.view.peerinfo);
              peerinfo_cnt = no_counts;
            })
            rest,
        calls,
      )
