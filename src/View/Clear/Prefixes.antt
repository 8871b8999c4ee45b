-- ===== src/View/Clear/Prefixes.antt =====
-- The loop of bgpview_clear over the prefixes clears each of them.
use bgpview.Base.{
  ℕ, zero, suc, ◌+◌, ◌≤◌, ◌<◌, ◌≡◌, refl, sym, ap, subst, ◌∙◌, true, false, some, inl, inr, arith,
  length, drop, length-drop, ◌==◌, Bool-cases, Option-cases, if◌then◌else◌,
}
use bgpview.Khash.Buckets.{Buckets, slot, put_val, length-put_val}
use bgpview.Khash.Reset.{Swept, start-Swept, skip-Swept, put_val-Swept}
use bgpview.Khash.Scan.{skip, skip-le}
use bgpview.Khash.Stop.{skip_stops}
use bgpview.View.Field.{matches, all_valid}
use bgpview.View.Types.{unknown, ipv4, ipv6, PfxPeerInfo, PfxInfo, Env, View, State}
use bgpview.View.PfxIter.Order.{pfx_rounds}
use bgpview.View.State.{◌>>=◌}
use bgpview.View.PfxIter.{
  pfx_matches, first_pfx, next_pfx, has_more_pfx, iter_first_pfx, iter_has_more_pfx, move_next_pfx,
}
use bgpview.View.Clear.{cleared_pfx, clear_pfxs}

-- What bgpview_clear does to a prefix.
abbrev pub clear_one : (Buckets ℕ PfxPeerInfo → Buckets ℕ PfxPeerInfo) → PfxInfo → PfxInfo
clear_one kh_clear info = if matches all_valid info.state then cleared_pfx kh_clear info else info

-- The next prefix that bgpview_clear comes to, from an index on.
abbrev pub next_valid : {P : Type 0} → Buckets P PfxInfo → ℕ → ℕ
next_valid t j = skip (pfx_matches all_valid) (drop j t) j

module _ (kh_clear : Buckets ℕ PfxPeerInfo → Buckets ℕ PfxPeerInfo) where
  unmatched :
      (info : PfxInfo) → matches all_valid info.state ≡ false → clear_one kh_clear info ≡ info
  unmatched info e = ground arith

  matched :
      (info : PfxInfo)
      → matches all_valid info.state ≡ true
      → clear_one kh_clear info ≡ cleared_pfx kh_clear info
  matched info e = ground arith

  scanned :
      {P : Type 0} (t0 t : Buckets P PfxInfo) (j : ℕ)
      → Swept (clear_one kh_clear) j t0 t
      → Swept (clear_one kh_clear) (next_valid t j) t0 t
  scanned t0 t j =
      skip-Swept (clear_one kh_clear) (pfx_matches all_valid) (λ p info. unmatched info) t0 t j

module _ {P : Type 0} (t : Buckets P PfxInfo) (j : ℕ) where
  pub next_le : j ≤ length t → (j ≤ next_valid t j) × (next_valid t j ≤ length t)
  next_le le = omega (arith, skip-le (pfx_matches {P = P} all_valid) (drop j t) j, length-drop j t)

  -- Before the end of the table there is a prefix.
  pub found_there :
      next_valid t j < length t
      → (p : P) × (info : PfxInfo) × (slot t (next_valid t j) ≡ some (p, info))
        × (matches all_valid info.state ≡ true)
  found_there inside = elim (Option-cases (slot t (next_valid t j))) [
    | inl e ↦ absurd (nothing (sym stops ∙ ap (pfx_matches all_valid) e))
    | inr ((p, info), e) ↦ (p, info, e, sym (ap (pfx_matches all_valid) e) ∙ stops)
  ]
    where
      stops : pfx_matches all_valid (slot t (next_valid t j)) ≡ true
      stops = skip_stops (pfx_matches all_valid) t (drop j t) j refl before inside
        where
          before : j + length (drop j t) ≡ length t
          before =
              omega (arith, length-drop j t, skip-le (pfx_matches {P = P} all_valid) (drop j t) j)

      nothing : true ≡ false → ⊥
      nothing q = cc

module _ {E : Env} (kh_clear : Buckets ℕ PfxPeerInfo → Buckets ℕ PfxPeerInfo) where
  -- The rest of the loop, on the IPv6 prefixes.
  clear_v6 :
      (t0 : Buckets E.Pfx PfxInfo) (fuel : ℕ) (s : State E) (j : ℕ)
      → s.iter.version_ptr ≡ ipv6
      → s.iter.pfx_state_mask ≡ all_valid
      → s.iter.pfx_it ≡ next_valid s.view.v6pfxs j
      → j ≤ length s.view.v6pfxs
      → length s.view.v6pfxs < j + fuel
      → Swept (clear_one kh_clear) j t0 s.view.v6pfxs
      → (s' : State E) × (clear_pfxs kh_clear fuel s ≡ some (tt, s'))
        × Swept (clear_one kh_clear) (length t0) t0 s'.view.v6pfxs
        × (s'.view ≡ record s.view { v6pfxs = s'.view.v6pfxs })
        × (s'.calls ≡ s.calls)
  unfolding clear_pfxs iter_has_more_pfx has_more_pfx move_next_pfx next_pfx
  clear_v6 t0 zero s j ver mask at le h inv = absurd (omega arith)
  clear_v6 t0 (suc fuel) s j ver mask at le h inv =
      let t = s.view.v6pfxs in
      let k = next_valid t j in
      let bounds = next_le t j le in
      elim (Bool-cases (k == length t)) [
        | inl done ↦ (
          s,
          ground arith,
          subst (λ n. Swept (clear_one kh_clear) n t0 t) (ground (arith, inv.len))
              (scanned kh_clear t0 t j inv),
          refl,
          refl,
        )
        | inr more ↦
            let inside : k < length t = ground arith in
            let (p, info, e, valid) = found_there t j inside in
            let t' = put_val t k (cleared_pfx kh_clear info) in
            let same = length-put_val t k (cleared_pfx kh_clear info) in
            let s1 = record s {
              view = record s.view { v6pfxs = t' };
              iter = record s.iter { pfx_peer_it_valid = false; pfx_it = next_valid t' (k + 1) };
            } in
            let (s', run, all, rest, calls) =
              clear_v6 t0 fuel s1 (k + 1) ver mask refl (omega (arith, same))
                (omega (arith, same, bounds.0))
                (put_val-Swept (clear_one kh_clear) t0 t k p info (cleared_pfx kh_clear info) e
                  (matched kh_clear info valid) (scanned kh_clear t0 t j inv)) in
            (s', ground (arith, run, e, same), all, rest, calls)
      ]

  -- The rest of the loop, on an IPv4 prefix: the rest of these, then the IPv6 ones.
  clear_v4 :
      (t0 : Buckets E.Pfx PfxInfo) (fuel : ℕ) (s : State E) (j : ℕ)
      → s.iter.version_ptr ≡ ipv4
      → s.iter.version_filter ≡ unknown
      → s.iter.pfx_state_mask ≡ all_valid
      → s.iter.pfx_it ≡ next_valid s.view.v4pfxs j
      → s.iter.pfx_it < length s.view.v4pfxs
      → j ≤ length s.view.v4pfxs
      → length s.view.v4pfxs + length s.view.v6pfxs + 1 < j + fuel
      → Swept (clear_one kh_clear) j t0 s.view.v4pfxs
      → (s' : State E) × (clear_pfxs kh_clear fuel s ≡ some (tt, s'))
        × Swept (clear_one kh_clear) (length t0) t0 s'.view.v4pfxs
        × Swept (clear_one kh_clear) (length s.view.v6pfxs) s.view.v6pfxs s'.view.v6pfxs
        × (s'.view ≡ record s.view { v4pfxs = s'.view.v4pfxs; v6pfxs = s'.view.v6pfxs })
        × (s'.calls ≡ s.calls)
  unfolding clear_pfxs iter_has_more_pfx has_more_pfx move_next_pfx next_pfx first_pfx
  clear_v4 t0 zero s j ver both mask at inside le h inv = absurd (omega arith)
  clear_v4 t0 (suc fuel) s j ver both mask at inside le h inv =
      let t = s.view.v4pfxs in
      let k = next_valid t j in
      let bounds = next_le t j le in
      let (p, info, e, valid) = found_there t j (omega (arith, at)) in
      let t' = put_val t k (cleared_pfx kh_clear info) in
      let same = length-put_val t k (cleared_pfx kh_clear info) in
      let before =
        put_val-Swept (clear_one kh_clear) t0 t k p info (cleared_pfx kh_clear info) e
          (matched kh_clear info valid) (scanned kh_clear t0 t j inv) in
      let next = next_le t' (k + 1) (omega (arith, same, at)) in
      let v' = record s.view { v4pfxs = t' } in
      elim (Bool-cases (next_valid t' (k + 1) == length t')) [
        | inl done ↦
            let s1 = record s {
              view = v';
              iter = record s.iter {
                version_filter = ipv6;
                version_ptr = ipv6;
                pfx_state_mask = all_valid;
                pfx_peer_it_valid = false;
                pfx_it = next_valid s.view.v6pfxs 0;
              };
            } in
            let (s', run, all, rest, calls) =
              clear_v6 s.view.v6pfxs fuel s1 0 refl refl refl (omega arith)
                (omega (arith, bounds.0)) (start-Swept (clear_one kh_clear) s.view.v6pfxs) in
            let kept : s'.view.v4pfxs ≡ t' = ap (λ (v : View E). v.v4pfxs) rest in
            (
              s',
              ground (arith, run, e, same),
              subst (Swept (clear_one kh_clear) (length t0) t0) (sym kept) (
                  subst (λ n. Swept (clear_one kh_clear) n t0 t') (ground (arith, before.len))
                    (scanned kh_clear t0 t' (k + 1) before)),
              all,
              rest ∙ ap (λ u. record s.view { v4pfxs = u; v6pfxs = s'.view.v6pfxs }) (sym kept),
              calls,
            )
        | inr more ↦
            let s1 = record s {
              view = v';
              iter = record s.iter { pfx_peer_it_valid = false; pfx_it = next_valid t' (k + 1) };
            } in
            let (s', run, all4, all6, rest, calls) =
              clear_v4 t0 fuel s1 (k + 1) ver both mask refl (ground (arith, next))
                (omega (arith, same, at)) (omega (arith, same, bounds.0)) before in
            (s', ground (arith, run, e, same), all4, all6, rest, calls)
      ]

  -- The loop with its start.
  pub clear_pfxs-Swept :
      (s : State E)
      → (s' : State E) × (((iter_first_pfx unknown all_valid)
              >>= (λ _. clear_pfxs kh_clear (pfx_rounds s.view)))
            s
          ≡ some (tt, s'))
        × Swept (clear_one kh_clear) (length s.view.v4pfxs) s.view.v4pfxs s'.view.v4pfxs
        × Swept (clear_one kh_clear) (length s.view.v6pfxs) s.view.v6pfxs s'.view.v6pfxs
        × (s'.view ≡ record s.view { v4pfxs = s'.view.v4pfxs; v6pfxs = s'.view.v6pfxs })
        × (s'.calls ≡ s.calls)
  unfolding iter_first_pfx first_pfx
  clear_pfxs-Swept s =
      let t = s.view.v4pfxs in
      let u = s.view.v6pfxs in
      let none_yet = start-Swept (clear_one kh_clear) t in
      let first = next_le t 0 (omega arith) in
      let s1 = record s { iter = (first_pfx s.view unknown all_valid s.iter).0 } in
      elim (Bool-cases (next_valid t 0 == length t)) [
        | inl done ↦
            let (s', run, all, rest, calls) =
              clear_v6 u (pfx_rounds s.view) s1 0 (ground arith) (ground arith) (ground arith)
                (omega arith) (omega arith) (start-Swept (clear_one kh_clear) u) in
            let kept : s'.view.v4pfxs ≡ t = ap (λ (v : View E). v.v4pfxs) rest in
            (
              s',
              ground (arith, run),
              subst (Swept (clear_one kh_clear) (length t) t) (sym kept) (
                  subst (λ n. Swept (clear_one kh_clear) n t t) (ground arith)
                    (scanned kh_clear t t 0 none_yet)),
              all,
              rest ∙ ap (λ x. record s.view { v4pfxs = x; v6pfxs = s'.view.v6pfxs }) (sym kept),
              calls,
            )
        | inr more ↦
            let (s', run, all4, all6, rest, calls) =
              clear_v4 t (pfx_rounds s.view) s1 0 (ground arith) (ground arith) (ground arith)
                (ground arith) (ground (arith, first)) (omega arith) (omega arith) none_yet in
            (s', ground (arith, run), all4, all6, rest, calls)
      ]
