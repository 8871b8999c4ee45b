-- ===== src/View/PfxIter/Order.antt =====
-- `for (bgpview_iter_first_pfx(..); bgpview_iter_has_more_pfx(..); bgpview_iter_next_pfx(..))`, the
-- loop of every consumer over the prefixes, and what it visits.
use bgpview.Base.{
  ℕ, zero, suc, ◌+◌, ◌≤◌, ◌<◌, ◌≡◌, refl, sym, Bool, true, false, some, List, [], ◌∷◌, ◌++◌, map,
  arith, inl, inr, length, drop, length-drop, Bool-cases, ◌==◌, Option,
}
use bgpview.Khash.Scan.{skip, matching, matches_at, matching-skip, skip-le}
use bgpview.View.Types.{AddrVersion, unknown, ipv4, ipv6, Env, View, State}
use bgpview.View.State.{Action, pure, fault, get_iter, ◌>>=◌}
use bgpview.View.PfxIter.{
  pfx_matches, first_pfx, next_pfx, has_more_pfx, iter_first_pfx, iter_next_pfx, iter_has_more_pfx,
  move_next_pfx,
}

module _ {B : Type 0} (match : Option B → Bool) (t : List (Option B)) where
  -- Where the scan goes next, and what is left from there.
  next_le : (k : ℕ) → k ≤ length t → skip match (drop k t) k ≤ length t
  next_le k h = omega (arith, skip-le match (drop k t) k, length-drop k t)

  next_ge : (k : ℕ) → k ≤ skip match (drop k t) k
  next_ge k = (skip-le match (drop k t) k).0

  matches_at-next :
      (k : ℕ)
      → k ≤ length t
      → matches_at match t (skip match (drop k t) k) ≡ matching match (drop k t) k
  matches_at-next k h =
      sym (matching-skip match t (drop k t) k refl (omega (arith, length-drop k t)))

module _ {E : Env} where
  -- The rest of the loop: the versions and the indices of the prefixes that it visits.
  pub pfx_loop : ℕ → Action E (List (AddrVersion × ℕ))
  pfx_loop zero = fault
  pfx_loop (suc fuel) = do
    more ← iter_has_more_pfx
    elim more [
      | false ↦ pure []
      | true ↦ (do
        it ← get_iter
        _ ← iter_next_pfx
        rest ← pfx_loop fuel
        pure ((it.version_ptr, it.pfx_it) ∷ rest))
    ]

  pub for_pfxs : ℕ → AddrVersion → ℕ → Action E (List (AddrVersion × ℕ))
  for_pfxs fuel ver mask = do _ ← iter_first_pfx ver mask; pfx_loop fuel

  -- What a run of the loop is to return, and that it leaves the view alone.
  abbrev Visits : ℕ → State E → List (AddrVersion × ℕ) → Type 0
  Visits fuel s l = (s' : State E) × (pfx_loop fuel s ≡ some (l, s')) × (s'.view ≡ s.view)

  loop_v6 :
      (fuel : ℕ) (s : State E)
      → s.iter.version_ptr ≡ ipv6
      → s.iter.pfx_it ≤ length s.view.v6pfxs
      → length s.view.v6pfxs < s.iter.pfx_it + fuel
      → Visits fuel s (
          map
            (λ i. (ipv6, i))
            (matches_at (pfx_matches s.iter.pfx_state_mask) s.view.v6pfxs s.iter.pfx_it))
  unfolding pfx_loop iter_has_more_pfx has_more_pfx iter_next_pfx move_next_pfx next_pfx
  loop_v6 zero s at le h = absurd (omega arith)
  loop_v6 (suc fuel) s at le h = elim (Bool-cases (s.iter.pfx_it == length s.view.v6pfxs)) [
    | inl done ↦ (s, ground arith, refl)
    | inr more ↦
        let t = s.view.v6pfxs in
        let k = s.iter.pfx_it + 1 in
        let m = pfx_matches {P = E.Pfx} s.iter.pfx_state_mask in
        let in_table : s.iter.pfx_it < length t = ground arith in
        let rest =
          loop_v6 fuel (record s { iter = next_pfx s.view s.iter }) (ground arith)
            (ground (arith, next_le m t k)) (ground (arith, next_ge m t k)) in
        (rest.0, ground (arith, rest.1, matches_at-next m t k), rest.2)
  ]

  -- The loop over IPv4 alone.
  loop_v4 :
      (fuel : ℕ) (s : State E)
      → s.iter.version_ptr ≡ ipv4
      → s.iter.version_filter ≡ ipv4
      → s.iter.pfx_it ≤ length s.view.v4pfxs
      → length s.view.v4pfxs < s.iter.pfx_it + fuel
      → Visits fuel s (
          map
            (λ i. (ipv4, i))
            (matches_at (pfx_matches s.iter.pfx_state_mask) s.view.v4pfxs s.iter.pfx_it))
  unfolding pfx_loop iter_has_more_pfx has_more_pfx iter_next_pfx move_next_pfx next_pfx
  loop_v4 zero s at only le h = absurd (omega arith)
  loop_v4 (suc fuel) s at only le h = elim (Bool-cases (s.iter.pfx_it == length s.view.v4pfxs)) [
    | inl done ↦ (s, ground arith, refl)
    | inr more ↦
        let t = s.view.v4pfxs in
        let k = s.iter.pfx_it + 1 in
        let m = pfx_matches {P = E.Pfx} s.iter.pfx_state_mask in
        let in_table : s.iter.pfx_it < length t = ground arith in
        let rest =
          loop_v4 fuel (record s { iter = next_pfx s.view s.iter }) (ground arith) (ground arith)
            (ground (arith, next_le m t k)) (ground (arith, next_ge m t k)) in
        (rest.0, ground (arith, rest.1, matches_at-next m t k), rest.2)
  ]

  -- The loop over both versions, on an IPv4 prefix: the rest of these, then all IPv6 ones.
  loop_both :
      (fuel : ℕ) (s : State E)
      → s.iter.version_ptr ≡ ipv4
      → s.iter.version_filter ≡ unknown
      → s.iter.pfx_it < length s.view.v4pfxs
      → length s.view.v4pfxs + length s.view.v6pfxs + 1 < s.iter.pfx_it + fuel
      → let m = pfx_matches s.iter.pfx_state_mask in
        Visits fuel s (
          map (λ i. (ipv4, i)) (matches_at m s.view.v4pfxs s.iter.pfx_it)
          ++ map (λ i. (ipv6, i)) (matching m s.view.v6pfxs 0))
  unfolding pfx_loop iter_has_more_pfx has_more_pfx iter_next_pfx move_next_pfx next_pfx first_pfx
  loop_both zero s at both le h = absurd (omega arith)
  loop_both (suc fuel) s at both le h =
      let t = s.view.v4pfxs in
      let k = s.iter.pfx_it + 1 in
      let m = pfx_matches {P = E.Pfx} s.iter.pfx_state_mask in
      let s1 = record s { iter = next_pfx s.view s.iter } in
      elim (Bool-cases (skip m (drop k t) k == length t)) [
        | inl done ↦
            let rest =
              loop_v6 fuel s1 (ground arith) (ground (arith, skip-le m s.view.v6pfxs 0))
                (ground (arith, skip-le m s.view.v6pfxs 0)) in
            (
              rest.0,
              ground (arith, rest.1, matches_at-next m t k, matches_at-next m s.view.v6pfxs 0),
              rest.2,
            )
        | inr more ↦
            let rest =
              loop_both fuel s1 (ground arith) (ground arith) (ground (arith, next_le m t k))
                (ground (arith, next_ge m t k)) in
            (rest.0, ground (arith, rest.1, matches_at-next m t k), rest.2)
      ]

  -- The prefixes of the view in one of the states of the mask, of one version or, for version 0, of
  -- IPv4 and then IPv6, in the order of their tables.
  abbrev pub pfxs_matching : View E → AddrVersion → ℕ → List (AddrVersion × ℕ)
  pfxs_matching v ver mask =
      let v4 = map (λ i. (ipv4, i)) (matching (pfx_matches mask) v.v4pfxs 0) in
      let v6 = map (λ i. (ipv6, i)) (matching (pfx_matches mask) v.v6pfxs 0) in
      elim ver [ unknown ↦ v4 ++ v6 | ipv4 ↦ v4 | ipv6 ↦ v6 ]

  abbrev pub pfx_rounds : View E → ℕ
  pfx_rounds v = length v.v4pfxs + length v.v6pfxs + 2

  -- The loop returns, leaves the view alone, and visits exactly the prefixes of the asked version (or
  -- of both) in one of the states of the mask, each once and in order.
  pub for_pfxs-matching :
      (s : State E) (ver : AddrVersion) (mask : ℕ)
      → (s' : State E) × (for_pfxs (pfx_rounds s.view) ver mask s
          ≡ some (pfxs_matching s.view ver mask, s'))
        × (s'.view ≡ s.view)
  unfolding for_pfxs iter_first_pfx first_pfx
  for_pfxs-matching s ipv6 mask =
      let m = pfx_matches {P = E.Pfx} mask in
      let t = s.view.v6pfxs in
      let rest =
        loop_v6 (pfx_rounds s.view) (record s { iter = (first_pfx s.view ipv6 mask s.iter).0 }) refl
          (omega (arith, skip-le m t 0)) (omega (arith, skip-le m t 0)) in
      (rest.0, ground (arith, rest.1, matches_at-next m t 0), rest.2)
  for_pfxs-matching s ipv4 mask =
      let m = pfx_matches {P = E.Pfx} mask in
      let t = s.view.v4pfxs in
      let rest =
        loop_v4 (pfx_rounds s.view) (record s { iter = (first_pfx s.view ipv4 mask s.iter).0 })
          (ground arith) (ground arith) (ground (arith, skip-le m t 0))
          (ground (arith, skip-le m t 0)) in
      (rest.0, ground (arith, rest.1, matches_at-next m t 0), rest.2)
  for_pfxs-matching s unknown mask =
      let m = pfx_matches {P = E.Pfx} mask in
      let t = s.view.v4pfxs in
      let u = s.view.v6pfxs in
      let s1 = record s { iter = (first_pfx s.view unknown mask s.iter).0 } in
      elim (Bool-cases (skip m t 0 == length t)) [
        | inl done ↦
            let rest =
              loop_v6 (pfx_rounds s.view) s1 (ground arith) (ground (arith, skip-le m u 0))
                (ground (arith, skip-le m u 0)) in
            (rest.0, ground (arith, rest.1, matches_at-next m t 0, matches_at-next m u 0), rest.2)
        | inr more ↦
            let rest =
              loop_both (pfx_rounds s.view) s1 (ground arith) (ground arith)
                (ground (arith, skip-le m t 0)) (ground (arith, skip-le m t 0)) in
            (rest.0, ground (arith, rest.1, matches_at-next m t 0), rest.2)
      ]
