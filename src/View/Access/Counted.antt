-- ===== src/View/Access/Counted.antt =====
-- The counts that the accessors of lib/bgpview.c return are the numbers of what is in the tables.
use bgpview.Base.{ℕ, ◌+◌, ◌%◌, ◌≡◌, refl, ◌⊎◌, inl, inr, none, some, [], ◌∷◌, arith, if◌then◌else◌}
use bgpview.Khash.Buckets.{Buckets, total}
use bgpview.View.Field.{
  FieldState, invalid, active, inactive, u32, field_active, field_inactive, all_valid, cnt_by_mask,
  matches, Counts, one_if_active, one_if_inactive,
}
use bgpview.View.Types.{ipv4, ipv6, PfxInfo, PeerInfo, Env, View}
use bgpview.View.Invariant.{Tracks, Counted}
use bgpview.View.Access.{v4pfx_cnt, v6pfx_cnt, pfx_cnt, peer_cnt}

-- The masks that callers pass.
abbrev pub StateMask : ℕ → Type 0
StateMask m = (m ≡ field_active) ⊎ ((m ≡ field_inactive) ⊎ (m ≡ all_valid))

abbrev pub one_if_matches : ℕ → FieldState → ℕ
one_if_matches m s = if matches m s then 1 else 0

one_if_matches_active : (s : FieldState) → one_if_matches field_active s ≡ one_if_active s
unfolding matches
one_if_matches_active invalid = refl
one_if_matches_active active = refl
one_if_matches_active inactive = refl

one_if_matches_inactive : (s : FieldState) → one_if_matches field_inactive s ≡ one_if_inactive s
unfolding matches
one_if_matches_inactive invalid = refl
one_if_matches_inactive active = refl
one_if_matches_inactive inactive = refl

one_if_matches_valid :
    (s : FieldState) → one_if_matches all_valid s ≡ one_if_active s + one_if_inactive s
unfolding matches
one_if_matches_valid invalid = refl
one_if_matches_valid active = refl
one_if_matches_valid inactive = refl

module _ {K V : Type 0} (state : V → FieldState) where
  -- The number of entries in a state of the mask.
  abbrev pub count : ℕ → Buckets K V → ℕ
  count m t = total (λ k v. one_if_matches m (state v)) t

  count_by_state :
      (t : Buckets K V)
      → (count field_active t ≡ total (λ k v. one_if_active (state v)) t)
        × (count field_inactive t ≡ total (λ k v. one_if_inactive (state v)) t)
        × (count all_valid t
            ≡ total (λ k v. one_if_active (state v)) t + total (λ k v. one_if_inactive (state v)) t)
  count_by_state [] = (refl, refl, refl)
  count_by_state (none ∷ t) = count_by_state t
  count_by_state (some (k, v) ∷ t) =
      let rest = count_by_state t in
      (
        omega (arith, one_if_matches_active (state v), rest.0),
        omega (arith, one_if_matches_inactive (state v), rest.1),
        omega (arith, one_if_matches_valid (state v), rest.2),
      )

  -- A counter array that tracks the states of a table, read by a mask.
  pub cnt_by_mask-Tracks :
      (m : ℕ) (t : Buckets K V) (c : Counts)
      → StateMask m
      → Tracks u32 c
          (total (λ k v. one_if_active (state v)) t)
          (total (λ k v. one_if_inactive (state v)) t)
      → cnt_by_mask u32 c m ≡ count m t
  unfolding cnt_by_mask
  cnt_by_mask-Tracks m t c (inl e) h = rw e (omega (arith, h, count_by_state t))
  cnt_by_mask-Tracks m t c (inr (inl e)) h = rw e (omega (arith, h, count_by_state t))
  cnt_by_mask-Tracks m t c (inr (inr e)) h = rw e (ground (arith, h, count_by_state t))

module _ {E : Env} where
  -- Where the counters of a view are right, the accessors return, for a mask of valid states, the
  -- number of prefixes of a version, of all prefixes (reduced to 32 bits), and of peers that are in
  -- a state of the mask.
  pub pfx_cnt-Counted :
      (v : View E) (m : ℕ)
      → Counted v
      → StateMask m
      → let n4 = count (λ (info : PfxInfo). info.state) m v.v4pfxs in
        let n6 = count (λ (info : PfxInfo). info.state) m v.v6pfxs in
        (v4pfx_cnt v m ≡ n4)
        × (v6pfx_cnt v m ≡ n6)
        × (pfx_cnt v m ≡ (n4 + n6) % u32)
        × (peer_cnt v m ≡ count (λ (p : PeerInfo). p.state) m v.peerinfo)
  unfolding v4pfx_cnt v6pfx_cnt pfx_cnt peer_cnt
  pfx_cnt-Counted v m h mask =
      let e4 =
        cnt_by_mask-Tracks (λ (info : PfxInfo). info.state) m v.v4pfxs v.v4pfxs_cnt mask
          (h.pfxs ipv4) in
      let e6 =
        cnt_by_mask-Tracks (λ (info : PfxInfo). info.state) m v.v6pfxs v.v6pfxs_cnt mask
          (h.pfxs ipv6) in
      (
        e4,
        e6,
        rw (e4, e6) refl,
        cnt_by_mask-Tracks (λ (p : PeerInfo). p.state) m v.peerinfo v.peerinfo_cnt mask h.peers,
      )
