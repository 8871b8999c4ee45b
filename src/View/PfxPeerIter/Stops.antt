-- ===== src/View/PfxPeerIter/Stops.antt =====
-- Where bgpview_iter_next_pfx_peer stops.
use bgpview.Base.{ℕ, ◌≡◌, refl, true, false, none, some, arith, inl, inr, Option-cases}
use bgpview.Khash.Buckets.{Buckets, slot, slot-lt}
use bgpview.Khash.Scan.{skip}
use bgpview.Khash.Stop.{skip_stops}
use bgpview.View.Types.{PfxPeerInfo, PfxInfo, Env, View, Iter, State}
use bgpview.View.State.{pfx_table}
use bgpview.View.PfxIter.{has_more_pfx, iter_has_more_pfx, move_next_pfx}
use bgpview.View.Create.{peer_table}
use bgpview.View.PfxPeerIter.{
  pfx_peer_matches, first_pfx_peer, move_first_pfx_peer, move_next_pfx_peer, iter_pfx_has_more_peer,
  move_next_all, iter_has_more_pfx_peer, iter_next_pfx_peer,
}

-- No entry of the prefix is in a state of the mask.
abbrev pub NoMatch : ℕ → PfxInfo → Type 0
NoMatch mask info = (l : ℕ) → pfx_peer_matches mask (slot (peer_table info) l) ≡ false

-- The scan for an entry goes to the end.
skip-NoMatch :
    (mask : ℕ) (t : Buckets ℕ PfxPeerInfo)
    → ((l : ℕ) → pfx_peer_matches mask (slot t l) ≡ false)
    → slot t (skip (pfx_peer_matches mask) t 0) ≡ none
skip-NoMatch mask t h = elim (Option-cases (slot t (skip (pfx_peer_matches mask) t 0))) [
  | inl e ↦ e
  | inr (e, at) ↦
      let found = skip_stops (pfx_peer_matches mask) t t 0 refl (omega arith) (slot-lt t _ at) in
      absurd (ground (arith, h (skip (pfx_peer_matches mask) t 0)))
]

module _ {E : Env} where
  first_pfx_peer-NoMatch :
      (v : View E) (info : PfxInfo) (mask : ℕ) (it : Iter)
      → NoMatch mask info
      → ((first_pfx_peer v info mask it).pfx_peer_it_valid ≡ false)
        × ((first_pfx_peer v info mask it).pfx_it ≡ it.pfx_it)
        × ((first_pfx_peer v info mask it).version_ptr ≡ it.version_ptr)
  unfolding first_pfx_peer
  first_pfx_peer-NoMatch v info mask it h = elim (Option-cases info.peers) [
    | inl e ↦ rw e (refl, refl, refl)
    | inr (t, e) ↦
        let past = skip-NoMatch mask t (rw e at h) in (ground arith, ground arith, ground arith)
  ]

  -- The iterator is on the last matching entry of a prefix (`s1` is where the next step leaves it),
  -- and no entry of the next matching prefix (that of `s2`) matches. Then the iterator stops there
  -- and reports that there is no more, whatever the prefixes after it hold.
  pub iter_next_pfx_peer_stops :
      (s s1 s2 : State E) (pfx : E.Pfx) (info : PfxInfo)
      → has_more_pfx s.view s.iter ≡ true
      → move_next_pfx_peer s ≡ some (tt, s1)
      → s1.iter.pfx_peer_it_valid ≡ false
      → move_next_pfx s1 ≡ some (tt, s2)
      → has_more_pfx s2.view s2.iter ≡ true
      → slot (pfx_table s2.iter.version_ptr s2.view) s2.iter.pfx_it ≡ some (pfx, info)
      → NoMatch s2.iter.pfx_peer_state_mask info
      → (s3 : State E) × (iter_next_pfx_peer s ≡ some (false, s3))
        × (s3.view ≡ s2.view)
        × (s3.iter.pfx_it ≡ s2.iter.pfx_it)
        × (s3.iter.version_ptr ≡ s2.iter.version_ptr)
        × (iter_has_more_pfx_peer s3 ≡ some (false, s3))
  unfolding iter_next_pfx_peer move_next_all iter_has_more_pfx_peer iter_has_more_pfx
      iter_pfx_has_more_peer move_first_pfx_peer
  iter_next_pfx_peer_stops s s1 s2 pfx info more step off next left at none_match =
      let it3 = first_pfx_peer s2.view info s2.iter.pfx_peer_state_mask s2.iter in
      let stay =
        first_pfx_peer-NoMatch s2.view info s2.iter.pfx_peer_state_mask s2.iter none_match in
      (record s2 { iter = it3 }, ground arith, refl, stay.1, stay.2, ground arith)
