-- ===== src/View/PeerIter/Seek.antt =====
-- bgpview_iter_seek_peer finds a peer that is there, and only that.
use bgpview.Base.{ℕ, ◌≡◌, refl, ◌⊎◌, inl, inr, true, false, some, arith, length, Bool-cases}
use bgpview.Khash.Buckets.{slot, slot-lt}
use bgpview.View.Field.{matches}
use bgpview.View.Types.{PeerInfo, Env, State}
use bgpview.View.PeerIter.{seek_peer, iter_seek_peer, has_more_peer}

module _ {E : Env} where
  -- The search for the peer `id` has found it, in a state of the mask.
  abbrev pub Found : State E → ℕ → ℕ → State E → Type 0
  Found s id mask s' =
      (iter_seek_peer id mask s ≡ some (true, s'))
      × ((p : PeerInfo) × (slot s.view.peerinfo s'.iter.peer_it ≡ some (id, p))
          × (matches mask p.state ≡ true))

  -- It ended past the table, and no such peer is there.
  abbrev pub Missed : State E → ℕ → ℕ → State E → Type 0
  Missed s id mask s' =
      (iter_seek_peer id mask s ≡ some (false, s'))
      × (has_more_peer s'.view s'.iter ≡ false)
      × ((i : ℕ) (p : PeerInfo)
          → slot s.view.peerinfo i ≡ some (id, p)
          → matches mask p.state ≡ false)

  -- In a peer table that khash.h built, the search returns; it finds the peer if the table has it in
  -- a state of the mask, and otherwise reports that it is not there and leaves the iterator past the
  -- end. Either way the view stays and the iterator is on no entry of a prefix.
  pub iter_seek_peer-Found :
      (s : State E) (id mask : ℕ)
      → E.peerinfo_hash.Placed s.view.peerinfo
      → (s' : State E) × (Found s id mask s' ⊎ Missed s id mask s')
        × (s'.view ≡ s.view)
        × (s'.iter.pfx_peer_it_valid ≡ false)
  unfolding iter_seek_peer seek_peer has_more_peer
  iter_seek_peer-Found s id mask placed =
      let t = s.view.peerinfo in
      let k = E.peerinfo_hash.get t id in
      let it = record s.iter { pfx_peer_it_valid = false; peer_state_mask = mask; peer_it = k } in
      elim (E.peerinfo_hash.get_cases t id placed) [
        | inl (p, at) ↦
            let in_table = slot-lt t k at in
            elim (Bool-cases (matches mask p.state)) [
              | inl hit ↦
                  (record s { iter = it }, inl (ground (arith, in_table), (p, at, hit)), refl, refl)
              | inr miss ↦ (
                record s { iter = record it { peer_it = length t } },
                inr (
                  ground (arith, in_table),
                  ground arith,
                  λ i q e. ground (arith, E.peerinfo_hash.placed_unique t placed i k id q p e at),
                ),
                refl,
                refl,
              )
            ]
        | inr (at_end, gone) ↦ (
          record s { iter = it },
          inr (ground arith, ground arith, λ i q e. absurd (gone i id q e refl)),
          refl,
          refl,
        )
      ]
