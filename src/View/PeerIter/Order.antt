-- ===== src/View/PeerIter/Order.antt =====
-- `for (bgpview_iter_first_peer(..); bgpview_iter_has_more_peer(..); bgpview_iter_next_peer(..))`, the
-- loop of every consumer, and what it visits.
use bgpview.Base.{
  ℕ, zero, suc, ◌+◌, ◌≤◌, ◌<◌, ◌≡◌, refl, ap, ◌∙◌, true, false, some, List, [], ◌∷◌, arith, inl,
  inr, length, drop, length-drop, Bool-cases, ◌==◌,
}
use bgpview.Khash.Scan.{matching, visit, visit-skip, skip-le}
use bgpview.View.Types.{Env, State}
use bgpview.View.State.{Action, pure, fault, get_iter, ◌>>=◌}
use bgpview.View.PeerIter.{
  peer_matches, first_peer, next_peer, iter_first_peer, iter_next_peer, iter_has_more_peer,
  has_more_peer,
}

ltb_of_le_ne : {a b : ℕ} → a ≤ b → (a == b) ≡ false → a < b
ltb_of_le_ne h e = ground arith

module _ {E : Env} where
  -- The rest of the loop: the indices of the peers that it visits.
  pub peer_loop : ℕ → Action E (List ℕ)
  peer_loop zero = fault
  peer_loop (suc fuel) = do
    more ← iter_has_more_peer
    elim more [
      | false ↦ pure []
      | true ↦ (do
        it ← get_iter
        _ ← iter_next_peer
        rest ← peer_loop fuel
        pure (it.peer_it ∷ rest))
    ]

  pub for_peers : ℕ → ℕ → Action E (List ℕ)
  for_peers fuel mask = do _ ← iter_first_peer mask; peer_loop fuel

  peer_loop-visit :
      (fuel : ℕ) (s : State E)
      → s.iter.peer_it ≤ length s.view.peerinfo
      → length s.view.peerinfo < s.iter.peer_it + fuel
      → (s' : State E) × (peer_loop fuel s
          ≡ some
              (visit (peer_matches s.iter.peer_state_mask) fuel s.view.peerinfo s.iter.peer_it, s'))
        × (s'.view ≡ s.view)
  unfolding peer_loop iter_has_more_peer has_more_peer iter_next_peer next_peer visit
  peer_loop-visit zero s le h = absurd (omega arith)
  peer_loop-visit (suc fuel) s le h = elim (Bool-cases (s.iter.peer_it == length s.view.peerinfo)) [
    | inl done ↦ (s, ground arith, refl)
    | inr more ↦
        let t = s.view.peerinfo in
        let k = s.iter.peer_it + 1 in
        let bound = skip-le (peer_matches s.iter.peer_state_mask) (drop k t) k in
        let rest =
          peer_loop-visit fuel (record s { iter = next_peer s.view s.iter })
            (omega (arith, bound, length-drop k t, ltb_of_le_ne le more)) (omega (arith, bound)) in
        (rest.0, ground (arith, rest.1), rest.2)
  ]

  -- The loop returns, leaves the view alone, and visits exactly the peers of the view in one of the
  -- states of the mask, each once and in the order of the table.
  pub for_peers-matching :
      (s : State E) (mask : ℕ)
      → (s' : State E) × (for_peers (length s.view.peerinfo + 1) mask s
          ≡ some (matching (peer_matches mask) s.view.peerinfo 0, s'))
        × (s'.view ≡ s.view)
  unfolding for_peers iter_first_peer first_peer
  for_peers-matching s mask =
      let t = s.view.peerinfo in
      let bound = skip-le (peer_matches mask) t 0 in
      let run =
        peer_loop-visit (length t + 1) (record s { iter = first_peer s.view mask s.iter })
          (omega (arith, bound)) (omega (arith, bound)) in
      (
        run.0,
        run.1
            ∙ ap (λ l. some (l, run.0))
                (visit-skip (peer_matches mask) (length t + 1) t t 0 refl (omega arith)
                  (omega arith)),
        run.2,
      )
