-- ===== src/Moas/Process/Ends.antt =====
-- The loops over peers and prefixes, where they end well.
use bgpview.Base.{ℕ, zero, suc}
use bgpview.View.Types.{unknown, Env}
use bgpview.View.State.{get_view}
use bgpview.Io.Row.{Run, run}
use bgpview.View.PfxPeerIter.{
  iter_pfx_next_peer, iter_pfx_has_more_peer, iter_pfx_first_peer, pfx_peerinfos,
}
use bgpview.View.PfxIter.{iter_next_pfx, iter_first_pfx, iter_has_more_pfx}
use bgpview.View.Field.{field_active}
use bgpview.View.PfxIter.Order.{pfx_rounds}
use bgpview.View.Activate.{peer_fuel}
use bgpview.Io.Row.Ends.{Ends, Ends-bind, Ends-after, Ends-pure, Ends-if}
use bgpview.Moas.Process.{peers_loop, for_active_peers, pfxs_loop, for_active_pfxs}

-- What holds of the result of a loop if it holds at the start and the body keeps it.
module _ {E : Env} {A : Type 0} (body : A → Run E A) (P : A → Type 0)
    (keeps : (a : A) → P a → Ends (body a) P) where
  peers_loop-Ends : (fuel : ℕ) (a : A) → P a → Ends (peers_loop body fuel a) P
  unfolding peers_loop Ends
  peers_loop-Ends zero a p = λ b s s' e. cc
  peers_loop-Ends (suc fuel) a p = Ends-after (run iter_pfx_has_more_peer) _ P (λ more.
      Ends-if more _ _ P
        (Ends-bind (body a) _ P P (keeps a p)
          (λ c q. Ends-after (run iter_pfx_next_peer) _ P (λ _. peers_loop-Ends fuel c q)))
        (Ends-pure E a P p))

  pub for_active_peers-Ends : (a : A) → P a → Ends (for_active_peers body a) P
  unfolding for_active_peers
  for_active_peers-Ends a p = Ends-after (run pfx_peerinfos) _ P (λ info.
      Ends-after (run (iter_pfx_first_peer field_active)) _ P
        (λ _. peers_loop-Ends (peer_fuel info) a p))

  pfxs_loop-Ends : (fuel : ℕ) (a : A) → P a → Ends (pfxs_loop body fuel a) P
  unfolding pfxs_loop Ends
  pfxs_loop-Ends zero a p = λ b s s' e. cc
  pfxs_loop-Ends (suc fuel) a p = Ends-after (run iter_has_more_pfx) _ P (λ more.
      Ends-if more _ _ P
        (Ends-bind (body a) _ P P (keeps a p)
          (λ c q. Ends-after (run iter_next_pfx) _ P (λ _. pfxs_loop-Ends fuel c q)))
        (Ends-pure E a P p))

  pub for_active_pfxs-Ends : (a : A) → P a → Ends (for_active_pfxs body a) P
  unfolding for_active_pfxs
  for_active_pfxs-Ends a p = Ends-after (run get_view) _ P (λ v.
      Ends-after (run (iter_first_pfx unknown field_active)) _ P
        (λ _. pfxs_loop-Ends (pfx_rounds v) a p))
