-- ===== src/View/Examples/Clear.antt =====
-- The small view is cleared.
use bgpview.Base.{◌≡◌, refl, some, []}
use bgpview.View.Types.{State}
use bgpview.View.Clear.{clear}
use bgpview.View.Clear.Whole.{Cleared, clear-Cleared}
use bgpview.View.Examples.{small, sample, at_pair}

clear-Cleared_example :
    (s' : State small) × (clear (λ t. []) 77 (at_pair 0 0) ≡ some (tt, s'))
    × (s'.iter ≡ (at_pair 0 0).iter)
    × (s'.calls ≡ (at_pair 0 0).calls)
    × Cleared 77 sample s'.view
clear-Cleared_example = clear-Cleared (λ t. []) (λ t. refl) 77 (at_pair 0 0)
