-- ===== src/View/Examples/Seek.antt =====
-- Peers and prefixes of the small view are sought.
use bgpview.Base.{◌≡◌, refl, ◌⊎◌, zero, suc, false}
use bgpview.Khash.Buckets.{Unique}
use bgpview.View.Field.{all_valid}
use bgpview.View.Types.{ipv4, State}
use bgpview.View.PeerIter.Seek.{Found, Missed, iter_seek_peer-Found}
use bgpview.View.PfxIter.Seek.{FoundPfx, MissedPfx, PlacedPfxs, iter_seek_pfx-FoundPfx}
use bgpview.View.Examples.{small, sample, sample-Counted, at_pair}

iter_seek_peer-Found_example :
    (s' : State small) × (Found (at_pair 0 0) 2 all_valid s' ⊎ Missed (at_pair 0 0) 2 all_valid s')
    × (s'.view ≡ sample)
    × (s'.iter.pfx_peer_it_valid ≡ false)
iter_seek_peer-Found_example = iter_seek_peer-Found (at_pair 0 0) 2 all_valid sample-Counted.unique

one_key : Unique sample.v4pfxs
one_key zero j k x y ha hb = cc
one_key (suc zero) zero k x y ha hb = cc
one_key (suc zero) (suc zero) k x y ha hb = refl
one_key (suc zero) (suc (suc j)) k x y ha hb = cc
one_key (suc (suc i)) j k x y ha hb = cc

sample-PlacedPfxs : PlacedPfxs sample
sample-PlacedPfxs = record { v4pfxs = one_key; v6pfxs = λ i j k x y ha hb. cc }

iter_seek_pfx-FoundPfx_example :
    (s' : State small) × (FoundPfx (at_pair 0 0) 8 all_valid s'
      ⊎ MissedPfx (at_pair 0 0) 8 all_valid s')
    × (s'.view ≡ sample)
    × (s'.iter.pfx_peer_it_valid ≡ false)
iter_seek_pfx-FoundPfx_example =
    iter_seek_pfx-FoundPfx (at_pair 0 0) 8 all_valid ipv4 refl (λ e. cc) sample-PlacedPfxs
