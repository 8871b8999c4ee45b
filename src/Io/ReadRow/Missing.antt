-- ===== src/Io/ReadRow/Missing.antt =====
-- Where the first entry of a row to be deactivated is not in the view.
use bgpview.Base.{ℕ, ◌≡◌, refl, Bool, false, none, some, [], ◌∷◌, arith, length}
use bgpview.Khash.Buckets.{Buckets, slot}
use bgpview.View.Field.{all_valid}
use bgpview.View.Types.{ipv4, Env, State}
use bgpview.View.PfxPeerIter.{iter_pfx_seek_peer, iter_seek_pfx_peer}
use bgpview.Io.Outcome.{ok, fault}
use bgpview.Io.Ip.{BgpPfx}
use bgpview.Io.Path.{IoEnv}
use bgpview.Io.ReadRow.{RowArgs, RowPos, element, drop_entry}

past_end : {K V : Type 0} (t : Buckets K V) → slot t (length t) ≡ none
past_end [] = refl
past_end (b ∷ t) = past_end t

module _ {E : Env} where
  -- A search for an entry that finds none leaves the iterator on no prefix.
  iter_seek_pfx_peer-reset :
      (p : E.Pfx) (id m k : ℕ) (s s' : State E)
      → iter_seek_pfx_peer p id m k s ≡ some (false, s')
      → (s'.iter.version_ptr ≡ ipv4) × (s'.iter.pfx_it ≡ length s'.view.v4pfxs)
  unfolding iter_seek_pfx_peer
  iter_seek_pfx_peer-reset p id m k s s' h = ground arith

  iter_pfx_seek_peer-fault :
      (id m : ℕ) (s : State E)
      → s.iter.version_ptr ≡ ipv4
      → s.iter.pfx_it ≡ length s.view.v4pfxs
      → iter_pfx_seek_peer id m s ≡ none
  unfolding iter_pfx_seek_peer
  iter_pfx_seek_peer-fault id m s at e = ground (arith, past_end s.view.v4pfxs)

  -- If the first entry of a row to be deactivated is not in the view, it is counted as one that was
  -- added, and the next entry is sought in the prefix where the iterator stands. It stands on none:
  -- a prefix is read past the end of the IPv4 table.
  pub drop_entry-missing :
      (io : IoEnv E) (a : RowArgs io) (len : ℕ) (pfx : BgpPfx) (skip : Bool) (x y id id' : ℕ)
      (l : RowPos) (s s' : State E)
      → l.pfx_peers_added ≡ 0
      → element a.peerid_map x ≡ ok id
      → element a.peerid_map y ≡ ok id'
      → iter_seek_pfx_peer (io.from_pfx pfx) id all_valid all_valid s ≡ some (false, s')
      → let l' = record l { pfx_peers_added = 1 } in
        (drop_entry io a len pfx skip x l s ≡ ok (l', s'))
        × (drop_entry io a len pfx skip y l' s' ≡ fault)
  unfolding drop_entry
  drop_entry-missing io a len pfx skip x y id id' l s s' first ex ey missing =
      let reset = iter_seek_pfx_peer-reset (io.from_pfx pfx) id all_valid all_valid s s' missing in
      let past = iter_pfx_seek_peer-fault id' all_valid s' reset.0 reset.1 in
      (ground arith, ground arith)
