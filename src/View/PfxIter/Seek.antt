-- ===== src/View/PfxIter/Seek.antt =====
-- bgpview_iter_seek_pfx finds a prefix that is there, and only that.
use bgpview.Base.{ℕ, ◌≡◌, ◌≢◌, refl, ◌⊎◌, inl, inr, true, false, some, arith, length, Bool-cases}
use bgpview.Khash.Buckets.{slot, slot-lt}
use bgpview.View.Field.{matches}
use bgpview.View.Types.{AddrVersion, unknown, ipv4, ipv6, PfxInfo, Env, View, State}
use bgpview.View.State.{pfx_table}
use bgpview.View.PfxIter.{iter_seek_pfx, has_more_pfx}

module _ {E : Env} where
  -- The search for a prefix has found it, in a state of the mask.
  abbrev pub FoundPfx : State E → E.Pfx → ℕ → State E → Type 0
  FoundPfx s pfx mask s' =
      (iter_seek_pfx pfx mask s ≡ some (true, s'))
      × (s'.iter.version_ptr ≡ E.version pfx)
      × ((info : PfxInfo) × (slot (pfx_table (E.version pfx) s.view) s'.iter.pfx_it
            ≡ some (pfx, info))
          × (matches mask info.state ≡ true))

  -- It ended past the table, and no such prefix is there.
  abbrev pub MissedPfx : State E → E.Pfx → ℕ → State E → Type 0
  MissedPfx s pfx mask s' =
      (iter_seek_pfx pfx mask s ≡ some (false, s'))
      × (has_more_pfx s'.view s'.iter ≡ false)
      × ((i : ℕ) (info : PfxInfo)
          → slot (pfx_table (E.version pfx) s.view) i ≡ some (pfx, info)
          → matches mask info.state ≡ false)

  -- The prefix tables are ones that khash.h built.
  pub record PlacedPfxs (v : View E) : Type 0 where
    pub v4pfxs : E.v4_hash.Placed v.v4pfxs
    pub v6pfxs : E.v6_hash.Placed v.v6pfxs

  -- For an IPv4 or IPv6 prefix, in prefix tables that khash.h built, the search returns; it finds the
  -- prefix if its table has it in a state of the mask, and otherwise reports that it is not there and
  -- leaves the iterator past the end. Either way the view stays and the iterator is on no entry.
  pub iter_seek_pfx-FoundPfx :
      (s : State E) (pfx : E.Pfx) (mask : ℕ) (ver : AddrVersion)
      → E.version pfx ≡ ver
      → ver ≢ unknown
      → PlacedPfxs s.view
      → (s' : State E) × (FoundPfx s pfx mask s' ⊎ MissedPfx s pfx mask s')
        × (s'.view ≡ s.view)
        × (s'.iter.pfx_peer_it_valid ≡ false)
  unfolding iter_seek_pfx has_more_pfx
  iter_seek_pfx-FoundPfx s pfx mask unknown is known placed = absurd (known refl)
  iter_seek_pfx-FoundPfx s pfx mask ipv4 is known placed =
      let t = s.view.v4pfxs in
      let k = E.v4_hash.get t pfx in
      let it = record s.iter {
        version_filter = ipv4;
        version_ptr = ipv4;
        pfx_state_mask = mask;
        pfx_peer_it_valid = false;
        pfx_peer_it = 0;
        pfx_it = k;
      } in
      elim (E.v4_hash.get_cases t pfx placed.v4pfxs) [
        | inl (info, at) ↦
            let in_table = slot-lt t k at in
            elim (Bool-cases (matches mask info.state)) [
              | inl hit ↦ (
                record s { iter = it },
                inl (ground (arith, in_table), ground arith, (info, rw is at, hit)),
                refl,
                refl,
              )
              | inr miss ↦ (
                record s { iter = record it { pfx_it = length t } },
                inr (
                  ground (arith, in_table),
                  ground arith,
                  rw is (λ i x e.
                      ground (arith, E.v4_hash.placed_unique t placed.v4pfxs i k pfx x info e at)),
                ),
                refl,
                refl,
              )
            ]
        | inr (at_end, gone) ↦ (
          record s { iter = it },
          inr (ground arith, ground arith, rw is (λ i x e. absurd (gone i pfx x e refl))),
          refl,
          refl,
        )
      ]
  iter_seek_pfx-FoundPfx s pfx mask ipv6 is known placed =
      let t = s.view.v6pfxs in
      let k = E.v6_hash.get t pfx in
      let it = record s.iter {
        version_filter = ipv6;
        version_ptr = ipv6;
        pfx_state_mask = mask;
        pfx_peer_it_valid = false;
        pfx_peer_it = 0;
        pfx_it = k;
      } in
      elim (E.v6_hash.get_cases t pfx placed.v6pfxs) [
        | inl (info, at) ↦
            let in_table = slot-lt t k at in
            elim (Bool-cases (matches mask info.state)) [
              | inl hit ↦ (
                record s { iter = it },
                inl (ground (arith, in_table), ground arith, (info, rw is at, hit)),
                refl,
                refl,
              )
              | inr miss ↦ (
                record s { iter = record it { pfx_it = length t } },
                inr (
                  ground (arith, in_table),
                  ground arith,
                  rw is (λ i x e.
                      ground (arith, E.v6_hash.placed_unique t placed.v6pfxs i k pfx x info e at)),
                ),
                refl,
                refl,
              )
            ]
        | inr (at_end, gone) ↦ (
          record s { iter = it },
          inr (ground arith, ground arith, rw is (λ i x e. absurd (gone i pfx x e refl))),
          refl,
          refl,
        )
      ]
