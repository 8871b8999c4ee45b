-- ===== src/Moas/Note.antt =====
-- What add_moas does to the table, as a lookup sees it.
use bgpview.Base.{
  ℕ, ◌≡◌, ◌≢◌, refl, sym, ap, subst, ◌∙◌, Option, none, some, [], inl, inr, ltb, arith, ◌==◌,
  if◌then◌else◌, Option-cases, Bool-cases,
}
use bgpview.Khash.Buckets.{slot, put_val, slot-lt, slot-put_val_self}
use bgpview.Khash.Lookup.{
  value_at, value_at-some, value_at-none, value_at-put_val, value_at-put_val_ne, value_at-put_ne,
  EachValue, EachValue-put, EachValue-put_val,
}
use bgpview.View.Types.{Env}
use bgpview.Io.Outcome.{ok}
use bgpview.Moas.Types.{
  Category, new, newrec, ongoing, MoasProperties, MoasSignature, MoasInfo, Moases, MoasEnv,
}
use bgpview.Moas.Table.{find_pfx, again, note_ms, note_moas}

-- The category of a MOAS with these properties in the window, and its properties afterwards.
abbrev pub category_of : ℕ → Option MoasProperties → Category
category_of last_valid_ts none = new
category_of last_valid_ts (some mp) =
    if mp.start == 0 then (if ltb mp.end last_valid_ts then new else newrec) else ongoing

abbrev pub seen : ℕ → Option MoasProperties → MoasProperties
seen ts none = record { first_seen = ts; start = ts; end = ts }
seen ts (some mp) =
    if mp.start == 0 then record mp { start = ts; end = ts } else record mp { end = ts }

module _ {E : Env} (m : MoasEnv E) where
  -- The tables are ones that khash.h built.
  abbrev pub Placed : Moases E.Pfx → Type 0
  Placed t = m.moases_hash.Placed t × EachValue m.moasinfo_hash.Placed t

  abbrev pub within : Option MoasInfo → MoasSignature → Option MoasProperties
  within none key = none
  within (some per) key = value_at m.moasinfo_hash per key

  -- The properties of a MOAS, given by its prefix and its sorted origins.
  abbrev pub moas_at : Moases E.Pfx → E.Pfx → MoasSignature → Option MoasProperties
  moas_at t pfx key = within (value_at m.moases_hash t pfx) key

  -- The map of a prefix after its MOAS is noted.
  abbrev Noted : MoasSignature → ℕ → ℕ → MoasInfo → Type 0
  Noted ms ts lv t =
      let h = m.moasinfo_hash in
      let key = m.qsort ms in
      let old = value_at h t key in
      (t' : MoasInfo) × (note_ms m ms ts lv t ≡ ok (category_of lv old, t'))
      × h.Placed t'
      × (value_at h t' key ≡ some (seen ts old))
      × ((k : MoasSignature) → k ≢ key → value_at h t' k ≡ value_at h t k)

  again_lem :
      (ts lv k : ℕ) (t : MoasInfo) (mp : MoasProperties)
      → again m ts lv k t mp ≡ (category_of lv (some mp), put_val t k (seen ts (some mp)))
  unfolding again
  again_lem ts lv k t mp = elim (Bool-cases (mp.start == 0)) [
    | inl e ↦ rw e refl
    | inr e ↦ rw e refl
  ]

  note_ms_lem :
      (ms : MoasSignature) (ts lv : ℕ) (t : MoasInfo) → m.moasinfo_hash.Placed t → Noted ms ts lv t
  unfolding note_ms
  note_ms_lem ms ts lv t p =
      let h = m.moasinfo_hash in
      let key = m.qsort ms in
      elim (Option-cases (value_at h t key)) [
        | inl e ↦
            let (at_end, missing) = value_at-none h t key p e in
            let r = h.put t key in
            let put = h.put_absent t key p missing in
            let placed = h.put_placed t key p in
            let mp : MoasProperties = record { first_seen = ts; start = ts; end = ts } in
            (
              put_val r.table r.at mp,
              rw e (ground arith),
              h.val_placed r.table r.at mp placed,
              rw e (value_at-put_val h r.table r.at key put.value mp placed put.found),
              λ k ne.
                  value_at-put_val_ne h r.table r.at key put.value mp k placed put.found ne
                  ∙ value_at-put_ne h t key k p ne,
            )
        | inr (mp, e) ↦
            let k = h.get t key in
            let here = value_at-some h t key mp p e in
            let inside = slot-lt t k here in
            let mp' = seen ts (some mp) in
            (
              put_val t k mp',
              rw e (ground (arith, here, again_lem ts lv k t mp)),
              h.val_placed t k mp' p,
              rw e (value_at-put_val h t k key mp mp' p here),
              λ j ne. value_at-put_val_ne h t k key mp mp' j p here ne,
            )
      ]

  -- The prefix is in the table, with its MOASes.
  abbrev HasPfx : E.Pfx → Moases E.Pfx → Moases E.Pfx × ℕ → Type 0
  HasPfx pfx t r =
      let h = m.moases_hash in
      (per : MoasInfo) × (slot r.0 r.1 ≡ some (pfx, per))
      × m.moasinfo_hash.Placed per
      × ((key : MoasSignature) → value_at m.moasinfo_hash per key ≡ moas_at t pfx key)
      × h.Placed r.0
      × EachValue m.moasinfo_hash.Placed r.0
      × ((q : E.Pfx) → q ≢ pfx → value_at h r.0 q ≡ value_at h t q)

  find_pfx_lem : (pfx : E.Pfx) (t : Moases E.Pfx) → Placed t → HasPfx pfx t (find_pfx m pfx t)
  unfolding find_pfx
  find_pfx_lem pfx t (p, each) =
      let h = m.moases_hash in
      let r = h.put t pfx in
      elim (Option-cases (value_at h t pfx)) [
        | inl e ↦
            let (at_end, missing) = value_at-none h t pfx p e in
            let put = h.put_absent t pfx p missing in
            let placed = h.put_placed t pfx p in
            let inserted : find_pfx m pfx t ≡ (put_val r.table r.at [], r.at) = ground arith in
            subst (HasPfx pfx t) (sym inserted) (
              [],
              slot-put_val_self r.table r.at pfx put.value [] put.found,
              m.moasinfo_hash.init_placed,
              λ key. sym (ap (λ o. within o key) e),
              h.val_placed r.table r.at [] placed,
              EachValue-put m.moasinfo_hash.Placed h t pfx [] p missing m.moasinfo_hash.init_placed
                  each,
              λ q ne.
                  value_at-put_val_ne h r.table r.at pfx put.value [] q placed put.found ne
                  ∙ value_at-put_ne h t pfx q p ne,
            )
        | inr (per, e) ↦
            let here = value_at-some h t pfx per p e in
            let inside = slot-lt t (h.get t pfx) here in
            let found : find_pfx m pfx t ≡ (t, h.get t pfx) = ground arith in
            subst (HasPfx pfx t) (sym found) (
              per,
              here,
              each (h.get t pfx) pfx per here,
              λ key. sym (ap (λ o. within o key) e),
              p,
              each,
              λ q ne. refl,
            )
      ]

  -- On tables that khash.h built, noting a MOAS returns its category (new if it is not in the table,
  -- or if it is over and its end is before the window; recurring if it is over and its end is in the
  -- window; ongoing otherwise); it is then in the table with the time as its end, and as its start
  -- unless it was ongoing; every other MOAS of this and of every other prefix stays as it was; and
  -- the tables are again ones that khash.h built.
  pub note_moas-moas_at :
      (pfx : E.Pfx) (ms : MoasSignature) (ts last_valid_ts : ℕ) (t : Moases E.Pfx)
      → Placed t
      → let old = moas_at t pfx (m.qsort ms) in
        (t' : Moases E.Pfx) × (note_moas m pfx ms ts last_valid_ts t
          ≡ ok (category_of last_valid_ts old, t'))
        × Placed t'
        × (moas_at t' pfx (m.qsort ms) ≡ some (seen ts old))
        × ((key : MoasSignature) → key ≢ m.qsort ms → moas_at t' pfx key ≡ moas_at t pfx key)
        × ((q : E.Pfx) (key : MoasSignature) → q ≢ pfx → moas_at t' q key ≡ moas_at t q key)
  unfolding note_moas
  note_moas-moas_at pfx ms ts lv t placed =
      let h = m.moases_hash in
      let key = m.qsort ms in
      let (t1, k) = find_pfx m pfx t in
      let (per, here, per_placed, same, p1, each1, others) = find_pfx_lem pfx t placed in
      let (per', run, per_placed', now, rest) = note_ms_lem ms ts lv per per_placed in
      let mine = value_at-put_val h t1 k pfx per per' p1 here in
      (
        put_val t1 k per',
        ground (arith, here, run, same key),
        (
          h.val_placed t1 k per' p1,
          EachValue-put_val m.moasinfo_hash.Placed t1 k pfx per per' here per_placed'
              (λ j l w ne. each1 j l w),
        ),
        ap (λ o. within o key) mine ∙ now ∙ ap (λ o. some (seen ts o)) (same key),
        λ j ne. ap (λ o. within o j) mine ∙ rest j ne ∙ same j,
        λ q j ne.
            ap (λ o. within o j)
              (value_at-put_val_ne h t1 k pfx per per' q p1 here ne ∙ others q ne),
      )
