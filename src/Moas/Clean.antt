-- ===== src/Moas/Clean.antt =====
-- What clean_moas does to the table, as a lookup sees it.
use bgpview.Base.{
  ℕ, ◌≡◌, refl, ap, subst, ◌∙◌, Option, none, some, inl, inr, ltb, arith, if◌then◌else◌,
  Option-cases,
}
use bgpview.Khash.Lookup.{value_at, value_at-some}
use bgpview.Khash.Walk.{
  apply, for_each, for_each-Placed, value_at-for_each, for_each_indep, EachValue-for_each,
}
use bgpview.View.Types.{Env}
use bgpview.Moas.Types.{MoasProperties, MoasSignature, MoasInfo, Moases, MoasEnv, Log}
use bgpview.Moas.Table.{clean_ms, clean_pfx, clean_moas}
use bgpview.Moas.Note.{Placed, moas_at}

-- What becomes of a MOAS: one that ended before the window is gone, and one that is not in the view
-- of this time is over.
abbrev pub settled : ℕ → ℕ → MoasProperties → Option MoasProperties
settled ts last_valid_ts mp =
    if ltb mp.end last_valid_ts
    then none
    else some (if ltb mp.end ts then record mp { start = 0 } else mp)

abbrev pub settled_at : ℕ → ℕ → Option MoasProperties → Option MoasProperties
settled_at ts last_valid_ts none = none
settled_at ts last_valid_ts (some mp) = settled ts last_valid_ts mp

module _ {E : Env} (m : MoasEnv E) (ts last_valid_ts : ℕ) where
  clean_ms-settled :
      (pfx : E.Pfx) (ms : MoasSignature) (mp : MoasProperties) (l : Log E.Pfx)
      → apply mp (clean_ms m ts last_valid_ts pfx ms mp l).0 ≡ settled ts last_valid_ts mp
  unfolding clean_ms
  clean_ms-settled pfx ms mp l = ground arith

  -- The map of a prefix after it.
  abbrev cleaned : Log E.Pfx → E.Pfx → MoasInfo → Option MoasInfo
  cleaned l pfx per = some (for_each m.moasinfo_hash (clean_ms m ts last_valid_ts pfx) per l).0

  clean_pfx-cleaned :
      (l : Log E.Pfx) (pfx : E.Pfx) (per : MoasInfo) (l' : Log E.Pfx)
      → apply per (clean_pfx m ts last_valid_ts pfx per l').0 ≡ cleaned l pfx per
  unfolding clean_pfx
  clean_pfx-cleaned l pfx per l' = ap some (
      for_each_indep m.moasinfo_hash (clean_ms m ts last_valid_ts pfx)
        (λ k mp. settled ts last_valid_ts mp) (clean_ms-settled pfx) per l' l)

  pub clean_moas-Placed :
      (t : Moases E.Pfx) (l : Log E.Pfx)
      → Placed m t
      → Placed m (clean_moas m ts last_valid_ts t l).0
  unfolding clean_moas
  clean_moas-Placed t l (p, each) = (
    for_each-Placed m.moases_hash (clean_pfx m ts last_valid_ts) t l p,
    EachValue-for_each m.moases_hash (clean_pfx m ts last_valid_ts) (cleaned l)
        (clean_pfx-cleaned l) m.moasinfo_hash.Placed t l
        (λ pfx u v q e.
          subst m.moasinfo_hash.Placed (the_same e)
            (for_each-Placed m.moasinfo_hash (clean_ms m ts last_valid_ts pfx) u l q))
        each,
  )
    where
      the_same : {a b : MoasInfo} → ◌≡◌ {A = Option MoasInfo} (some a) (some b) → a ≡ b
      the_same d = cc

  -- On tables that khash.h built, cleaning makes of every MOAS of every prefix what `settled` says:
  -- it is gone if its end is before the window, it is over if its end is before this time, and it
  -- stays as it is otherwise.
  pub clean_moas-moas_at :
      (t : Moases E.Pfx) (l : Log E.Pfx) (pfx : E.Pfx) (key : MoasSignature)
      → Placed m t
      → moas_at m (clean_moas m ts last_valid_ts t l).0 pfx key
        ≡ settled_at ts last_valid_ts (moas_at m t pfx key)
  unfolding clean_moas
  clean_moas-moas_at t l pfx key (p, each) =
      let h = m.moases_hash in
      let step =
        value_at-for_each h (clean_pfx m ts last_valid_ts) (cleaned l) (clean_pfx-cleaned l) t l pfx
          p in
      elim (Option-cases (value_at h t pfx)) [
        | inl e ↦ rw (step, e) refl
        | inr (per, e) ↦
            let placed = each (h.get t pfx) pfx per (value_at-some h t pfx per p e) in
            let inner =
              value_at-for_each m.moasinfo_hash (clean_ms m ts last_valid_ts pfx)
                (λ k mp. settled ts last_valid_ts mp) (clean_ms-settled pfx) per l key placed in
            rw (step, e) (inner ∙ same_elim (value_at m.moasinfo_hash per key))
      ]
    where
      same_elim :
          (o : Option MoasProperties)
          → elim o [ none ↦ none | some mp ↦ settled ts last_valid_ts mp ]
            ≡ settled_at ts last_valid_ts o
      same_elim none = refl
      same_elim (some mp) = refl
