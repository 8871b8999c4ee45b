-- ===== src/Moas/Finished.antt =====
-- The lines that clean_moas writes.
use mathlib.Core.List.{append_assoc, append-nil, Memᴰ}
use mathlib.Core.List.Memᴰ
use bgpview.Base.{
  ℕ, zero, suc, ◌+◌, ◌%◌, ◌^◌, ◌≤◌, ◌<◌, ◌≡◌, refl, sym, ap, subst, subst₂, ◌∙◌, Bool, true, ◌&&◌,
  Option, none, some, List, [], ◌∷◌, ◌++◌, inl, inr, length, ltb, leb, arith, if◌then◌else◌,
  Option-cases, Bool-cases, length-append,
}
use bgpview.Khash.Buckets.{slot}
use bgpview.Khash.Lookup.{value_at, value_at-slot, value_at-some}
use bgpview.Khash.Walk.{changed, for_each-changed}
use bgpview.View.Types.{Env}
use bgpview.Moas.Types.{
  MoasProperties, MoasSignature, MoasInfo, Moases, MoasEnv, Event, Log, write_event,
}
use bgpview.Moas.Table.{finished_event, clean_ms, clean_pfx, clean_moas}
use bgpview.Moas.Note.{Placed, within, moas_at}

-- A MOAS that is in the window, was in an earlier view, and is not in this one.
abbrev pub Over : ℕ → ℕ → MoasProperties → Type 0
Over ts last_valid_ts mp = (last_valid_ts ≤ mp.end) × (mp.end < ts) × (0 < mp.start)

abbrev is_over : ℕ → ℕ → MoasProperties → Bool
is_over ts last_valid_ts mp = leb last_valid_ts mp.end && ltb mp.end ts && ltb 0 mp.start

Over-cases :
    (ts lv : ℕ) (mp : MoasProperties)
    → (Over ts lv mp → is_over ts lv mp ≡ true) × (is_over ts lv mp ≡ true → Over ts lv mp)
Over-cases ts lv mp = (λ (a, b, c). ground arith, λ e. (ground arith, ground arith, ground arith))

module _ {E : Env} (m : MoasEnv E) (ts last_valid_ts : ℕ) where
  -- The events in the order of the tables.
  abbrev ms_events : E.Pfx → MoasInfo → List (Event E.Pfx)
  ms_events pfx [] = []
  ms_events pfx (none ∷ t) = ms_events pfx t
  ms_events pfx (some (key, mp) ∷ t) =
      (if is_over ts last_valid_ts mp then finished_event m ts last_valid_ts pfx key ∷ [] else [])
      ++ ms_events pfx t

  abbrev events : Moases E.Pfx → List (Event E.Pfx)
  events [] = []
  events (none ∷ t) = events t
  events (some (pfx, per) ∷ t) = ms_events pfx per ++ events t

  -- The log with so many finished MOASes more.
  abbrev WithFinished : List (Event E.Pfx) → Log E.Pfx → Log E.Pfx → Type 0
  WithFinished es l l' =
      (l'.wandio_fh ≡ l.wandio_fh ++ es)
      × (l'.finished_moas_pfxs_count ≡ (l.finished_moas_pfxs_count + length es) % 2 ^ 32)

  none_finished : (l : Log E.Pfx) → l.finished_moas_pfxs_count < 2 ^ 32 → WithFinished [] l l
  none_finished l h = (sym (append-nil l.wandio_fh), omega arith)

  both_finished :
      (es fs : List (Event E.Pfx)) (l1 l2 l3 : Log E.Pfx)
      → WithFinished es l1 l2
      → WithFinished fs l2 l3
      → WithFinished (es ++ fs) l1 l3
  both_finished es fs l1 l2 l3 (a, n) (b, k) = (
    b ∙ ap (λ x. x ++ fs) a ∙ append_assoc l1.wandio_fh es fs,
    omega (arith, n, k, length-append es fs),
  )

  clean_ms-WithFinished :
      (pfx : E.Pfx) (key : MoasSignature) (mp : MoasProperties) (l : Log E.Pfx)
      → l.finished_moas_pfxs_count < 2 ^ 32
      → WithFinished
          (if is_over ts last_valid_ts mp
            then finished_event m ts last_valid_ts pfx key ∷ []
            else [])
          l
          (clean_ms m ts last_valid_ts pfx key mp l).1
  unfolding clean_ms write_event
  clean_ms-WithFinished pfx key mp l h = (ground (arith, append-nil l.wandio_fh), ground arith)

  counted :
      (es : List (Event E.Pfx)) (l l' : Log E.Pfx)
      → WithFinished es l l'
      → l'.finished_moas_pfxs_count < 2 ^ 32
  counted es l l' (a, n) = omega arith

  ms_events_lem :
      (pfx : E.Pfx) (t : MoasInfo) (l : Log E.Pfx)
      → l.finished_moas_pfxs_count < 2 ^ 32
      → WithFinished
          (ms_events pfx t)
          l
          (changed m.moasinfo_hash (clean_ms m ts last_valid_ts pfx) t l).1
  ms_events_lem pfx [] l h = none_finished l h
  ms_events_lem pfx (none ∷ t) l h = ms_events_lem pfx t l h
  ms_events_lem pfx (some (key, mp) ∷ t) l h =
      let l1 = (clean_ms m ts last_valid_ts pfx key mp l).1 in
      let first = clean_ms-WithFinished pfx key mp l h in
      both_finished _ (ms_events pfx t) l l1
        (changed m.moasinfo_hash (clean_ms m ts last_valid_ts pfx) t l1).1 first
        (ms_events_lem pfx t l1 (counted _ l l1 first))

  clean_pfx-WithFinished :
      (pfx : E.Pfx) (per : MoasInfo) (l : Log E.Pfx)
      → l.finished_moas_pfxs_count < 2 ^ 32
      → WithFinished (ms_events pfx per) l (clean_pfx m ts last_valid_ts pfx per l).1
  unfolding clean_pfx
  clean_pfx-WithFinished pfx per l h =
      subst (λ r. WithFinished (ms_events pfx per) l r.1)
        (sym (for_each-changed m.moasinfo_hash (clean_ms m ts last_valid_ts pfx) per l))
        (ms_events_lem pfx per l h)

  events_lem :
      (t : Moases E.Pfx) (l : Log E.Pfx)
      → l.finished_moas_pfxs_count < 2 ^ 32
      → WithFinished (events t) l (changed m.moases_hash (clean_pfx m ts last_valid_ts) t l).1
  events_lem [] l h = none_finished l h
  events_lem (none ∷ t) l h = events_lem t l h
  events_lem (some (pfx, per) ∷ t) l h =
      let l1 = (clean_pfx m ts last_valid_ts pfx per l).1 in
      let first = clean_pfx-WithFinished pfx per l h in
      both_finished (ms_events pfx per) (events t) l l1
        (changed m.moases_hash (clean_pfx m ts last_valid_ts) t l1).1 first
        (events_lem t l1 (counted (ms_events pfx per) l l1 first))

  abbrev ms_event : E.Pfx → MoasSignature → Bool → List (Event E.Pfx)
  ms_event pfx key b = if b then finished_event m ts last_valid_ts pfx key ∷ [] else []

  -- Which events these are, by the places of the tables.
  abbrev FromMs : E.Pfx → MoasInfo → Event E.Pfx → Type 0
  FromMs pfx t e =
      (i : ℕ) × (key : MoasSignature) × (mp : MoasProperties) × (slot t i ≡ some (key, mp))
      × (is_over ts last_valid_ts mp ≡ true)
      × (e ≡ finished_event m ts last_valid_ts pfx key)

  ms_events-FromMs :
      (pfx : E.Pfx) (t : MoasInfo) (e : Event E.Pfx) → Memᴰ e (ms_events pfx t) → FromMs pfx t e
  ms_events-FromMs pfx [] e d = absurd (Memᴰ.not-nil d)
  ms_events-FromMs pfx (none ∷ t) e d =
      let (i, r0, r1, r2, r3, r4) = ms_events-FromMs pfx t e d in (suc i, r0, r1, r2, r3, r4)
  ms_events-FromMs pfx (some (key, mp) ∷ t) e d = elim (Bool-cases (is_over ts last_valid_ts mp)) [
    | inl o ↦
        elim (Memᴰ.append_cases (finished_event m ts last_valid_ts pfx key ∷ [])
          (subst (λ b. Memᴰ e (ms_event pfx key b ++ ms_events pfx t)) o d)) [
            | inl (Memᴰ.head q) ↦ (0, key, mp, refl, o, q)
            | inl (Memᴰ.tail q) ↦ absurd (Memᴰ.not-nil q)
            | inr q ↦
                let (i, r0, r1, r2, r3, r4) = ms_events-FromMs pfx t e q in
                (suc i, r0, r1, r2, r3, r4)
          ]
    | inr o ↦
        let (i, r0, r1, r2, r3, r4) =
          ms_events-FromMs pfx t e
            (subst (λ b. Memᴰ e (ms_event pfx key b ++ ms_events pfx t)) o d) in
        (suc i, r0, r1, r2, r3, r4)
  ]

  -- Conversely, a place with a MOAS that is over has its event.
  ms_events-slot :
      (pfx : E.Pfx) (t : MoasInfo) (i : ℕ) (key : MoasSignature) (mp : MoasProperties)
      → slot t i ≡ some (key, mp)
      → is_over ts last_valid_ts mp ≡ true
      → Memᴰ (finished_event m ts last_valid_ts pfx key) (ms_events pfx t)
  ms_events-slot pfx [] i key mp e o = cc
  ms_events-slot pfx (none ∷ t) zero key mp e o = cc
  ms_events-slot pfx (none ∷ t) (suc i) key mp e o = ms_events-slot pfx t i key mp e o
  ms_events-slot pfx (some (k, p) ∷ t) zero key mp e o =
      let same : (k ≡ key) × (p ≡ mp) = (cc, cc) in
      subst
        (λ b.
          Memᴰ (finished_event m ts last_valid_ts pfx key) (ms_event pfx k b ++ ms_events pfx t))
        (sym (ap (is_over ts last_valid_ts) same.1 ∙ o))
        (Memᴰ.head (ap (finished_event m ts last_valid_ts pfx) (sym same.0)))
  ms_events-slot pfx (some (k, p) ∷ t) (suc i) key mp e o =
      Memᴰ.append_right (ms_event pfx k (is_over ts last_valid_ts p))
        (ms_events-slot pfx t i key mp e o)

  -- The same for all prefixes.
  abbrev From : Moases E.Pfx → Event E.Pfx → Type 0
  From t e =
      (i : ℕ) × (pfx : E.Pfx) × (per : MoasInfo) × (slot t i ≡ some (pfx, per)) × FromMs pfx per e

  events-From : (t : Moases E.Pfx) (e : Event E.Pfx) → Memᴰ e (events t) → From t e
  events-From [] e d = absurd (Memᴰ.not-nil d)
  events-From (none ∷ t) e d =
      let (i, r0, r1, r2, r3) = events-From t e d in (suc i, r0, r1, r2, r3)
  events-From (some (pfx, per) ∷ t) e d = elim (Memᴰ.append_cases (ms_events pfx per) d) [
    | inl q ↦ (0, pfx, per, refl, ms_events-FromMs pfx per e q)
    | inr q ↦ let (i, r0, r1, r2, r3) = events-From t e q in (suc i, r0, r1, r2, r3)
  ]

  events-slot :
      (t : Moases E.Pfx) (i : ℕ) (pfx : E.Pfx) (per : MoasInfo) (e : Event E.Pfx)
      → slot t i ≡ some (pfx, per)
      → Memᴰ e (ms_events pfx per)
      → Memᴰ e (events t)
  events-slot [] i pfx per e h d = cc
  events-slot (none ∷ t) zero pfx per e h d = cc
  events-slot (none ∷ t) (suc i) pfx per e h d = events-slot t i pfx per e h d
  events-slot (some (q, r) ∷ t) zero pfx per e h d =
      let same : (q ≡ pfx) × (r ≡ per) = (cc, cc) in
      Memᴰ.append_left (events t)
        (subst₂ (λ a b. Memᴰ e (ms_events a b)) (sym same.0) (sym same.1) d)
  events-slot (some (q, r) ∷ t) (suc i) pfx per e h d =
      Memᴰ.append_right (ms_events q r) (events-slot t i pfx per e h d)

  -- On tables that khash.h built, cleaning adds to the output file lines of the category FINISHED, and
  -- counts them (modulo 2^32): each is for a MOAS of the table whose end is in the window and before
  -- this time and whose start is not 0, and each such MOAS has its line.
  pub clean_moas-events :
      (t : Moases E.Pfx) (l : Log E.Pfx)
      → Placed m t
      → l.finished_moas_pfxs_count < 2 ^ 32
      → let l' = (clean_moas m ts last_valid_ts t l).1 in
        (es : List (Event E.Pfx)) × (l'.wandio_fh ≡ l.wandio_fh ++ es)
        × (l'.finished_moas_pfxs_count ≡ (l.finished_moas_pfxs_count + length es) % 2 ^ 32)
        × ((e : Event E.Pfx)
            → Memᴰ e es
            → (pfx : E.Pfx) × (key : MoasSignature) × (mp : MoasProperties) × (moas_at m t pfx key
                ≡ some mp)
              × Over ts last_valid_ts mp
              × (e ≡ finished_event m ts last_valid_ts pfx key))
        × ((pfx : E.Pfx) (key : MoasSignature) (mp : MoasProperties)
            → moas_at m t pfx key ≡ some mp
            → Over ts last_valid_ts mp
            → Memᴰ (finished_event m ts last_valid_ts pfx key) es)
  unfolding clean_moas
  clean_moas-events t l (p, each) small =
      let h = m.moases_hash in
      let done =
        subst (λ r. WithFinished (events t) l r.1)
          (sym (for_each-changed h (clean_pfx m ts last_valid_ts) t l)) (events_lem t l small) in
      (
        events t,
        done.0,
        done.1,
        λ e d.
            let (i, pfx, per, at, (j, key, mp, at', o, q)) = events-From t e d in
            (
              pfx,
              key,
              mp,
              ap (λ x. within m x key) (value_at-slot h t i pfx per p at)
                  ∙ value_at-slot m.moasinfo_hash per j key mp (each i pfx per at) at',
              (Over-cases ts last_valid_ts mp).1 o,
              q,
            ),
        λ pfx key mp e o. elim (Option-cases (value_at h t pfx)) [
          | inl d ↦ absurd (none_some (sym (ap (λ x. within m x key) d) ∙ e))
          | inr (per, d) ↦
              let at = value_at-some h t pfx per p d in
              let placed = each (h.get t pfx) pfx per at in
              let at' =
                value_at-some m.moasinfo_hash per key mp placed
                  (sym (ap (λ x. within m x key) d) ∙ e) in
              events-slot t (h.get t pfx) pfx per (finished_event m ts last_valid_ts pfx key) at (
                ms_events-slot pfx per (m.moasinfo_hash.get per key) key mp at'
                  ((Over-cases ts last_valid_ts mp).0 o))
        ],
      )
    where
      none_some : {mp : MoasProperties} → ◌≡◌ {A = Option MoasProperties} none (some mp) → ⊥
      none_some d = cc
