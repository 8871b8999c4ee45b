-- ===== src/Moas/Round.antt =====
-- The MOASes of a view are noted one after the other, and then the table is cleaned, as
-- bvc_moas_process_view does it.
use native.Mathlib.Decide.{ℕ_discrete}
use mathlib.Core.List.{List-discrete, Memᴰ}
use bgpview.Base.{
  ℕ, ◌+◌, ◌≡◌, ◌≤◌, ◌<◌, ◌↔◌, refl, sym, ap, ap₂, ◌∙◌, ◌⊎◌, Option, none, some, List, [], ◌∷◌, ◌++◌,
  ◌^◌, inl, inr, arith,
}
use bgpview.View.Types.{Env}
use bgpview.Io.Outcome.{Outcome, ok, ◌>>=◌}
use bgpview.Moas.Finished.{clean_moas-events}
use bgpview.Moas.Types.{Event, MoasProperties, MoasSignature, Moases, MoasEnv, Log}
use bgpview.Moas.Table.{finished_event, note_moas, clean_moas}
use bgpview.Moas.Note.{Placed, moas_at, seen, note_moas-moas_at}
use bgpview.Moas.Clean.{settled_at, clean_moas-moas_at, clean_moas-Placed}

module _ {E : Env} (m : MoasEnv E) (ts last_valid_ts : ℕ) where
  -- add_moas on each of them, as far as the table goes.
  unfoldable pub note_all : List (E.Pfx × MoasSignature) → Moases E.Pfx → Outcome (Moases E.Pfx)
  note_all [] t = ok t
  note_all ((pfx, ms) ∷ ds) t = do (_, t1) ← note_moas m pfx ms ts last_valid_ts t; note_all ds t1

-- A MOAS is running: it is in the table and its start is not 0.
abbrev pub Running : {E : Env} (m : MoasEnv E) → Moases E.Pfx → E.Pfx → MoasSignature → Type 0
Running m t pfx key = (mp : MoasProperties) × (moas_at m t pfx key ≡ some mp) × (0 < mp.start)

-- Every end is before the time, or at it.
abbrev pub EndsBefore : {E : Env} (m : MoasEnv E) → ℕ → Moases E.Pfx → Type 0
EndsBefore {E = E} m ts t =
    (pfx : E.Pfx) (key : MoasSignature) (mp : MoasProperties)
    → moas_at m t pfx key ≡ some mp
    → mp.end < ts

module _ {E : Env} (m : MoasEnv E) where
  -- The MOAS with the sorted origins `key` is one of the list.
  abbrev pub Detected : List (E.Pfx × MoasSignature) → E.Pfx → MoasSignature → Type 0
  Detected [] pfx key = ⊥
  Detected ((p, ms) ∷ ds) pfx key = ((pfx ≡ p) × (key ≡ m.qsort ms)) ⊎ Detected ds pfx key

seen_lem :
    (ts : ℕ) (o : Option MoasProperties) → 0 < ts → ((seen ts o).end ≡ ts) × (0 < (seen ts o).start)
seen_lem ts none h = (refl, h)
seen_lem ts (some mp) h = (ground arith, ground arith)

module _ {E : Env} (m : MoasEnv E) (same_pfx : Discrete E.Pfx) (ts last_valid_ts : ℕ)
    (later : 0 < ts) where
  -- What is known of a MOAS after the list is noted: it is running with the time as its end if it
  -- is in the list, and otherwise as it was.
  abbrev After :
      List (E.Pfx × MoasSignature) → Moases E.Pfx → Moases E.Pfx → E.Pfx → MoasSignature → Type 0
  After ds t t' pfx key =
      (Detected m ds pfx key
        × ((mp : MoasProperties) × (moas_at m t' pfx key ≡ some mp)
            × (mp.end ≡ ts)
            × (0 < mp.start)))
      ⊎ ((Detected m ds pfx key → ⊥) × (moas_at m t' pfx key ≡ moas_at m t pfx key))

  pub note_all_lem :
      (ds : List (E.Pfx × MoasSignature)) (t : Moases E.Pfx)
      → Placed m t
      → (t' : Moases E.Pfx) × (note_all m ts last_valid_ts ds t ≡ ok t')
        × Placed m t'
        × ((pfx : E.Pfx) (key : MoasSignature) → After ds t t' pfx key)
  unfolding note_all
  note_all_lem [] t p = (t, refl, p, λ pfx key. inr (λ d. d, refl))
  note_all_lem ((p, ms) ∷ ds) t placed =
      let (t1, run1, placed1, now, other_ms, other_pfx) =
        note_moas-moas_at m p ms ts last_valid_ts t placed in
      let (t', run, placed', after) = note_all_lem ds t1 placed1 in
      (
        t',
        rw run1 run,
        placed',
        λ pfx key. elim (after pfx key) [
          | inl (d, r) ↦ inl (inr d, r)
          | inr (not_later, e) ↦ elim (same_pfx pfx p) [
            | no ne ↦ inr (
              λ d. elim d [ inl (q, _) ↦ ne q | inr d' ↦ not_later d' ],
              e ∙ other_pfx pfx key ne,
            )
            | yes q ↦ elim (List-discrete ℕ_discrete key (m.qsort ms)) [
              | no ne ↦ inr (
                λ d. elim d [ inl (_, q') ↦ ne q' | inr d' ↦ not_later d' ],
                e
                    ∙ ap (λ x. moas_at m t1 x key) q
                    ∙ other_ms key ne
                    ∙ ap (λ x. moas_at m t x key) (sym q),
              )
              | yes q' ↦
                  let s = seen_lem ts (moas_at m t p (m.qsort ms)) later in
                  inl (
                    inl (q, q'),
                    (
                      seen ts (moas_at m t p (m.qsort ms)),
                      e ∙ ap₂ (λ x y. moas_at m t1 x y) q q' ∙ now,
                      s.0,
                      s.1,
                    ),
                  )
            ]
          ]
        ],
      )

  -- What cleaning makes of a MOAS of this view, or of an earlier one.
  settled_now :
      (o : Option MoasProperties) (mp : MoasProperties)
      → o ≡ some mp
      → mp.end ≡ ts
      → last_valid_ts ≤ ts
      → settled_at ts last_valid_ts o ≡ some mp
  settled_now o mp e now le = rw e (ground arith)

  settled_before :
      (o : Option MoasProperties) (mp : MoasProperties)
      → ((old : MoasProperties) → o ≡ some old → old.end < ts)
      → settled_at ts last_valid_ts o ≡ some mp
      → (mp.start ≡ 0) × (mp.end < ts)
  settled_before none mp h e = cc
  settled_before (some old) mp h e = let before = h old refl in (ground arith, ground arith)

  -- Where every MOAS of the table ended before this time, which is not 0, and the window begins no
  -- later than it, noting the MOASes of a list and cleaning the table leaves running exactly those of
  -- the list; no end is after this time, and the tables are again ones that khash.h built.
  pub clean_moas-Running :
      (ds : List (E.Pfx × MoasSignature)) (t : Moases E.Pfx) (l : Log E.Pfx)
      → Placed m t
      → last_valid_ts ≤ ts
      → EndsBefore m ts t
      → (t' : Moases E.Pfx) × (note_all m ts last_valid_ts ds t ≡ ok t')
        × (let t2 = (clean_moas m ts last_valid_ts t' l).0 in
            Placed m t2
            × EndsBefore m (ts + 1) t2
            × ((pfx : E.Pfx) (key : MoasSignature) → Running m t2 pfx key ↔ Detected m ds pfx key))
  clean_moas-Running ds t l placed le before =
      let (t', run, placed', after) = note_all_lem ds t placed in
      let cleaned = λ (pfx : E.Pfx) (key : MoasSignature).
        clean_moas-moas_at m ts last_valid_ts t' l pfx key placed' in
      (
        t',
        run,
        (
          clean_moas-Placed m ts last_valid_ts t' l placed',
          λ pfx key mp e. elim (after pfx key) [
            | inl (_, (now, at, ends, starts)) ↦
                let same = settled_now (moas_at m t' pfx key) now at ends le in
                ends_now now mp (sym same ∙ sym (cleaned pfx key) ∙ e) ends
            | inr (_, old) ↦
                let r =
                  settled_before (moas_at m t' pfx key) mp (λ o q. before pfx key o (sym old ∙ q))
                    (sym (cleaned pfx key) ∙ e) in
                omega (arith, r.1)
          ],
          λ pfx key. elim (after pfx key) [
            | inl (d, (now, at, ends, starts)) ↦ (
              λ _. d,
              λ _. (
                now,
                cleaned pfx key ∙ settled_now (moas_at m t' pfx key) now at ends le,
                starts,
              ),
            )
            | inr (missing, old) ↦ (
              λ (mp, e, starts).
                  let r =
                    settled_before (moas_at m t' pfx key) mp (λ o q. before pfx key o (sym old ∙ q))
                      (sym (cleaned pfx key) ∙ e) in
                  absurd (omega (arith, r.0)),
              λ d. absurd (missing d),
            )
          ],
        ),
      )
    where
      ends_now :
          (now mp : MoasProperties)
          → ◌≡◌ {A = Option MoasProperties} (some now) (some mp)
          → now.end ≡ ts
          → mp.end < ts + 1
      ends_now now mp e q = ground arith

  -- Where every MOAS of the table ended before this time, which is not 0, and every one that is
  -- running ended in the window, noting the MOASes of a list and cleaning the table writes a line
  -- FINISHED for exactly those MOASes that were running and are not in the list.
  pub clean_moas-finishes :
      (ds : List (E.Pfx × MoasSignature)) (t : Moases E.Pfx) (l : Log E.Pfx)
      → Placed m t
      → l.finished_moas_pfxs_count < 2 ^ 32
      → EndsBefore m ts t
      → ((pfx : E.Pfx) (key : MoasSignature) (mp : MoasProperties)
          → moas_at m t pfx key ≡ some mp
          → 0 < mp.start
          → last_valid_ts ≤ mp.end)
      → (t' : Moases E.Pfx) × (es : List (Event E.Pfx)) × (note_all m ts last_valid_ts ds t ≡ ok t')
        × ((clean_moas m ts last_valid_ts t' l).1.wandio_fh ≡ l.wandio_fh ++ es)
        × ((pfx : E.Pfx) (key : MoasSignature)
            → Memᴰ (finished_event m ts last_valid_ts pfx key) es
              ↔ (Running m t pfx key × (Detected m ds pfx key → ⊥)))
  clean_moas-finishes ds t l placed small before timely =
      let (t', run, placed', after) = note_all_lem ds t placed in
      let (es, lines, _, only, all) = clean_moas-events m ts last_valid_ts t' l placed' small in
      (
        t',
        es,
        run,
        lines,
        λ pfx key. (
          λ d.
              let (p, k, mp, at, (in_window, ended, started), same) =
                only (finished_event m ts last_valid_ts pfx key) d in
              let here : moas_at m t' pfx key ≡ some mp =
                ap₂ (moas_at m t') (ap (λ (e : Event E.Pfx). e.pfx) same)
                  (ap (λ (e : Event E.Pfx). e.ms) same)
                ∙ at in
              elim (after pfx key) [
                | inl (_, (now, at_now, ends, _)) ↦
                    absurd (apart now mp (sym at_now ∙ here) ends ended)
                | inr (missing, old) ↦ ((mp, sym old ∙ here, started), missing)
              ],
          λ ((mp, at, started), missing). elim (after pfx key) [
            | inl (d, _) ↦ absurd (missing d)
            | inr (_, old) ↦
                all pfx key mp (old ∙ at)
                  (timely pfx key mp at started, before pfx key mp at, started)
          ],
        ),
      )
    where
      apart :
          (now mp : MoasProperties)
          → ◌≡◌ {A = Option MoasProperties} (some now) (some mp)
          → now.end ≡ ts
          → mp.end < ts
          → ⊥
      apart now mp e q h = ground arith

  -- A MOAS that is running but ended before the window is removed without a line FINISHED.
  pub clean_moas_forgets :
      (t : Moases E.Pfx) (l : Log E.Pfx) (pfx : E.Pfx) (key : MoasSignature) (mp : MoasProperties)
      → Placed m t
      → l.finished_moas_pfxs_count < 2 ^ 32
      → moas_at m t pfx key ≡ some mp
      → 0 < mp.start
      → mp.end < last_valid_ts
      → let r = clean_moas m ts last_valid_ts t l in
        (moas_at m r.0 pfx key ≡ none)
        × ((es : List (Event E.Pfx)) × (r.1.wandio_fh ≡ l.wandio_fh ++ es)
            × (Memᴰ (finished_event m ts last_valid_ts pfx key) es → ⊥))
  clean_moas_forgets t l pfx key mp placed small at started outdated =
      let (es, lines, _, only, _) = clean_moas-events m ts last_valid_ts t l placed small in
      (
        clean_moas-moas_at m ts last_valid_ts t l pfx key placed
            ∙ ap (settled_at ts last_valid_ts) at
            ∙ ground arith,
        (
          es,
          lines,
          λ d.
              let (p, k, found, at', (in_window, _, _), same) =
                only (finished_event m ts last_valid_ts pfx key) d in
              let here : moas_at m t pfx key ≡ some found =
                ap₂ (moas_at m t) (ap (λ (e : Event E.Pfx). e.pfx) same)
                  (ap (λ (e : Event E.Pfx). e.ms) same)
                ∙ at' in
              apart found (sym at ∙ here) in_window,
        ),
      )
    where
      apart :
          (found : MoasProperties)
          → ◌≡◌ {A = Option MoasProperties} (some mp) (some found)
          → last_valid_ts ≤ found.end
          → ⊥
      apart found e h = ground arith
