-- ===== src/Moas/Process/Detection.antt =====
-- Which MOASes bvc_moas_process_view detects.
use bgpview.Base.{
  ℕ, ◌+◌, ◌%◌, ◌^◌, ◌≡◌, ◌≤◌, ◌<◌, refl, subst, true, List, [], ◌∷◌, ◌++◌, ◌-◌, inl, inr, arith,
  length, ltb,
}
use bgpview.View.Types.{Env, State}
use bgpview.View.Activate.{new_iter}
use bgpview.View.Access.{iter_pfx_get_pfx}
use bgpview.Io.Outcome.{Outcome, ok, err, fault, ◌>>=◌}
use bgpview.Io.Row.{run, lift}
use bgpview.Moas.Types.{Category, MoasSignature, Moases, MoasEnv, MoasState}
use bgpview.Moas.Table.{note_moas, clean_moas}
use bgpview.Moas.Note.{Placed}
use bgpview.Moas.Round.{note_all, Detected, Running, EndsBefore, clean_moas-Running}
use bgpview.Moas.Process.{
  for_active_peers, for_active_pfxs, log_moas, add_moas, collect_origin, process_pfx, start_view,
  process_pfxs, process_view,
}
use bgpview.Moas.Process.Signature.{IsSignature, collect_origin-Ends}
use bgpview.Io.Row.Ends.{Ends, Ends-bind, Ends-after, Ends-pure, Ends-ite, Ends-lift}
use bgpview.Moas.Process.Ends.{for_active_peers-Ends, for_active_pfxs-Ends}

module _ {E : Env} (m : MoasEnv E) where
  -- What process_view detects: signatures of at least two origins.
  abbrev pub IsMoas : MoasSignature → Type 0
  IsMoas ms = IsSignature ms × (1 < length ms)

  abbrev AllMoas : List (E.Pfx × MoasSignature) → Type 0
  AllMoas [] = Unit
  AllMoas ((pfx, ms) ∷ ds) = IsMoas ms × AllMoas ds

  AllMoas-append :
      (ds : List (E.Pfx × MoasSignature)) (pfx : E.Pfx) (ms : MoasSignature)
      → AllMoas ds
      → IsMoas ms
      → AllMoas (ds ++ ((pfx, ms) ∷ []))
  AllMoas-append [] pfx ms h k = (k, tt)
  AllMoas-append (d ∷ ds) pfx ms (h, hs) k = (h, AllMoas-append ds pfx ms hs k)

  Detected-AllMoas :
      (ds : List (E.Pfx × MoasSignature)) (pfx : E.Pfx) (key : MoasSignature)
      → AllMoas ds
      → Detected m ds pfx key
      → (ms : MoasSignature) × (key ≡ m.qsort ms) × IsMoas ms
  Detected-AllMoas [] pfx key h d = absurd d
  Detected-AllMoas ((p, ms) ∷ ds) pfx key (h, hs) (inl (q, k)) = (ms, k, h)
  Detected-AllMoas ((p, ms) ∷ ds) pfx key (h, hs) (inr d) = Detected-AllMoas ds pfx key hs d

  module _ (ts last_valid_ts : ℕ) where
    note_all-append :
        (ds : List (E.Pfx × MoasSignature)) (pfx : E.Pfx) (ms : MoasSignature)
        (t t1 t2 : Moases E.Pfx) (mc : Category)
        → note_all m ts last_valid_ts ds t ≡ ok t1
        → note_moas m pfx ms ts last_valid_ts t1 ≡ ok (mc, t2)
        → note_all m ts last_valid_ts (ds ++ ((pfx, ms) ∷ [])) t ≡ ok t2
    unfolding note_all
    note_all-append [] pfx ms t t1 t2 mc e n = let same : t ≡ t1 = cc in rw (same, n) refl
    note_all-append ((p, o) ∷ ds) pfx ms t t1 t2 mc e n =
        from (note_moas m p o ts last_valid_ts t) refl e
          (λ u d. note_all-append ds pfx ms u t1 t2 mc d n)
      where
        from :
            (r : Outcome (Category × Moases E.Pfx))
            → note_moas m p o ts last_valid_ts t ≡ r
            → (r >>= λ (x : Category × Moases E.Pfx). note_all m ts last_valid_ts ds x.1) ≡ ok t1
            → ((u : Moases E.Pfx)
                → note_all m ts last_valid_ts ds u ≡ ok t1
                → note_all m ts last_valid_ts (ds ++ ((pfx, ms) ∷ [])) u ≡ ok t2)
            → note_all m ts last_valid_ts ((p, o) ∷ (ds ++ ((pfx, ms) ∷ []))) t ≡ ok t2
        from (ok (c, u)) q d k = rw q (k u d)
        from err q d k = cc
        from fault q d k = cc

    -- A state of the loop: the MOASes so far are noted in the table that it began with.
    abbrev SoFar : Moases E.Pfx → MoasState E.Pfx → Type 0
    SoFar t state =
        (ds : List (E.Pfx × MoasSignature)) × AllMoas ds
        × (note_all m ts last_valid_ts ds t ≡ ok state.current_moases)

    process_pfx-Ends :
        (t : Moases E.Pfx) (state : MoasState E.Pfx)
        → SoFar t state
        → Ends (process_pfx m ts last_valid_ts state) (SoFar t)
    unfolding process_pfx add_moas
    process_pfx-Ends t state (ds, good, run_ds) =
        Ends-after (run iter_pfx_get_pfx) _ (SoFar t) (λ pfx.
          Ends-ite (m.blacklist_pfxs pfx) _ _ (SoFar t)
            (λ _. Ends-pure E state (SoFar t) (ds, good, run_ds))
            (λ listed.
              Ends-bind (for_active_peers (collect_origin m (E.version pfx)) []) _ IsSignature
                (SoFar t)
                (for_active_peers-Ends (collect_origin m (E.version pfx)) IsSignature
                  (collect_origin-Ends m (E.version pfx)) [] (tt, omega arith))
                (λ ms is.
                  Ends-ite (ltb 1 (length ms)) _ _ (SoFar t)
                    (λ several. Ends-after (run iter_pfx_get_pfx) _ (SoFar t) (λ here.
                      Ends-bind (lift (note_moas m here ms ts last_valid_ts state.current_moases)) _
                        (λ r. note_moas m here ms ts last_valid_ts state.current_moases ≡ ok r)
                        (SoFar t)
                        (Ends-lift E (note_moas m here ms ts last_valid_ts state.current_moases) _
                          (λ r e. e))
                        (λ (mc, moases) noted.
                          Ends-after (log_moas m here (m.qsort ms) mc ts state.log) _ (SoFar t)
                            (λ l.
                              Ends-pure E (record state { current_moases = moases; log = l })
                                (SoFar t)
                                (
                                  ds ++ ((here, ms) ∷ []),
                                  AllMoas-append ds here ms good (is, below several),
                                  note_all-append ds here ms t state.current_moases moases mc run_ds
                                      noted,
                                )))))
                    (λ _. Ends-pure E state (SoFar t) (ds, good, run_ds)))))
      where
        below : {n : ℕ} → ltb 1 n ≡ true → 1 < n
        below h = ground arith

  -- Of a table after a view of time `ts`: khash.h built it, no end is after `ts`, and what is running
  -- has at least two origins, each once.
  pub record GoodAfter (ts : ℕ) (t : Moases E.Pfx) : Type 0 where
    pub placed : Placed m t
    pub ends : EndsBefore m (ts + 1) t
    pub several :
        (pfx : E.Pfx) (key : MoasSignature)
        → Running m t pfx key
        → (ms : MoasSignature) × (key ≡ m.qsort ms) × IsMoas ms

  process_pfxs-Ends :
      (same_pfx : Discrete E.Pfx) (ts last_valid_ts : ℕ) (state : MoasState E.Pfx)
      → 0 < ts
      → last_valid_ts ≤ ts
      → Placed m state.current_moases
      → EndsBefore m ts state.current_moases
      → Ends (process_pfxs m ts last_valid_ts state) (λ b. GoodAfter ts b.current_moases)
  unfolding process_pfxs note_all
  process_pfxs-Ends same_pfx ts lv state later le placed before =
      let t = state.current_moases in
      let Q = λ (b : MoasState E.Pfx). GoodAfter ts b.current_moases in
      Ends-bind (for_active_pfxs (process_pfx m ts lv) state) _ (SoFar ts lv t) Q
        (for_active_pfxs-Ends (process_pfx m ts lv) (SoFar ts lv t) (process_pfx-Ends ts lv t) state
          ([], tt, nothing t))
        (λ after (ds, good, noted).
          let r = clean_moas m ts lv after.current_moases after.log in
          let (t', run_ds, (placed', ends, running)) =
            clean_moas-Running m same_pfx ts lv later ds t after.log placed le before in
          let same : t' ≡ after.current_moases = cc in
          Ends-pure E (record after { current_moases = r.0; log = r.1 }) Q
            (subst (λ u. GoodAfter ts (clean_moas m ts lv u after.log).0) same
              (record {
                placed = placed';
                ends = ends;
                several = λ pfx key h. Detected-AllMoas ds pfx key good ((running pfx key).0 h);
              })))
    where
      nothing : (t : Moases E.Pfx) → note_all m ts lv [] t ≡ ok t
      nothing t = refl

  -- If a view is processed to the end, its time is not 0 and not before the window, and every end was
  -- before its time, then the table is again one that khash.h built, no end is after the time of the
  -- view, and each MOAS that is running has a signature of at least two origins, with no origin twice.
  pub process_view-GoodAfter :
      (same_pfx : Discrete E.Pfx) (state b : MoasState E.Pfx) (s s' : State E)
      → process_view m state s ≡ ok (b, s')
      → 0 < s.view.time
      → s.view.time < 2 ^ 32
      → state.window_size ≤ s.view.time
      → Placed m state.current_moases
      → EndsBefore m s.view.time state.current_moases
      → GoodAfter s.view.time b.current_moases
  unfolding process_view start_view Ends
  process_view-GoodAfter same_pfx state b s s' e later small window placed before =
      let start = start_view s.view.time state in
      process_pfxs-Ends same_pfx s.view.time start.0 start.1 later
        (begins s.view.time state.window_size window small) placed before b
        (record s { iter = new_iter s.view }) s' e
    where
      begins : (t w : ℕ) → w ≤ t → t < 2 ^ 32 → (t + 2 ^ 32 - w) % 2 ^ 32 ≤ t
      begins t w h k = omega arith
