-- ===== src/Moas/Process/Windows.antt =====
-- The window that bvc_moas_process_view reports, from one view to the next.
use bgpview.Base.{
  ℕ, ◌+◌, ◌-◌, ◌^◌, ◌≡◌, ◌≤◌, ◌<◌, refl, subst, ◌∙◌, ◌==◌, if◌then◌else◌, [], arith, length, ltb,
}
use bgpview.View.Types.{Env, State}
use bgpview.View.Activate.{new_iter}
use bgpview.View.Access.{iter_pfx_get_pfx}
use bgpview.Io.Outcome.{ok}
use bgpview.Io.Row.{run, lift}
use bgpview.Moas.Types.{MoasEnv, MoasState}
use bgpview.Moas.Table.{note_moas, clean_moas}
use bgpview.Moas.Process.{
  for_active_peers, for_active_pfxs, log_moas, add_moas, collect_origin, process_pfx, start_view,
  process_pfxs, process_view,
}
use bgpview.Io.Row.Ends.{Ends, Ends-bind, Ends-after, Ends-pure, Ends-ite}
use bgpview.Moas.Process.Ends.{for_active_pfxs-Ends}

-- Two states with the same times and windows.
pub record SameWindow {P : Type 0} (state b : MoasState P) : Type 0 where
  pub first_ts : b.first_ts ≡ state.first_ts
  pub window_size : b.window_size ≡ state.window_size
  pub current : b.current_window_size ≡ state.current_window_size

-- What start_view makes of them, where the first view was at `t0`.
abbrev AtWindow : {P : Type 0} → (w t0 t : ℕ) → MoasState P → Type 0
AtWindow w t0 t b =
    (b.first_ts ≡ t0)
    × (b.window_size ≡ w)
    × (t < t0 + w → b.current_window_size ≡ t - t0)
    × (t0 + w ≤ t → b.current_window_size ≡ w)

start_view-AtWindow :
    {P : Type 0} (w t0 time : ℕ) (state : MoasState P)
    → (if state.first_ts == 0 then time else state.first_ts) ≡ t0
    → state.window_size ≡ w
    → t0 ≤ time
    → time < 2 ^ 32
    → w ≤ t0
    → AtWindow w t0 time (start_view time state).1
unfolding start_view
start_view-AtWindow w t0 time state first size later small le =
    (first, size, λ p. ground arith, λ p. ground arith)

SameWindow-AtWindow :
    {P : Type 0} {w t0 t : ℕ} {state b : MoasState P}
    → SameWindow state b
    → AtWindow w t0 t state
    → AtWindow w t0 t b
SameWindow-AtWindow h (first, size, short, long) =
    (h.first_ts ∙ first, h.window_size ∙ size, λ p. h.current ∙ short p, λ p. h.current ∙ long p)

module _ {E : Env} (m : MoasEnv E) where
  process_pfx-SameWindow :
      (ts lv : ℕ) (start state : MoasState E.Pfx)
      → SameWindow start state
      → Ends (process_pfx m ts lv state) (SameWindow start)
  unfolding process_pfx add_moas
  process_pfx-SameWindow ts lv start state h =
      let Q = SameWindow start in
      Ends-after (run iter_pfx_get_pfx) _ Q (λ pfx.
        Ends-ite (m.blacklist_pfxs pfx) _ _ Q (λ _. Ends-pure E state Q h)
          (λ _. Ends-after (for_active_peers (collect_origin m (E.version pfx)) []) _ Q (λ ms.
            Ends-ite (ltb 1 (length ms)) _ _ Q
              (λ _. Ends-after (run iter_pfx_get_pfx) _ Q (λ here.
                Ends-after (lift (note_moas m here ms ts lv state.current_moases)) _ Q
                  (λ (mc, moases).
                    Ends-after (log_moas m here (m.qsort ms) mc ts state.log) _ Q (λ l.
                      Ends-pure E (record state { current_moases = moases; log = l }) Q
                        (record {
                          first_ts = h.first_ts;
                          window_size = h.window_size;
                          current = h.current;
                        })))))
              (λ _. Ends-pure E state Q h))))

  process_view-SameWindow :
      (state b : MoasState E.Pfx) (s s' : State E)
      → process_view m state s ≡ ok (b, s')
      → SameWindow (start_view s.view.time state).1 b
  unfolding process_view process_pfxs Ends
  process_view-SameWindow state b s s' e =
      let (lv, start) = start_view s.view.time state in
      let Q = SameWindow start in
      Ends-bind (for_active_pfxs (process_pfx m s.view.time lv) start) _ Q Q
        (for_active_pfxs-Ends (process_pfx m s.view.time lv) Q
          (process_pfx-SameWindow s.view.time lv start) start
          (record { first_ts = refl; window_size = refl; current = refl }))
        (λ after h.
          let r = clean_moas m s.view.time lv after.current_moases after.log in
          Ends-pure E (record after { current_moases = r.0; log = r.1 }) Q
            (record { first_ts = h.first_ts; window_size = h.window_size; current = h.current }))
        b (record s { iter = new_iter s.view }) s' e

  -- A consumer with a window `w` has processed views, the first of the time `t0` and the last of `t`.
  pub data Processed (w t0 : ℕ) : ℕ → MoasState E.Pfx → Type 0 where
    first_view :
        (state b : MoasState E.Pfx) (s s' : State E)
        → state.first_ts ≡ 0
        → state.window_size ≡ w
        → s.view.time ≡ t0
        → process_view m state s ≡ ok (b, s')
        → Processed w t0 t0 b
    next_view :
        (t : ℕ) (state b : MoasState E.Pfx) (s s' : State E)
        → Processed w t0 t state
        → t0 ≤ s.view.time
        → s.view.time < 2 ^ 32
        → process_view m state s ≡ ok (b, s')
        → Processed w t0 s.view.time b

  -- Of a consumer with a window that is not larger than the time of the first view, which is not
  -- 0, where no view has a time before that of the first one and all of them are processed to
  -- the end: after each view, first_ts is the time of the first view, and the window that is
  -- reported is the time since then, as long as that is less than the window that was asked for,
  -- and the latter from then on.
  pub process_view-current_window_size :
      (w t0 t : ℕ) (b : MoasState E.Pfx)
      → 0 < t0
      → t0 < 2 ^ 32
      → w ≤ t0
      → Processed w t0 t b
      → (b.first_ts ≡ t0)
        × (b.window_size ≡ w)
        × (t < t0 + w → b.current_window_size ≡ t - t0)
        × (t0 + w ≤ t → b.current_window_size ≡ w)
  process_view-current_window_size w t0 _ _ pos small le (first_view state b s s' fresh size at e) =
      SameWindow-AtWindow (process_view-SameWindow state b s s' e)
        (start_at s.view.time state at fresh size)
    where
      start_at :
          (time : ℕ) (state : MoasState E.Pfx)
          → time ≡ t0
          → state.first_ts ≡ 0
          → state.window_size ≡ w
          → AtWindow w t0 t0 (start_view time state).1
      start_at time state q fresh size =
          subst (λ t. AtWindow w t0 t (start_view time state).1) q
            (start_view-AtWindow w t0 time state (ground (arith, q, fresh)) size (omega (arith, q))
              (omega (arith, q)) le)
  process_view-current_window_size w t0 _ _ pos small le
        (next_view t state b s s' before later fits e) =
      let r = process_view-current_window_size w t0 t state pos small le before in
      SameWindow-AtWindow (process_view-SameWindow state b s s' e)
        (start_view-AtWindow w t0 s.view.time state (ground (arith, r.0)) r.1 later fits le)
