-- ===== src/Zmq/Store/Timeouts.antt =====
-- bgpview_io_zmq_store_check_timeouts: the loop starts again from the first view of the window when
-- the window moves.
pub mod Skips
use native.Mathlib.Nat.{mod-lt}
use bgpview.Base.{
  ℕ, zero, suc, ◌+◌, ◌*◌, ◌%◌, ◌≤◌, ◌<◌, ◌≡◌, ◌≢◌, refl, sym, ap, ap₂, subst, ◌∙◌, ◌⊎◌, inl, inr,
  Bool, true, false, none, some, List, length, ltb, arith, get_elem?, get_elem?-some, get_elem?-lt,
  Bool-cases,
}
use bgpview.View.Types.{Ret, minus_one, zero_ret, one_ret}
use bgpview.Zmq.Types.{
  StoreViewState, unused, timeout_expired, ZmqEnv, StoreView, Store, view_timeout,
}
use bgpview.Zmq.Op.{unless_failed}
use bgpview.Zmq.Sview.{is_unused, completion_check}
use bgpview.Zmq.Sview.Runs.{Clears}
use bgpview.Zmq.Store.{check_from, check_timeouts}
use bgpview.Zmq.Store.Window.{offset, wrap_mod, InPlace, Window}
use bgpview.Zmq.Store.Checked.{Checked, Removed, completion_check-Removed}
use bgpview.Zmq.Store.Slide.{in_use}

-- Whether a view has been there for longer than a view may.
abbrev pub expired : {Z : ZmqEnv} → ℕ → StoreView Z → Bool
expired {Z} now v = ltb (Z.ops.get_time_created v.view + view_timeout) now

module _ {Z : ZmqEnv} (now n i idx : ℕ) (s : Store Z) (v : StoreView Z)
    (place : idx ≡ (i + s.sviews_first_idx) % s.sviews_cnt)
    (e : get_elem? s.sviews idx ≡ some v) where
  pass-unused : v.state ≡ unused → check_from now (suc n) i s ≡ check_from now n (i + 1) s
  unfolding check_from
  pass-unused p = ground arith

  pass-young :
      is_unused v.state ≡ false
      → expired now v ≡ false
      → check_from now (suc n) i s ≡ check_from now n (i + 1) s
  unfolding check_from
  pass-young p q = ground arith

  pub pass-expired :
      is_unused v.state ≡ false
      → expired now v ≡ true
      → (r : Ret) (s' : Store Z) → completion_check now idx timeout_expired s ≡ some (r, s')
      → check_from now (suc n) i s ≡ unless_failed r (check_from now n (i + 1)) s'
  unfolding check_from
  pass-expired p q r s' d = ground arith

-- The store after some rounds, the first of which is the i-th, and there are n: where they stay short
-- of a whole turn and leave out the first view of the window, they leave it alone.
pub record Passed {Z : ZmqEnv} (h n i : ℕ) (s s' : Store Z) : Type 0 where
  pub window : Window h s'
  pub cnt_eq : s'.sviews_cnt ≡ s.sviews_cnt
  pub clients : s'.active_clients ≡ s.active_clients
  pub first_stays :
      0 < i
      → n + i ≤ s.sviews_cnt
      → get_elem? s'.sviews s.sviews_first_idx ≡ get_elem? s.sviews s.sviews_first_idx

abbrev pub Passes : {Z : ZmqEnv} → (h now n i : ℕ) → Store Z → Type 0
Passes {Z} h now n i s =
    (r : Ret) × (s' : Store Z) × (check_from {Z = Z} now n i s ≡ some (r, s')) × Passed h n i s s'

-- A place that is not the first.
not_first :
    (cnt f i : ℕ)
    → f < cnt
    → 0 < i
    → i < cnt
    → ((i + f) % cnt ≢ f) × (0 < offset cnt f ((i + f) % cnt))
not_first cnt f i p q r =
    (λ e. ground (arith, wrap_mod cnt (i + f)), ground (arith, wrap_mod cnt (i + f)))

module _ {Z : ZmqEnv} {h : ℕ} (n i : ℕ) (s : Store Z) (w : Window h s) where
  idx : ℕ
  idx = (i + s.sviews_first_idx) % s.sviews_cnt

  pass : (s' : Store Z) → Passed h n (i + 1) s s' → Passed h (suc n) i s s'
  pass s' p = record {
    window = p.window;
    cnt_eq = p.cnt_eq;
    clients = p.clients;
    first_stays = λ pos le. p.first_stays (omega arith) (omega arith);
  }

  pass-Checked :
      (v : StoreView Z)
      → get_elem? s.sviews idx ≡ some v
      → v.state ≢ unused
      → (s1 s' : Store Z) → Checked h s idx v s1
      → Passed h n (i + 1) s1 s'
      → Passed h (suc n) i s s'
  unfolding idx
  pass-Checked v e used s1 s' c p = record {
    window = p.window;
    cnt_eq = p.cnt_eq ∙ c.cnt;
    clients = p.clients ∙ c.clients;
    first_stays = λ pos le.
        ap (get_elem? s'.sviews) (sym (stays pos le))
        ∙ p.first_stays (omega arith) (omega (arith, c.cnt))
        ∙ ap (get_elem? s1.sviews) (stays pos le)
        ∙ c.others s.sviews_first_idx
            (not_first s.sviews_cnt s.sviews_first_idx i w.f_lt pos (omega arith)).0;
  }
    where
      stays : 0 < i → suc n + i ≤ s.sviews_cnt → s1.sviews_first_idx ≡ s.sviews_first_idx
      stays pos le =
          (c.first_kept (λ t. elim (w.place idx v e) [
            | inl p ↦ used p
            | inr (p, _) ↦ omega (
              arith,
              p,
              t,
              (not_first s.sviews_cnt s.sviews_first_idx i w.f_lt pos (omega arith)).1,
            )
          ])).0

  stop-Checked :
      (v : StoreView Z)
      → get_elem? s.sviews idx ≡ some v
      → (s1 : Store Z) → Checked h s idx v s1
      → Passed h (suc n) i s s1
  unfolding idx
  stop-Checked v e s1 c = record {
    window = c.window;
    cnt_eq = c.cnt;
    clients = c.clients;
    first_stays = λ pos le.
        c.others s.sviews_first_idx
          (not_first s.sviews_cnt s.sviews_first_idx i w.f_lt pos (omega arith)).0;
  }

module _ {Z : ZmqEnv} {h : ℕ} (now n i : ℕ) (s : Store Z) (w : Window h s) (clears : Clears Z)
    (rest : (s' : Store Z) → Window h s' → Passes h now n (i + 1) s') where
  round : Passes h now (suc n) i s
  unfolding idx
  round =
      let there = get_elem?-some s.sviews (idx n i s w) (omega (arith, w.len, in_buffer)) in
      go there.0 there.1 (in_use there.0.state)
    where
      in_buffer : (i + s.sviews_first_idx) % s.sviews_cnt < s.sviews_cnt
      in_buffer = mod-lt (i + s.sviews_first_idx) {m = s.sviews_cnt} (omega (arith, w.f_lt))

      checked :
          (v : StoreView Z)
          → get_elem? s.sviews (idx n i s w) ≡ some v
          → v.state ≢ unused
          → is_unused v.state ≡ false
          → expired now v ≡ true
          → (r : Ret) (s1 : Store Z)
          → completion_check now (idx n i s w) timeout_expired s ≡ some (r, s1)
          → Checked h s (idx n i s w) v s1
          → (r ≡ minus_one) ⊎ ((r ≡ zero_ret) × Removed s (idx n i s w) v s1)
          → Passes h now (suc n) i s
      checked v e used busy old r s1 d c (inl p) = (
        minus_one,
        s1,
        pass-expired now n i (idx n i s w) s v refl e busy old r s1 d
            ∙ ap (λ x. unless_failed x (check_from now n (i + 1)) s1) p,
        stop-Checked n i s w v e s1 c,
      )
      checked v e used busy old r s1 d c (inr (p, _)) =
          let more = rest s1 c.window in
          (
            more.0,
            more.1,
            pass-expired now n i (idx n i s w) s v refl e busy old r s1 d
                ∙ ap (λ x. unless_failed x (check_from now n (i + 1)) s1) p
                ∙ more.2,
            pass-Checked n i s w v e used s1 more.1 c more.3,
          )

      busy_view :
          (v : StoreView Z)
          → get_elem? s.sviews (idx n i s w) ≡ some v
          → v.state ≢ unused
          → is_unused v.state ≡ false
          → (expired now v ≡ true) ⊎ (expired now v ≡ false)
          → Passes h now (suc n) i s
      busy_view v e used busy (inl old) =
          let c =
            completion_check-Removed s w (idx n i s w) v e used now clears timeout_expired refl in
          checked v e used busy old c.0 c.1 c.2 c.3 c.4
      busy_view v e used busy (inr young) =
          let more = rest s w in
          (
            more.0,
            more.1,
            pass-young now n i (idx n i s w) s v refl e busy young ∙ more.2,
            pass n i s w more.1 more.3,
          )

      go :
          (v : StoreView Z)
          → get_elem? s.sviews (idx n i s w) ≡ some v
          → (v.state ≡ unused) ⊎ ((v.state ≢ unused) × (is_unused v.state ≡ false))
          → Passes h now (suc n) i s
      go v e (inl p) =
          let more = rest s w in
          (
            more.0,
            more.1,
            pass-unused now n i (idx n i s w) s v refl e p ∙ more.2,
            pass n i s w more.1 more.3,
          )
      go v e (inr (used, busy)) = busy_view v e used busy (Bool-cases (expired now v))

module _ {Z : ZmqEnv} {h : ℕ} (clears : Clears Z) where
  pub check_from-Passed : (now n i : ℕ) (s : Store Z) → Window h s → Passes h now n i s
  unfolding check_from
  check_from-Passed now zero i s w = (
    zero_ret,
    s,
    refl,
    record { window = w; cnt_eq = refl; clients = refl; first_stays = λ pos le. refl },
  )
  check_from-Passed now (suc n) i s w =
      round now n i s w clears (λ s' w'. check_from-Passed now n (i + 1) s' w')

  -- Whatever the ages of the views, the call returns, and the views in use are at their places.
  pub check_timeouts-Window :
      (now : ℕ) (s : Store Z)
      → Window h s
      → (r : Ret) × (s' : Store Z) × (check_timeouts now s ≡ some (r, s'))
        × Window h s'
        × (s'.active_clients ≡ s.active_clients)
  unfolding check_timeouts
  check_timeouts-Window now s w =
      let p = check_from-Passed now s.sviews_cnt 0 s w in (p.0, p.1, p.2, p.3.window, p.3.clients)
