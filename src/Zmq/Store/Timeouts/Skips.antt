-- ===== src/Zmq/Store/Timeouts/Skips.antt =====
-- bgpview_io_zmq_store_check_timeouts, where the first view of the window has timed out.
use bgpview.Base.{
  ℕ, suc, ◌+◌, ◌-◌, ◌%◌, ◌≤◌, ◌≡◌, ◌≢◌, refl, sym, ap, ◌∙◌, ◌⊎◌, inl, inr, true, false, some, arith,
  get_elem?,
}
use bgpview.View.Types.{Ret, minus_one, zero_ret}
use bgpview.Zmq.Types.{unused, timeout_expired, ZmqEnv, StoreView, Store}
use bgpview.Zmq.Op.{unless_failed}
use bgpview.Zmq.Sview.{is_unused, completion_check}
use bgpview.Zmq.Sview.Runs.{Clears}
use bgpview.Zmq.Store.{check_from, check_timeouts}
use bgpview.Zmq.Store.Window.{wrap_mod, Window}
use bgpview.Zmq.Store.Checked.{Checked, Removed, completion_check-Removed}
use bgpview.Zmq.Store.Slide.{in_use}
use bgpview.Zmq.Store.Slide.{offset_self}
use bgpview.Zmq.Store.Timeouts.{expired, pass-expired, check_from-Passed}

module _ {Z : ZmqEnv} {h : ℕ} (clears : Clears Z) where
  module _ (now : ℕ) (s : Store Z) (w : Window h s) (v : StoreView Z)
      (e : get_elem? s.sviews s.sviews_first_idx ≡ some v) (used : v.state ≢ unused)
      (old : expired now v ≡ true) where
    next_idx : ℕ
    next_idx = (s.sviews_first_idx + 1) % s.sviews_cnt

    first_place : s.sviews_first_idx ≡ (0 + s.sviews_first_idx) % s.sviews_cnt
    first_place = ground (arith, wrap_mod s.sviews_cnt (0 + s.sviews_first_idx), w.f_lt)

    apart : 2 ≤ s.sviews_cnt → s.sviews_first_idx ≢ next_idx
    unfolding next_idx
    apart two q = ground (arith, wrap_mod s.sviews_cnt (s.sviews_first_idx + 1), w.f_lt)

    Skips : Type 0
    Skips =
        (r : Ret) × (s' : Store Z) × (check_timeouts now s ≡ some (r, s'))
        × (get_elem? s'.sviews ((s.sviews_first_idx + 1) % s.sviews_cnt)
            ≡ get_elem? s.sviews ((s.sviews_first_idx + 1) % s.sviews_cnt))

    first_view : Z.ops.get_time v.view ≡ s.sviews_first_time
    first_view = elim (w.place s.sviews_first_idx v e) [
      | inl p ↦ absurd (used p)
      | inr (p, _) ↦ omega (arith, p, offset_self s.sviews_cnt s.sviews_first_idx)
    ]

    busy : is_unused v.state ≡ false
    busy = elim (in_use v.state) [ inl p ↦ absurd (used p) | inr (_, b) ↦ b ]

    first_round :
        (n : ℕ)
        → suc n ≡ s.sviews_cnt
        → (r : Ret) (s1 : Store Z)
        → completion_check now s.sviews_first_idx timeout_expired s ≡ some (r, s1)
        → check_timeouts now s ≡ unless_failed r (check_from now n 1) s1
    unfolding check_timeouts
    first_round n eq r s1 d =
        ap (λ m. check_from now m 0 s) (sym eq)
        ∙ pass-expired now n 0 s.sviews_first_idx s v first_place e busy old r s1 d

    skips :
        (n : ℕ)
        → suc n ≡ s.sviews_cnt
        → 2 ≤ s.sviews_cnt
        → (r : Ret) (s1 : Store Z)
        → completion_check now s.sviews_first_idx timeout_expired s ≡ some (r, s1)
        → Checked h s s.sviews_first_idx v s1
        → (r ≡ minus_one) ⊎ ((r ≡ zero_ret) × Removed s s.sviews_first_idx v s1)
        → Skips
    unfolding check_timeouts next_idx Skips
    skips n eq two r s1 d c (inl p) = (
      minus_one,
      s1,
      first_round n eq r s1 d ∙ ap (λ x. unless_failed x (check_from now n 1) s1) p,
      c.others next_idx (apart two),
    )
    skips n eq two r s1 d c (inr (p, g)) =
        let more = check_from-Passed clears now n 1 s1 c.window in
        (
          more.0,
          more.1,
          first_round n eq r s1 d ∙ ap (λ x. unless_failed x (check_from now n 1) s1) p ∙ more.2,
          ap (get_elem? more.1.sviews) (sym moved)
              ∙ more.3.first_stays (omega arith) (omega (arith, eq, c.cnt))
              ∙ ap (get_elem? s1.sviews) moved
              ∙ c.others next_idx (apart two),
        )
      where
        moved : s1.sviews_first_idx ≡ (s.sviews_first_idx + 1) % s.sviews_cnt
        moved = (g.moved first_view).0

    -- Where the views in use are at the places of their times, there are places for two or more,
    -- the first view of the window is in use and has timed out, and bgpview_clear returns:
    -- bgpview_io_zmq_store_check_timeouts returns, and the view at the next place is exactly as
    -- it was before, whatever its age.
    pub check_timeouts_skips :
        2 ≤ s.sviews_cnt
        → (r : Ret) × (s' : Store Z) × (check_timeouts now s ≡ some (r, s'))
          × (get_elem? s'.sviews ((s.sviews_first_idx + 1) % s.sviews_cnt)
              ≡ get_elem? s.sviews ((s.sviews_first_idx + 1) % s.sviews_cnt))
    unfolding Skips
    check_timeouts_skips two =
        let c =
          completion_check-Removed s w s.sviews_first_idx v e used now clears timeout_expired
            refl in
        skips (s.sviews_cnt - 1) (omega arith) two c.0 c.1 c.2 c.3 c.4
