-- ===== src/Zmq/Store/Slide/Rounds.antt =====
-- The loop of store_view_get that slides the window, round by round.
use bgpview.Base.{
  ℕ, zero, suc, ◌+◌, ◌*◌, ◌%◌, ◌≤◌, ◌<◌, ◌≡◌, ◌≢◌, refl, sym, ap, subst, subst₂, ◌∙◌, ◌⊎◌, inl, inr,
  true, false, some, leb, arith, get_elem?, get_elem?-some, Bool-cases,
}
use bgpview.View.Types.{Ret, minus_one, zero_ret}
use bgpview.Zmq.Types.{unused, wdw_exceeded, ZmqEnv, StoreView, Store, item_time, u32}
use bgpview.Zmq.Op.{unless_failed}
use bgpview.Zmq.Sview.{is_unused, completion_check}
use bgpview.Zmq.Sview.Runs.{Clears}
use bgpview.Zmq.Store.{slide}
use bgpview.Zmq.Store.Window.{Placed, Window, Placed-advanced}
use bgpview.Zmq.Store.Checked.{Removed, Checked, completion_check-Removed}
use bgpview.Zmq.Store.Slide.{
  in_use, offset_self, next_place, rebased, Sliding, Slid, stopped, slid, Finishes, Ends-after,
  slide-stop, slide-skip, slide-check,
}

module _ {Z : ZmqEnv} {h cnt f0 t0 min : ℕ} (f0_lt : f0 < cnt) (min_le : min ≤ h)
    (aligned : min % 300 ≡ 0) where
  -- At the end of the buffer nothing is in use.
  past_end :
      (s : Store Z)
      → Sliding h cnt f0 t0 min cnt s
      → (j : ℕ) (u : StoreView Z) → get_elem? s.sviews j ≡ some u
      → u.state ≡ unused
  past_end s l j u d = elim (l.placed.place j u d) [
    | inl p ↦ p
    | inr (p, _) ↦ elim (l.below j u d) [ inl q ↦ q | inr lt ↦ absurd (omega (arith, p, lt)) ]
  ]

  past_end-Slid : (s : Store Z) → Sliding h cnt f0 t0 min cnt s → Slid h cnt min s s
  past_end-Slid s l = record {
    placed = record {
      len = l.placed.len;
      f_lt = l.idx_lt;
      aligned = aligned;
      first_le = omega arith;
      fits = l.placed.fits;
      own = l.placed.own;
      place = λ j u d. inl (past_end s l j u d);
    };
    cnt_eq = l.cnt_eq;
    time_le = l.time_le;
    clients = refl;
    kept = λ j u d n _. d;
  }

  module _ (i : ℕ) (lt : i < cnt) (s : Store Z) (l : Sliding h cnt f0 t0 min i s) where
    slot_time : u32 (i * item_time + t0) ≡ t0 + i * 300
    slot_time = omega (arith, l.le, l.placed.fits)

    here_Window : Window h (rebased ((i + f0) % cnt) (t0 + i * 300) s)
    here_Window =
        subst (λ c. Placed h c ((i + f0) % cnt) (t0 + i * 300) s.sviews) (sym l.cnt_eq) l.placed

    -- The window begins at `min` already.
    stop-Slid : min ≤ t0 + i * 300 → Slid h cnt min s (rebased ((i + f0) % cnt) (t0 + i * 300) s)
    stop-Slid q = record {
      placed = subst (λ t. Placed h cnt ((i + f0) % cnt) t s.sviews) (omega (arith, l.le)) l.placed;
      cnt_eq = l.cnt_eq;
      time_le = l.le;
      clients = refl;
      kept = λ j u d n _. d;
    }

    -- The next window begins no later than `min`.
    next_le : t0 + i * 300 < min → t0 + (i + 1) * 300 ≤ min
    next_le q = omega (arith, l.placed.aligned)

    next_time : t0 + i * 300 < min → u32 (t0 + i * 300 + item_time) ≡ t0 + (i + 1) * 300
    next_time q = omega (arith, next_le q, min_le, l.placed.fits)

    -- The time of a view that is first.
    first_time :
        (v : StoreView Z)
        → get_elem? s.sviews ((i + f0) % cnt) ≡ some v
        → v.state ≢ unused
        → Z.ops.get_time v.view ≡ t0 + i * 300
    first_time v e used = elim (l.placed.place ((i + f0) % cnt) v e) [
      | inl p ↦ absurd (used p)
      | inr (p, _) ↦ omega (arith, p, offset_self cnt ((i + f0) % cnt))
    ]

    skip-Sliding :
        (v : StoreView Z)
        → get_elem? s.sviews ((i + f0) % cnt) ≡ some v
        → v.state ≡ unused
        → t0 + i * 300 < min
        → Sliding h cnt f0 t0 min (i + 1) (rebased ((i + f0) % cnt) (t0 + i * 300) s)
    skip-Sliding v e p q = record {
      placed =
          subst₂ (λ f t. Placed h cnt f t s.sviews) (next_place cnt f0 i f0_lt lt) (next_time q)
            (Placed-advanced l.placed v e p (omega arith));
      cnt_eq = l.cnt_eq;
      below = l.below;
      le = next_le q;
      idx_lt = l.placed.f_lt;
      time_le = l.le;
    }

    check-Sliding :
        (v : StoreView Z)
        → get_elem? s.sviews ((i + f0) % cnt) ≡ some v
        → v.state ≢ unused
        → t0 + i * 300 < min
        → (s' : Store Z)
        → Checked h (rebased ((i + f0) % cnt) (t0 + i * 300) s) ((i + f0) % cnt) v s'
        → Removed (rebased ((i + f0) % cnt) (t0 + i * 300) s) ((i + f0) % cnt) v s'
        → Sliding h cnt f0 t0 min (i + 1) s'
    check-Sliding v e used q s' c g = record {
      placed =
          subst (λ n. Placed h n ((i + 1 + f0) % cnt) (t0 + (i + 1) * 300) s'.sviews)
            (c.cnt ∙ l.cnt_eq)
            (subst₂ (λ f t. Placed h s'.sviews_cnt f t s'.sviews) moved_idx moved_time c.window);
      cnt_eq = c.cnt ∙ l.cnt_eq;
      below = c.below (t0 + cnt * 300) l.below;
      le = next_le q;
      idx_lt = subst (λ n. s'.sviews_first_idx < n) (c.cnt ∙ l.cnt_eq) c.window.f_lt;
      time_le = omega (arith, moved_time, next_le q);
    }
      where
        moved_idx : s'.sviews_first_idx ≡ (i + 1 + f0) % cnt
        moved_idx =
            (g.moved (first_time v e used)).0
            ∙ ap (λ n. ((i + f0) % cnt + 1) % n) l.cnt_eq
            ∙ next_place cnt f0 i f0_lt lt

        moved_time : s'.sviews_first_time ≡ t0 + (i + 1) * 300
        moved_time = (g.moved (first_time v e used)).1 ∙ next_time q

    skip-kept :
        (s' : Store Z)
        → Slid h cnt min (rebased ((i + f0) % cnt) (t0 + i * 300) s) s'
        → Slid h cnt min s s'
    skip-kept s' d = record {
      placed = d.placed;
      cnt_eq = d.cnt_eq;
      time_le = d.time_le;
      clients = d.clients;
      kept = d.kept;
    }

    -- What a later state keeps was kept by this round.
    check-kept :
        (v : StoreView Z)
        → get_elem? s.sviews ((i + f0) % cnt) ≡ some v
        → v.state ≢ unused
        → t0 + i * 300 < min
        → (s' s'' : Store Z)
        → Checked h (rebased ((i + f0) % cnt) (t0 + i * 300) s) ((i + f0) % cnt) v s'
        → Slid h cnt min s' s''
        → Slid h cnt min s s''
    check-kept v e used q s' s'' c d = record {
      placed = d.placed;
      cnt_eq = d.cnt_eq;
      time_le = d.time_le;
      clients = d.clients ∙ c.clients;
      kept = λ j u there n le. d.kept j u (c.others j (other j u there le) ∙ there) n le;
    }
      where
        other :
            (j : ℕ) (u : StoreView Z)
            → get_elem? s.sviews j ≡ some u
            → min ≤ Z.ops.get_time u.view
            → (i + f0) % cnt ≢ j
        other j u there le p = ground (arith, the_same p, first_time v e used)
          where
            the_same : (i + f0) % cnt ≡ j → v ≡ u
            the_same r = cc

    -- A round, and the rounds after it.
    round :
        (now n : ℕ)
        → Clears Z
        → ((s' : Store Z)
            → Sliding h cnt f0 t0 min (i + 1) s'
            → Finishes h cnt f0 t0 min now n (i + 1) s')
        → Finishes h cnt f0 t0 min now (suc n) i s
    round now n clears rest =
        let there =
          get_elem?-some s.sviews ((i + f0) % cnt) (omega (arith, l.placed.f_lt, l.placed.len)) in
        go there.0 there.1 (Bool-cases (leb min (t0 + i * 300))) (in_use there.0.state)
      where
        idx : ℕ
        idx = (i + f0) % cnt

        time : ℕ
        time = t0 + i * 300

        checked :
            (v : StoreView Z)
            → get_elem? s.sviews idx ≡ some v
            → leb min time ≡ false
            → v.state ≢ unused
            → is_unused v.state ≡ false
            → (r : Ret) (s' : Store Z)
            → completion_check now idx wdw_exceeded (rebased idx time s) ≡ some (r, s')
            → Checked h (rebased idx time s) idx v s'
            → (r ≡ minus_one) ⊎ ((r ≡ zero_ret) × Removed (rebased idx time s) idx v s')
            → Finishes h cnt f0 t0 min now (suc n) i s
        checked v e q used busy r s' d c (inl p) = (
          minus_one,
          s',
          slide-check now min f0 t0 n i idx time s v (ap (λ m. (i + f0) % m) (sym l.cnt_eq))
                (sym slot_time) e q busy r s' d
              ∙ ap (λ x. unless_failed x (slide now min f0 t0 n (i + 1)) s') p,
          stopped s' c.window,
        )
        checked v e q used busy r s' d c (inr (p, g)) =
            let more = rest s' (check-Sliding v e used (ground arith) s' c g) in
            (
              more.0,
              more.1,
              slide-check now min f0 t0 n i idx time s v (ap (λ m. (i + f0) % m) (sym l.cnt_eq))
                    (sym slot_time) e q busy r s' d
                  ∙ ap (λ x. unless_failed x (slide now min f0 t0 n (i + 1)) s') p
                  ∙ more.2,
              Ends-after (λ s'' k. check-kept v e used (ground arith) s' s'' c k) more.3,
            )

        go :
            (v : StoreView Z)
            → get_elem? s.sviews idx ≡ some v
            → (leb min time ≡ true) ⊎ (leb min time ≡ false)
            → (v.state ≡ unused) ⊎ ((v.state ≢ unused) × (is_unused v.state ≡ false))
            → Finishes h cnt f0 t0 min now (suc n) i s
        go v e (inl q) u = (
          zero_ret,
          rebased idx time s,
          slide-stop now min f0 t0 n i idx time s v (ap (λ m. (i + f0) % m) (sym l.cnt_eq))
              (sym slot_time) e q,
          slid _ (stop-Slid (ground arith)),
        )
        go v e (inr q) (inl free) =
            let r = rest (rebased idx time s) (skip-Sliding v e free (ground arith)) in
            (
              r.0,
              r.1,
              slide-skip now min f0 t0 n i idx time s v (ap (λ m. (i + f0) % m) (sym l.cnt_eq))
                    (sym slot_time) e q free
                  ∙ r.2,
              Ends-after (λ s' d. skip-kept s' d) r.3,
            )
        go v e (inr q) (inr (used, busy)) =
            let c =
              completion_check-Removed (rebased idx time s) here_Window idx v e used now clears
                wdw_exceeded refl in
            checked v e q used busy c.0 c.1 c.2 c.3 c.4

  pub slide-Ends :
      (now n i : ℕ) (s : Store Z)
      → Clears Z
      → n + i ≡ cnt
      → Sliding h cnt f0 t0 min i s
      → Finishes h cnt f0 t0 min now n i s
  unfolding slide
  slide-Ends now zero i s clears eq l = (
    zero_ret,
    s,
    refl,
    slid s (past_end-Slid s (subst (λ k. Sliding h cnt f0 t0 min k s) (omega arith) l)),
  )
  slide-Ends now (suc n) i s clears eq l =
      round i (omega arith) s l now n clears
        (λ s' l'. slide-Ends now n (i + 1) s' clears (omega arith) l')
