-- ===== src/Zmq/Store/Get/Late.antt =====
-- bgpview_io_zmq_store_get_view: a time that makes the window slide.
use bgpview.Base.{
  ℕ, ◌+◌, ◌-◌, ◌*◌, ◌%◌, ◌^◌, ◌≤◌, ◌<◌, ◌≡◌, refl, sym, ap, subst, subst₂, ◌∙◌, ◌⊎◌, inl, inr, true,
  false, Option, some, ltb, if◌then◌else◌, arith, get_elem?-lt, Bool-cases,
}
use bgpview.View.Types.{Ret}
use bgpview.Zmq.Types.{ZmqEnv, Store, item_time, u32}
use bgpview.Zmq.Sview.{wdw_duration}
use bgpview.Zmq.Sview.Runs.{Clears}
use bgpview.Zmq.Store.{
  Found, failed, exceeded, valid, sview_of, open_view, open_last, slide, store_view_get,
}
use bgpview.Zmq.Store.Window.{wrap_mod, Placed, Window}
use bgpview.Zmq.Store.Slide.{rebased, Sliding, Slid, Ends, stopped, slid, Finishes}
use bgpview.Zmq.Store.Slide.Rounds.{slide-Ends}
use bgpview.Zmq.Store.Get.{Opened, Gets, too_late, unsent, found, offset_lt, open_view-Opens}

lt_cases : (a b : ℕ) → (a < b) ⊎ (b ≤ a)
lt_cases a b = elim (Bool-cases (ltb a b)) [
  | inl q ↦ inl (ground arith)
  | inr q ↦ inr (ground arith)
]

module _ {Z : ZmqEnv} {h : ℕ} (s : Store Z) (w : Window h s) (now t : ℕ) (t_le : t ≤ h)
    (aligned : t % 300 ≡ 0) (clears : Clears Z) where
  before_end : s.sviews_first_time + s.sviews_cnt * 300 ≡ u32 (s.sviews_first_time + wdw_duration s)
  before_end = omega (arith, w.first_le, w.fits)

  within :
      s.sviews_first_time ≤ t
      → t < s.sviews_first_time + s.sviews_cnt * 300
      → (r : Found) × (s' : Store Z) × (store_view_get now t s ≡ some (r, s')) × Gets h s t r s'
  unfolding store_view_get
  within le lt =
      let o = open_view-Opens s w t t_le aligned le lt in
      (valid o.0, o.1, ground (arith, o.2, before_end), found o.0 o.1 o.3)

  before :
      t < s.sviews_first_time
      → (r : Found) × (s' : Store Z) × (store_view_get now t s ≡ some (r, s')) × Gets h s t r s'
  unfolding store_view_get
  before lt = (exceeded, s, ground arith, too_late lt)

  module _ (late : s.sviews_first_time + s.sviews_cnt * 300 ≤ t) where
    -- min_first_time
    min : ℕ
    min = t - s.sviews_cnt * 300 + 300

    min_lem : u32 (u32 (t + 2 ^ 32 - wdw_duration s) + item_time) ≡ min
    unfolding min
    min_lem = omega (arith, w.fits)

    first_idx : (0 + s.sviews_first_idx) % s.sviews_cnt ≡ s.sviews_first_idx
    first_idx = ground (arith, wrap_mod s.sviews_cnt (0 + s.sviews_first_idx), w.f_lt)

    start : Sliding h s.sviews_cnt s.sviews_first_idx s.sviews_first_time min 0 s
    unfolding min
    start = record {
      placed = subst₂ (λ f b. Placed h s.sviews_cnt f b s.sviews) (sym first_idx) (omega arith) w;
      cnt_eq = refl;
      below = λ j u d. elim (w.place j u d) [
        | inl p ↦ inl p
        | inr (p, _) ↦ inr (
            omega (
              arith,
              p,
              offset_lt s.sviews_cnt s.sviews_first_idx j w.f_lt
                  (omega (arith, get_elem?-lt s.sviews j u d, w.len)),
            ))
      ];
      le = omega arith;
      idx_lt = w.f_lt;
      time_le = omega arith;
    }

    slid_over :
        Finishes h s.sviews_cnt s.sviews_first_idx s.sviews_first_time min now s.sviews_cnt 0 s
    unfolding min
    slid_over =
        slide-Ends w.f_lt (omega arith) (omega arith) now s.sviews_cnt 0 s clears (omega arith)
          start

    -- The store after the loop, with the window that begins at `min`.
    settled : Store Z → Store Z
    settled s1 = rebased s1.sviews_first_idx min s1

    settled-Window : (s1 : Store Z) → Slid h s.sviews_cnt min s s1 → Window h (settled s1)
    unfolding settled
    settled-Window s1 d =
        subst (λ c. Placed h c s1.sviews_first_idx min s1.sviews) (sym d.cnt_eq) d.placed

    open_last_lem :
        (s1 : Store Z)
        → Slid h s.sviews_cnt min s s1
        → open_last t min s1 ≡ open_view t (sview_of t (settled s1)) (settled s1)
    unfolding open_last settled
    open_last_lem s1 d = ap last (to_min (Bool-cases (ltb s1.sviews_first_time min)))
      where
        last : Store Z → Option (Found × Store Z)
        last x = open_view t (sview_of t x) x

        to_min :
            (ltb s1.sviews_first_time min ≡ true) ⊎ (ltb s1.sviews_first_time min ≡ false)
            → (if ltb s1.sviews_first_time min then record s1 { sviews_first_time = min } else s1)
              ≡ rebased s1.sviews_first_idx min s1
        to_min (inl q) = ground (arith, q)
        to_min (inr q) =
            ap (λ b. if b then record s1 { sviews_first_time = min } else s1) q
            ∙ ap (λ x. rebased s1.sviews_first_idx x s1) (there q)
          where
            there : ltb s1.sviews_first_time min ≡ false → s1.sviews_first_time ≡ min
            there p = ground (arith, d.time_le)

    settled_from : (s1 : Store Z) → (settled s1).sviews_first_time ≤ t
    unfolding settled min
    settled_from s1 = omega (arith, w.f_lt)

    settled_until :
        (s1 : Store Z)
        → Slid h s.sviews_cnt min s s1
        → t < (settled s1).sviews_first_time + (settled s1).sviews_cnt * 300
    unfolding settled min
    settled_until s1 d = omega (arith, d.cnt_eq)

    settled-Opened :
        (s1 : Store Z)
        → Slid h s.sviews_cnt min s s1
        → (i : ℕ) (s' : Store Z) → Opened h (settled s1) t i s'
        → Opened h s t i s'
    unfolding settled min
    settled-Opened s1 d i s' o = record {
      window = o.window;
      cnt_eq = o.cnt_eq ∙ d.cnt_eq;
      clients = o.clients ∙ d.clients;
      later = omega (arith, o.later);
      from = o.from;
      until = omega (arith, o.until, d.cnt_eq);
      view = o.view;
      here = o.here;
      fresh = o.fresh;
      time = o.time;
      again = o.again;
      others = λ j u e n ne le. o.others j u (d.kept j u e n (omega (arith, o.later, le))) n ne le;
    }

    finish :
        (r : Ret) (s1 : Store Z)
        → slide now min s.sviews_first_idx s.sviews_first_time s.sviews_cnt 0 s ≡ some (r, s1)
        → Ends h s.sviews_cnt min s r s1
        → (r' : Found) × (s' : Store Z) × (store_view_get now t s ≡ some (r', s'))
          × Gets h s t r' s'
    unfolding store_view_get
    finish _ _ run (stopped s1 w1) =
        (failed, s1, ground (arith, before_end, min_lem, run), unsent s1 (omega arith) w1)
    finish _ _ run (slid s1 d) =
        let o =
          open_view-Opens (settled s1) (settled-Window s1 d) t t_le aligned (settled_from s1)
            (settled_until s1 d) in
        (
          valid o.0,
          o.1,
          ground (arith, before_end, min_lem, run, open_last_lem s1 d, o.2),
          found o.0 o.1 (settled-Opened s1 d o.0 o.1 o.3),
        )

    after : (r : Found) × (s' : Store Z) × (store_view_get now t s ≡ some (r, s')) × Gets h s t r s'
    after = finish slid_over.0 slid_over.1 slid_over.2 slid_over.3

  pub store_view_get-Gets :
      (r : Found) × (s' : Store Z) × (store_view_get now t s ≡ some (r, s')) × Gets h s t r s'
  store_view_get-Gets = elim (lt_cases t s.sviews_first_time) [
    | inl lt ↦ before lt
    | inr le ↦ elim (lt_cases t (s.sviews_first_time + s.sviews_cnt * 300)) [
      | inl lt ↦ within le lt
      | inr late ↦ after late
    ]
  ]
