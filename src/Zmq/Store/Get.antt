-- ===== src/Zmq/Store/Get.antt =====
-- bgpview_io_zmq_store_get_view: the view of a time of the window.
pub mod Late
pub mod View
use bgpview.Base.{
  ℕ, zero, suc, ◌+◌, ◌-◌, ◌*◌, ◌/◌, ◌%◌, ◌^◌, ◌≤◌, ◌<◌, ◌≡◌, ◌≢◌, refl, sym, ap, ap₂, subst, subst₂,
  ◌∙◌, ◌⊎◌, inl, inr, Bool, true, false, Option, none, some, List, length, leb, ltb, ◌==◌,
  if◌then◌else◌, arith, get_elem?, set, get_elem?-some, get_elem?-lt, get_elem?-set_self,
  get_elem?-set_ne, set-set, length-set, Bool-cases,
}
use bgpview.View.Types.{Ret, minus_one, zero_ret, one_ret}
use bgpview.Zmq.Types.{StoreViewState, unused, unknown, ZmqEnv, StoreView, Store, item_time, u32}
use bgpview.Zmq.Sview.{wdw_len, wdw_duration}
use bgpview.Zmq.Sview.Runs.{Clears, with_sview}
use bgpview.Zmq.Store.{
  Found, failed, exceeded, valid, truncated, sview_of, open_view, open_last, slide, store_view_get,
  get_view,
}
use bgpview.Zmq.Store.Window.{offset, wrap_mod, InPlace, Placed, Window, Placed-set}
use bgpview.Zmq.Store.Slide.{rebased, Sliding, Slid, Ends, stopped, slid, Finishes}
use bgpview.Zmq.Store.Slide.Rounds.{slide-Ends}

-- The view at the place `i` is the one for the time `t`; the window has moved on to it if it had to.
pub record Opened {Z : ZmqEnv} (h : ℕ) (s : Store Z) (t i : ℕ) (s' : Store Z) : Type 0 where
  pub window : Window h s'
  pub cnt_eq : s'.sviews_cnt ≡ s.sviews_cnt
  pub clients : s'.active_clients ≡ s.active_clients
  pub later : s.sviews_first_time ≤ s'.sviews_first_time
  pub from : s'.sviews_first_time ≤ t
  pub until : t < s'.sviews_first_time + s.sviews_cnt * 300
  pub view : StoreView Z
  pub here : get_elem? s'.sviews i ≡ some view
  pub fresh : view.state ≡ unknown
  pub time : Z.ops.get_time view.view ≡ t
  pub again : sview_of t s' ≡ i
  pub others :
      (j : ℕ) (u : StoreView Z)
      → get_elem? s.sviews j ≡ some u
      → u.state ≢ unused
      → i ≢ j
      → s'.sviews_first_time ≤ Z.ops.get_time u.view
      → get_elem? s'.sviews j ≡ some u

place_offset :
    (cnt f d : ℕ) → f < cnt → d < cnt → ((f + d) % cnt < cnt) × (offset cnt f ((f + d) % cnt) ≡ d)
place_offset cnt f d p q = ground (arith, wrap_mod cnt (f + d))

pub offset_lt : (cnt f i : ℕ) → f < cnt → i < cnt → offset cnt f i < cnt
offset_lt cnt f i p q = ground arith

module _ {Z : ZmqEnv} {h : ℕ} (s : Store Z) (w : Window h s) (t : ℕ) (t_le : t ≤ h)
    (aligned : t % 300 ≡ 0) (from : s.sviews_first_time ≤ t)
    (until : t < s.sviews_first_time + s.sviews_cnt * 300) where
  sview_of_lem :
      sview_of t s ≡ (s.sviews_first_idx + (t - s.sviews_first_time) / 300) % s.sviews_cnt
  sview_of_lem = ap (λ d. (s.sviews_first_idx + d / 300) % s.sviews_cnt) (omega (arith, w.fits))

  placed :
      (sview_of t s < s.sviews_cnt)
      × (offset s.sviews_cnt s.sviews_first_idx (sview_of t s) ≡ (t - s.sviews_first_time) / 300)
  placed =
      subst
        (λ i.
          (i < s.sviews_cnt)
          × (offset s.sviews_cnt s.sviews_first_idx i ≡ (t - s.sviews_first_time) / 300))
        (sym sview_of_lem)
        (place_offset s.sviews_cnt s.sviews_first_idx ((t - s.sviews_first_time) / 300) w.f_lt
          (omega arith))

  opened : StoreView Z → StoreView Z
  opened v = record v { state = unknown; view = Z.ops.set_time t v.view }

  opened-InPlace :
      (v : StoreView Z)
      → InPlace h s.sviews_cnt s.sviews_first_idx s.sviews_first_time (sview_of t s) (opened v)
  unfolding opened
  opened-InPlace v = (
    Z.ops.get_time_set t v.view ∙ omega (arith, placed.1, w.aligned),
    omega (arith, Z.ops.get_time_set t v.view),
  )

  -- A time of the window.
  open_view-Opened :
      (v : StoreView Z)
      → get_elem? s.sviews (sview_of t s) ≡ some v
      → (open_view t (sview_of t s) s
          ≡ some (valid (sview_of t s), with_sview (sview_of t s) (opened v) s))
        × Opened h s t (sview_of t s) (with_sview (sview_of t s) (opened v) s)
  unfolding open_view opened
  open_view-Opened v e = (
    ground (arith, get_elem?-lt s.sviews (sview_of t s) v e),
    record {
      window =
          Placed-set w (sview_of t s) (opened v) (w.own (sview_of t s) v e)
            (inr (opened-InPlace v));
      cnt_eq = refl;
      clients = refl;
      later = omega arith;
      from = from;
      until = until;
      view = opened v;
      here =
          get_elem?-set_self s.sviews (sview_of t s) (opened v)
            (get_elem?-lt s.sviews (sview_of t s) v e);
      fresh = refl;
      time = Z.ops.get_time_set t v.view;
      again = refl;
      others = λ j u d n ne le. get_elem?-set_ne s.sviews (sview_of t s) j (opened v) ne ∙ d;
    },
  )

  pub open_view-Opens :
      (i : ℕ) × (s' : Store Z) × (open_view t (sview_of t s) s ≡ some (valid i, s'))
      × Opened h s t i s'
  open_view-Opens =
      let v = get_elem?-some s.sviews (sview_of t s) (omega (arith, placed.0, w.len)) in
      let r = open_view-Opened v.0 v.1 in
      (sview_of t s, with_sview (sview_of t s) (opened v.0) s, r.0, r.1)

-- How store_view_get ends: the time is before the window, a view that had to leave the window could
-- not be sent, or the view is there.
pub data Gets {Z : ZmqEnv} (h : ℕ) (s : Store Z) (t : ℕ) : Found → Store Z → Type 0 where
  too_late : t < s.sviews_first_time → Gets h s t exceeded s
  unsent : (s' : Store Z) → s.sviews_first_time ≤ t → Window h s' → Gets h s t failed s'
  found : (i : ℕ) (s' : Store Z) → Opened h s t i s' → Gets h s t (valid i) s'
