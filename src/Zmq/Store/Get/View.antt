-- ===== src/Zmq/Store/Get/View.antt =====
-- bgpview_io_zmq_store_get_view and the place of the view that it gives back.
use bgpview.Base.{
  ℕ, ◌≤◌, ◌<◌, ◌≡◌, sym, ap, ◌∙◌, Option, none, some, arith, set, get_elem?-lt, set_self,
}
use bgpview.Zmq.Types.{unknown, ZmqEnv, Store}
use bgpview.Zmq.Sview.Runs.{Clears}
use bgpview.Zmq.Store.{Found, truncated, store_view_get, get_view}
use bgpview.Zmq.Store.Window.{Window}
use bgpview.Zmq.Store.Get.{Opened, Gets, too_late, unsent, found}
use bgpview.Zmq.Store.Get.Late.{store_view_get-Gets}

-- How the call ends: with NULL where the time is before the window or a view that had to leave the
-- window could not be sent, and else with the place of the view.
pub data Gives {Z : ZmqEnv} (h : ℕ) (s : Store Z) (t : ℕ) : Option ℕ → Store Z → Type 0 where
  past : t < s.sviews_first_time → Gives h s t none s
  unsent_view : (s' : Store Z) → s.sviews_first_time ≤ t → Window h s' → Gives h s t none s'
  given : (i : ℕ) (s' : Store Z) → Opened h s t i s' → Gives h s t (some i) s'

module _ {Z : ZmqEnv} {h : ℕ} (s : Store Z) (now time : ℕ) where
  finish :
      (r : Found) (s1 : Store Z)
      → store_view_get now (truncated time) s ≡ some (r, s1)
      → Gets h s (truncated time) r s1
      → (i : Option ℕ) × (s' : Store Z) × (get_view now time s ≡ some (i, s'))
        × Gives h s (truncated time) i s'
  unfolding get_view
  finish _ _ run (too_late lt) = (none, s, ground (arith, run), past lt)
  finish _ _ run (unsent s1 le w) = (none, s1, ground (arith, run), unsent_view s1 le w)
  finish _ _ run (found i s1 o) = (
    some i,
    s1,
    ground (arith, run, o.here, again, get_elem?-lt s1.sviews i o.view o.here),
    given i s1 o,
  )
    where
      same_view : record o.view { state = unknown } ≡ o.view
      same_view = ap (λ x. record o.view { state = x }) (sym o.fresh)

      again : set s1.sviews i (record o.view { state = unknown }) ≡ s1.sviews
      again = ap (set s1.sviews i) same_view ∙ set_self s1.sviews i o.view o.here

  -- Where the views in use are at the places of their times, no time is after a horizon with
  -- which the window fits in 32 bits, the time, cut to a multiple of 300, is not after that
  -- horizon, and bgpview_clear returns: bgpview_io_zmq_store_get_view returns. It gives NULL and
  -- leaves the store as it is, where the cut time is before the window; or NULL with the views
  -- still at their places, after a time that is not before the window; or a view. Then the
  -- window has moved on, if at all, so that the time is in it; the view is in the state UNKNOWN
  -- and has the cut time; VIEW_GET_SVIEW finds it again; the clients are as before; and every
  -- other view in use whose time is not before the new window is as it was.
  pub get_view-Gives :
      Window h s
      → truncated time ≤ h
      → Clears Z
      → (i : Option ℕ) × (s' : Store Z) × (get_view now time s ≡ some (i, s'))
        × Gives h s (truncated time) i s'
  get_view-Gives w le clears =
      let r = store_view_get-Gets s w now (truncated time) le (omega arith) clears in
      finish r.0 r.1 r.2 r.3
