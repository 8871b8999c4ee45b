-- ===== src/Zmq/Messages/Receive.antt =====
-- A view that a client sends: bgpview_io_zmq_store_get_view, bgpview_io_zmq_recv and
-- bgpview_io_zmq_store_view_updated together.
use bgpview.Base.{
  ℕ, ◌≤◌, ◌<◌, ◌≡◌, ◌≢◌, refl, sym, ap, subst, ◌∙◌, ◌⊎◌, inl, inr, Bool, true, false, Option, none,
  some, length, if◌then◌else◌, arith, get_elem?, get_elem?-lt, get_elem?-set_self, Bool-cases,
}
use bgpview.View.Types.{Ret, minus_one, zero_ret}
use bgpview.Zmq.Types.{ClientInfo, StoreViewState, unused, unknown, ZmqEnv, StoreView, Store}
use bgpview.Zmq.Sview.Runs.{Clears, with_sview}
use bgpview.Zmq.Store.{truncated, sview_of, get_view, view_updated}
use bgpview.Zmq.Store.Window.{InPlace, Window, Placed-set}
use bgpview.Zmq.Store.Get.{Opened}
use bgpview.Zmq.Store.Get.View.{Gives, past, unsent_view, given, get_view-Gives}
use bgpview.Zmq.Store.Updated.{Updated, view_updated-Updated}
use bgpview.Zmq.Server.{ServerEnv, Server}
use bgpview.Zmq.Messages.{recv_into, handle_recv_view}

-- What bgpview_io_zmq_recv makes of a view, with the time that the store wants.
abbrev pub received : {Z : ZmqEnv} → (Z.ops.View → Bool × Z.ops.View) → StoreView Z → StoreView Z
received {Z} body v = record v { view = Z.ops.set_time (Z.ops.get_time v.view) (body v.view).1 }

-- How it ends, for the store: the view is skipped, since its time is past or there is no room for it;
-- it is cut off; or it is there, judged and published.
pub data Receives {Z : ZmqEnv} (h : ℕ) (s : Store Z) (t : ℕ) (body : Z.ops.View → Bool × Z.ops.View)
    (skipped : Bool) (client : ClientInfo Z.Name) : Ret → Store Z → Type 0 where
  skips :
      (s' : Store Z)
      → Gives h s t none s'
      → Receives h s t body skipped client (if skipped then zero_ret else minus_one) s'
  cut_off :
      (i : ℕ) (s1 : Store Z)
      → (o : Opened h s t i s1) → (body o.view.view).0 ≡ false
      → Receives h s t body skipped client minus_one
          (with_sview i (record o.view { view = (body o.view.view).1 }) s1)
  completes :
      (i : ℕ) (s1 s' : Store Z)
      → (o : Opened h s t i s1) → (body o.view.view).0 ≡ true
      → Updated h (with_sview i (received body o.view) s1) i (received body o.view) client s'
      → Receives h s t body skipped client zero_ret s'

module _ {Z : ZmqEnv} {h : ℕ} (s : Store Z) (t i : ℕ) (s1 : Store Z) (o : Opened h s t i s1)
    (body : Z.ops.View → Bool × Z.ops.View) where
  i_lt : i < length s1.sviews
  i_lt = get_elem?-lt s1.sviews i o.view o.here

  used : o.view.state ≢ unused
  used p = absurd (differ (sym o.fresh ∙ p))
    where
      differ : ◌≡◌ {A = StoreViewState} unknown unused → ⊥
      differ q = cc

  in_place : InPlace h s1.sviews_cnt s1.sviews_first_idx s1.sviews_first_time i o.view
  in_place = elim (o.window.place i o.view o.here) [ inl p ↦ absurd (used p) | inr p ↦ p ]

  received_time : Z.ops.get_time (received body o.view).view ≡ Z.ops.get_time o.view.view
  received_time = Z.ops.get_time_set (Z.ops.get_time o.view.view) (body o.view.view).1

  received-Window : Window h (with_sview i (received body o.view) s1)
  received-Window =
      Placed-set o.window i (received body o.view) (o.window.own i o.view o.here)
        (inr (received_time ∙ in_place.0, subst (λ x. x ≤ h) (sym received_time) in_place.1))

  received_here :
      get_elem? (with_sview i (received body o.view) s1).sviews i ≡ some (received body o.view)
  received_here = get_elem?-set_self s1.sviews i (received body o.view) i_lt

  recv_into-ok :
      (body o.view.view).0 ≡ true
      → recv_into i body s1
        ≡ some (some (received body o.view).view, with_sview i (received body o.view) s1)
  unfolding recv_into
  recv_into-ok q = ground (arith, o.here, q, i_lt)

  recv_into-cut :
      (body o.view.view).0 ≡ false
      → recv_into i body s1
        ≡ some (none, with_sview i (record o.view { view = (body o.view.view).1 }) s1)
  unfolding recv_into
  recv_into-cut q = ground (arith, o.here, q, i_lt)

-- The call returns, and ends in one of these ways.
abbrev Outcome :
    {V : ServerEnv} (h now time : ℕ) (body : V.zmq.ops.View → Bool × V.zmq.ops.View)
    (skipped : Bool) (client : ClientInfo V.zmq.Name) (s : Server V)
    → Type 0
Outcome {V} h now time body skipped client s =
    (r : Ret) × (t : Store V.zmq) × (handle_recv_view {V = V} now (some time) body skipped client s
      ≡ some (r, record s { store = t }))
    × Receives h s.store (truncated time) body skipped client r t

given_view :
    {Z : ZmqEnv} {h : ℕ} {s : Store Z} {t : ℕ} {i : Option ℕ} {s' : Store Z}
    → Gives h s t i s'
    → (j : ℕ) → i ≡ some j
    → Opened h s t j s'
given_view (past lt) j e = cc
given_view (unsent_view s' le w) j e = cc
given_view {h = h} {s = s} {t = t} (given i s' o) j e =
    subst (λ k. Opened h s t k s') (the_same e) o
  where
    the_same : ◌≡◌ {A = Option ℕ} (some i) (some j) → i ≡ j
    the_same q = cc

module _ {V : ServerEnv} {h : ℕ} (now time : ℕ) (body : V.zmq.ops.View → Bool × V.zmq.ops.View)
    (skipped : Bool) (client : ClientInfo V.zmq.Name) (s : Server V) where
  opened :
      (i : ℕ) (s1 : Store V.zmq)
      → get_view now time s.store ≡ some (some i, s1)
      → (o : Opened h s.store (truncated time) i s1)
      → ((body o.view.view).0 ≡ true) ⊎ ((body o.view.view).0 ≡ false)
      → Outcome h now time body skipped client s
  unfolding handle_recv_view
  opened i s1 run o (inr q) = (
    minus_one,
    with_sview i (record o.view { view = (body o.view.view).1 }) s1,
    ground (arith, run, recv_into-cut s.store (truncated time) i s1 o body q),
    cut_off i s1 o q,
  )
  opened i s1 run o (inl q) =
      let u =
        view_updated-Updated (with_sview i (received body o.view) s1)
          (received-Window s.store (truncated time) i s1 o body) i (received body o.view)
          (received_here s.store (truncated time) i s1 o body)
          (used s.store (truncated time) i s1 o body) now client (received body o.view).view
          (ap (λ x. sview_of x s1) (received_time s.store (truncated time) i s1 o body ∙ o.time)
            ∙ o.again) in
      (
        zero_ret,
        u.0,
        ground (arith, run, recv_into-ok s.store (truncated time) i s1 o body q, u.1),
        completes i s1 u.0 o q u.2,
      )

  finish :
      (i : Option ℕ) (s1 : Store V.zmq)
      → get_view now time s.store ≡ some (i, s1)
      → Gives h s.store (truncated time) i s1
      → Outcome h now time body skipped client s
  unfolding handle_recv_view view_updated
  finish none s1 run g =
      (if skipped then zero_ret else minus_one, s1, ground (arith, run), skips s1 g)
  finish (some j) s1 run g =
      let o = given_view g j refl in opened j s1 run o (Bool-cases (body o.view.view).0)

  -- Where the views in use are at the places of their times, the time of the message, cut to a
  -- multiple of 300, is not after the horizon, and bgpview_clear returns: handle_recv_view
  -- returns and changes the store at most. Either the store has no view to give (as
  -- bgpview_io_zmq_store_get_view promises), and the result is 0 or an error as the skipped view
  -- was received or not; or it gave one and the message is cut off, which is an error and leaves
  -- what was received in that view; or the view is received, has the time that the store gave
  -- it, and is judged as bgpview_io_zmq_store_view_updated promises, with the result 0.
  pub handle_recv_view-Receives :
      Window h s.store
      → truncated time ≤ h
      → Clears V.zmq
      → (r : Ret) × (t : Store V.zmq) × (handle_recv_view now (some time) body skipped client s
          ≡ some (r, record s { store = t }))
        × Receives h s.store (truncated time) body skipped client r t
  handle_recv_view-Receives w le clears =
      let g = get_view-Gives s.store now time w le clears in finish g.0 g.1 g.2 g.3

given_Window :
    {Z : ZmqEnv} {h : ℕ} {s : Store Z} {t : ℕ} {i : Option ℕ} {s' : Store Z}
    → Window h s
    → Gives h s t i s'
    → Window h s'
given_Window w (past lt) = w
given_Window w (unsent_view s' le w') = w'
given_Window w (given i s' o) = o.window

-- What a client cannot break but by cutting off a view.
pub Receives-Window :
    {Z : ZmqEnv} {h : ℕ} {s : Store Z} {t : ℕ} {body : Z.ops.View → Bool × Z.ops.View}
    {skipped : Bool} {client : ClientInfo Z.Name} {r : Ret} {s' : Store Z}
    → Window h s
    → Receives h s t body skipped client r s'
    → r ≡ zero_ret
    → Window h s'
Receives-Window w (skips s' g) e = given_Window w g
Receives-Window w (cut_off i s1 o q) e = cc
Receives-Window w (completes i s1 s' o q u) e = u.window
