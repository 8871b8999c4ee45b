-- ===== src/Zmq/Store/Updated.antt =====
-- bgpview_io_zmq_store_view_updated: the view is judged and published.
use bgpview.Base.{
  ℕ, ◌≡◌, ◌≢◌, ◌↔◌, refl, sym, subst, ◌∙◌, ◌⊎◌, inl, inr, true, false, none, some, [], ◌∷◌, zero,
  suc, if◌then◌else◌, arith, get_elem?, get_elem?-set_ne, get_elem?-lt, get_elem?-set_self,
  Bool-cases,
}
use bgpview.Khash.Buckets.{Buckets, slot}
use bgpview.View.Types.{zero_ret}
use bgpview.Zmq.Types.{
  ClientInfo, StoreViewState, unused, partial, full, table_end, ZmqEnv, StoreView, Store,
}
use bgpview.Zmq.Sview.{all_done, sends_prefixes, to_dispatch}
use bgpview.Zmq.Sview.Runs.{dispatched, offered, shown, with_sview}
use bgpview.Zmq.Store.{sview_of, view_updated}
use bgpview.Zmq.Store.Window.{Window, Placed-set}
use bgpview.Zmq.Store.Checked.{Checked, shown-Checked, shown_here, completion_check-kept}

-- Every client that sends prefixes is in the set.
abbrev pub AllDone : (Z : ZmqEnv) → Buckets Z.Name (ClientInfo Z.Name) → Z.names.Set → Type 0
AllDone Z t done =
    (i : ℕ) (k : Z.Name) (client : ClientInfo Z.Name)
    → slot t i ≡ some (k, client)
    → sends_prefixes client ≡ true
    → Z.names.exists done client.name ≡ true

pub all_done-AllDone :
    (Z : ZmqEnv) (t : Buckets Z.Name (ClientInfo Z.Name)) (done : Z.names.Set)
    → (all_done Z t done ≡ true) ↔ AllDone Z t done
all_done-AllDone Z t done = (to t, back t)
  where
    to : (t : Buckets Z.Name (ClientInfo Z.Name)) → all_done Z t done ≡ true → AllDone Z t done
    to [] q i k c e p = cc
    to (none ∷ t) q zero k c e p = cc
    to (none ∷ t) q (suc i) k c e p = to t q i k c e p
    to (some (j, d) ∷ t) q zero k c e p = ground (arith, q)
    to (some (j, d) ∷ t) q (suc i) k c e p = to t (ground (arith, q)) i k c e p

    back : (t : Buckets Z.Name (ClientInfo Z.Name)) → AllDone Z t done → all_done Z t done ≡ true
    back [] a = refl
    back (none ∷ t) a = back t (λ i. a (suc i))
    back (some (j, d) ∷ t) a = ground (arith, a 0 j d refl, back t (λ i. a (suc i)))

-- The state that completion_check gives a view.
pub full_if :
    (Z : ZmqEnv) (clients : Buckets Z.Name (ClientInfo Z.Name)) (done : Z.names.Set)
    (x : StoreViewState)
    → x ≡ (if all_done Z clients done then full else partial)
    → ((x ≡ full) ↔ AllDone Z clients done) × ((x ≡ full) ⊎ (x ≡ partial))
full_if Z clients done x q = elim (Bool-cases (all_done Z clients done)) [
  | inl y ↦ ((λ _. (all_done-AllDone Z clients done).0 y, λ _. ground arith), inl (ground arith))
  | inr n ↦ (
    (λ p. absurd (not_full n p), λ a. absurd (bad n ((all_done-AllDone Z clients done).1 a))),
    inr (ground arith),
  )
]
  where
    bad : all_done Z clients done ≡ false → all_done Z clients done ≡ true → ⊥
    bad n y = cc

    not_full : all_done Z clients done ≡ false → x ≡ full → ⊥
    not_full n p = ground (arith, q)

-- The view as it is given to completion_check.
abbrev pub completed : {Z : ZmqEnv} → ClientInfo Z.Name → StoreView Z → StoreView Z
completed {Z} client v = record v {
  done_clients = Z.names.insert client.name v.done_clients;
  dis_status = λ j. record (v.dis_status j) { modified = true };
}

-- The store after a client's table of the view at a place is complete.
pub record Updated {Z : ZmqEnv} (h : ℕ) (s : Store Z) (i : ℕ) (v : StoreView Z)
    (client : ClientInfo Z.Name) (s' : Store Z) : Type 0 where
  pub window : Window h s'
  pub cnt_eq : s'.sviews_cnt ≡ s.sviews_cnt
  pub clients : s'.active_clients ≡ s.active_clients
  pub others : (j : ℕ) → i ≢ j → get_elem? s'.sviews j ≡ get_elem? s.sviews j
  pub view : StoreView Z
  pub here : get_elem? s'.sviews i ≡ some view
  pub same_view : view.view ≡ v.view
  pub done : view.done_clients ≡ Z.names.insert client.name v.done_clients
  pub full_iff : (view.state ≡ full) ↔ AllDone Z s.active_clients view.done_clients
  pub or_partial : (view.state ≡ full) ⊎ (view.state ≡ partial)
  pub published : s'.published ≡ v.view ∷ s.published

module _ {Z : ZmqEnv} {h : ℕ} (s : Store Z) (w : Window h s) (i : ℕ) (v : StoreView Z)
    (e : get_elem? s.sviews i ≡ some v) (used : v.state ≢ unused) (now : ℕ)
    (client : ClientInfo Z.Name) where
  marked_here : get_elem? (with_sview i (completed client v) s).sviews i ≡ some (completed client v)
  marked_here = get_elem?-set_self s.sviews i (completed client v) (get_elem?-lt s.sviews i v e)

  marked_Window : Window h (with_sview i (completed client v) s)
  marked_Window = Placed-set w i (completed client v) (w.own i v e) (w.place i v e)

  -- The view is given to the dispatcher with this state.
  judged_view : StoreView Z
  judged_view = offered table_end (with_sview i (completed client v) s) (completed client v)

  judged_cases :
      (judged_view.state ≡ (
        if all_done Z s.active_clients (Z.names.insert client.name v.done_clients)
        then full
        else partial))
      × (to_dispatch judged_view ≡ true)
  unfolding judged_view
  judged_cases = (refl, ground arith)

  -- The view and the publications after it.
  sent :
      ((dispatched (with_sview i (completed client v) s) judged_view).sview.view ≡ v.view)
      × ((dispatched (with_sview i (completed client v) s) judged_view).sview.done_clients
          ≡ Z.names.insert client.name v.done_clients)
      × ((dispatched (with_sview i (completed client v) s) judged_view).sview.state
          ≡ judged_view.state)
      × ((dispatched (with_sview i (completed client v) s) judged_view).published
          ≡ v.view ∷ s.published)
  unfolding judged_view
  sent = (ground arith, ground arith, ground arith, ground arith)

  after_Checked :
      Checked h
        (with_sview i (completed client v) s)
        i
        (completed client v)
        (shown i (completed client v) (with_sview i (completed client v) s) marked_here table_end)
  after_Checked =
      shown-Checked (with_sview i (completed client v) s) marked_Window i (completed client v)
        marked_here used table_end

  -- Where the views in use are at the places of their times, and the view that VIEW_GET_SVIEW
  -- finds for the time of the view is in use: bgpview_io_zmq_store_view_updated returns 0. The
  -- client is among the clients that are done with the view; the view is FULL just if every
  -- connected client that sends prefixes is among them, and PARTIAL otherwise; its BGP view is
  -- published once and does not change; the other views and the clients are as they were, and
  -- the views in use are at their places.
  pub view_updated-Updated :
      (view : Z.ops.View)
      → sview_of (Z.ops.get_time view) s ≡ i
      → (s' : Store Z) × (view_updated now (some view) client s ≡ some (zero_ret, s'))
        × Updated h s i v client s'
  unfolding view_updated judged_view
  view_updated-Updated view at = (
    shown i (completed client v) (with_sview i (completed client v) s) marked_here table_end,
    ground (
      arith,
      at,
      get_elem?-lt s.sviews i v e,
      completion_check-kept i (completed client v) (with_sview i (completed client v) s) marked_here
          now table_end refl,
    ),
    record {
      window = after_Checked.window;
      cnt_eq = refl;
      clients = refl;
      others =
          λ j n. after_Checked.others j n ∙ get_elem?-set_ne s.sviews i j (completed client v) n;
      view = (dispatched (with_sview i (completed client v) s) judged_view).sview;
      here =
          shown_here (with_sview i (completed client v) s) marked_Window i (completed client v)
            marked_here used table_end;
      same_view = sent.0;
      done = sent.1;
      full_iff =
          subst
            (λ d.
              ((dispatched (with_sview i (completed client v) s) judged_view).sview.state ≡ full)
              ↔ AllDone Z s.active_clients d)
            (sym sent.1) verdict.0;
      or_partial = verdict.1;
      published = sent.3;
    },
  )
    where
      verdict :
          (((dispatched (with_sview i (completed client v) s) judged_view).sview.state ≡ full)
            ↔ AllDone Z s.active_clients (Z.names.insert client.name v.done_clients))
          × (((dispatched (with_sview i (completed client v) s) judged_view).sview.state ≡ full)
              ⊎ ((dispatched (with_sview i (completed client v) s) judged_view).sview.state
                  ≡ partial))
      verdict =
          full_if Z s.active_clients (Z.names.insert client.name v.done_clients) _
            (sent.2 ∙ judged_cases.0)
