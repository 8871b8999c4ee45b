-- ===== src/Zmq/Store/Notify.antt =====
-- bgpview_io_zmq_store_client_disconnect: every view in use is judged again.
use bgpview.Base.{
  ℕ, zero, suc, ◌+◌, ◌≤◌, ◌<◌, ◌≡◌, ◌≢◌, refl, ap, subst, ◌∙◌, ◌⊎◌, inl, inr, false, some,
  if◌then◌else◌, arith, get_elem?, get_elem?-some, get_elem?-lt,
}
use bgpview.Khash.Buckets.{Buckets}
use bgpview.View.Types.{Ret, zero_ret}
use bgpview.Zmq.Types.{
  ClientInfo, StoreViewState, unused, partial, full, client_disconnect, ZmqEnv, StoreView, Store,
}
use bgpview.Zmq.Sview.{is_unused, all_done, completion_check}
use bgpview.Zmq.Sview.Runs.{dispatched, offered, shown}
use bgpview.Zmq.Store.{notify_views, disconnect, without}
use bgpview.Zmq.Store.Window.{Window}
use bgpview.Zmq.Store.Checked.{
  Checked, shown-Checked, shown_view, shown_here, completion_check-kept, kept_state,
}
use bgpview.Zmq.Store.Slide.{in_use}

-- The state that belongs to a view: full if every client that sends prefixes has sent its table.
abbrev pub due : {Z : ZmqEnv} → Buckets Z.Name (ClientInfo Z.Name) → StoreView Z → StoreViewState
due {Z} clients v = if all_done Z clients v.done_clients then full else partial

-- A view of the buffer before and after: one that is not in use is as it was, and one in use has the
-- state that belongs to it.
pub record Rejudged {Z : ZmqEnv} (clients : Buckets Z.Name (ClientInfo Z.Name)) (v v' : StoreView Z)
    : Type 0 where
  pub idle : v.state ≡ unused → v' ≡ v
  pub busy : v.state ≢ unused → v'.state ≡ due clients v
  pub view : v'.view ≡ v.view
  pub done : v'.done_clients ≡ v.done_clients

-- The store after the rounds from the i-th on.
pub record Notified {Z : ZmqEnv} (h : ℕ) (s : Store Z) (i : ℕ) (s' : Store Z) : Type 0 where
  pub window : Window h s'
  pub cnt_eq : s'.sviews_cnt ≡ s.sviews_cnt
  pub clients : s'.active_clients ≡ s.active_clients
  pub first_idx : s'.sviews_first_idx ≡ s.sviews_first_idx
  pub first_time : s'.sviews_first_time ≡ s.sviews_first_time
  pub before : (j : ℕ) → j < i → get_elem? s'.sviews j ≡ get_elem? s.sviews j
  pub after :
      (j : ℕ) (v : StoreView Z)
      → i ≤ j
      → get_elem? s.sviews j ≡ some v
      → (v' : StoreView Z) × (get_elem? s'.sviews j ≡ some v') × Rejudged s.active_clients v v'

module _ {Z : ZmqEnv} (now n i : ℕ) (s : Store Z) (v : StoreView Z)
    (e : get_elem? s.sviews i ≡ some v) where
  notify-skip : v.state ≡ unused → notify_views now (suc n) i s ≡ notify_views now n (i + 1) s
  unfolding notify_views
  notify-skip p = ground arith

  notify-check :
      is_unused v.state ≡ false
      → (r : Ret) (s' : Store Z) → completion_check now i client_disconnect s ≡ some (r, s')
      → notify_views now (suc n) i s ≡ notify_views now n (i + 1) s'
  unfolding notify_views
  notify-check p r s' d = ground arith

split : (i j : ℕ) → i ≤ j → (j ≡ i) ⊎ (i + 1 ≤ j)
split i j le = ground arith

idle-Rejudged :
    {Z : ZmqEnv} {clients : Buckets Z.Name (ClientInfo Z.Name)} (u : StoreView Z)
    → u.state ≡ unused
    → Rejudged clients u u
idle-Rejudged u p = record { idle = λ _. refl; busy = λ n. absurd (n p); view = refl; done = refl }

-- The loop returns 0.
abbrev Finishes : {Z : ZmqEnv} → (h now n i : ℕ) → Store Z → Type 0
Finishes {Z} h now n i s =
    (s' : Store Z) × (notify_views {Z = Z} now n i s ≡ some (zero_ret, s')) × Notified h s i s'

module _ {Z : ZmqEnv} {h : ℕ} where
  skip-Notified :
      (s : Store Z) (i : ℕ) (v : StoreView Z)
      → get_elem? s.sviews i ≡ some v
      → v.state ≡ unused
      → (s' : Store Z) → Notified h s (i + 1) s'
      → Notified h s i s'
  skip-Notified s i v e p s' r = record {
    window = r.window;
    cnt_eq = r.cnt_eq;
    clients = r.clients;
    first_idx = r.first_idx;
    first_time = r.first_time;
    before = λ j lt. r.before j (omega arith);
    after = λ j u le d. elim (split i j le) [
      | inl q ↦ (
        u,
        r.before j (omega (arith, q)) ∙ d,
        idle-Rejudged u (ap (λ (x : StoreView Z). x.state) (the_same j u d q) ∙ p),
      )
      | inr lt ↦ r.after j u lt d
    ];
  }
    where
      the_same : (j : ℕ) (u : StoreView Z) → get_elem? s.sviews j ≡ some u → j ≡ i → u ≡ v
      the_same j u d q = cc

  module _ (s : Store Z) (w : Window h s) (i : ℕ) (v : StoreView Z)
      (e : get_elem? s.sviews i ≡ some v) (used : v.state ≢ unused) where
    shown-Rejudged :
        Rejudged s.active_clients v (dispatched s (offered client_disconnect s v)).sview
    shown-Rejudged = record {
      idle = λ p. absurd (used p);
      busy = λ _. (kept_state v s client_disconnect refl).0;
      view = shown_view s w i v e used client_disconnect;
      done = (kept_state v s client_disconnect refl).1;
    }

    check-Notified :
        (s' : Store Z) → Notified h (shown i v s e client_disconnect) (i + 1) s' → Notified h s i s'
    check-Notified s' r = record {
      window = r.window;
      cnt_eq = r.cnt_eq;
      clients = r.clients;
      first_idx = r.first_idx;
      first_time = r.first_time;
      before = λ j lt. r.before j (omega arith) ∙ c.others j (apart j lt);
      after = λ j u le d. elim (split i j le) [
        | inl q ↦ (
          (dispatched s (offered client_disconnect s v)).sview,
          r.before j (omega (arith, q))
              ∙ ap (get_elem? (shown i v s e client_disconnect).sviews) q
              ∙ shown_here s w i v e used client_disconnect,
          subst
              (λ x.
                Rejudged s.active_clients x (dispatched s (offered client_disconnect s v)).sview)
              (the_same j u d q) shown-Rejudged,
        )
        | inr lt ↦ r.after j u lt (c.others j (apart' j lt) ∙ d)
      ];
    }
      where
        c : Checked h s i v (shown i v s e client_disconnect)
        c = shown-Checked s w i v e used client_disconnect

        apart : (j : ℕ) → j < i → i ≢ j
        apart j lt q = omega (arith, q)

        apart' : (j : ℕ) → i + 1 ≤ j → i ≢ j
        apart' j lt q = omega (arith, q)

        the_same : (j : ℕ) (u : StoreView Z) → get_elem? s.sviews j ≡ some u → j ≡ i → v ≡ u
        the_same j u d q = cc

  round :
      (now n i : ℕ) (s : Store Z)
      → Window h s
      → i < s.sviews_cnt
      → ((s' : Store Z) → Window h s' → s'.sviews_cnt ≡ s.sviews_cnt → Finishes h now n (i + 1) s')
      → Finishes h now (suc n) i s
  round now n i s w lt rest =
      let there = get_elem?-some s.sviews i (omega (arith, w.len)) in
      go there.0 there.1 (in_use there.0.state)
    where
      go :
          (v : StoreView Z)
          → get_elem? s.sviews i ≡ some v
          → (v.state ≡ unused) ⊎ ((v.state ≢ unused) × (is_unused v.state ≡ false))
          → Finishes h now (suc n) i s
      go v e (inl p) =
          let r = rest s w refl in
          (r.0, notify-skip now n i s v e p ∙ r.1, skip-Notified s i v e p r.0 r.2)
      go v e (inr (used, busy)) =
          let r =
            rest (shown i v s e client_disconnect)
              (shown-Checked s w i v e used client_disconnect).window refl in
          (
            r.0,
            notify-check now n i s v e busy _ _
                  (completion_check-kept i v s e now client_disconnect refl)
                ∙ r.1,
            check-Notified s w i v e used r.0 r.2,
          )

  notify_views-Notified :
      (now n i : ℕ) (s : Store Z) → Window h s → n + i ≡ s.sviews_cnt → Finishes h now n i s
  unfolding notify_views
  notify_views-Notified now zero i s w eq = (
    s,
    refl,
    record {
      window = w;
      cnt_eq = refl;
      clients = refl;
      first_idx = refl;
      first_time = refl;
      before = λ j lt. refl;
      after = λ j v le e. absurd (omega (arith, get_elem?-lt s.sviews j v e, w.len));
    },
  )
  notify_views-Notified now (suc n) i s w eq =
      round now n i s w (omega arith)
        (λ s' w' c. notify_views-Notified now n (i + 1) s' w' (omega (arith, c)))

  pub disconnect-Notified :
      (now : ℕ) (client : ClientInfo Z.Name) (s : Store Z)
      → Window h s
      → (s' : Store Z) × (disconnect now client s ≡ some (zero_ret, s'))
        × Notified h (record s { active_clients = without client.name s }) 0 s'
  unfolding disconnect
  disconnect-Notified now client s w =
      notify_views-Notified now s.sviews_cnt 0 (record s { active_clients = without client.name s })
        w (omega arith)
