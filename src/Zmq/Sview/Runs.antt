-- ===== src/Zmq/Sview/Runs.antt =====
-- What completion_check does to a store, as functions of the store and of the view.
use bgpview.Base.{
  ℕ, ◌+◌, ◌-◌, ◌%◌, ◌≡◌, refl, true, false, some, List, ◌∷◌, ◌==◌, if◌then◌else◌, arith, get_elem?,
  set, length-set, get_elem?-lt, get_elem?-set_self, set-set, set_self, Bool-cases, inl, inr,
}
use bgpview.View.Types.{Ret, minus_one, zero_ret}
use bgpview.Zmq.Types.{
  unused, partial, full, CompletionTrigger, ZmqEnv, StoreView, Store, item_time, u32,
}
use bgpview.Zmq.Op.{pure, put_sview, get_sview, unless_failed}
use bgpview.Zmq.Sview.{
  wdw_len, store_view_create, all_done, set_status, nothing_sent, to_dispatch, to_remove,
  store_view_clear, store_view_completion_check, store_view_remove, dispatcher_run,
  completion_check,
}

module _ {Z : ZmqEnv} where
  abbrev pub with_sview : ℕ → StoreView Z → Store Z → Store Z
  with_sview i v s = record s { sviews = set s.sviews i v }

-- bgpview_clear returns.
abbrev pub Clears : ZmqEnv → Type 0
Clears Z = (now : ℕ) (v : Z.ops.View) → (v' : Z.ops.View) × (Z.ops.clear now v ≡ some v')

-- What dispatcher_run returns, and what it makes of the view and of the publications.
pub record Dispatched (Z : ZmqEnv) : Type 0 where
  pub r : Ret
  pub sview : StoreView Z
  pub published : List Z.ops.View

module _ {Z : ZmqEnv} where
  abbrev pub judged : Store Z → StoreView Z → StoreView Z
  judged s v = record v {
    state = if all_done Z s.active_clients v.done_clients then full else partial;
  }

  -- The view that is given to the dispatcher.
  abbrev pub offered : CompletionTrigger → Store Z → StoreView Z → StoreView Z
  offered trigger s v = record (judged s v) {
    state = if to_remove trigger then full else (judged s v).state;
  }

  abbrev pub marked : StoreView Z → StoreView Z
  marked v = record v {
    dis_status = set_status v.dis_status v.state (record { sent = true; modified = false });
  }

  abbrev pub dispatched : Store Z → StoreView Z → Dispatched Z
  dispatched s v =
      if to_dispatch v
      then (if Z.sends s.published v.view
          then record {
            r = zero_ret;
            sview = record (marked v) { pub_cnt = v.pub_cnt + 1 };
            published = v.view ∷ s.published;
          }
          else record { r = minus_one; sview = marked v; published = v.view ∷ s.published })
      else record { r = zero_ret; sview = v; published = s.published }

  -- The store after it.
  abbrev pub with_dispatched : ℕ → Dispatched Z → Store Z → Store Z
  with_dispatched i d s = record s { sviews = set s.sviews i d.sview; published = d.published }

  -- The window after its first view was removed.
  abbrev pub advanced : Store Z → Store Z
  advanced s = record s {
    sviews_first_time = u32 (s.sviews_first_time + item_time);
    sviews_first_idx = (s.sviews_first_idx + 1) % wdw_len s;
  }

module _ {Z : ZmqEnv} (i : ℕ) (v : StoreView Z) (s : Store Z)
    (e : get_elem? s.sviews i ≡ some v) where
  pub get_sview_lem : get_sview i s ≡ some (v, s)
  get_sview_lem = rw e refl

  pub put_sview_lem : (u : StoreView Z) → put_sview i u s ≡ some (tt, with_sview i u s)
  put_sview_lem u = ground (arith, get_elem?-lt s.sviews i v e)

  pub with_sview_self : (u : StoreView Z) → get_elem? (with_sview i u s).sviews i ≡ some u
  with_sview_self u = get_elem?-set_self s.sviews i u (get_elem?-lt s.sviews i v e)

  pub store_view_clear-unused :
      (now : ℕ)
      → Clears Z
      → v.id ≡ i
      → (u : StoreView Z) × (store_view_clear now i s ≡ some (zero_ret, with_sview i u s))
        × (u.state ≡ unused)
        × (u.id ≡ i)
  unfolding store_view_clear
  store_view_clear-unused now clears own = elim (Bool-cases (v.reuse_remaining == 0)) [
    | inl q ↦ (
      store_view_create now s.sviews_cnt i,
      ground (arith, get_elem?-lt s.sviews i v e),
      refl,
      refl,
    )
    | inr q ↦
        let c = clears now v.view in
        (softly c.0, ground (arith, get_elem?-lt s.sviews i v e, c.1), refl, own)
  ]
    where
      softly : Z.ops.View → StoreView Z
      softly v' = record v {
        state = unused;
        reuse_cnt = v.reuse_cnt + 1;
        reuse_remaining = v.reuse_remaining - 1;
        dis_status = nothing_sent;
        done_clients = Z.names.clear v.done_clients;
        pub_cnt = 0;
        view = v';
      }

  pub store_view_completion_check-judged :
      store_view_completion_check i s ≡ some (tt, with_sview i (judged s v) s)
  unfolding store_view_completion_check
  store_view_completion_check-judged = ground (arith, get_elem?-lt s.sviews i v e)

  pub dispatcher_run-dispatched :
      dispatcher_run i s ≡ some ((dispatched s v).r, with_dispatched i (dispatched s v) s)
  unfolding dispatcher_run
  dispatcher_run-dispatched = ground (
    arith,
    get_elem?-lt s.sviews i v e,
    set_self s.sviews i v e,
    length-set s.sviews i (marked v),
    set-set s.sviews i (marked v) (record (marked v) { pub_cnt = v.pub_cnt + 1 }),
  )

module _ {Z : ZmqEnv} (i : ℕ) (v : StoreView Z) (s : Store Z)
    (e : get_elem? s.sviews i ≡ some v) where
  pub store_view_remove-unused :
      (now : ℕ)
      → Clears Z
      → v.id ≡ i
      → (u : StoreView Z) × (store_view_remove now i s
          ≡ some (
            zero_ret,
            with_sview i u (if Z.ops.get_time v.view == s.sviews_first_time then advanced s else s),
          ))
        × (u.state ≡ unused)
        × (u.id ≡ i)
  unfolding store_view_remove
  store_view_remove-unused now clears own =
      elim (Bool-cases (Z.ops.get_time v.view == s.sviews_first_time)) [
        | inl q ↦
            let c = store_view_clear-unused i v (advanced s) e now clears own in
            (c.0, ground (arith, c.1), c.2, c.3)
        | inr q ↦
            let c = store_view_clear-unused i v s e now clears own in
            (c.0, ground (arith, c.1), c.2, c.3)
      ]

  -- The store after the dispatcher has seen the view.
  abbrev pub shown : CompletionTrigger → Store Z
  shown trigger = with_dispatched i (dispatched s (offered trigger s v)) s

  pub completion_check-shown :
      (now : ℕ) (trigger : CompletionTrigger)
      → completion_check now i trigger s
        ≡ unless_failed
            (dispatched s (offered trigger s v)).r
            (if to_remove trigger then store_view_remove now i else pure zero_ret)
            (shown trigger)
  unfolding completion_check
  completion_check-shown now trigger = ground (
    arith,
    set-set s.sviews i (offered trigger s v) (dispatched s (offered trigger s v)).sview,
    store_view_completion_check-judged i v s e,
    with_sview_self i v s e (judged s v),
    length-set s.sviews i (judged s v),
    get_elem?-lt s.sviews i v e,
    set-set s.sviews i (judged s v) (offered trigger s v),
    dispatcher_run-dispatched i (offered trigger s v) (with_sview i (offered trigger s v) s)
        (with_sview_self i v s e (offered trigger s v)),
  )
