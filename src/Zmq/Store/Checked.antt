-- ===== src/Zmq/Store/Checked.antt =====
-- What completion_check does to the window: a view that is removed frees its place, and if it was the
-- first the window moves on by one.
use bgpview.Base.{
  ℕ, ◌+◌, ◌*◌, ◌%◌, ◌≤◌, ◌<◌, ◌≡◌, ◌≢◌, refl, sym, ap, ap₂, ◌∙◌, ◌⊎◌, inl, inr, true, false, some,
  List, ◌==◌, subst, if◌then◌else◌, arith, get_elem?, set, get_elem?-set_self, get_elem?-set_ne,
  get_elem?-set_cases, get_elem?-lt, Bool-cases,
}
use bgpview.View.Types.{Ret, minus_one, zero_ret}
use bgpview.Zmq.Types.{unused, CompletionTrigger, ZmqEnv, StoreView, Store, item_time, u32}
use bgpview.Zmq.Sview.{to_remove, completion_check, store_view_remove}
use bgpview.Zmq.Sview.Runs.{
  Dispatched, advanced, with_sview, Clears, dispatched, offered, judged, shown,
  completion_check-shown, store_view_remove-unused,
}
use bgpview.Zmq.Store.Window.{InPlace, offset, Window, Placed-set, Placed-advanced}

-- Every view in use is before a time.
abbrev pub Below : {Z : ZmqEnv} → ℕ → List (StoreView Z) → Type 0
Below {Z} b xs =
    (j : ℕ) (v : StoreView Z)
    → get_elem? xs j ≡ some v
    → (v.state ≡ unused) ⊎ (Z.ops.get_time v.view < b)

-- The place is free, and the window has moved on if this was its first view.
pub record Removed {Z : ZmqEnv} (s : Store Z) (i : ℕ) (v : StoreView Z) (s' : Store Z)
    : Type 0 where
  pub left : StoreView Z
  pub here : get_elem? s'.sviews i ≡ some left
  pub free : left.state ≡ unused
  pub moved :
      Z.ops.get_time v.view ≡ s.sviews_first_time
      → (s'.sviews_first_idx ≡ (s.sviews_first_idx + 1) % s.sviews_cnt)
        × (s'.sviews_first_time ≡ u32 (s.sviews_first_time + item_time))

-- The store after completion_check of the view `v` at the place `i`.
pub record Checked {Z : ZmqEnv} (h : ℕ) (s : Store Z) (i : ℕ) (v : StoreView Z) (s' : Store Z)
    : Type 0 where
  pub window : Window h s'
  pub cnt : s'.sviews_cnt ≡ s.sviews_cnt
  pub clients : s'.active_clients ≡ s.active_clients
  pub below : (b : ℕ) → Below b s.sviews → Below b s'.sviews
  pub others : (j : ℕ) → i ≢ j → get_elem? s'.sviews j ≡ get_elem? s.sviews j
  pub first_kept :
      Z.ops.get_time v.view ≢ s.sviews_first_time
      → (s'.sviews_first_idx ≡ s.sviews_first_idx) × (s'.sviews_first_time ≡ s.sviews_first_time)

module _ {Z : ZmqEnv} {h : ℕ} (s : Store Z) (w : Window h s) (i : ℕ) (v : StoreView Z)
    (e : get_elem? s.sviews i ≡ some v) (used : v.state ≢ unused)
    (trigger : CompletionTrigger) where
  in_place : InPlace h s.sviews_cnt s.sviews_first_idx s.sviews_first_time i v
  in_place = elim (w.place i v e) [ inl p ↦ absurd (used p) | inr p ↦ p ]

  pub shown_view : (dispatched s (offered trigger s v)).sview.view ≡ v.view
  shown_view = ground arith

  shown_id : (dispatched s (offered trigger s v)).sview.id ≡ i
  shown_id = ground (arith, w.own i v e)

  pub shown-Checked : Checked h s i v (shown i v s e trigger)
  shown-Checked = record {
    window = Placed-set w i _ shown_id (
        inr (
          subst
            (λ x.
              (Z.ops.get_time x
                ≡ s.sviews_first_time + offset s.sviews_cnt s.sviews_first_idx i * 300)
              × (Z.ops.get_time x ≤ h))
            (sym shown_view) in_place));
    cnt = refl;
    clients = refl;
    below = λ b k j u d. elim (get_elem?-set_cases s.sviews i j _ u d) [
      | inl (p, q) ↦ elim (k i v e) [
        | inl free ↦ absurd (used free)
        | inr lt ↦ inr (
            subst (λ x. Z.ops.get_time x < b) (sym shown_view ∙ ap (λ (x : StoreView Z). x.view) q)
              lt)
      ]
      | inr d' ↦ k j u d'
    ];
    others = λ j n. get_elem?-set_ne s.sviews i j _ n;
    first_kept = λ n. (refl, refl);
  }

  pub shown_here :
      get_elem? (shown i v s e trigger).sviews i ≡ some (dispatched s (offered trigger s v)).sview
  shown_here = get_elem?-set_self s.sviews i _ (get_elem?-lt s.sviews i v e)

-- A store whose view at a place is freed.
module _ {Z : ZmqEnv} {h : ℕ} (s s1 : Store Z) (i : ℕ) (v v1 u : StoreView Z)
    (c : Checked h s i v s1) (there : get_elem? s1.sviews i ≡ some v1) (free : u.state ≡ unused)
    (own : u.id ≡ i) (same_view : v1.view ≡ v.view)
    (same_first : s1.sviews_first_time ≡ s.sviews_first_time)
    (same_idx : s1.sviews_first_idx ≡ s.sviews_first_idx)
    (at : InPlace h s.sviews_cnt s.sviews_first_idx s.sviews_first_time i v) where
  freed-Below : (b : ℕ) → Below b s.sviews → Below b (set s1.sviews i u)
  freed-Below b k j x d = elim (get_elem?-set_cases s1.sviews i j u x d) [
    | inl (p, q) ↦ inl (ap (λ (y : StoreView Z). y.state) (sym q) ∙ free)
    | inr d' ↦ c.below b k j x d'
  ]

  freed_others : (j : ℕ) → i ≢ j → get_elem? (set s1.sviews i u) j ≡ get_elem? s.sviews j
  freed_others j n = get_elem?-set_ne s1.sviews i j u n ∙ c.others j n

  freed_here : get_elem? (set s1.sviews i u) i ≡ some u
  freed_here = get_elem?-set_self s1.sviews i u (get_elem?-lt s1.sviews i v1 there)

  freed-Checked :
      Z.ops.get_time v.view ≢ s.sviews_first_time
      → Checked h s i v (with_sview i u s1) × Removed s i v (with_sview i u s1)
  freed-Checked ne = (
    record {
      window = Placed-set c.window i u own (inl free);
      cnt = c.cnt;
      clients = c.clients;
      below = freed-Below;
      others = freed_others;
      first_kept = c.first_kept;
    },
    record { left = u; here = freed_here; free = free; moved = λ q. absurd (ne q) },
  )

  first_place : Z.ops.get_time v.view ≡ s.sviews_first_time → i ≡ s1.sviews_first_idx
  first_place q =
      ground (
        arith,
        at.0,
        same_idx,
        c.cnt,
        c.window.len,
        c.window.f_lt,
        get_elem?-lt s1.sviews i v1 there,
      )

  freed_advanced-Checked :
      Z.ops.get_time v.view ≡ s.sviews_first_time
      → Checked h s i v (with_sview i u (advanced s1))
        × Removed s i v (with_sview i u (advanced s1))
  freed_advanced-Checked q = (
    record {
      window =
          Placed-advanced (Placed-set c.window i u own (inl free)) u
            (ap (get_elem? (set s1.sviews i u)) (sym (first_place q)) ∙ freed_here) free
            (omega (arith, at.1, q, same_first));
      cnt = c.cnt;
      clients = c.clients;
      below = freed-Below;
      others = freed_others;
      first_kept = λ n. absurd (n q);
    },
    record {
      left = u;
      here = freed_here;
      free = free;
      moved =
          λ _. (ap₂ (λ f n. (f + 1) % n) same_idx c.cnt, ap (λ t. u32 (t + item_time)) same_first);
    },
  )

module _ {Z : ZmqEnv} {h : ℕ} (s : Store Z) (w : Window h s) (i : ℕ) (v : StoreView Z)
    (e : get_elem? s.sviews i ≡ some v) (used : v.state ≢ unused) (now : ℕ)
    (clears : Clears Z) where
  -- With a trigger that removes the view: it is removed, unless it could not be sent.
  pub completion_check-Removed :
      (trigger : CompletionTrigger)
      → to_remove trigger ≡ true
      → (r : Ret) × (s' : Store Z) × (completion_check now i trigger s ≡ some (r, s'))
        × Checked h s i v s'
        × ((r ≡ minus_one) ⊎ ((r ≡ zero_ret) × Removed s i v s'))
  completion_check-Removed trigger removes = elim sent [
    | inl q ↦ (
      minus_one,
      shown i v s e trigger,
      completion_check-shown i v s e now trigger ∙ ground (arith, q),
      shown-Checked s w i v e used trigger,
      inl refl,
    )
    | inr q ↦ removed q (Bool-cases (Z.ops.get_time d.sview.view == s.sviews_first_time))
  ]
    where
      d : Dispatched Z
      d = dispatched s (offered trigger s v)

      sent : (d.r ≡ minus_one) ⊎ (d.r ≡ zero_ret)
      sent = ground arith

      view_time : Z.ops.get_time d.sview.view ≡ Z.ops.get_time v.view
      view_time = ap Z.ops.get_time (shown_view s w i v e used trigger)

      removal :
          (u : StoreView Z) × (store_view_remove now i (shown i v s e trigger)
            ≡ some (
              zero_ret,
              with_sview i u (
                  if Z.ops.get_time d.sview.view == s.sviews_first_time
                  then advanced (shown i v s e trigger)
                  else shown i v s e trigger),
            ))
          × (u.state ≡ unused)
          × (u.id ≡ i)
      removal =
          store_view_remove-unused i d.sview (shown i v s e trigger)
            (shown_here s w i v e used trigger) now clears (shown_id s w i v e used trigger)

      run :
          d.r ≡ zero_ret
          → completion_check now i trigger s ≡ store_view_remove now i (shown i v s e trigger)
      run q = completion_check-shown i v s e now trigger ∙ ground (arith, q, removes)

      removed :
          d.r ≡ zero_ret
          → ((Z.ops.get_time d.sview.view == s.sviews_first_time) ≡ true)
            ⊎ ((Z.ops.get_time d.sview.view == s.sviews_first_time) ≡ false)
          → (r : Ret) × (s' : Store Z) × (completion_check now i trigger s ≡ some (r, s'))
            × Checked h s i v s'
            × ((r ≡ minus_one) ⊎ ((r ≡ zero_ret) × Removed s i v s'))
      removed q (inl t) =
          let c =
            freed_advanced-Checked s (shown i v s e trigger) i v d.sview removal.0
              (shown-Checked s w i v e used trigger) (shown_here s w i v e used trigger) removal.2
              removal.3 (shown_view s w i v e used trigger) refl refl
              (in_place s w i v e used trigger) (sym view_time ∙ ground arith) in
          (
            zero_ret,
            with_sview i removal.0 (advanced (shown i v s e trigger)),
            run q ∙ removal.1 ∙ ground (arith, t),
            c.0,
            inr (refl, c.1),
          )
      removed q (inr t) =
          let c =
            freed-Checked s (shown i v s e trigger) i v d.sview removal.0
              (shown-Checked s w i v e used trigger) (shown_here s w i v e used trigger) removal.2
              removal.3 (shown_view s w i v e used trigger) refl refl
              (in_place s w i v e used trigger) (λ n. ground (arith, view_time)) in
          (
            zero_ret,
            with_sview i removal.0 (shown i v s e trigger),
            run q ∙ removal.1 ∙ ground (arith, t),
            c.0,
            inr (refl, c.1),
          )

-- With a trigger that does not remove the view, it is judged and shown to the dispatcher.
pub completion_check-kept :
    {Z : ZmqEnv} (i : ℕ) (v : StoreView Z) (s : Store Z)
    → (e : get_elem? s.sviews i ≡ some v) → (now : ℕ) (trigger : CompletionTrigger)
    → to_remove trigger ≡ false
    → completion_check now i trigger s
      ≡ some ((dispatched s (offered trigger s v)).r, shown i v s e trigger)
completion_check-kept i v s e now trigger stays =
    completion_check-shown i v s e now trigger ∙ ground arith

pub kept_state :
    {Z : ZmqEnv} (v : StoreView Z) (s : Store Z) (trigger : CompletionTrigger)
    → to_remove trigger ≡ false
    → ((dispatched s (offered trigger s v)).sview.state ≡ (judged s v).state)
      × ((dispatched s (offered trigger s v)).sview.done_clients ≡ v.done_clients)
kept_state v s trigger stays = ground arith
