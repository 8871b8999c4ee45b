-- ===== src/Zmq/Store/Disconnect.antt =====
-- bgpview_io_zmq_store_client_disconnect: the client that is taken out, and the views that are judged
-- without it.
use bgpview.Base.{
  ℕ, zero, suc, ◌≡◌, ◌≢◌, ◌↔◌, refl, sym, ap, subst, ◌∙◌, ◌⊎◌, inl, inr, Option, some, [], ◌∷◌,
  length, if◌then◌else◌, arith, get_elem?,
}
use bgpview.Khash.Buckets.{Buckets, slot, unset, slot-lt}
use bgpview.View.Types.{zero_ret}
use bgpview.Zmq.Types.{ClientInfo, unused, partial, full, ZmqEnv, StoreView, Store}
use bgpview.Zmq.Sview.{all_done}
use bgpview.Zmq.Store.{disconnect, without}
use bgpview.Zmq.Store.Window.{Window}
use bgpview.Zmq.Store.Notify.{Rejudged, Notified, disconnect-Notified}
use bgpview.Zmq.Store.Updated.{AllDone, full_if}

module _ {K V : Type 0} where
  slot-unset :
      (t : Buckets K V) (i j : ℕ) (e : K × V)
      → slot (unset t i) j ≡ some e
      → (slot t j ≡ some e) × (i ≢ j)
  slot-unset [] i j e h = cc
  slot-unset (b ∷ t) zero zero e h = cc
  slot-unset (b ∷ t) zero (suc j) e h = (h, λ q. omega (arith, q))
  slot-unset (b ∷ t) (suc i) zero e h = (h, λ q. omega (arith, q))
  slot-unset (b ∷ t) (suc i) (suc j) e h =
      let r = slot-unset t i j e h in (r.0, λ q. r.1 (omega (arith, q)))

  slot-unset_ne : (t : Buckets K V) (i j : ℕ) → i ≢ j → slot (unset t i) j ≡ slot t j
  slot-unset_ne [] i j n = refl
  slot-unset_ne (b ∷ t) zero zero n = absurd (n refl)
  slot-unset_ne (b ∷ t) zero (suc j) n = refl
  slot-unset_ne (b ∷ t) (suc i) zero n = refl
  slot-unset_ne (b ∷ t) (suc i) (suc j) n = slot-unset_ne t i j (λ q. n (ap suc q))

-- The entries of the second table are those of the first whose key is another one.
abbrev pub Without : {K V : Type 0} → K → (t t' : Buckets K V) → Type 0
Without {K} {V} name t t' =
    (i : ℕ) (k : K) (v : V) → (slot t' i ≡ some (k, v)) ↔ ((slot t i ≡ some (k, v)) × (k ≢ name))

-- The store after a client of that name has left.
pub record Disconnected {Z : ZmqEnv} (h : ℕ) (s : Store Z) (name : Z.Name) (s' : Store Z)
    : Type 0 where
  pub window : Window h s'
  pub cnt_eq : s'.sviews_cnt ≡ s.sviews_cnt
  pub first_idx : s'.sviews_first_idx ≡ s.sviews_first_idx
  pub first_time : s'.sviews_first_time ≡ s.sviews_first_time
  pub clients : Without name s.active_clients s'.active_clients
  pub idle :
      (j : ℕ) (v : StoreView Z)
      → get_elem? s.sviews j ≡ some v
      → v.state ≡ unused
      → get_elem? s'.sviews j ≡ some v
  pub busy :
      (j : ℕ) (v : StoreView Z)
      → get_elem? s.sviews j ≡ some v
      → v.state ≢ unused
      → (v' : StoreView Z) × (get_elem? s'.sviews j ≡ some v')
        × (v'.view ≡ v.view)
        × (v'.done_clients ≡ v.done_clients)
        × ((v'.state ≡ full) ↔ AllDone Z s'.active_clients v.done_clients)
        × ((v'.state ≡ full) ⊎ (v'.state ≡ partial))

module _ {Z : ZmqEnv} (name : Z.Name) (s : Store Z)
    (placed : Z.clients_hash.Placed s.active_clients) where
  unset-Without :
      (c : ClientInfo Z.Name)
      → slot s.active_clients (Z.clients_hash.get s.active_clients name) ≡ some (name, c)
      → Without name s.active_clients
          (unset s.active_clients (Z.clients_hash.get s.active_clients name))
  unset-Without c at i k v = (to, from)
    where
      to :
          slot (unset s.active_clients (Z.clients_hash.get s.active_clients name)) i ≡ some (k, v)
          → (slot s.active_clients i ≡ some (k, v)) × (k ≢ name)
      to e =
          let r =
            slot-unset s.active_clients (Z.clients_hash.get s.active_clients name) i (k, v) e in
          (
            r.0,
            λ q. r.1 (
                Z.clients_hash.placed_unique s.active_clients placed _ i name c v at
                  (r.0 ∙ ap (λ x. some (x, v)) q)),
          )

      from :
          (slot s.active_clients i ≡ some (k, v)) × (k ≢ name)
          → slot (unset s.active_clients (Z.clients_hash.get s.active_clients name)) i ≡ some (k, v)
      from (e, n) =
          slot-unset_ne s.active_clients (Z.clients_hash.get s.active_clients name) i
            (λ q. n (same_key (sym e ∙ ap (slot s.active_clients) (sym q) ∙ at)))
          ∙ e
        where
          same_key :
              ◌≡◌ {A = Option (Z.Name × ClientInfo Z.Name)} (some (k, v)) (some (name, c))
              → k ≡ name
          same_key d = cc

  without-Without : Without name s.active_clients (without name s)
  without-Without = elim (Z.clients_hash.get_cases s.active_clients name placed) [
    | inl (c, at) ↦ subst (Without name s.active_clients) (sym (deleted c at)) (unset-Without c at)
    | inr (end, absent) ↦
        subst (Without name s.active_clients) (sym (left_alone end))
          (λ i k v. (λ e. (e, absent i k v e), λ p. p.0))
  ]
    where
      deleted :
          (c : ClientInfo Z.Name)
          → slot s.active_clients (Z.clients_hash.get s.active_clients name) ≡ some (name, c)
          → without name s ≡ unset s.active_clients (Z.clients_hash.get s.active_clients name)
      deleted c at = ground (
        arith,
        slot-lt s.active_clients (Z.clients_hash.get s.active_clients name) at,
        Z.clients_hash.del_lem s.active_clients (Z.clients_hash.get s.active_clients name),
      )

      left_alone :
          Z.clients_hash.get s.active_clients name ≡ length s.active_clients
          → without name s ≡ s.active_clients
      left_alone end = ground arith

module _ {Z : ZmqEnv} {h : ℕ} where
  -- Where the views in use are at the places of their times, and khash.h built the table of the
  -- connected clients: bgpview_io_zmq_store_client_disconnect returns 0. The entries of that
  -- table are then those, each in its bucket, whose key is not the name of the client. Each view
  -- in use has its BGP view and its set of clients as before; it is FULL just if every client
  -- that is left and sends prefixes is in that set, and PARTIAL otherwise. The views that are
  -- not in use, and where the window begins, do not change, and the views in use are at the
  -- places of their times.
  pub disconnect-Disconnected :
      (now : ℕ) (client : ClientInfo Z.Name) (s : Store Z)
      → Window h s
      → Z.clients_hash.Placed s.active_clients
      → (s' : Store Z) × (disconnect now client s ≡ some (zero_ret, s'))
        × Disconnected h s client.name s'
  disconnect-Disconnected now client s w placed =
      let (s', run, n) = disconnect-Notified now client s w in
      (
        s',
        run,
        record {
          window = n.window;
          cnt_eq = n.cnt_eq;
          first_idx = n.first_idx;
          first_time = n.first_time;
          clients =
              subst (Without client.name s.active_clients) (sym n.clients)
                (without-Without client.name s placed);
          idle = λ j v e p.
              let (v', here, r) = n.after j v (omega arith) e in here ∙ ap some (r.idle p);
          busy = λ j v e p.
              let (v', here, r) = n.after j v (omega arith) e in
              let verdict =
                full_if Z s'.active_clients v.done_clients v'.state (judged s' n v v' r p) in
              (v', here, r.view, r.done, verdict.0, verdict.1);
        },
      )
    where
      judged :
          (s' : Store Z)
          → Notified h (record s { active_clients = without client.name s }) 0 s'
          → (v v' : StoreView Z) → Rejudged (without client.name s) v v'
          → v.state ≢ unused
          → v'.state ≡ (if all_done Z s'.active_clients v.done_clients then full else partial)
      judged s' n v v' r p =
          r.busy p ∙ ap (λ t. if all_done Z t v.done_clients then full else partial) (sym n.clients)
