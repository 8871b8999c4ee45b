-- ===== src/Zmq/Loop/Purge.antt =====
-- clients_purge: which clients are left.
use bgpview.Base.{
  ℕ, suc, ◌+◌, ◌≡◌, refl, sym, ap, ◌∙◌, inl, inr, true, false, none, some, List, [], ◌∷◌, ◌++◌,
  length, ltb, if◌then◌else◌, arith, Bool-cases, length-append,
}
use mathlib.Core.List.{append_assoc}
use bgpview.Khash.Buckets.{Buckets, slot, unset}
use bgpview.Khash.Sweep.{slot-append, unset-append}
use bgpview.View.Types.{zero_ret}
use bgpview.Zmq.Store.Window.{Window}
use bgpview.Zmq.Store.Notify.{disconnect-Notified}
use bgpview.Zmq.Server.{ServerClient, ServerEnv, Server, Clock}
use bgpview.Zmq.Loop.{purge_at, purge_from, clients_purge}

-- Clients are removed up to the first one that has not expired; those after it are left.
abbrev pub survivors :
    {Name : Type 0}
    → ℕ
    → Buckets (List ℕ) (ServerClient Name)
    → Buckets (List ℕ) (ServerClient Name)
survivors now [] = []
survivors now (none ∷ t) = none ∷ survivors now t
survivors now (some (k, c) ∷ t) =
    let rest = survivors now t in if ltb now c.expiry then some (k, c) ∷ t else none ∷ rest

abbrev Purges :
    {S : ServerEnv}
    → ℕ
    → Clock
    → (n k : ℕ) → Server S
    → Buckets (List ℕ) (ServerClient S.zmq.Name)
    → Type 0
Purges {S} h now n k s left =
    (s' : Server S) × (purge_from {V = S} now n k s ≡ some (zero_ret, s'))
    × (s'.clients ≡ left)
    × Window h s'.store

module _ {S : ServerEnv} {h : ℕ} (now : Clock) where
  -- One client.
  purge_one :
      (n k : ℕ) (s : Server S) (key : List ℕ) (c : ServerClient S.zmq.Name)
      → slot s.clients k ≡ some (key, c)
      → Window h s.store
      → (left : Buckets (List ℕ) (ServerClient S.zmq.Name))
      → (ltb now.msec c.expiry ≡ true → s.clients ≡ left)
      → (ltb now.msec c.expiry ≡ false
          → (s' : Server S) → s'.clients ≡ unset s.clients k
          → Window h s'.store
          → Purges h now n (k + 1) s' left)
      → Purges h now (suc n) k s left
  unfolding purge_from purge_at
  purge_one n k s key c at w left alive dead = elim (Bool-cases (ltb now.msec c.expiry)) [
    | inl q ↦ (
      s,
      ap (λ o. purge_at now k (purge_from now n (k + 1)) o s) at ∙ ground (arith, q),
      alive q,
      w,
    )
    | inr q ↦
        let d = disconnect-Notified now.sec c.info s.store w in
        let r =
          dead q (record s { store = d.0; clients = S.clients_hash.del s.clients k })
            (S.clients_hash.del_lem s.clients k) d.2.window in
        (
          r.0,
          ap (λ o. purge_at now k (purge_from now n (k + 1)) o s) at ∙ ground (arith, q, d.1) ∙ r.1,
          r.2,
          r.3,
        )
  ]

  purge_from-survivors :
      (xs ys : Buckets (List ℕ) (ServerClient S.zmq.Name)) (s : Server S)
      → s.clients ≡ xs ++ ys
      → Window h s.store
      → Purges h now (length ys) (length xs) s (xs ++ survivors now.msec ys)
  unfolding purge_from purge_at
  purge_from-survivors xs [] s e w = (s, refl, e, w)
  purge_from-survivors xs (none ∷ ys) s e w =
      let r =
        purge_from-survivors (xs ++ (none ∷ [])) ys s (e ∙ sym (append_assoc xs (none ∷ []) ys))
          w in
      (
        r.0,
        ap (λ o. purge_at now (length xs) (purge_from now (length ys) (length xs + 1)) o s)
              (ap (λ t. slot t (length xs)) e ∙ slot-append xs (none ∷ ys))
            ∙ ap (λ k. purge_from now (length ys) k s) (sym (length-append xs (none ∷ [])))
            ∙ r.1,
        r.2 ∙ append_assoc xs (none ∷ []) (survivors now.msec ys),
        r.3,
      )
  purge_from-survivors xs (some (key, c) ∷ ys) s e w =
      purge_one (length ys) (length xs) s key c
        (ap (λ t. slot t (length xs)) e ∙ slot-append xs (some (key, c) ∷ ys)) w
        (xs ++ survivors now.msec (some (key, c) ∷ ys)) (λ q. e ∙ ap (λ t. xs ++ t) (first_alive q))
        (λ q s' e' w'.
          let r =
            purge_from-survivors (xs ++ (none ∷ [])) ys s'
              (e'
                ∙ ap (λ t. unset t (length xs)) e
                ∙ unset-append xs (some (key, c) ∷ ys)
                ∙ sym (append_assoc xs (none ∷ []) ys))
              w' in
          (
            r.0,
            ap (λ k. purge_from now (length ys) k s') (sym (length-append xs (none ∷ []))) ∙ r.1,
            r.2
                ∙ append_assoc xs (none ∷ []) (survivors now.msec ys)
                ∙ ap (λ t. xs ++ t) (first_dead q),
            r.3,
          ))
    where
      first_alive :
          ltb now.msec c.expiry ≡ true
          → some (key, c) ∷ ys ≡ survivors now.msec (some (key, c) ∷ ys)
      first_alive q = ground (arith, q)

      first_dead :
          ltb now.msec c.expiry ≡ false
          → none ∷ survivors now.msec ys ≡ survivors now.msec (some (key, c) ∷ ys)
      first_dead q = ground (arith, q)

  -- Where the views in use are at the places of their times: clients_purge returns 0, and
  -- removes the clients before the first bucket with one that has not expired, and none after
  -- it; the views are at their places again.
  pub clients_purge-survivors :
      (s : Server S)
      → Window h s.store
      → (s' : Server S) × (clients_purge now s ≡ some (zero_ret, s'))
        × (s'.clients ≡ survivors now.msec s.clients)
        × Window h s'.store
  unfolding clients_purge
  clients_purge-survivors s w = purge_from-survivors [] s.clients s refl w
