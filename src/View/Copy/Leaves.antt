-- ===== src/View/Copy/Leaves.antt =====
-- The operations of lib/bgpview.c with which bgpview_copy builds a view, and the tables that the view
-- may have in common with others.
use bgpview.Base.{
  ℕ, ◌≡◌, refl, ◌∙◌, Bool, true, false, not, some, none, Option, arith, if◌then◌else◌,
}
use bgpview.View.Types.{
  AddrVersion, unknown, ipv4, ipv6, PfxInfo, Env, State, Ret, minus_one, zero_ret, one_ret,
}
use bgpview.View.State.{Action, pure, ◌>>=◌}
use bgpview.View.Field.{all_valid}
use bgpview.View.PeerIter.{iter_seek_peer}
use bgpview.View.PfxIter.{iter_seek_pfx, settle_pfx}
use bgpview.View.Activate.{iter_activate_peer, activate_pfx, iter_pfx_activate_peer}
use bgpview.View.Create.{
  move_seek_peer, pfxinfo_insert, add_pfx_to, add_pfx, seek_or_add_pfx, iter_add_peer,
  iter_add_pfx_peer_by_id, iter_pfx_add_peer_by_id,
}
use bgpview.Khash.Interface.{Khash}

-- An action that leaves the map of signatures and the path store of the view alone.
unfoldable pub Leaves : {E : Env} {A : Type 0} → Action E A → Type 0
Leaves {E} {A} m =
    (a : A) (s s' : State E)
    → m s ≡ some (a, s')
    → (s'.view.peersigns ≡ s.view.peersigns) × (s'.view.pathstore ≡ s.view.pathstore)

module _ (E : Env) where
  pub iter_activate_peer-Leaves : Leaves {E = E} iter_activate_peer
  unfolding Leaves iter_activate_peer
  iter_activate_peer-Leaves a s s' e = ground arith

  activate_pfx-Leaves : Leaves {E = E} activate_pfx
  unfolding Leaves activate_pfx
  activate_pfx-Leaves a s s' e = ground arith

  iter_seek_peer-Leaves : (id mask : ℕ) → Leaves {E = E} (iter_seek_peer id mask)
  unfolding Leaves iter_seek_peer
  iter_seek_peer-Leaves id mask a s s' e = ground arith

  iter_seek_pfx-Leaves : (p : E.Pfx) (mask : ℕ) → Leaves {E = E} (iter_seek_pfx p mask)
  unfolding Leaves iter_seek_pfx settle_pfx
  iter_seek_pfx-Leaves p mask a s s' e = ground arith

  pfxinfo_insert-Leaves : (id path_id : ℕ) → Leaves {E = E} (pfxinfo_insert id path_id)
  unfolding Leaves pfxinfo_insert
  pfxinfo_insert-Leaves id path_id a s s' e = ground arith

  add_pfx_to-Leaves :
      (ver : AddrVersion) (h : Khash E.Pfx PfxInfo) (p : E.Pfx)
      → Leaves {E = E} (add_pfx_to ver h p)
  unfolding Leaves add_pfx_to
  add_pfx_to-Leaves ver h p a s s' e = ground arith

  pub iter_pfx_activate_peer-Leaves : Leaves {E = E} iter_pfx_activate_peer
  unfolding Leaves iter_pfx_activate_peer activate_pfx
  iter_pfx_activate_peer-Leaves a s s' e = ground arith

  pub iter_add_peer_lem :
      (sig : E.Sig) (id : ℕ) (a : ℕ) (s s' : State E)
      → E.get_id s.view.peersigns sig ≡ (id, s.view.peersigns)
      → iter_add_peer sig s ≡ some (a, s')
      → (s'.view.peersigns ≡ s.view.peersigns) × (s'.view.pathstore ≡ s.view.pathstore)
  unfolding iter_add_peer
  iter_add_peer_lem sig id a s s' known e = ground arith

module _ {E : Env} {A B : Type 0} where
  Leaves-bind :
      (m : Action E A) (f : A → Action E B) → Leaves m → ((a : A) → Leaves (f a)) → Leaves (m >>= f)
  unfolding Leaves
  Leaves-bind m f first next b s s' e = from (m s) refl e
    where
      from :
          (o : Option (A × State E))
          → m s ≡ o
          → elim o as (λ _. Option (B × State E)) [ none ↦ none | some (a, s1) ↦ f a s1 ]
            ≡ some (b, s')
          → (s'.view.peersigns ≡ s.view.peersigns) × (s'.view.pathstore ≡ s.view.pathstore)
      from none q d = cc
      from (some (a, s1)) q d =
          let (p1, q1) = first a s s1 q in let (p2, q2) = next a b s1 s' d in (p2 ∙ p1, q2 ∙ q1)

module _ (E : Env) where
  pure-Leaves : {A : Type 0} (a : A) → Leaves {E = E} (pure a)
  unfolding Leaves
  pure-Leaves {A} a b s s' e = ground arith

  move_seek_peer-Leaves : (id : ℕ) → Leaves {E = E} (move_seek_peer id)
  unfolding Leaves
  move_seek_peer-Leaves id a s s' e = ground arith

  add_pfx-Leaves : (p : E.Pfx) → Leaves {E = E} (add_pfx p)
  unfolding add_pfx
  add_pfx-Leaves p = go (E.version p)
    where
      go :
          (ver : AddrVersion)
          → Leaves {E = E} (elim ver as (λ _. Action E Ret) [
            | ipv4 ↦ add_pfx_to ipv4 E.v4_hash p
            | ipv6 ↦ add_pfx_to ipv6 E.v6_hash p
            | unknown ↦ pure minus_one
          ])
      go ipv4 = add_pfx_to-Leaves E ipv4 E.v4_hash p
      go ipv6 = add_pfx_to-Leaves E ipv6 E.v6_hash p
      go unknown = pure-Leaves minus_one

  Leaves-if :
      {A : Type 0} (c : Bool) (m n : Action E A) → Leaves m → Leaves n → Leaves (if c then m else n)
  Leaves-if true m n h k = h
  Leaves-if false m n h k = k

  seek_or_add_pfx-Leaves : (p : E.Pfx) → Leaves {E = E} (seek_or_add_pfx p)
  unfolding seek_or_add_pfx
  seek_or_add_pfx-Leaves p =
      Leaves-bind (iter_seek_pfx p all_valid) _ (iter_seek_pfx-Leaves E p all_valid) (λ found.
        Leaves-if found _ _ (pure-Leaves true)
          (Leaves-bind (add_pfx p) _ (add_pfx-Leaves p) (λ r. added r)))
    where
      added : (r : Ret) → Leaves {E = E} (elim r [ zero_ret ↦ pure true | _ ↦ pure false ])
      added zero_ret = pure-Leaves true
      added minus_one = pure-Leaves false
      added one_ret = pure-Leaves false

  pub iter_pfx_add_peer_by_id-Leaves :
      (id path_id : ℕ) → Leaves {E = E} (iter_pfx_add_peer_by_id id path_id)
  unfolding iter_pfx_add_peer_by_id
  iter_pfx_add_peer_by_id-Leaves id path_id =
      Leaves-bind (move_seek_peer id) _ (move_seek_peer-Leaves id)
        (λ _. pfxinfo_insert-Leaves E id path_id)

  pub iter_add_pfx_peer_by_id-Leaves :
      (p : E.Pfx) (id path_id : ℕ) → Leaves {E = E} (iter_add_pfx_peer_by_id p id path_id)
  unfolding iter_add_pfx_peer_by_id
  iter_add_pfx_peer_by_id-Leaves p id path_id =
      Leaves-bind (iter_seek_peer id all_valid) _ (iter_seek_peer-Leaves E id all_valid) (λ known.
        Leaves-if (not known) _ _ (pure-Leaves minus_one) (
          Leaves-bind (seek_or_add_pfx p) _ (seek_or_add_pfx-Leaves p) (λ placed.
            Leaves-if placed _ _ (iter_pfx_add_peer_by_id-Leaves id path_id)
              (pure-Leaves minus_one))))
