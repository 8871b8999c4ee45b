-- ===== src/View/Lifecycle/Ledger.antt =====
-- bgpview_gc and bgpview_destroy: what is freed early is not freed again.
use bgpview.Base.{
  ℕ, ◌+◌, ◌≡◌, refl, ap, Bool, none, some, List, [], ◌∷◌, ◌++◌, arith, inl, inr, ◌==◌, Bool-cases,
}
use bgpview.Khash.Buckets.{Buckets}
use bgpview.Khash.Sweep.{kept, freed}
use bgpview.View.Types.{Env, View, Call, PeerInfo}
use bgpview.View.Lifecycle.{
  destroy_each, invalid_pfx, invalid_peer, peerid_pfxinfo_destroy, peer_destroy_user,
  peerinfo_destroy_user, destroy, gc,
}
use bgpview.View.User.{destroy_user}
use bgpview.View.Lifecycle.Gc.{Flagged, collected, gc_lem}

-- The sum of a weight of calls; weights tell apart any two logs that are not permutations.
abbrev pub weight : (Call → ℕ) → List Call → ℕ
weight w [] = 0
weight w (c ∷ cs) = w c + weight w cs

weight-append : (w : Call → ℕ) (xs ys : List Call) → weight w (xs ++ ys) ≡ weight w xs + weight w ys
weight-append w [] ys = omega arith
weight-append w (x ∷ xs) ys = omega (arith, weight-append w xs ys)

-- The dead entries of a table, and the others.
weight-kept :
    {K V : Type 0} (w : Call → ℕ) (dead : V → Bool) (free : V → List Call) (t : Buckets K V)
    → weight w (freed dead free t) + weight w (destroy_each free (kept dead t))
      ≡ weight w (destroy_each free t)
weight-kept w dead free [] = refl
weight-kept w dead free (none ∷ t) = weight-kept w dead free t
weight-kept w dead free (some (k, v) ∷ t) = ground (
  arith,
  weight-kept w dead free t,
  weight-append w (free v) (freed dead free t),
  weight-append w (free v) (destroy_each free t),
  weight-append w (free v) (destroy_each free (kept dead t)),
)

no_destructor :
    {K : Type 0} (d : ℕ) (t : Buckets K PeerInfo)
    → d ≡ 0
    → destroy_each (λ p. destroy_user d p.user) t ≡ []
no_destructor d [] h = refl
no_destructor d (none ∷ t) h = no_destructor d t h
no_destructor d (some (k, p) ∷ t) h = ground (arith, no_destructor d t h)

module _ {E : Env} where
  -- The early return of peerinfo_destroy_user changes nothing.
  peerinfo_destroy_user_lem :
      (v : View E) → peerinfo_destroy_user v ≡ destroy_each (peer_destroy_user v) v.peerinfo
  peerinfo_destroy_user_lem v = elim (Bool-cases (v.peer_user_destructor == 0)) [
    | inl e ↦ rw (e, no_destructor v.peer_user_destructor v.peerinfo (ground arith)) refl
    | inr e ↦ rw e refl
  ]

  weight-destroy :
      (w : Call → ℕ) (v : View E)
      → weight w (destroy v).calls
        ≡ weight w (destroy_each (peerid_pfxinfo_destroy v) v.v4pfxs)
          + weight w (destroy_each (peerid_pfxinfo_destroy v) v.v6pfxs)
          + weight w (destroy_each (peer_destroy_user v) v.peerinfo)
          + weight w (destroy_user v.user_destructor v.user)
  unfolding destroy
  weight-destroy w v =
      let a = destroy_each (peerid_pfxinfo_destroy v) v.v4pfxs in
      let b = destroy_each (peerid_pfxinfo_destroy v) v.v6pfxs in
      let c = peerinfo_destroy_user v in
      let d = destroy_user v.user_destructor v.user in
      omega (
        arith,
        ap (weight w) (peerinfo_destroy_user_lem v),
        weight-append w a (b ++ (c ++ d)),
        weight-append w b (c ++ d),
        weight-append w c d,
      )

  -- Destructors are called for the same pointers, each as often, whether a view is destroyed at once
  -- or after a garbage collection, where its flags tell of every invalid prefix and peer.
  pub gc-destroy :
      (w : Call → ℕ) (v : View E) (calls : List Call)
      → Flagged v
      → let r = gc v calls in
        weight w r.1 + weight w (destroy r.0).calls ≡ weight w calls + weight w (destroy v).calls
  gc-destroy w v calls h =
      let a = freed invalid_pfx (peerid_pfxinfo_destroy v) v.v4pfxs in
      let b = freed invalid_pfx (peerid_pfxinfo_destroy v) v.v6pfxs in
      let c = freed invalid_peer (peer_destroy_user v) v.peerinfo in
      rw (gc_lem v calls h) (
        omega (
          arith,
          weight-append w calls (a ++ (b ++ c)),
          weight-append w a (b ++ c),
          weight-append w b c,
          weight-destroy w v,
          weight-destroy w (collected v),
          weight-kept w invalid_pfx (peerid_pfxinfo_destroy v) v.v4pfxs,
          weight-kept w invalid_pfx (peerid_pfxinfo_destroy v) v.v6pfxs,
          weight-kept w invalid_peer (peer_destroy_user v) v.peerinfo,
        ))
