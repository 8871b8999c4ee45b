-- ===== src/View/Activate/PfxLoop.antt =====
-- The whole loop of bgpview_iter_deactivate_pfx: it ends, and leaves no entry of the prefix active.
use bgpview.Base.{
  ℕ, suc, ◌+◌, ◌<◌, ◌≡◌, refl, subst, ◌∙◌, inl, inr, true, false, none, some, [], ◌∷◌, arith,
  length, drop,
}
use native.Mathlib.Decide.{ℕ_discrete}
use bgpview.Khash.Buckets.{
  Buckets, slot, put_val, total, Absent, slot-put_val_ne, slot-put_val_self,
}
use bgpview.Khash.Scan.{skip}
use bgpview.View.Field.{inactive, is_valid, field_active, one_if_active, matches, matches-active}
use bgpview.View.Types.{
  AddrVersion, unknown, ipv4, ipv6, PfxPeerInfo, PfxInfo, PeerInfo, Env, View, Iter, State, Ret,
}
use bgpview.View.State.{Action, pfx_table}
use bgpview.View.PfxPeerIter.{pfx_peer_matches, stop_at, next_pfx_peer, move_next_pfx_peer}
use bgpview.View.Invariant.{CountedBy, active_peers}
use bgpview.View.Invariant.Change.{slot-put_val_cases}
use bgpview.View.Activate.{pfx_peer_loop}
use bgpview.View.Activate.Loop.{closing}
use bgpview.View.Activate.Stopped.{KnownPeers, active_at, Stopped}

-- A state at the head of the loop.
pub record AtHead {E : Env} (s : State E) (ver : AddrVersion) (i : ℕ) (pfx : E.Pfx) (info : PfxInfo)
    (t : Buckets ℕ PfxPeerInfo) : Type 0 where
  pub at_version : s.iter.version_ptr ≡ ver
  pub at_index : s.iter.pfx_it ≡ i
  pub mask : s.iter.pfx_peer_state_mask ≡ field_active
  pub at_pfx : slot (pfx_table ver s.view) i ≡ some (pfx, info)
  pub closed : info.state ≡ inactive
  pub has_table : info.peers ≡ some t
  pub counted : CountedBy (closing ver i) s.view
  pub placed : E.peerinfo_hash.Placed s.view.peerinfo
  pub known : KnownPeers t s.view.peerinfo
  pub stopped : Stopped s.view t s.iter

-- What the loop has done when it returns.
pub record AtExit {E : Env} (s : State E) (ver : AddrVersion) (i : ℕ) (pfx : E.Pfx) (info : PfxInfo)
    : Type 0 where
  pub at_pfx : slot (pfx_table ver s.view) i ≡ some (pfx, info)
  pub closed : info.state ≡ inactive
  pub counted : CountedBy (closing ver i) s.view
  pub none_active : active_peers info ≡ 0

pub no_active-total :
    (t : Buckets ℕ PfxPeerInfo)
    → ((l : ℕ) → l < length t → active_at t l ≡ false)
    → total (λ id q. one_if_active q.state) t ≡ 0
no_active-total [] h = refl
no_active-total (none ∷ t) h = no_active-total t (λ l k. h (suc l) (omega arith))
no_active-total (some (id, q) ∷ t) h = ground (
  arith,
  h 0 (omega arith),
  matches-active q.state,
  no_active-total t (λ l k. h (suc l) (omega arith)),
)

-- A peer written to its slot is still there.
Absent-put_val :
    {V : Type 0} (t : Buckets ℕ V) (k id : ℕ) (u v : V) (j : ℕ)
    → slot t k ≡ some (id, u)
    → Absent j (put_val t k v)
    → Absent j t
Absent-put_val t k id u v j h gone i l x e = elim (ℕ_discrete k i) [
  | yes same ↦
      let both : slot t i ≡ some (id, u) = subst (λ n. slot t n ≡ some (id, u)) same h in
      let key : id ≡ l = ground (arith, both, e) in
      λ d.
        gone i id v
          (subst (λ n. slot (put_val t k v) n ≡ some (id, v)) same (slot-put_val_self t k id u v h))
          (key ∙ d)
  | no other ↦ gone i l x (slot-put_val_ne t k i v other ∙ e)
]

module _ {E : Env} where
  pub loop_step :
      (fuel : ℕ) (body : Action E Ret) (s s1 s2 : State E) (r : Ret)
      → s.iter.pfx_peer_it_valid ≡ true
      → body s ≡ some (r, s1)
      → move_next_pfx_peer s1 ≡ some (tt, s2)
      → pfx_peer_loop (suc fuel) body s ≡ pfx_peer_loop fuel body s2
  unfolding pfx_peer_loop
  loop_step fuel body s s1 s2 r h b m = ground arith

  pub loop_end :
      (fuel : ℕ) (body : Action E Ret) (s : State E)
      → s.iter.pfx_peer_it_valid ≡ false
      → pfx_peer_loop (suc fuel) body s ≡ some (tt, s)
  unfolding pfx_peer_loop
  loop_end fuel body s h = ground arith

  -- The iterator after a step in a table.
  abbrev pub next_iter : View E → Buckets ℕ PfxPeerInfo → Iter → Iter
  next_iter v t it =
      let k = it.pfx_peer_it + 1 in
      stop_at v t (skip (pfx_peer_matches field_active) (drop k t) k)
        (record it { pfx_peer_it_valid = false })

  pub move_next :
      (s : State E) (ver : AddrVersion) (pfx : E.Pfx) (info : PfxInfo) (t : Buckets ℕ PfxPeerInfo)
      → s.iter.version_ptr ≡ ver
      → slot (pfx_table ver s.view) s.iter.pfx_it ≡ some (pfx, info)
      → info.peers ≡ some t
      → s.iter.pfx_peer_it < length t
      → s.iter.pfx_peer_state_mask ≡ field_active
      → move_next_pfx_peer s ≡ some (tt, record s { iter = next_iter s.view t s.iter })
  unfolding move_next_pfx_peer next_pfx_peer
  move_next s unknown pfx info t a h has lt m = ground arith
  move_next s ipv4 pfx info t a h has lt m = ground arith
  move_next s ipv6 pfx info t a h has lt m = ground arith

-- The entry before the loop goes on is inactive, and so are those before it.
pub deactivated-before :
    (t : Buckets ℕ PfxPeerInfo) (k id : ℕ) (q : PfxPeerInfo)
    → slot t k ≡ some (id, q)
    → ((l : ℕ) → l < k → active_at t l ≡ false)
    → (l : ℕ) → l < k + 1
    → active_at (put_val t k (record q { state = inactive })) l ≡ false
unfolding matches
deactivated-before t k id q at before l lt = elim (ℕ_discrete k l) [
  | yes same ↦
      subst (λ n. active_at (put_val t k (record q { state = inactive })) n ≡ false) same
        (rw (slot-put_val_self t k id q (record q { state = inactive }) at) refl)
  | no other ↦
      rw (slot-put_val_ne t k l (record q { state = inactive }) other)
        (before l (omega (arith, other)))
]

pub KnownPeers-put_val :
    (t : Buckets ℕ PfxPeerInfo) (k id : ℕ) (q q' : PfxPeerInfo) (peers : Buckets ℕ PeerInfo)
    (m n : ℕ) (p p' : PeerInfo)
    → slot t k ≡ some (id, q)
    → is_valid q.state ≡ true
    → slot peers m ≡ some (n, p)
    → KnownPeers t peers
    → KnownPeers (put_val t k q') (put_val peers m p')
KnownPeers-put_val t k id q q' peers m n p p' at valid at_peer known j l x e xv gone =
    let gone' = Absent-put_val peers m n p p' l at_peer gone in
    elim (slot-put_val_cases t k id q q' j l x at e) [
      | inl (_, same, _) ↦ known k id q at valid (rw same gone')
      | inr (_, old) ↦ known j l x old xv gone'
    ]
