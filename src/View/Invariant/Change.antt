-- ===== src/View/Invariant/Change.antt =====
-- How the counters of lib/bgpview.c follow a change of one prefix and of one peer.
use native.Mathlib.Decide.{ℕ_discrete}
use bgpview.Base.{ℕ, ◌+◌, ◌≡◌, ◌≢◌, sym, subst₂, ◌∙◌, some, arith, inl, inr, ◌⊎◌}
use bgpview.Khash.Buckets.{
  Buckets, slot, put_val, total, Unique, slot-put_val_self, slot-put_val_ne, total-put_val,
}
use bgpview.View.Field.{Counts, u32, one_if_active, one_if_inactive}
use bgpview.View.Types.{AddrVersion, PfxInfo, PeerInfo, Env, View}
use bgpview.View.State.{pfx_table}
use bgpview.View.Create.{peer_table}
use bgpview.View.Invariant.{
  Tracks, InfoCounted, Mode, InfosCounted, PairsCounted, active_for, inactive_for, peer_pfx_cnt,
  pfx_cnt,
}

-- After a write to one entry, a slot holds what was written, or what it held before.
pub slot-put_val_cases :
    {K V : Type 0} (t : Buckets K V) (i : ℕ) (k : K) (u v : V) (j : ℕ) (l : K) (x : V)
    → slot t i ≡ some (k, u)
    → slot (put_val t i v) j ≡ some (l, x)
    → ((i ≡ j) × (k ≡ l) × (v ≡ x)) ⊎ ((i ≢ j) × (slot t j ≡ some (l, x)))
slot-put_val_cases t i k u v j l x h e = elim (ℕ_discrete i j) [
  | yes d ↦ inl (d, cc (slot-put_val_self t i k u v h), cc (slot-put_val_self t i k u v h))
  | no d ↦ inr (d, sym (slot-put_val_ne t i j v d) ∙ e)
]

-- The keys stay, so no two buckets come to hold one key.
pub put_val-Unique :
    {K V : Type 0} (t : Buckets K V) (i : ℕ) (k : K) (u v : V)
    → slot t i ≡ some (k, u)
    → Unique t
    → Unique (put_val t i v)
put_val-Unique t i k u v h q a b l x y ha hb = elim (slot-put_val_cases t i k u v a l x h ha) [
  | inl (p, e, _) ↦ elim (slot-put_val_cases t i k u v b l y h hb) [
    | inl (r, _, _) ↦ sym p ∙ r
    | inr (_, r) ↦ sym p ∙ q i b l u y (cc) r
  ]
  | inr (_, p) ↦ elim (slot-put_val_cases t i k u v b l y h hb) [
    | inl (r, e, _) ↦ q a i l x u p (cc) ∙ r
    | inr (_, r) ↦ q a b l x y p r
  ]
]

-- A change of the prefix at `i` with what keeps the counters of its table right: they follow the
-- state of the prefix. The mode may change from `m` to `n`, at this prefix only.
pub record TableChange {E : Env} (m n : Mode) (v : View E) (ver : AddrVersion) (i : ℕ) (pfx : E.Pfx)
    (info info' : PfxInfo) (f : Counts → Counts) : Type 0 where
  pub at_pfx : slot (pfx_table ver v) i ≡ some (pfx, info)
  pub counted : InfoCounted info' (n.agree ver i info')
  pub pfxs :
      (a b : ℕ)
      → a + one_if_active info.state
        ≡ (m.pending ver (pfx_cnt ver v)).active + one_if_active info'.state
      → b + one_if_inactive info.state
        ≡ (m.pending ver (pfx_cnt ver v)).inactive + one_if_inactive info'.state
      → Tracks u32 (n.pending ver (f (pfx_cnt ver v))) a b
  pub agree_same : (j : ℕ) (x : PfxInfo) → i ≢ j → m.agree ver j x → n.agree ver j x
  pub agree_other :
      (w : AddrVersion) (j : ℕ) (x : PfxInfo) → w ≢ ver → m.agree w j x → n.agree w j x
  pub pending_other : (w : AddrVersion) (c : Counts) → w ≢ ver → n.pending w c ≡ m.pending w c

-- No peer's entry in the prefix changes its state.
abbrev pub SameEntries : PfxInfo → PfxInfo → ℕ → Type 0
SameEntries info info' j =
    (total (active_for j) (peer_table info') ≡ total (active_for j) (peer_table info))
    × (total (inactive_for j) (peer_table info') ≡ total (inactive_for j) (peer_table info))

-- A change of the prefix at `i` and of the peer `id` at `k`: the counters of the peer follow its own
-- entry in the prefix.
pub record PairChange {E : Env} (m n : Mode) (v : View E) (ver : AddrVersion) (i : ℕ) (pfx : E.Pfx)
    (info info' : PfxInfo) (f : Counts → Counts) (k id : ℕ) (p p' : PeerInfo) : Type 0 where
  pub table : TableChange m n v ver i pfx info info' f
  pub at_peer : slot v.peerinfo k ≡ some (id, p)
  pub pairs :
      (a b : ℕ)
      → a + total (active_for id) (peer_table info)
        ≡ (peer_pfx_cnt ver p).active + total (active_for id) (peer_table info')
      → b + total (inactive_for id) (peer_table info)
        ≡ (peer_pfx_cnt ver p).inactive + total (inactive_for id) (peer_table info')
      → Tracks u32 (peer_pfx_cnt ver p') a b
  pub others : (j : ℕ) → j ≢ id → SameEntries info info' j
  pub other_versions : (w : AddrVersion) → w ≢ ver → peer_pfx_cnt w p' ≡ peer_pfx_cnt w p
  pub same_state : p'.state ≡ p.state

module _ {P : Type 0} (t : Buckets P PfxInfo) (i : ℕ) (pfx : P) (info info' : PfxInfo)
    (at : slot t i ≡ some (pfx, info)) where
  pub put_val-InfosCounted :
      (A B : ℕ → PfxInfo → Type 0)
      → ((j : ℕ) (x : PfxInfo) → i ≢ j → A j x → B j x)
      → InfosCounted A t
      → InfoCounted info' (B i info')
      → InfosCounted B (put_val t i info')
  put_val-InfosCounted A B keep h c j q x e =
      elim (slot-put_val_cases t i pfx info info' j q x at e) [
        | inl (m, _, d) ↦ subst₂ (λ l y. InfoCounted y (B l y)) m d c
        | inr (m, d) ↦ record { peers = (h j q x d).peers; agrees = keep j x m (h j q x d).agrees }
      ]

  -- The entries of another peer did not change, and so its counters hold.
  pub put_val-PairsCounted_ne :
      (id : ℕ) (c : Counts)
      → SameEntries info info' id
      → PairsCounted id t c
      → PairsCounted id (put_val t i info') c
  put_val-PairsCounted_ne id c (ha, hb) h =
      let wa = λ (q : P) (x : PfxInfo). total (active_for id) (peer_table x) in
      let wb = λ (q : P) (x : PfxInfo). total (inactive_for id) (peer_table x) in
      record {
        count_active = omega (arith, h.count_active, ha, total-put_val wa t i pfx info info' at);
        count_inactive =
            omega (arith, h.count_inactive, hb, total-put_val wb t i pfx info info' at);
        fits = omega (
          arith,
          h.fits,
          ha,
          hb,
          total-put_val wa t i pfx info info' at,
          total-put_val wb t i pfx info info' at,
        );
      }
