-- ===== src/View/Clear/Whole.antt =====
-- bgpview_clear, the whole of it.
use bgpview.Base.{
  ℕ, ◌≡◌, ◌≢◌, refl, sym, ap, ap₂, subst, ◌∙◌, Option, none, some, [], inl, inr, Bool-cases, true,
  arith, length, ltb, if◌then◌else◌,
}
use bgpview.Khash.Buckets.{Buckets, slot, slot-lt, entries}
use bgpview.Khash.Reset.{Swept, on_value}
use bgpview.View.Field.{FieldState, active, inactive, invalid, matches, all_valid, no_counts}
use bgpview.View.Types.{PfxPeerInfo, PfxInfo, PeerInfo, Env, View, State}
use bgpview.View.Activate.{new_iter}
use bgpview.View.Clear.{kh_size, clear, cleared_pfx, clear_pfx_cnts}
use bgpview.View.Remove.{peerinfo_reset}
use bgpview.View.Clear.Peers.{reset_one, clear_peerinfo-Swept}
use bgpview.View.Clear.Prefixes.{clear_one, clear_pfxs-Swept}

-- What bgpview_clear sets, with what it makes of the tables.
abbrev pub reset :
    {E : Env}
    → (now : ℕ) → View E
    → Buckets E.Pfx PfxInfo
    → Buckets E.Pfx PfxInfo
    → Buckets ℕ PeerInfo
    → View E
reset now v v4pfxs v6pfxs peers = record v {
  time = 0;
  time_created = now;
  v4pfxs = v4pfxs;
  v6pfxs = v6pfxs;
  v4pfxs_cnt = no_counts;
  v6pfxs_cnt = no_counts;
  peerinfo = peers;
  peerinfo_cnt = no_counts;
  need_gc_v4pfxs = ltb 0 (kh_size v4pfxs);
  need_gc_v6pfxs = ltb 0 (kh_size v6pfxs);
  need_gc_peerinfo = ltb 0 (kh_size peers);
}

-- A prefix that was valid, before and after: there is no entry of a peer left, but the table of them.
pub record ClearedPfx (info info' : PfxInfo) : Type 0 where
  pub state : info'.state ≡ invalid
  pub active_cnt : info'.peers_cnt.active ≡ 0
  pub inactive_cnt : info'.peers_cnt.inactive ≡ 0
  pub user : info'.user ≡ info.user
  pub no_table : info.peers ≡ none → info'.peers ≡ none
  pub table :
      (t : Buckets ℕ PfxPeerInfo)
      → info.peers ≡ some t
      → (t' : Buckets ℕ PfxPeerInfo) × (info'.peers ≡ some t') × (entries t' ≡ [])

-- A peer that was valid, before and after.
pub record ClearedPeer (p p' : PeerInfo) : Type 0 where
  pub state : p'.state ≡ invalid
  pub v4_active : p'.v4_pfx_cnt.active ≡ 0
  pub v4_inactive : p'.v4_pfx_cnt.inactive ≡ 0
  pub v6_active : p'.v6_pfx_cnt.active ≡ 0
  pub v6_inactive : p'.v6_pfx_cnt.inactive ≡ 0
  pub user : p'.user ≡ p.user

-- A table before and after: each key keeps its bucket, what was invalid is as it was, and what was
-- valid is cleared.
pub record ClearedTable {K V : Type 0} (state : V → FieldState) (Clean : V → V → Type 0)
    (t t' : Buckets K V) : Type 0 where
  pub len : length t' ≡ length t
  pub empty : (i : ℕ) → slot t i ≡ none → slot t' i ≡ none
  pub gone :
      (i : ℕ) (k : K) (v : V) → slot t i ≡ some (k, v) → state v ≡ invalid → slot t' i ≡ some (k, v)
  pub cleared :
      (i : ℕ) (k : K) (v : V)
      → slot t i ≡ some (k, v)
      → state v ≢ invalid
      → (v' : V) × (slot t' i ≡ some (k, v')) × Clean v v'

abbrev pub ClearedPfxs : {P : Type 0} → (t t' : Buckets P PfxInfo) → Type 0
ClearedPfxs t t' = ClearedTable (λ (info : PfxInfo). info.state) ClearedPfx t t'

-- A view in which nothing is valid; all but its tables, counters and times is as it was.
pub record Cleared {E : Env} (now : ℕ) (v v' : View E) : Type 0 where
  pub v4pfxs : ClearedPfxs v.v4pfxs v'.v4pfxs
  pub v6pfxs : ClearedPfxs v.v6pfxs v'.v6pfxs
  pub peers : ClearedTable (λ (p : PeerInfo). p.state) ClearedPeer v.peerinfo v'.peerinfo
  pub rest : v' ≡ reset now v v'.v4pfxs v'.v6pfxs v'.peerinfo

-- A sweep over the valid entries.
module _ {K V : Type 0} (state : V → FieldState) (Clean : V → V → Type 0) (f : V → V)
    (same : (v : V) → state v ≡ invalid → f v ≡ v)
    (clean : (v : V) → state v ≢ invalid → Clean v (f v)) where
  Swept-ClearedTable :
      (t t' : Buckets K V) → Swept f (length t) t t' → ClearedTable state Clean t t'
  Swept-ClearedTable t t' h = record {
    len = h.len;
    empty = λ i e. elim (Bool-cases (ltb i (length t))) [
      | inl y ↦ h.before i (ground arith) ∙ ap (on_value f) e
      | inr n ↦ h.after i (ground arith) ∙ e
    ];
    gone = λ i k v e p. at i k v e ∙ ap (λ x. some (k, x)) (same v p);
    cleared = λ i k v e p. (f v, at i k v e, clean v p);
  }
    where
      at : (i : ℕ) (k : K) (v : V) → slot t i ≡ some (k, v) → slot t' i ≡ some (k, f v)
      at i k v e = h.before i (slot-lt t i e) ∙ ap (on_value f) e

valid_state : (x : FieldState) → x ≢ invalid → matches all_valid x ≡ true
unfolding matches
valid_state invalid n = absurd (n refl)
valid_state active n = refl
valid_state inactive n = refl

reset_one-gone : (p : PeerInfo) → p.state ≡ invalid → reset_one p ≡ p
unfolding matches
reset_one-gone p e = ground arith

reset_one-ClearedPeer : (p : PeerInfo) → p.state ≢ invalid → ClearedPeer p (reset_one p)
reset_one-ClearedPeer p n =
    subst (ClearedPeer p)
      (sym (ap (λ b. if b then peerinfo_reset p else p) (valid_state p.state n)))
      (record {
        state = refl;
        v4_active = refl;
        v4_inactive = refl;
        v6_active = refl;
        v6_inactive = refl;
        user = refl;
      })

module _ (kh_clear : Buckets ℕ PfxPeerInfo → Buckets ℕ PfxPeerInfo) where
  clear_one-gone : (info : PfxInfo) → info.state ≡ invalid → clear_one kh_clear info ≡ info
  unfolding matches
  clear_one-gone info e = ground arith

  clear_one-ClearedPfx :
      ((t : Buckets ℕ PfxPeerInfo) → entries (kh_clear t) ≡ [])
      → (info : PfxInfo) → info.state ≢ invalid
      → ClearedPfx info (clear_one kh_clear info)
  clear_one-ClearedPfx clears info n =
      subst (ClearedPfx info)
        (sym (ap (λ b. if b then cleared_pfx kh_clear info else info) (valid_state info.state n)))
        (record {
          state = refl;
          active_cnt = refl;
          inactive_cnt = refl;
          user = refl;
          no_table = λ e. ap each e;
          table = λ t e. (kh_clear t, ap each e, clears t);
        })
    where
      each : Option (Buckets ℕ PfxPeerInfo) → Option (Buckets ℕ PfxPeerInfo)
      each o = elim o [ none ↦ none | some t ↦ some (kh_clear t) ]

module _ {E : Env} (kh_clear : Buckets ℕ PfxPeerInfo → Buckets ℕ PfxPeerInfo) where
  -- Where khash.h's kh_clear leaves no entry: bgpview_clear always returns. In each of the three
  -- tables every key keeps its bucket, and what was invalid is as it was. A prefix that was
  -- valid is invalid, both of its counters are 0, its table of peers has no entry, if it has one
  -- at all, and its user pointer is the same; a peer that was valid is invalid, its four
  -- counters of prefixes are 0, and its user pointer is the same. The counters of the view are
  -- 0, the time is 0 and the time of creation the one of the call, each flag says that there is
  -- something to collect if its table has an entry, and nothing else of the view has changed; no
  -- destructor is called, and an iterator stands where it stood.
  pub clear-Cleared :
      ((t : Buckets ℕ PfxPeerInfo) → entries (kh_clear t) ≡ [])
      → (now : ℕ) (s : State E)
      → (s' : State E) × (clear kh_clear now s ≡ some (tt, s'))
        × (s'.iter ≡ s.iter)
        × (s'.calls ≡ s.calls)
        × Cleared now s.view s'.view
  unfolding clear
  clear-Cleared clears now s =
      let v0 = record s.view { time = 0; time_created = now } in
      let (s1, run1, all4, all6, rest1, calls1) =
        clear_pfxs-Swept kh_clear (record s { view = v0; iter = new_iter s.view }) in
      let (s2, run2, all, rest2, calls2) =
        clear_peerinfo-Swept (record s1 { view = clear_pfx_cnts s1.view }) in
      let kept4 : s2.view.v4pfxs ≡ s1.view.v4pfxs = ap (λ (v : View E). v.v4pfxs) rest2 in
      let kept6 : s2.view.v6pfxs ≡ s1.view.v6pfxs = ap (λ (v : View E). v.v6pfxs) rest2 in
      let kept : s1.view.peerinfo ≡ s.view.peerinfo = ap (λ (v : View E). v.peerinfo) rest1 in
      (
        record s2 { iter = s.iter },
        ground (arith, run1, run2),
        refl,
        calls2 ∙ calls1,
        record {
          v4pfxs =
              subst (ClearedPfxs s.view.v4pfxs) (sym kept4)
                (pfxs_cleared clears s.view.v4pfxs s1.view.v4pfxs all4);
          v6pfxs =
              subst (ClearedPfxs s.view.v6pfxs) (sym kept6)
                (pfxs_cleared clears s.view.v6pfxs s1.view.v6pfxs all6);
          peers =
              Swept-ClearedTable (λ (p : PeerInfo). p.state) ClearedPeer reset_one reset_one-gone
                reset_one-ClearedPeer s.view.peerinfo s2.view.peerinfo
                (subst (λ t. Swept reset_one (length t) t s2.view.peerinfo) kept all);
          rest =
              rest2
              ∙ ap
                  (λ v. record (clear_pfx_cnts v) {
                    peerinfo = s2.view.peerinfo;
                    peerinfo_cnt = no_counts;
                    need_gc_peerinfo = ltb 0 (kh_size s2.view.peerinfo);
                  })
                  rest1
              ∙ ap₂ (λ t u. reset now s.view t u s2.view.peerinfo) (sym kept4) (sym kept6);
        },
      )
    where
      pfxs_cleared :
          ((t : Buckets ℕ PfxPeerInfo) → entries (kh_clear t) ≡ [])
          → (t t' : Buckets E.Pfx PfxInfo) → Swept (clear_one kh_clear) (length t) t t'
          → ClearedPfxs t t'
      pfxs_cleared c t t' =
          Swept-ClearedTable (λ (info : PfxInfo). info.state) ClearedPfx (clear_one kh_clear)
            (clear_one-gone kh_clear) (clear_one-ClearedPfx kh_clear c) t t'
