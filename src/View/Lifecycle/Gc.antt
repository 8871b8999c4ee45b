-- ===== src/View/Lifecycle/Gc.antt =====
-- bgpview_gc keeps the counters right, and keeps what is valid.
use bgpview.Base.{
  ℕ, ◌≤◌, ◌≡◌, refl, ap, ◌∙◌, ◌↔◌, true, false, none, some, List, [], ◌∷◌, ◌++◌, arith, inl, inr,
  Bool-cases,
}
use mathlib.Core.List.{append-nil, append_assoc}
use bgpview.Khash.Buckets.{Buckets, slot, total}
use bgpview.Khash.Sweep.{
  kept, freed, sweep-kept, slot-kept, slot-kept_alive, total-kept, kept-none_dead,
}
use bgpview.View.Field.{is_valid, one_if_active, one_if_inactive, Counts}
use bgpview.View.Types.{
  AddrVersion, unknown, ipv4, ipv6, PfxPeerInfo, PfxInfo, PeerInfo, Env, View, Call,
}
use bgpview.View.State.{pfx_table}
use bgpview.View.Create.{peer_table}
use bgpview.View.Invariant.{
  StateAgrees, InfoCounted, InfosCounted, PfxsCounted, PairsCounted, PeersCounted, Counted,
  active_for, inactive_for, active_peers, inactive_peers,
}
use bgpview.View.Lifecycle.{
  invalid_pfx, invalid_peer, peerid_pfxinfo_destroy, peer_destroy_user, gc_v4pfxs, gc_v6pfxs,
  gc_peerinfo, gc,
}

-- One peer's entries are among all.
active_for-le :
    (id : ℕ) (t : Buckets ℕ PfxPeerInfo)
    → (total (active_for id) t ≤ total (λ j q. one_if_active q.state) t)
      × (total (inactive_for id) t ≤ total (λ j q. one_if_inactive q.state) t)
active_for-le id [] = (omega arith, omega arith)
active_for-le id (none ∷ t) = active_for-le id t
active_for-le id (some (j, q) ∷ t) =
    (ground (arith, active_for-le id t), ground (arith, active_for-le id t))

-- An invalid prefix has no valid entry.
invalid-empty :
    (info : PfxInfo)
    → InfoCounted info (StateAgrees info)
    → invalid_pfx info ≡ true
    → (active_peers info ≡ 0) × (inactive_peers info ≡ 0)
invalid-empty info h e = (ground (arith, h.agrees, h.peers), ground (arith, h.agrees, h.peers))

module _ {P : Type 0} (t : Buckets P PfxInfo)
    (h : InfosCounted (λ i info. StateAgrees info) t) where
  kept-InfosCounted : InfosCounted (λ i info. StateAgrees info) (kept invalid_pfx t)
  kept-InfosCounted i p info e = h i p info (slot-kept invalid_pfx t i p info e).0

  kept-PairsCounted :
      (id : ℕ) {c : Counts} → PairsCounted id t c → PairsCounted id (kept invalid_pfx t) c
  kept-PairsCounted id {c} q =
      let ea =
        total-kept invalid_pfx (λ p info. total (active_for id) (peer_table info)) t
          (λ i p info at e.
            omega
              (arith, active_for-le id (peer_table info), invalid-empty info (h i p info at) e)) in
      let eb =
        total-kept invalid_pfx (λ p info. total (inactive_for id) (peer_table info)) t
          (λ i p info at e.
            omega
              (arith, active_for-le id (peer_table info), invalid-empty info (h i p info at) e)) in
      rw (ea, eb) q

kept-PfxsCounted :
    {P : Type 0} (t : Buckets P PfxInfo) {c : Counts}
    → PfxsCounted t c
    → PfxsCounted (kept invalid_pfx t) c
kept-PfxsCounted t h =
    let ea =
      total-kept invalid_pfx (λ p info. one_if_active info.state) t
        (λ i p info at e. ground arith) in
    let eb =
      total-kept invalid_pfx (λ p info. one_if_inactive info.state) t
        (λ i p info at e. ground arith) in
    rw (ea, eb) h

kept-PeersCounted :
    (t : Buckets ℕ PeerInfo) {c : Counts} → PeersCounted t c → PeersCounted (kept invalid_peer t) c
kept-PeersCounted t h =
    let ea =
      total-kept invalid_peer (λ p info. one_if_active info.state) t
        (λ i p info at e. ground arith) in
    let eb =
      total-kept invalid_peer (λ p info. one_if_inactive info.state) t
        (λ i p info at e. ground arith) in
    rw (ea, eb) h

module _ {E : Env} where
  -- An invalid prefix or peer is there only if the flag of its table says so.
  pub record Flagged (v : View E) : Type 0 where
    pub v4pfxs :
        v.need_gc_v4pfxs ≡ false
        → (i : ℕ) (p : E.Pfx) (info : PfxInfo) → slot v.v4pfxs i ≡ some (p, info)
        → invalid_pfx info ≡ false
    pub v6pfxs :
        v.need_gc_v6pfxs ≡ false
        → (i : ℕ) (p : E.Pfx) (info : PfxInfo) → slot v.v6pfxs i ≡ some (p, info)
        → invalid_pfx info ≡ false
    pub peers :
        v.need_gc_peerinfo ≡ false
        → (i id : ℕ) (p : PeerInfo) → slot v.peerinfo i ≡ some (id, p)
        → invalid_peer p ≡ false

  -- The view without its invalid prefixes and peers.
  abbrev pub collected : View E → View E
  collected v = record v {
    v4pfxs = kept invalid_pfx v.v4pfxs;
    v6pfxs = kept invalid_pfx v.v6pfxs;
    peerinfo = kept invalid_peer v.peerinfo;
    need_gc_v4pfxs = false;
    need_gc_v6pfxs = false;
    need_gc_peerinfo = false;
  }

  -- The calls of destructors for the user pointers of what is invalid.
  abbrev pub collected_calls : View E → List Call
  collected_calls v =
      freed invalid_pfx (peerid_pfxinfo_destroy v) v.v4pfxs
      ++ (freed invalid_pfx (peerid_pfxinfo_destroy v) v.v6pfxs
          ++ freed invalid_peer (peer_destroy_user v) v.peerinfo)

  module _ (v : View E) (calls : List Call) (h : Flagged v) where
    gc_v4pfxs_lem : gc_v4pfxs v calls ≡ (
      record v { v4pfxs = kept invalid_pfx v.v4pfxs; need_gc_v4pfxs = false },
      calls ++ freed invalid_pfx (peerid_pfxinfo_destroy v) v.v4pfxs,
    )
    unfolding gc_v4pfxs
    gc_v4pfxs_lem = elim (Bool-cases v.need_gc_v4pfxs) [
      | inl need ↦
          rw (need, sweep-kept E.v4_hash invalid_pfx (peerid_pfxinfo_destroy v) v.v4pfxs calls) refl
      | inr clean ↦
          let same =
            kept-none_dead invalid_pfx (peerid_pfxinfo_destroy v) v.v4pfxs (h.v4pfxs clean) in
          let idle : gc_v4pfxs v calls ≡ (v, calls) = rw clean refl in
          idle
          ∙ rw (same.0, same.1, append-nil calls)
              (ap (λ b. (record v { need_gc_v4pfxs = b }, calls)) clean)
    ]

    gc_v6pfxs_lem : gc_v6pfxs v calls ≡ (
      record v { v6pfxs = kept invalid_pfx v.v6pfxs; need_gc_v6pfxs = false },
      calls ++ freed invalid_pfx (peerid_pfxinfo_destroy v) v.v6pfxs,
    )
    unfolding gc_v6pfxs
    gc_v6pfxs_lem = elim (Bool-cases v.need_gc_v6pfxs) [
      | inl need ↦
          rw (need, sweep-kept E.v6_hash invalid_pfx (peerid_pfxinfo_destroy v) v.v6pfxs calls) refl
      | inr clean ↦
          let same =
            kept-none_dead invalid_pfx (peerid_pfxinfo_destroy v) v.v6pfxs (h.v6pfxs clean) in
          let idle : gc_v6pfxs v calls ≡ (v, calls) = rw clean refl in
          idle
          ∙ rw (same.0, same.1, append-nil calls)
              (ap (λ b. (record v { need_gc_v6pfxs = b }, calls)) clean)
    ]

    gc_peerinfo_lem : gc_peerinfo v calls ≡ (
      record v { peerinfo = kept invalid_peer v.peerinfo; need_gc_peerinfo = false },
      calls ++ freed invalid_peer (peer_destroy_user v) v.peerinfo,
    )
    unfolding gc_peerinfo
    gc_peerinfo_lem = elim (Bool-cases v.need_gc_peerinfo) [
      | inl need ↦
          rw (need, sweep-kept E.peerinfo_hash invalid_peer (peer_destroy_user v) v.peerinfo calls)
            refl
      | inr clean ↦
          let same = kept-none_dead invalid_peer (peer_destroy_user v) v.peerinfo (h.peers clean) in
          let idle : gc_peerinfo v calls ≡ (v, calls) = rw clean refl in
          idle
          ∙ rw (same.0, same.1, append-nil calls)
              (ap (λ b. (record v { need_gc_peerinfo = b }, calls)) clean)
    ]

  -- The part for one table leaves the flags of the others as they are.
  pub gc_lem :
      (v : View E) (calls : List Call)
      → Flagged v
      → gc v calls ≡ (collected v, calls ++ collected_calls v)
  unfolding gc
  gc_lem v calls h =
      let v4 = record v { v4pfxs = kept invalid_pfx v.v4pfxs; need_gc_v4pfxs = false } in
      let v6 = record v4 { v6pfxs = kept invalid_pfx v.v6pfxs; need_gc_v6pfxs = false } in
      let calls4 = calls ++ freed invalid_pfx (peerid_pfxinfo_destroy v) v.v4pfxs in
      let calls6 = calls4 ++ freed invalid_pfx (peerid_pfxinfo_destroy v) v.v6pfxs in
      let h4 : Flagged v4 = record {
        v4pfxs = λ e i p info at. (slot-kept invalid_pfx v.v4pfxs i p info at).1;
        v6pfxs = h.v6pfxs;
        peers = h.peers;
      } in
      let h6 : Flagged v6 = record {
        v4pfxs = h4.v4pfxs;
        v6pfxs = λ e i p info at. (slot-kept invalid_pfx v.v6pfxs i p info at).1;
        peers = h.peers;
      } in
      rw (gc_v4pfxs_lem v calls h, gc_v6pfxs_lem v4 calls4 h4, gc_peerinfo_lem v6 calls6 h6)
        (ap (λ l. (collected v, l))
          (append_assoc calls4 (freed invalid_pfx (peerid_pfxinfo_destroy v) v.v6pfxs)
              (freed invalid_peer (peer_destroy_user v) v.peerinfo)
            ∙ append_assoc calls (freed invalid_pfx (peerid_pfxinfo_destroy v) v.v4pfxs) _))

  collected-Counted : (v : View E) → Counted v → Counted (collected v)
  collected-Counted v h = record {
    infos = elim [
      | unknown ↦ h.infos unknown
      | ipv4 ↦ kept-InfosCounted v.v4pfxs (h.infos ipv4)
      | ipv6 ↦ kept-InfosCounted v.v6pfxs (h.infos ipv6)
    ];
    pfxs = elim [
      | unknown ↦ h.pfxs unknown
      | ipv4 ↦ kept-PfxsCounted v.v4pfxs (h.pfxs ipv4)
      | ipv6 ↦ kept-PfxsCounted v.v6pfxs (h.pfxs ipv6)
    ];
    pairs = elim [
      | unknown ↦ λ i id p e. h.pairs unknown i id p (slot-kept invalid_peer v.peerinfo i id p e).0
      | ipv4 ↦ λ i id p e.
          kept-PairsCounted v.v4pfxs (h.infos ipv4) id
            (h.pairs ipv4 i id p (slot-kept invalid_peer v.peerinfo i id p e).0)
      | ipv6 ↦ λ i id p e.
          kept-PairsCounted v.v6pfxs (h.infos ipv6) id
            (h.pairs ipv6 i id p (slot-kept invalid_peer v.peerinfo i id p e).0)
    ];
    peers = kept-PeersCounted v.peerinfo h.peers;
    unique = λ i j k p q hi hj.
        h.unique i j k p q (slot-kept invalid_peer v.peerinfo i k p hi).0
          (slot-kept invalid_peer v.peerinfo j k q hj).0;
  }

  slot-collected :
      (v : View E) (ver : AddrVersion) (i : ℕ) (p : E.Pfx) (info : PfxInfo)
      → (slot (pfx_table ver (collected v)) i ≡ some (p, info))
        ↔ ((slot (pfx_table ver v) i ≡ some (p, info)) × (is_valid info.state ≡ true))
  slot-collected v unknown i p info = ((λ e. cc), λ e. e.0)
  slot-collected v ipv4 i p info = (
    (λ e. let old = slot-kept invalid_pfx v.v4pfxs i p info e in (old.0, ground (arith, old.1))),
    λ (e, valid). slot-kept_alive invalid_pfx v.v4pfxs i p info e (ground (arith, valid)),
  )
  slot-collected v ipv6 i p info = (
    (λ e. let old = slot-kept invalid_pfx v.v6pfxs i p info e in (old.0, ground (arith, old.1))),
    λ (e, valid). slot-kept_alive invalid_pfx v.v6pfxs i p info e (ground (arith, valid)),
  )

  peer-collected :
      (v : View E) (i id : ℕ) (p : PeerInfo)
      → (slot (collected v).peerinfo i ≡ some (id, p))
        ↔ ((slot v.peerinfo i ≡ some (id, p)) × (is_valid p.state ≡ true))
  peer-collected v i id p = (
    (λ e. let old = slot-kept invalid_peer v.peerinfo i id p e in (old.0, ground (arith, old.1))),
    λ (e, valid). slot-kept_alive invalid_peer v.peerinfo i id p e (ground (arith, valid)),
  )

  -- Where the flags tell of every invalid prefix and peer, the garbage collection keeps every counter
  -- right; a slot of a table then holds exactly what it held before, if that was valid; and the
  -- calls of destructors made are those for the invalid prefixes and peers, in the order of the
  -- tables.
  pub gc-Counted :
      (v : View E) (calls : List Call)
      → Counted v
      → Flagged v
      → let r = gc v calls in
        Counted r.0
        × ((ver : AddrVersion) (i : ℕ) (p : E.Pfx) (info : PfxInfo)
            → (slot (pfx_table ver r.0) i ≡ some (p, info))
              ↔ ((slot (pfx_table ver v) i ≡ some (p, info)) × (is_valid info.state ≡ true)))
        × ((i id : ℕ) (p : PeerInfo)
            → (slot r.0.peerinfo i ≡ some (id, p))
              ↔ ((slot v.peerinfo i ≡ some (id, p)) × (is_valid p.state ≡ true)))
        × (r.1 ≡ calls ++ collected_calls v)
  gc-Counted v calls h flagged =
      rw (gc_lem v calls flagged) (collected-Counted v h, slot-collected v, peer-collected v, refl)
