-- ===== src/View/Invariant.antt =====
-- What the counters of lib/bgpview.c stand for. The comments on `peers_cnt`, `v4_pfx_cnt`,
-- `v4pfxs_cnt` and `peerinfo_cnt` say what each one counts; this is the same, over the tables.
pub mod Change
pub mod Keep
use bgpview.Base.{ℕ, ◌+◌, ◌<◌, ◌≡◌, Bool, Option, none, some, [], arith, ltb, ◌==◌, if◌then◌else◌}
use bgpview.Khash.Buckets.{Buckets, slot, total, Unique}
use bgpview.View.Field.{
  FieldState, invalid, active, is_state, is_valid, u16, u32, Counts, one_if_active, one_if_inactive,
  no_counts,
}
use bgpview.View.Types.{AddrVersion, unknown, ipv4, ipv6, PfxPeerInfo, PfxInfo, PeerInfo, Env, View}
use bgpview.View.State.{pfx_table}
use bgpview.View.Create.{peer_table}

-- A counter array with `w` values each holds two numbers, and their sum leaves room.
pub record Tracks (w : ℕ) (c : Counts) (actives inactives : ℕ) : Type 0 where
  pub count_active : c.active ≡ actives
  pub count_inactive : c.inactive ≡ inactives
  pub fits : actives + inactives < w

-- The active and the inactive peers of a prefix.
abbrev pub active_peers : PfxInfo → ℕ
active_peers info = total (λ id q. one_if_active q.state) (peer_table info)

abbrev pub inactive_peers : PfxInfo → ℕ
inactive_peers info = total (λ id q. one_if_inactive q.state) (peer_table info)

-- "if active <==> peers_cnt > 0": the state of a prefix agrees with its counters.
pub record StateAgrees (info : PfxInfo) : Type 0 where
  pub active_iff : is_state active info.state ≡ ltb 0 info.peers_cnt.active
  pub invalid_empty : info.state ≡ invalid → info.peers_cnt.inactive ≡ 0

-- The counters of a prefix are right, and `A` holds of it.
pub record InfoCounted (info : PfxInfo) (A : Type 0) : Type 0 where
  pub peers : Tracks u16 info.peers_cnt (active_peers info) (inactive_peers info)
  pub agrees : A

-- What is asked of the state of a prefix, by its version and index, and a change of the counters of
-- a table that is still to come. Inside bgpview_iter_deactivate_pfx neither is as it should be.
pub record Mode : Type 1 where
  pub agree : AddrVersion → ℕ → PfxInfo → Type 0
  pub pending : AddrVersion → Counts → Counts

abbrev pub settled : Mode
settled = record { agree = λ ver i info. StateAgrees info; pending = λ ver c. c }

-- The entry of one peer in a prefix, counted if it is active, or if it is inactive.
abbrev pub active_for : ℕ → ℕ → PfxPeerInfo → ℕ
active_for id j q = if j == id then one_if_active q.state else 0

abbrev pub inactive_for : ℕ → ℕ → PfxPeerInfo → ℕ
inactive_for id j q = if j == id then one_if_inactive q.state else 0

-- The prefixes of a table that a peer observes, by the state of the entry.
abbrev pub active_pfxs : {P : Type 0} → ℕ → Buckets P PfxInfo → ℕ
active_pfxs id t = total (λ p info. total (active_for id) (peer_table info)) t

abbrev pub inactive_pfxs : {P : Type 0} → ℕ → Buckets P PfxInfo → ℕ
inactive_pfxs id t = total (λ p info. total (inactive_for id) (peer_table info)) t

-- The counters of a peer for a version, and those of a view.
abbrev pub peer_pfx_cnt : AddrVersion → PeerInfo → Counts
peer_pfx_cnt unknown p = no_counts
peer_pfx_cnt ipv4 p = p.v4_pfx_cnt
peer_pfx_cnt ipv6 p = p.v6_pfx_cnt

abbrev pub InfosCounted : {P : Type 0} → (ℕ → PfxInfo → Type 0) → Buckets P PfxInfo → Type 0
InfosCounted {P} A t =
    (i : ℕ) (p : P) (info : PfxInfo) → slot t i ≡ some (p, info) → InfoCounted info (A i info)

abbrev pub PfxsCounted : {P : Type 0} → Buckets P PfxInfo → Counts → Type 0
PfxsCounted t c =
    Tracks u32 c (total (λ p info. one_if_active info.state) t)
      (total (λ p info. one_if_inactive info.state) t)

abbrev pub PairsCounted : {P : Type 0} → ℕ → Buckets P PfxInfo → Counts → Type 0
PairsCounted id t c = Tracks u32 c (active_pfxs id t) (inactive_pfxs id t)

abbrev pub PeersCounted : Buckets ℕ PeerInfo → Counts → Type 0
PeersCounted t c =
    Tracks u32 c (total (λ id p. one_if_active p.state) t)
      (total (λ id p. one_if_inactive p.state) t)

module _ {E : Env} where
  abbrev pub pfx_cnt : AddrVersion → View E → Counts
  pfx_cnt unknown v = no_counts
  pfx_cnt ipv4 v = v.v4pfxs_cnt
  pfx_cnt ipv6 v = v.v6pfxs_cnt

  -- Every counter of the view is the number of what it counts, up to what the mode allows.
  pub record CountedBy (m : Mode) (v : View E) : Type 0 where
    pub infos : (ver : AddrVersion) → InfosCounted (m.agree ver) (pfx_table ver v)
    pub pfxs : (ver : AddrVersion) → PfxsCounted (pfx_table ver v) (m.pending ver (pfx_cnt ver v))
    pub pairs :
        (ver : AddrVersion) (i id : ℕ) (p : PeerInfo)
        → slot v.peerinfo i ≡ some (id, p)
        → PairsCounted id (pfx_table ver v) (peer_pfx_cnt ver p)
    pub peers : PeersCounted v.peerinfo v.peerinfo_cnt
    pub unique : Unique v.peerinfo

  abbrev pub Counted : View E → Type 0
  Counted v = CountedBy settled v

  -- The state of the prefix at an index, and of an entry of it.
  abbrev pub pfx_state : View E → AddrVersion → ℕ → Option FieldState
  pfx_state v ver i = elim (slot (pfx_table ver v) i) [
    | none ↦ none
    | some (p, info) ↦ some info.state
  ]

  abbrev pub entry_state : View E → AddrVersion → ℕ → ℕ → Option FieldState
  entry_state v ver i j = elim (slot (pfx_table ver v) i) [
    | none ↦ none
    | some (p, info) ↦ elim (slot (peer_table info) j) [ none ↦ none | some (id, q) ↦ some q.state ]
  ]
