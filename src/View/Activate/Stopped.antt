-- ===== src/View/Activate/Stopped.antt =====
-- Where SCAN_FOR_MATCHING_PFX_PEER leaves an iterator that looks for the active peers of a prefix.
use native.Mathlib.Decide.{ℕ_discrete}
use mathlib.Core.Bool.{false≢true}
use bgpview.Base.{
  ℕ, ◌≤◌, ◌<◌, ◌≡◌, refl, ◌⊎◌, inl, inr, Bool, true, false, none, some, arith, length, drop, ltb,
  Option-cases, Bool-cases, length-drop,
}
use bgpview.Khash.Buckets.{Buckets, slot, Absent, slot-lt}
use bgpview.Khash.Scan.{skip, skip-le}
use bgpview.Khash.Stop.{skip-before, skip_stops}
use bgpview.View.Field.{active, is_valid, field_active, matches-active}
use bgpview.View.Types.{PfxPeerInfo, PeerInfo, Env, View, Iter}
use bgpview.View.PfxPeerIter.{pfx_peer_matches, stop_at}
use bgpview.View.PeerIter.{seek_peer}

-- Every valid entry of a prefix is of a peer that is in the table of peers.
abbrev pub KnownPeers : Buckets ℕ PfxPeerInfo → Buckets ℕ PeerInfo → Type 0
KnownPeers t peers =
    (j id : ℕ) (q : PfxPeerInfo)
    → slot t j ≡ some (id, q)
    → is_valid q.state ≡ true
    → ¬ Absent id peers

abbrev pub active_at : Buckets ℕ PfxPeerInfo → ℕ → Bool
active_at t l = pfx_peer_matches field_active (slot t l)

-- The iterator stands on an active entry and on its peer, or it is at the end and not valid. No entry
-- before it is active.
pub record Stopped {E : Env} (v : View E) (t : Buckets ℕ PfxPeerInfo) (it : Iter) : Type 0 where
  pub before : (l : ℕ) → l < it.pfx_peer_it → active_at t l ≡ false
  pub place :
      ((it.pfx_peer_it_valid ≡ false) × (it.pfx_peer_it ≡ length t))
      ⊎ ((it.pfx_peer_it_valid ≡ true)
          × ((id : ℕ) × (q : PfxPeerInfo) × (p : PeerInfo) × (slot t it.pfx_peer_it ≡ some (id, q))
              × (q.state ≡ active)
              × (slot v.peerinfo it.peer_it ≡ some (id, p))))

active_at-slot :
    (t : Buckets ℕ PfxPeerInfo) (j id : ℕ) (q : PfxPeerInfo)
    → slot t j ≡ some (id, q)
    → active_at t j ≡ true
    → q.state ≡ active
active_at-slot t j id q h a = ground (arith, matches-active q.state)

module _ {E : Env} (v : View E) (t : Buckets ℕ PfxPeerInfo) (it : Iter) where
  -- The other fields of the iterator stay.
  pub stop_at-fields :
      (j : ℕ)
      → ((stop_at v t j it).version_ptr ≡ it.version_ptr)
        × ((stop_at v t j it).pfx_it ≡ it.pfx_it)
        × ((stop_at v t j it).pfx_peer_state_mask ≡ it.pfx_peer_state_mask)
        × ((stop_at v t j it).pfx_peer_it ≡ j)
  unfolding stop_at seek_peer
  stop_at-fields j = (ground arith, ground arith, ground arith, ground arith)

  -- Where the scan has found no entry it is at the end.
  at_end :
      (k : ℕ)
      → k ≤ length t
      → let j = skip (pfx_peer_matches field_active) (drop k t) k in slot t j ≡ none → j ≡ length t
  at_end k le off_end =
      let m = pfx_peer_matches field_active in
      let j = skip m (drop k t) k in
      elim (ℕ_discrete j (length t)) [
        | yes e ↦ e
        | no d ↦
            let bound = skip-le m (drop k t) k in
            let is_on : active_at t j ≡ true =
              skip_stops m t (drop k t) k refl (omega (arith, length-drop k t))
                (omega (arith, bound, length-drop k t, d)) in
            absurd (false≢true (rw off_end at is_on))
      ]

  pub stop_at-Stopped :
      (k : ℕ)
      → k ≤ length t
      → it.pfx_peer_it_valid ≡ false
      → E.peerinfo_hash.Placed v.peerinfo
      → KnownPeers t v.peerinfo
      → ((l : ℕ) → l < k → active_at t l ≡ false)
      → Stopped v t (stop_at v t (skip (pfx_peer_matches field_active) (drop k t) k) it)
  unfolding stop_at seek_peer
  stop_at-Stopped k le off placed known none_before =
      let m = pfx_peer_matches field_active in
      let j = skip m (drop k t) k in
      let bound = skip-le m (drop k t) k in
      let before : (l : ℕ) → l < j → active_at t l ≡ false = λ l lt. elim (Bool-cases (ltb l k)) [
        | inl early ↦ none_before l (ground arith)
        | inr late ↦ skip-before m t (drop k t) k l refl (ground arith) lt
      ] in
      elim (Option-cases (slot t j)) [
        | inl off_end ↦
            rw (off_end, stop_at)
              (record { before = before; place = inl (off, at_end k le off_end) })
        | inr ((id, q), on) ↦
            let is_on =
              skip_stops m t (drop k t) k refl (omega (arith, length-drop k t)) (slot-lt t j on) in
            elim (E.peerinfo_hash.get_cases v.peerinfo id placed) [
              | inl (p, found) ↦
                  rw (on, stop_at)
                    (record {
                      before = before;
                      place = inr (refl, (id, q, p, on, active_at-slot t j id q on is_on, found));
                    })
              | inr (_, gone) ↦
                  absurd (known j id q on (ground (arith, active_at-slot t j id q on is_on)) gone)
            ]
      ]
