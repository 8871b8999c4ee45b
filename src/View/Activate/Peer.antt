-- ===== src/View/Activate/Peer.antt =====
-- bgpview_iter_activate_peer keeps the counters right.
use bgpview.Base.{ℕ, ◌≡◌, refl, ap, ◌⊎◌, inl, inr, true, some, arith}
use bgpview.Khash.Buckets.{slot, put_val, slot-put_val_self, total-put_val, slot-lt}
use bgpview.View.Field.{
  FieldState, invalid, active, inactive, is_valid, u32, Counts, activate_field_cnt, one_if_active,
  one_if_inactive,
}
use bgpview.View.Types.{unknown, ipv4, ipv6, PeerInfo, Env, View, State, zero_ret, one_ret}
use bgpview.View.PeerIter.{has_more_peer}
use bgpview.View.Invariant.{Counted, PeersCounted}
use bgpview.View.Invariant.Change.{slot-put_val_cases, put_val-Unique}
use bgpview.View.Activate.{iter_activate_peer}

is_valid-cases : (x : FieldState) → is_valid x ≡ true → (x ≡ active) ⊎ (x ≡ inactive)
is_valid-cases invalid h = cc
is_valid-cases active h = inl refl
is_valid-cases inactive h = inr refl

module _ {E : Env} where
  -- A peer changes its state, and the counters of the peer table follow.
  abbrev pub peer_state_view : View E → ℕ → PeerInfo → FieldState → Counts → View E
  peer_state_view v k p state c = record v {
    peerinfo = put_val v.peerinfo k (record p { state = state });
    peerinfo_cnt = c;
  }

  pub peer_state_view-Counted :
      (v : View E) (k id : ℕ) (p : PeerInfo) (state : FieldState) (c : Counts)
      → slot v.peerinfo k ≡ some (id, p)
      → Counted v
      → PeersCounted (put_val v.peerinfo k (record p { state = state })) c
      → Counted (peer_state_view v k p state c)
  peer_state_view-Counted v k id p state c at h counted =
      let p' = record p { state = state } in
      record {
        infos = elim [ unknown ↦ h.infos unknown | ipv4 ↦ h.infos ipv4 | ipv6 ↦ h.infos ipv6 ];
        pfxs = elim [ unknown ↦ h.pfxs unknown | ipv4 ↦ h.pfxs ipv4 | ipv6 ↦ h.pfxs ipv6 ];
        pairs = elim [
          | unknown ↦ λ i j q e. elim (slot-put_val_cases v.peerinfo k id p p' i j q at e) [
            | inl _ ↦ h.pairs unknown k id p at
            | inr (_, old) ↦ h.pairs unknown i j q old
          ]
          | ipv4 ↦ λ i j q e. elim (slot-put_val_cases v.peerinfo k id p p' i j q at e) [
            | inl (_, same, x) ↦ rw (← same, ← x) (h.pairs ipv4 k id p at)
            | inr (_, old) ↦ h.pairs ipv4 i j q old
          ]
          | ipv6 ↦ λ i j q e. elim (slot-put_val_cases v.peerinfo k id p p' i j q at e) [
            | inl (_, same, x) ↦ rw (← same, ← x) (h.pairs ipv6 k id p at)
            | inr (_, old) ↦ h.pairs ipv6 i j q old
          ]
        ];
        peers = counted;
        unique = put_val-Unique v.peerinfo k id p p' at h.unique;
      }

  -- On a valid peer: an inactive one becomes active, the function returns 1, and every counter of the
  -- view stays right; for an active one it returns 0 and changes nothing.
  pub iter_activate_peer-Counted :
      (s : State E) (id : ℕ) (p : PeerInfo)
      → slot s.view.peerinfo s.iter.peer_it ≡ some (id, p)
      → is_valid p.state ≡ true
      → Counted s.view
      → ((p.state ≡ active) × (iter_activate_peer s ≡ some (zero_ret, s)))
        ⊎ ((s' : State E) × (p.state ≡ inactive)
            × (iter_activate_peer s ≡ some (one_ret, s'))
            × Counted s'.view
            × (slot s'.view.peerinfo s.iter.peer_it ≡ some (id, record p { state = active })))
  unfolding iter_activate_peer has_more_peer
  iter_activate_peer-Counted s id p at valid h =
      let v = s.view in
      let k = s.iter.peer_it in
      let in_table = slot-lt v.peerinfo k at in
      elim (is_valid-cases p.state valid) [
        | inl on ↦ inl (on, ground (arith, in_table))
        | inr off ↦
            let c = activate_field_cnt u32 v.peerinfo_cnt in
            let ea =
              total-put_val (λ (j : ℕ) (q : PeerInfo). one_if_active q.state) v.peerinfo k id p
                (record p { state = active }) at in
            let eb =
              total-put_val (λ (j : ℕ) (q : PeerInfo). one_if_inactive q.state) v.peerinfo k id p
                (record p { state = active }) at in
            let sa = ap one_if_active off in
            let sb = ap one_if_inactive off in
            inr (
              record s { view = peer_state_view v k p active c },
              off,
              ground (arith, in_table),
              peer_state_view-Counted v k id p active c at h (record {
                count_active = omega (arith, h.peers, ea, eb, sa, sb);
                count_inactive = omega (arith, h.peers, ea, eb, sa, sb);
                fits = omega (arith, h.peers, ea, eb, sa, sb);
              }),
              slot-put_val_self v.peerinfo k id p (record p { state = active }) at,
            )
      ]
