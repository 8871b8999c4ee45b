-- ===== src/View/PfxPeerIter.antt =====
-- lib/bgpview.c, "PFX-PEER ITERATORS" and "ALL-PFX-PEER ITERATORS".
pub mod Stops
use bgpview.Base.{
  ℕ, zero, suc, ◌+◌, Bool, true, false, not, ◌&&◌, ◌||◌, Option, none, some, ltb, length, drop,
  if◌then◌else◌,
}
use bgpview.Khash.Buckets.{Buckets, slot}
use bgpview.Khash.Scan.{skip}
use bgpview.View.Field.{matches}
use bgpview.View.Types.{AddrVersion, ipv4, ipv6, PfxPeerInfo, PfxInfo, Env, View, Iter}
use bgpview.View.State.{
  Action, pure, fault, from_option, get_view, get_iter, put_iter, assert, ◌>>=◌, ◌>>◌, pfx_table,
}
use bgpview.View.PeerIter.{seek_peer, has_more_peer}
use bgpview.View.PfxIter.{
  has_more_pfx, move_next_pfx, iter_first_pfx, iter_has_more_pfx, iter_seek_pfx,
}

-- Does the bucket hold a peer of the prefix in one of the states of the mask?
abbrev pub pfx_peer_matches : ℕ → Option (ℕ × PfxPeerInfo) → Bool
pfx_peer_matches mask none = false
pfx_peer_matches mask (some (id, p)) = matches mask p.state

module _ {E : Env} where
  -- __pfx_peerinfos: the prefix that the iterator stands on
  abbrev pub pfx_peerinfos : Action E PfxInfo
  pfx_peerinfos s = elim (slot (pfx_table s.iter.version_ptr s.view) s.iter.pfx_it) [
    | none ↦ none
    | some (p, info) ↦ some (info, s)
  ]

  -- The iterator after SCAN_FOR_MATCHING_PFX_PEER has stopped at an index.
  unfoldable pub stop_at : View E → Buckets ℕ PfxPeerInfo → ℕ → Iter → Iter
  stop_at v t j it = elim (slot t j) [
    | none ↦ record it { pfx_peer_it = j }
    | some (id, p) ↦
        seek_peer v id it.pfx_peer_state_mask
          (record it { pfx_peer_it = j; pfx_peer_it_valid = true })
  ]

  -- __iter_pfx_first_peer
  unfoldable pub first_pfx_peer : View E → PfxInfo → ℕ → Iter → Iter
  unfolding stop_at
  first_pfx_peer v info mask it =
      let start = record it {
        pfx_peer_state_mask = mask;
        pfx_peer_it = 0;
        pfx_peer_it_valid = false;
      } in
      elim info.peers [
        | none ↦ start
        | some t ↦ stop_at v t (skip (pfx_peer_matches mask) t 0) start
      ]

  -- __iter_pfx_next_peer; there is no table to walk over, or no bucket left, is a fault
  unfoldable pub next_pfx_peer : View E → PfxInfo → Iter → Option Iter
  unfolding stop_at
  next_pfx_peer v info it = elim info.peers [
    | none ↦ none
    | some t ↦
        if ltb it.pfx_peer_it (length t)
        then some (
            stop_at v t
              (skip (pfx_peer_matches it.pfx_peer_state_mask) (drop (it.pfx_peer_it + 1) t)
                (it.pfx_peer_it + 1))
              (record it { pfx_peer_it_valid = false }))
        else none
  ]

  -- __iter_pfx_seek_peer
  unfoldable pub seek_pfx_peer : View E → PfxInfo → ℕ → ℕ → Iter → Iter
  seek_pfx_peer v info peerid mask it =
      let missing = record it { pfx_peer_state_mask = mask; pfx_peer_it_valid = false } in
      elim info.peers [
        | none ↦ missing
        | some t ↦
            let k = E.peers_hash.get t peerid in
            if pfx_peer_matches mask (slot t k)
            then seek_peer v peerid mask (record it {
              pfx_peer_state_mask = mask;
              pfx_peer_it_valid = true;
              pfx_peer_it = k;
            })
            else missing
      ]

  -- `assert(iter->pfx_peer_it_valid == 0 || __iter_has_more_peer(iter))`
  abbrev pub assert_peer : Action E (Unit {0})
  assert_peer = do
    v ← get_view
    it ← get_iter
    assert (not it.pfx_peer_it_valid || has_more_peer v it)

  unfoldable pub move_first_pfx_peer : ℕ → Action E (Unit {0})
  move_first_pfx_peer mask = do
    info ← pfx_peerinfos
    v ← get_view
    it ← get_iter
    put_iter (first_pfx_peer v info mask it)

  unfoldable pub move_next_pfx_peer : Action E (Unit {0})
  move_next_pfx_peer = do
    info ← pfx_peerinfos
    v ← get_view
    it ← get_iter
    next ← from_option (next_pfx_peer v info it)
    put_iter next

  -- __iter_pfx_has_more_peer
  unfoldable pub iter_pfx_has_more_peer : Action E Bool
  iter_pfx_has_more_peer = do it ← get_iter; pure it.pfx_peer_it_valid

  unfoldable pub iter_pfx_first_peer : ℕ → Action E Bool
  unfolding move_first_pfx_peer iter_pfx_has_more_peer
  iter_pfx_first_peer mask = do move_first_pfx_peer mask; assert_peer; iter_pfx_has_more_peer

  unfoldable pub iter_pfx_next_peer : Action E Bool
  unfolding move_next_pfx_peer iter_pfx_has_more_peer
  iter_pfx_next_peer = do move_next_pfx_peer; assert_peer; iter_pfx_has_more_peer

  unfoldable pub iter_pfx_seek_peer : ℕ → ℕ → Action E Bool
  unfolding iter_pfx_has_more_peer
  iter_pfx_seek_peer peerid mask = do
    info ← pfx_peerinfos
    v ← get_view
    it ← get_iter
    put_iter (seek_pfx_peer v info peerid mask it)
    iter_pfx_has_more_peer

  -- The loop of bgpview_iter_first_pfx_peer: prefixes are left out until one has a peer that
  -- matches.
  unfoldable pub find_pfx_peer : ℕ → ℕ → Action E Bool
  find_pfx_peer zero peer_mask = fault
  find_pfx_peer (suc fuel) peer_mask = do
    more ← iter_has_more_pfx
    elim more [
      | false ↦ pure false
      | true ↦ (do
        found ← iter_pfx_first_peer peer_mask
        elim found [ true ↦ pure true | false ↦ (do move_next_pfx; find_pfx_peer fuel peer_mask) ])
    ]

  -- More rounds than there are prefixes.
  abbrev pub pfx_fuel : View E → ℕ
  pfx_fuel v = length v.v4pfxs + length v.v6pfxs + 1

  unfoldable pub iter_first_pfx_peer : AddrVersion → ℕ → ℕ → Action E Bool
  iter_first_pfx_peer ver pfx_mask peer_mask = do
    it ← get_iter
    put_iter (record it {
      version_filter = ver;
      version_ptr = elim ver [ ipv6 ↦ ipv6 | _ ↦ ipv4 ];
      pfx_state_mask = 0;
      pfx_peer_state_mask = 0;
    })
    _ ← iter_first_pfx ver pfx_mask
    v ← get_view
    find_pfx_peer (pfx_fuel v) peer_mask

  -- __iter_has_more_pfx_peer
  unfoldable pub iter_has_more_pfx_peer : Action E Bool
  iter_has_more_pfx_peer = do
    v ← get_view
    it ← get_iter
    pure (has_more_pfx v it && it.pfx_peer_it_valid)

  -- __iter_next_pfx_peer. Each round of its loop ends in a `break`, but for the last one, in which
  -- no prefix is left and the condition of the loop fails.
  unfoldable pub move_next_all : Action E (Unit {0})
  move_next_all = do
    more ← iter_has_more_pfx
    elim more [
      | false ↦ pure tt
      | true ↦ (do
        move_next_pfx_peer
        found ← iter_pfx_has_more_peer
        elim found [
          | true ↦ pure tt
          | false ↦ (do
            move_next_pfx
            left ← iter_has_more_pfx
            it ← get_iter
            elim left [ true ↦ move_first_pfx_peer it.pfx_peer_state_mask | false ↦ pure tt ])
        ])
    ]

  unfoldable pub iter_next_pfx_peer : Action E Bool
  iter_next_pfx_peer = do move_next_all; iter_has_more_pfx_peer

  unfoldable pub iter_seek_pfx_peer : E.Pfx → ℕ → ℕ → ℕ → Action E Bool
  iter_seek_pfx_peer p peerid pfx_mask peer_mask = do
    at_pfx ← iter_seek_pfx p pfx_mask
    at_peer ← elim at_pfx [ true ↦ iter_pfx_seek_peer peerid peer_mask | false ↦ pure false ]
    v ← get_view
    it ← get_iter
    elim at_peer [
      | true ↦ pure true
      | false ↦ (do
        put_iter (record it {
          version_ptr = ipv4;
          pfx_it = length v.v4pfxs;
          pfx_peer_it_valid = false;
          pfx_peer_it = 0;
        })
        pure false)
    ]
