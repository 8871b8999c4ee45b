-- ===== src/View/Examples/Copy.antt =====
-- bgpview_dup of a small view.
use bgpview.Base.{
  ℕ, ◌≡◌, refl, Bool, true, false, Option, none, some, List, [], ◌∷◌, ◌==◌, if◌then◌else◌, inl, inr,
  arith, Bool-cases,
}
use bgpview.Khash.Scan.{skip, matching}
use bgpview.View.Field.{matches}
use bgpview.View.Types.{View, Env, State}
use bgpview.View.Lifecycle.{create_shared}
use native.Mathlib.Decide.{ℕ_discrete}
use bgpview.View.PeerIter.{
  iter_seek_peer, seek_peer, first_peer, next_peer, has_more_peer, iter_first_peer, iter_next_peer,
  iter_has_more_peer,
}
use bgpview.View.PfxIter.{
  first_pfx, first_pfx_v4, first_pfx_v6, next_pfx, next_pfx_v4, next_pfx_v6, has_more_pfx,
  iter_first_pfx, iter_next_pfx, iter_has_more_pfx, move_next_pfx, settle_pfx, iter_seek_pfx,
}
use bgpview.View.PfxPeerIter.{
  stop_at, first_pfx_peer, next_pfx_peer, seek_pfx_peer, move_first_pfx_peer, move_next_pfx_peer,
  iter_pfx_first_peer, iter_pfx_next_peer, iter_pfx_has_more_peer, iter_pfx_seek_peer,
  find_pfx_peer,
}
use bgpview.View.Access.{iter_pfx_get_pfx, iter_pfx_peer_get_as_path_store_path_id}
use bgpview.View.Activate.{iter_activate_peer, activate_pfx, iter_pfx_activate_peer, new_iter}
use bgpview.View.Create.{
  put_entry, find_or_put_peer, pfxinfo_insert, add_pfx_to, add_pfx, iter_add_peer,
  iter_pfx_add_peer_by_id, path_id_for, iter_pfx_add_peer, seek_or_add_pfx, iter_add_pfx_peer,
  iter_add_pfx_peer_by_id,
}
use bgpview.View.Copy.{
  copy, copy_peer, copy_peers, copy_path, copy_pfx_peer, copy_pfx_peers, copy_pfxs, dup,
}
use bgpview.View.Copy.Source.{FindsAgain, dup-src}
use bgpview.View.Examples.{small, sample}
use bgpview.Io.Outcome.{ok, err, fault}

-- A map of signatures is the list of the ids in it, and a path store that of the paths.
abbrev has : ℕ → List ℕ → Bool
has n [] = false
has n (x ∷ xs) = if n == x then true else has n xs

abbrev listing : Env
listing = record {
  Pfx = ℕ;
  version = small.version;
  Sig = ℕ;
  SigMap = List ℕ;
  get_id = λ m sig. if has sig m then (sig, m) else (sig, sig ∷ m);
  get_sig = λ m id. if has id m then some id else none;
  peer_asnumber = small.peer_asnumber;
  AsPath = ℕ;
  PathStore = List ℕ;
  get_path_id = λ m path asn. (some path, path ∷ m);
  v4_hash = small.v4_hash;
  v6_hash = small.v6_hash;
  peers_hash = small.peers_hash;
  peerinfo_hash = small.peerinfo_hash;
}

found_again : FindsAgain listing
found_again m id sig e = elim (Bool-cases (has id m)) [
  | inl y ↦ ground (arith, y, e)
  | inr n ↦ absurd (missing n e)
]
  where
    missing :
        has id m ≡ false → ◌≡◌ {A = Option ℕ} (if has id m then some id else none) (some sig) → ⊥
    missing n d = ground (arith, n, d)

-- The small view, with two signatures and a path.
abbrev listed : View listing
unfolding create_shared
listed = record (create_shared {E = listing} 30 (2 ∷ 1 ∷ []) (7 ∷ []) none none 0 0 0 0) {
  v4pfxs = sample.v4pfxs;
  v4pfxs_cnt = sample.v4pfxs_cnt;
  peerinfo = sample.peerinfo;
  peerinfo_cnt = sample.peerinfo_cnt;
}

abbrev before : State listing
before = record { view = listed; iter = new_iter listed; calls = [] }

abbrev path_of : List ℕ → ℕ → ℕ → ℕ
path_of m id asn = id

abbrev after : View listing × State listing
after = elim (dup path_of 40 before) [
  | ok r ↦ r
  | err ↦ (listed, before)
  | fault ↦ (listed, before)
]

dup-src_example :
    (after.1.view ≡ listed) × (after.0.peersigns ≡ 2 ∷ 1 ∷ []) × (after.0.pathstore ≡ 7 ∷ [])
unfolding skip matching matches first_peer next_peer has_more_peer iter_first_peer iter_next_peer
    iter_has_more_peer first_pfx first_pfx_v4 first_pfx_v6 next_pfx next_pfx_v4 next_pfx_v6
    has_more_pfx iter_first_pfx iter_next_pfx iter_has_more_pfx move_next_pfx settle_pfx
    iter_seek_pfx stop_at first_pfx_peer next_pfx_peer seek_pfx_peer move_first_pfx_peer
    move_next_pfx_peer iter_pfx_first_peer iter_pfx_next_peer iter_pfx_has_more_peer
    iter_pfx_seek_peer find_pfx_peer iter_pfx_get_pfx iter_pfx_peer_get_as_path_store_path_id
    iter_activate_peer activate_pfx iter_pfx_activate_peer put_entry find_or_put_peer pfxinfo_insert
    add_pfx_to add_pfx iter_add_peer iter_pfx_add_peer_by_id path_id_for iter_pfx_add_peer
    seek_or_add_pfx iter_add_pfx_peer iter_add_pfx_peer_by_id copy copy_peer copy_peers
    copy_pfx_peer dup copy_path copy_pfx_peers copy_pfxs create_shared ℕ_discrete seek_peer
    iter_seek_peer
dup-src_example = dup-src listing path_of 40 before after.1 after.0 found_again refl
