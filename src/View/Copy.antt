-- ===== src/View/Copy.antt =====
-- lib/bgpview.c: bgpview_copy and bgpview_dup.
pub mod Leaves
pub mod Reads
pub mod Shared
pub mod Source
use bgpview.Base.{
  ℕ, zero, suc, Bool, true, false, Option, none, some, List, [], ◌∷◌, length, ltb, ◌==◌,
  if◌then◌else◌,
}
use bgpview.View.Field.{field_active}
use bgpview.View.Types.{unknown, Env, View, State, Ret, zero_ret}
use bgpview.View.State.{Action}
use bgpview.View.PeerIter.{iter_first_peer, iter_next_peer, iter_has_more_peer}
use bgpview.View.PfxIter.{iter_first_pfx, iter_next_pfx, iter_has_more_pfx}
use bgpview.View.PfxIter.Order.{pfx_rounds}
use bgpview.View.PfxPeerIter.{
  pfx_peerinfos, iter_pfx_first_peer, iter_pfx_next_peer, iter_pfx_has_more_peer,
}
use bgpview.View.Store.{get_peer_id}
use bgpview.View.Access.{iter_pfx_get_pfx, iter_pfx_peer_get_as_path_store_path_id}
use bgpview.View.Activate.{new_iter, peer_fuel, iter_activate_peer, iter_pfx_activate_peer}
use bgpview.View.Create.{
  iter_add_peer, iter_add_pfx_peer, iter_add_pfx_peer_by_id, iter_pfx_add_peer,
  iter_pfx_add_peer_by_id,
}
use bgpview.View.Lifecycle.{create_shared}
use bgpview.Io.Outcome.{Outcome, ok, err, fault}

-- Two different views, the source and the destination, each with an iterator, and whether they have
-- one map of signatures and one path store (the same pointers).
pub record Views (E : Env) : Type 0 where
  pub src : State E
  pub dst : State E
  pub same_signs : Bool
  pub same_paths : Bool

-- What is written to a table of the destination is in the source, if they have it in common.
abbrev pub aliased : {E : Env} → (same_signs same_paths : Bool) → (dst src : View E) → View E
aliased same_signs same_paths dst src = record src {
  peersigns = if same_signs then dst.peersigns else src.peersigns;
  pathstore = if same_paths then dst.pathstore else src.pathstore;
}

-- The destination is another one.
abbrev pub with_dst : {E : Env} → Views E → State E → Views E
with_dst s t = record s {
  dst = t;
  src = record s.src { view = aliased s.same_signs s.same_paths t.view s.src.view };
}

-- What works on both views, and may also report an error.
abbrev pub Copying : Env → Type 0 → Type 0
Copying E A = Views E → Outcome (A × Views E)

module _ {E : Env} {A : Type 0} where
  abbrev pub pure : A → Copying E A
  pure a s = ok (a, s)

  abbrev pub fail : Copying E A
  fail s = err

  abbrev pub abort : Copying E A
  abort s = fault

  -- The source is only read from.
  abbrev pub on_src : Action E A → Copying E A
  on_src m s = elim (m s.src) [ none ↦ fault | some (a, s') ↦ ok (a, record s { src = s' }) ]

  abbrev pub on_dst : Action E A → Copying E A
  on_dst m s = elim (m s.dst) [ none ↦ fault | some (a, t) ↦ ok (a, with_dst s t) ]

module _ {E : Env} {A B : Type 0} where
  infixl 5 ◌>>=◌
  abbrev pub ◌>>=◌ : Copying E A → (A → Copying E B) → Copying E B
  ◌>>=◌ m f s = elim (m s) [ ok (a, s') ↦ f a s' | err ↦ err | fault ↦ fault ]

module _ {E : Env} {B : Type 0} where
  infixl 5 ◌>>◌
  abbrev pub ◌>>◌ : Copying E (Unit {0}) → Copying E B → Copying E B
  m >> k = m >>= λ _. k

-- The array dstids: a fault at an id that was not stored.
abbrev pub lookup_id : ℕ → List (ℕ × ℕ) → Option ℕ
lookup_id id [] = none
lookup_id id ((k, v) ∷ ids) = let rest = lookup_id id ids in if k == id then some v else rest

-- Its size, UINT16_MAX.
abbrev pub max_ids : ℕ
max_ids = 65535

-- The path of an id in a store, for an AS number.
module _ {E : Env} (get_path : E.PathStore → ℕ → ℕ → E.AsPath) where
  -- The signature of the peer that the iterator stands on.
  abbrev pub peer_get_sig : Action E E.Sig
  peer_get_sig s = elim (get_peer_id s) [
    | none ↦ none
    | some (id, s1) ↦ elim (E.get_sig s.view.peersigns id) [
      | none ↦ none
      | some sig ↦ some (sig, s)
    ]
  ]

  unfoldable pub copy_peer : List (ℕ × ℕ) → Copying E (List (ℕ × ℕ))
  copy_peer dstids = do
    sig ← on_src peer_get_sig
    src_id ← on_src get_peer_id
    dst_id ← on_dst (iter_add_peer sig)
    if dst_id == 0
        then fail
        else if ltb src_id max_ids
        then (do _ ← on_dst iter_activate_peer; pure ((src_id, dst_id) ∷ dstids))
        else abort

  unfoldable pub copy_peers : ℕ → List (ℕ × ℕ) → Copying E (List (ℕ × ℕ))
  copy_peers zero dstids = abort
  copy_peers (suc fuel) dstids = do
    more ← on_src iter_has_more_peer
    elim more [
      | false ↦ pure dstids
      | true ↦ (do ids ← copy_peer dstids; _ ← on_src iter_next_peer; copy_peers fuel ids)
    ]

  abbrev check : Ret → Copying E (Unit {0})
  check zero_ret = pure tt
  check _ = fail

  -- The entry is added with the id of its path, where there is one path store, and else with the path.
  unfoldable pub copy_path : Bool → E.Pfx → Bool → (dst_id path_id : ℕ) → Copying E Ret
  copy_path true pfx first dst_id path_id =
      if first
      then on_dst (iter_add_pfx_peer_by_id pfx dst_id path_id)
      else on_dst (iter_pfx_add_peer_by_id dst_id path_id)
  copy_path false pfx first dst_id path_id = do
    sig ← on_src peer_get_sig
    path ← λ s. ok (get_path s.src.view.pathstore path_id (E.peer_asnumber sig), s)
    if first
        then on_dst (iter_add_pfx_peer pfx dst_id path)
        else on_dst (iter_pfx_add_peer dst_id path)

  -- An entry, which is the first of its prefix or a later one.
  unfoldable pub copy_pfx_peer : List (ℕ × ℕ) → E.Pfx → Bool → Copying E (Unit {0})
  unfolding copy_path
  copy_pfx_peer dstids pfx first = do
    src_id ← on_src get_peer_id
    dst_id ← λ s. elim (lookup_id src_id dstids) [ none ↦ fault | some id ↦ ok (id, s) ]
    path_id ← on_src iter_pfx_peer_get_as_path_store_path_id
    same ← λ s. ok (s.same_paths, s)
    r ← copy_path same pfx first dst_id path_id
    check r
    _ ← on_dst iter_pfx_activate_peer
    pure tt

  unfoldable pub copy_pfx_peers : ℕ → List (ℕ × ℕ) → E.Pfx → Bool → Copying E (Unit {0})
  copy_pfx_peers zero dstids pfx first = abort
  copy_pfx_peers (suc fuel) dstids pfx first = do
    more ← on_src iter_pfx_has_more_peer
    elim more [
      | false ↦ pure tt
      | true ↦ (do
        copy_pfx_peer dstids pfx first
        _ ← on_src iter_pfx_next_peer
        copy_pfx_peers fuel dstids pfx false)
    ]

  unfoldable pub copy_pfxs : ℕ → List (ℕ × ℕ) → Copying E (Unit {0})
  copy_pfxs zero dstids = abort
  copy_pfxs (suc fuel) dstids = do
    more ← on_src iter_has_more_pfx
    elim more [
      | false ↦ pure tt
      | true ↦ (do
        pfx ← on_src iter_pfx_get_pfx
        info ← on_src pfx_peerinfos
        _ ← on_src (iter_pfx_first_peer field_active)
        copy_pfx_peers (peer_fuel info) dstids pfx true
        _ ← on_src iter_next_pfx
        copy_pfxs fuel dstids)
    ]

  -- bgpview_copy; the iterators are its own
  unfoldable pub copy : Copying E (Unit {0})
  unfolding copy_peers copy_pfxs
  copy = do
    src ← λ s. ok (s.src.view, s)
    λ s. ok (
      tt,
      record s {
        src = record s.src { iter = new_iter src };
        dst = record s.dst {
          view = record s.dst.view { time = src.time };
          iter = new_iter s.dst.view;
        };
      },
    )
    _ ← on_src (iter_first_peer field_active)
    dstids ← copy_peers (suc (length src.peerinfo)) []
    _ ← on_src (iter_first_pfx unknown field_active)
    copy_pfxs (pfx_rounds src) dstids

-- bgpview_dup at the time `now`: the new view, or an error. It shares the tables of the source.
unfoldable pub dup :
    {E : Env} → (E.PathStore → ℕ → ℕ → E.AsPath) → ℕ → State E → Outcome (View E × State E)
unfolding copy create_shared
dup get_path now s =
    let v = s.view in
    let made =
      create_shared now v.peersigns v.pathstore (some v.peersigns) (some v.pathstore)
        v.user_destructor v.peer_user_destructor v.pfx_user_destructor v.pfx_peer_user_destructor in
    let dst = record made { disable_extended = v.disable_extended } in
    elim (copy get_path (record {
      src = s;
      dst = record { view = dst; iter = new_iter dst; calls = [] };
      same_signs = true;
      same_paths = true;
    })) [ ok (_, after) ↦ ok (after.dst.view, after.src) | err ↦ err | fault ↦ fault ]
