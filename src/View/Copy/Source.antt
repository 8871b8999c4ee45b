-- ===== src/View/Copy/Source.antt =====
-- lib/bgpview.c: bgpview_dup, and the view that it copies from, with which the new one has tables in
-- common.
use bgpview.Base.{
  ℕ, zero, suc, ◌≡◌, refl, sym, ap, subst, subst₂, ◌∙◌, Bool, true, false, none, some, List, [],
  ◌∷◌, arith, length, Option, ltb, ◌==◌,
}
use bgpview.View.Field.{field_active}
use bgpview.View.Types.{unknown, Env, View, State, Ret, zero_ret, one_ret, minus_one}
use bgpview.View.PeerIter.{iter_first_peer, iter_next_peer, iter_has_more_peer}
use bgpview.View.PfxIter.{iter_first_pfx, iter_next_pfx, iter_has_more_pfx}
use bgpview.View.PfxPeerIter.{
  pfx_peerinfos, iter_pfx_first_peer, iter_pfx_next_peer, iter_pfx_has_more_peer,
}
use bgpview.View.Store.{get_peer_id}
use bgpview.View.Access.{iter_pfx_get_pfx, iter_pfx_peer_get_as_path_store_path_id}
use bgpview.Io.Outcome.{Outcome, ok, err, fault}
use bgpview.View.Create.{iter_add_peer}
use bgpview.View.Activate.{new_iter, peer_fuel, iter_activate_peer, iter_pfx_activate_peer}
use bgpview.View.PfxIter.Order.{pfx_rounds}
use bgpview.View.Lifecycle.{create_shared}
use bgpview.View.Copy.Leaves.{
  iter_activate_peer-Leaves, iter_pfx_activate_peer-Leaves, iter_add_peer_lem,
  iter_pfx_add_peer_by_id-Leaves, iter_add_pfx_peer_by_id-Leaves,
}
use bgpview.View.Copy.{
  dup, check, lookup_id, max_ids, Views, fail, abort, on_src, on_dst, peer_get_sig, copy_peer,
  copy_peers, copy_path, copy_pfx_peer, copy_pfx_peers, copy_pfxs, copy,
}
use bgpview.View.Copy.Reads.{
  Reads, iter_has_more_peer-Reads, iter_next_peer-Reads, iter_first_peer-Reads,
  iter_has_more_pfx-Reads, iter_first_pfx-Reads, iter_next_pfx-Reads, iter_pfx_get_pfx-Reads,
  pfx_peerinfos-Reads, get_peer_id-Reads, iter_pfx_has_more_peer-Reads, iter_pfx_first_peer-Reads,
  iter_pfx_next_peer-Reads, path_id-Reads,
}
use bgpview.View.Copy.Shared.{
  Shared, Keeps, Keeps-when, Keeps-bind, Gives-src, Keeps-src, Keeps-dst_when, Keeps-dst,
  Keeps-pure, Gives-read, Keeps-if, Keeps-choice,
}

module _ (E : Env) (g : E.PathStore → ℕ → ℕ → E.AsPath) (v0 : View E) (A : Type 0) where
  Keeps-none : Keeps {A = A} v0 fail × Keeps {A = A} v0 abort
  unfolding Keeps
  Keeps-none = (λ a s s' h e. cc, λ a s s' h e. cc)

-- bgpstream_peer_sig_map_get_id of a signature that the map has
abbrev pub FindsAgain : Env → Type 0
FindsAgain E =
    (m : E.SigMap) (id : ℕ) (sig : E.Sig) → E.get_sig m id ≡ some sig → E.get_id m sig ≡ (id, m)

module _ (E : Env) (g : E.PathStore → ℕ → ℕ → E.AsPath) (v0 : View E) (again : FindsAgain E) where
  peer_get_sig-Reads : Reads (peer_get_sig {E = E} g)
  unfolding Reads
  peer_get_sig-Reads a s s' e = ground arith

  -- A signature of the map of the source.
  abbrev Known : E.Sig → Type 0
  Known sig = (id : ℕ) × (E.get_sig v0.peersigns id ≡ some sig)

  peer_get_sig-Known :
      (sig : E.Sig) (t t' : State E) → t.view ≡ v0 → peer_get_sig g t ≡ some (sig, t') → Known sig
  peer_get_sig-Known sig t t' p e = from (get_peer_id t) e
    where
      found :
          (id : ℕ) (o : Option E.Sig)
          → E.get_sig t.view.peersigns id ≡ o
          → elim o as (λ _. Option (E.Sig × State E)) [ none ↦ none | some x ↦ some (x, t) ]
            ≡ some (sig, t')
          → Known sig
      found id none q d = cc
      found id (some x) q d =
          (id, ap (λ (v : View E). E.get_sig v.peersigns id) (sym p) ∙ q ∙ ap some (the_same d))
        where
          the_same : ◌≡◌ {A = Option (E.Sig × State E)} (some (x, t)) (some (sig, t')) → x ≡ sig
          the_same r = cc

      from :
          (o : Option (ℕ × State E))
          → elim o as (λ _. Option (E.Sig × State E)) [
            | none ↦ none
            | some (id, s1) ↦
                elim (E.get_sig t.view.peersigns id) as (λ _. Option (E.Sig × State E)) [
                  | none ↦ none
                  | some x ↦ some (x, t)
                ]
          ]
            ≡ some (sig, t')
          → Known sig
      from none d = cc
      from (some (id, s1)) d = found id (E.get_sig t.view.peersigns id) refl d

  copy_peer-Keeps : (ids : List (ℕ × ℕ)) → Keeps v0 (copy_peer {E = E} g ids)
  unfolding copy_peer
  copy_peer-Keeps ids =
      Keeps-when v0 (on_src (peer_get_sig g)) _ Known
        (Gives-src v0 (peer_get_sig g) Known peer_get_sig-Reads peer_get_sig-Known)
        (λ sig (id, is).
          Keeps-bind v0 (on_src get_peer_id) _ (Keeps-src v0 _ (get_peer_id-Reads E)) (λ src_id.
            Keeps-bind v0 (on_dst (iter_add_peer sig)) _ (added sig id is) (λ dst_id.
              Keeps-if v0 (dst_id == 0) _ _ (Keeps-none E g v0 (List (ℕ × ℕ))).0 (
                Keeps-if v0 (ltb src_id max_ids) _ _
                  (Keeps-bind v0 (on_dst iter_activate_peer) _
                    (Keeps-dst v0 iter_activate_peer (iter_activate_peer-Leaves E))
                    (λ _. Keeps-pure v0 ((src_id, dst_id) ∷ ids)))
                  (Keeps-none E g v0 (List (ℕ × ℕ))).1))))
    where
      added :
          (sig : E.Sig) (id : ℕ)
          → E.get_sig v0.peersigns id ≡ some sig
          → Keeps v0 (on_dst (iter_add_peer {E = E} sig))
      added sig id is = Keeps-dst_when v0 (iter_add_peer sig) (λ a t t' same e.
          iter_add_peer_lem E sig id a t t'
            (subst (λ x. E.get_id x sig ≡ (id, x)) (sym same) (again v0.peersigns id sig is)) e)

  copy_peers-Keeps : (fuel : ℕ) (ids : List (ℕ × ℕ)) → Keeps v0 (copy_peers {E = E} g fuel ids)
  unfolding copy_peers
  copy_peers-Keeps zero ids = (Keeps-none E g v0 (List (ℕ × ℕ))).1
  copy_peers-Keeps (suc fuel) ids =
      Keeps-bind v0 (on_src iter_has_more_peer) _ (Keeps-src v0 _ (iter_has_more_peer-Reads E))
        (λ more.
          Keeps-choice v0 more _ _
            (Keeps-bind v0 (copy_peer g ids) _ (copy_peer-Keeps ids) (λ ids'.
              Keeps-bind v0 (on_src iter_next_peer) _ (Keeps-src v0 _ (iter_next_peer-Reads E))
                (λ _. copy_peers-Keeps fuel ids')))
            (Keeps-pure v0 ids))

  check-Keeps : (r : Ret) → Keeps {E = E} v0 (check g r)
  check-Keeps zero_ret = Keeps-pure v0 tt
  check-Keeps one_ret = (Keeps-none E g v0 Unit).0
  check-Keeps minus_one = (Keeps-none E g v0 Unit).0

  lookup-Keeps :
      (o : Option ℕ) → Keeps {E = E} v0 (λ s. elim o [ none ↦ fault | some id ↦ ok (id, s) ])
  lookup-Keeps none = (Keeps-none E g v0 ℕ).1
  lookup-Keeps (some id) = Keeps-pure v0 id

  copy_path-Keeps :
      (same : Bool) (pfx : E.Pfx) (first : Bool) (dst_id path_id : ℕ)
      → same ≡ true
      → Keeps v0 (copy_path {E = E} g same pfx first dst_id path_id)
  unfolding copy_path Keeps
  copy_path-Keeps true pfx first dst_id path_id shared =
      Keeps-if v0 first _ _ (Keeps-dst v0 _ (iter_add_pfx_peer_by_id-Leaves E pfx dst_id path_id))
        (Keeps-dst v0 _ (iter_pfx_add_peer_by_id-Leaves E dst_id path_id))
  copy_path-Keeps false pfx first dst_id path_id shared = λ a s s' h e. cc

  -- An entry: with one path store its path has an id there.
  copy_pfx_peer-Keeps :
      (ids : List (ℕ × ℕ)) (pfx : E.Pfx) (first : Bool)
      → Keeps v0 (copy_pfx_peer {E = E} g ids pfx first)
  unfolding copy_pfx_peer
  copy_pfx_peer-Keeps ids pfx first =
      Keeps-bind v0 (on_src get_peer_id) _ (Keeps-src v0 _ (get_peer_id-Reads E)) (λ src_id.
        Keeps-bind v0 (λ s. elim (lookup_id src_id ids) [ none ↦ fault | some id ↦ ok (id, s) ]) _
          (lookup-Keeps (lookup_id src_id ids))
          (λ dst_id.
            Keeps-bind v0 (on_src iter_pfx_peer_get_as_path_store_path_id) _
              (Keeps-src v0 _ (path_id-Reads E))
              (λ path_id.
                Keeps-when v0 (λ s. ok (s.same_paths, s)) _ (λ b. b ≡ true)
                  (Gives-read v0 (λ s. s.same_paths) (λ b. b ≡ true) (λ s h. h.paths))
                  (λ same shared.
                    Keeps-bind v0 (copy_path g same pfx first dst_id path_id) _
                      (copy_path-Keeps same pfx first dst_id path_id shared)
                      (λ r. Keeps-bind v0 (check g r) _ (check-Keeps r) (λ _.
                        Keeps-bind v0 (on_dst iter_pfx_activate_peer) _
                          (Keeps-dst v0 _ (iter_pfx_activate_peer-Leaves E))
                          (λ _. Keeps-pure v0 tt)))))))

  copy_pfx_peers-Keeps :
      (fuel : ℕ) (ids : List (ℕ × ℕ)) (pfx : E.Pfx) (first : Bool)
      → Keeps v0 (copy_pfx_peers {E = E} g fuel ids pfx first)
  unfolding copy_pfx_peers
  copy_pfx_peers-Keeps zero ids pfx first = (Keeps-none E g v0 Unit).1
  copy_pfx_peers-Keeps (suc fuel) ids pfx first =
      Keeps-bind v0 (on_src iter_pfx_has_more_peer) _
        (Keeps-src v0 _ (iter_pfx_has_more_peer-Reads E))
        (λ more.
          Keeps-choice v0 more _ _
            (Keeps-bind v0 (copy_pfx_peer g ids pfx first) _ (copy_pfx_peer-Keeps ids pfx first)
              (λ _.
                Keeps-bind v0 (on_src iter_pfx_next_peer) _
                  (Keeps-src v0 _ (iter_pfx_next_peer-Reads E))
                  (λ _. copy_pfx_peers-Keeps fuel ids pfx false)))
            (Keeps-pure v0 tt))

  copy_pfxs-Keeps : (fuel : ℕ) (ids : List (ℕ × ℕ)) → Keeps v0 (copy_pfxs {E = E} g fuel ids)
  unfolding copy_pfxs
  copy_pfxs-Keeps zero ids = (Keeps-none E g v0 Unit).1
  copy_pfxs-Keeps (suc fuel) ids =
      Keeps-bind v0 (on_src iter_has_more_pfx) _ (Keeps-src v0 _ (iter_has_more_pfx-Reads E))
        (λ more.
          Keeps-choice v0 more _ _
            (Keeps-bind v0 (on_src iter_pfx_get_pfx) _ (Keeps-src v0 _ (iter_pfx_get_pfx-Reads E))
              (λ pfx.
                Keeps-bind v0 (on_src pfx_peerinfos) _ (Keeps-src v0 _ (pfx_peerinfos-Reads E))
                  (λ info.
                    Keeps-bind v0 (on_src (iter_pfx_first_peer field_active)) _
                      (Keeps-src v0 _ (iter_pfx_first_peer-Reads E field_active))
                      (λ _.
                        Keeps-bind v0 (copy_pfx_peers g (peer_fuel info) ids pfx true) _
                          (copy_pfx_peers-Keeps (peer_fuel info) ids pfx true)
                          (λ _.
                            Keeps-bind v0 (on_src iter_next_pfx) _
                              (Keeps-src v0 _ (iter_next_pfx-Reads E))
                              (λ _. copy_pfxs-Keeps fuel ids))))))
            (Keeps-pure v0 tt))

  -- What bgpview_copy does first.
  abbrev started : View E → Views E → Views E
  started v s = record s {
    src = record s.src { iter = new_iter v };
    dst = record s.dst { view = record s.dst.view { time = v.time }; iter = new_iter s.dst.view };
  }

  Keeps-start : (v : View E) → Keeps {A = Unit {0}} v0 (λ s. ok (tt, started v s))
  unfolding Keeps
  Keeps-start v b s s' h e = subst (Shared v0) (the_same e) (record {
    signs = h.signs;
    paths = h.paths;
    src = h.src;
    dst_signs = h.dst_signs;
    dst_paths = h.dst_paths;
  })
    where
      the_same :
          ◌≡◌ {A = Outcome (Unit {0} × Views E)} (ok (tt, started v s)) (ok (b, s'))
          → started v s ≡ s'
      the_same r = cc

  copy-Keeps : Keeps v0 (copy {E = E} g)
  unfolding copy
  copy-Keeps =
      Keeps-when v0 (λ s. ok (s.src.view, s)) _ (λ v. Unit {0})
        (Gives-read v0 (λ s. s.src.view) (λ v. Unit {0}) (λ s h. tt))
        (λ v _.
          Keeps-bind v0 (λ s. ok (tt, started v s)) _ (Keeps-start v)
            (λ _.
              Keeps-bind v0 (on_src (iter_first_peer field_active)) _
                (Keeps-src v0 _ (iter_first_peer-Reads E field_active))
                (λ _.
                  Keeps-bind v0 (copy_peers g (suc (length v.peerinfo)) []) _
                    (copy_peers-Keeps (suc (length v.peerinfo)) [])
                    (λ ids.
                      Keeps-bind v0 (on_src (iter_first_pfx unknown field_active)) _
                        (Keeps-src v0 _ (iter_first_pfx-Reads E field_active))
                        (λ _. copy_pfxs-Keeps (pfx_rounds v) ids)))))

module _ (E : Env) (g : E.PathStore → ℕ → ℕ → E.AsPath) where
  -- Where bgpstream_peer_sig_map_get_id finds a signature that is in the map and leaves the map
  -- alone, whatever path a path store gives for an id: if bgpview_dup returns a view, the view
  -- that it copied is as it was before, the tables that the two have in common included, and the
  -- new view has the map of signatures and the path store of the old one.
  pub dup-src :
      (now : ℕ) (s s' : State E) (v : View E)
      → FindsAgain E
      → dup g now s ≡ ok (v, s')
      → (s'.view ≡ s.view) × (v.peersigns ≡ s.view.peersigns) × (v.pathstore ≡ s.view.pathstore)
  unfolding dup create_shared Keeps
  dup-src now s s' v again e = from (copy g both) refl e
    where
      made : View E
      made =
          record (create_shared now s.view.peersigns s.view.pathstore (some s.view.peersigns)
            (some s.view.pathstore) s.view.user_destructor s.view.peer_user_destructor
            s.view.pfx_user_destructor s.view.pfx_peer_user_destructor) {
              disable_extended = s.view.disable_extended;
            }

      both : Views E
      both = record {
        src = s;
        dst = record { view = made; iter = new_iter made; calls = [] };
        same_signs = true;
        same_paths = true;
      }

      begun : Shared s.view both
      begun = record { signs = refl; paths = refl; src = refl; dst_signs = refl; dst_paths = refl }

      from :
          (o : Outcome (Unit {0} × Views E))
          → copy g both ≡ o
          → elim o as (λ _. Outcome (View E × State E)) [
            | ok (_, after) ↦ ok (after.dst.view, after.src)
            | err ↦ err
            | fault ↦ fault
          ]
            ≡ ok (v, s')
          → (s'.view ≡ s.view) × (v.peersigns ≡ s.view.peersigns) × (v.pathstore ≡ s.view.pathstore)
      from (ok (a, after)) q d =
          let h = copy-Keeps E g s.view again a both after begun q in
          subst₂
            (λ (x : View E) (t : State E).
              (t.view ≡ s.view)
              × (x.peersigns ≡ s.view.peersigns)
              × (x.pathstore ≡ s.view.pathstore))
            (the_view d) (the_state d) (h.src, h.dst_signs, h.dst_paths)
        where
          the_view :
              ◌≡◌ {A = Outcome (View E × State E)} (ok (after.dst.view, after.src)) (ok (v, s'))
              → after.dst.view ≡ v
          the_view r = cc

          the_state :
              ◌≡◌ {A = Outcome (View E × State E)} (ok (after.dst.view, after.src)) (ok (v, s'))
              → after.src ≡ s'
          the_state r = cc
      from err q d = cc
      from fault q d = cc
