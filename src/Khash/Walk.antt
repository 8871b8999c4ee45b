-- ===== src/Khash/Walk.antt =====
-- A loop `for (k = kh_begin(h); k != kh_end(h); k++)` that may overwrite the value of an entry or
-- delete it, as in bvc_moas.c, and the same without indices.
use bgpview.Base.{
  ℕ, zero, suc, ◌+◌, ◌≡◌, refl, sym, ap, ap₂, ◌∙◌, Option, none, some, [], ◌∷◌, ◌++◌, length, arith,
  inl, inr, Option-cases, length-append,
}
use mathlib.Core.List.{append_assoc}
use bgpview.Khash.Buckets.{Buckets, slot, put_val}
use bgpview.Khash.Sweep.{slot-append, unset-append}
use bgpview.Khash.Interface.{Khash}
use bgpview.Khash.Lookup.{
  value_at, value_at-slot, value_at-Absent, value_at-some, value_at-none, EachValue,
}

-- What becomes of an entry.
pub data Change (V : Type 0) : Type 0 where
  keep : Change V
  set : V → Change V
  delete : Change V

-- The value after it.
abbrev pub apply : {V : Type 0} → V → Change V → Option V
apply v keep = some v
apply v (set u) = some u
apply v delete = none

module _ {K V S : Type 0} (h : Khash K V) (update : K → V → S → Change V × S) where
  abbrev pub do_change : ℕ → Buckets K V → Change V → Buckets K V
  do_change i t keep = t
  do_change i t (set v) = put_val t i v
  do_change i t delete = h.del t i

  abbrev pub at_bucket : ℕ → Buckets K V → S → Option (K × V) → Buckets K V × S
  at_bucket i t s none = (t, s)
  at_bucket i t s (some (k, v)) = let r = update k v s in (do_change i t r.0, r.1)

  -- The loop from an index on, for so many more buckets.
  unfoldable pub walk : ℕ → ℕ → Buckets K V → S → Buckets K V × S
  walk zero i t s = (t, s)
  walk (suc n) i t s = let r = at_bucket i t s (slot t i) in walk n (i + 1) r.0 r.1

  unfoldable pub for_each : Buckets K V → S → Buckets K V × S
  unfolding walk
  for_each t s = walk (length t) 0 t s

  -- The table and the state after it.
  abbrev pub bucket_after : K → Option V → Option (K × V)
  bucket_after k none = none
  bucket_after k (some v) = some (k, v)

  abbrev pub changed : Buckets K V → S → Buckets K V × S
  changed [] s = ([], s)
  changed (none ∷ t) s = let r = changed t s in (none ∷ r.0, r.1)
  changed (some (k, v) ∷ t) s =
      let r = update k v s in
      let rest = changed t r.1 in (bucket_after k (apply v r.0) ∷ rest.0, rest.1)

  put_val-append :
      (xs : Buckets K V) (k : K) (u v : V) (ys : Buckets K V)
      → put_val (xs ++ (some (k, u) ∷ ys)) (length xs) v ≡ xs ++ (some (k, v) ∷ ys)
  put_val-append [] k u v ys = refl
  put_val-append (none ∷ xs) k u v ys = ap (◌∷◌ none) (put_val-append xs k u v ys)
  put_val-append (some e ∷ xs) k u v ys = ap (◌∷◌ (some e)) (put_val-append xs k u v ys)

  do_change-append :
      (xs : Buckets K V) (k : K) (v : V) (ys : Buckets K V) (c : Change V)
      → do_change (length xs) (xs ++ (some (k, v) ∷ ys)) c ≡ xs ++ (bucket_after k (apply v c) ∷ ys)
  do_change-append xs k v ys keep = refl
  do_change-append xs k v ys (set u) = put_val-append xs k v u ys
  do_change-append xs k v ys delete =
      h.del_lem (xs ++ (some (k, v) ∷ ys)) (length xs) ∙ unset-append xs (some (k, v) ∷ ys)

  abbrev Walked : Buckets K V → Buckets K V → ℕ → S → Type 0
  Walked xs ys i s = walk (length ys) i (xs ++ ys) s ≡ (xs ++ (changed ys s).0, (changed ys s).1)

  -- One bucket is done and joins those before it.
  joined :
      (xs ys : Buckets K V) (b : Option (K × V)) (i : ℕ) (s : S)
      → Walked (xs ++ (b ∷ [])) ys i s
      → walk (length ys) i (xs ++ (b ∷ ys)) s ≡ (xs ++ (b ∷ (changed ys s).0), (changed ys s).1)
  joined xs ys b i s e =
      rw (append_assoc xs (b ∷ []) ys, append_assoc xs (b ∷ []) (changed ys s).0) at e

  walk_step :
      (n i : ℕ) (t : Buckets K V) (s : S) (b : Option (K × V)) (r : Buckets K V × S)
      → slot t i ≡ b
      → at_bucket i t s b ≡ r
      → walk (suc n) i t s ≡ walk n (i + 1) r.0 r.1
  unfolding walk
  walk_step n i t s b r e d = ap (λ x. walk n (i + 1) x.0 x.1) (ap (at_bucket i t s) e ∙ d)

  walk-append : (xs ys : Buckets K V) (i : ℕ) (s : S) → length xs ≡ i → Walked xs ys i s
  unfolding walk
  walk-append xs [] i s e = refl
  walk-append xs (none ∷ ys) i s e =
      let at : slot (xs ++ (none ∷ ys)) i ≡ none = rw (← e) (slot-append xs (none ∷ ys)) in
      walk_step (length ys) i (xs ++ (none ∷ ys)) s none (xs ++ (none ∷ ys), s) at refl
      ∙ joined xs ys none (i + 1) s (
          walk-append (xs ++ (none ∷ [])) ys (i + 1) s
            (omega (arith, e, length-append xs (none ∷ []))))
  walk-append xs (some (k, v) ∷ ys) i s e =
      let r = update k v s in
      let b = bucket_after k (apply v r.0) in
      let at : slot (xs ++ (some (k, v) ∷ ys)) i ≡ some (k, v) =
        rw (← e) (slot-append xs (some (k, v) ∷ ys)) in
      let here : do_change i (xs ++ (some (k, v) ∷ ys)) r.0 ≡ xs ++ (b ∷ ys) =
        rw (← e) (do_change-append xs k v ys r.0) in
      walk_step (length ys) i (xs ++ (some (k, v) ∷ ys)) s (some (k, v)) (xs ++ (b ∷ ys), r.1) at
        (ap (λ t. (t, r.1)) here)
      ∙ joined xs ys b (i + 1) r.1 (
          walk-append (xs ++ (b ∷ [])) ys (i + 1) r.1 (omega (arith, e, length-append xs (b ∷ []))))

  pub for_each-changed : (t : Buckets K V) (s : S) → for_each t s ≡ changed t s
  unfolding for_each
  for_each-changed t s = walk-append [] t 0 s refl

  -- The loop leaves a table that khash.h built.
  do_change-Placed :
      (i : ℕ) (t : Buckets K V) (c : Change V) → h.Placed t → h.Placed (do_change i t c)
  do_change-Placed i t keep p = p
  do_change-Placed i t (set v) p = h.val_placed t i v p
  do_change-Placed i t delete p = h.del_placed t i p

  at_bucket-Placed :
      (i : ℕ) (t : Buckets K V) (s : S) (b : Option (K × V))
      → h.Placed t
      → h.Placed (at_bucket i t s b).0
  at_bucket-Placed i t s none p = p
  at_bucket-Placed i t s (some (k, v)) p = do_change-Placed i t (update k v s).0 p

  walk-Placed : (n i : ℕ) (t : Buckets K V) (s : S) → h.Placed t → h.Placed (walk n i t s).0
  unfolding walk
  walk-Placed zero i t s p = p
  walk-Placed (suc n) i t s p =
      let r = at_bucket i t s (slot t i) in
      walk-Placed n (i + 1) r.0 r.1 (at_bucket-Placed i t s (slot t i) p)

  pub for_each-Placed : (t : Buckets K V) (s : S) → h.Placed t → h.Placed (for_each t s).0
  unfolding for_each
  for_each-Placed t s p = walk-Placed (length t) 0 t s p

-- Where the change of an entry does not depend on the state, a lookup after the loop finds what the
-- change makes of the value.
module _ {K V S : Type 0} (h : Khash K V) (update : K → V → S → Change V × S)
    (what : K → V → Option V)
    (same : (k : K) (v : V) (s : S) → apply v (update k v s).0 ≡ what k v) where
  abbrev bucket_of : Option (K × V) → Option (K × V)
  bucket_of none = none
  bucket_of (some (k, v)) = bucket_after h update k (what k v)

  slot-changed :
      (t : Buckets K V) (s : S) (i : ℕ) → slot (changed h update t s).0 i ≡ bucket_of (slot t i)
  slot-changed [] s i = refl
  slot-changed (none ∷ t) s zero = refl
  slot-changed (none ∷ t) s (suc i) = slot-changed t s i
  slot-changed (some (k, v) ∷ t) s zero = ap (bucket_after h update k) (same k v s)
  slot-changed (some (k, v) ∷ t) s (suc i) = slot-changed t (update k v s).1 i

  slot-for_each :
      (t : Buckets K V) (s : S) (i : ℕ) → slot (for_each h update t s).0 i ≡ bucket_of (slot t i)
  slot-for_each t s i = rw (for_each-changed h update t s) (slot-changed t s i)

  -- An entry after the loop was there before it, with its key.
  bucket_of-key :
      (b : Option (K × V)) (k : K) (v : V)
      → bucket_of b ≡ some (k, v)
      → (u : V) × (b ≡ some (k, u)) × (what k u ≡ some v)
  bucket_of-key none k v e = cc
  bucket_of-key (some (j, u)) k v e = elim (Option-cases (what j u)) [
    | inl d ↦ absurd (no_value (sym (ap (bucket_after h update j) d) ∙ e))
    | inr (w, d) ↦
        let both = the_same w (sym (ap (bucket_after h update j) d) ∙ e) in
        (u, ap (λ x. some (x, u)) both.0, ap (λ x. what x u) (sym both.0) ∙ d ∙ ap some both.1)
  ]
    where
      no_value : ◌≡◌ {A = Option (K × V)} none (some (k, v)) → ⊥
      no_value d = cc

      the_same : (w : V) → ◌≡◌ {A = Option (K × V)} (some (j, w)) (some (k, v)) → (j ≡ k) × (w ≡ v)
      the_same w d = (cc, cc)

  pub value_at-for_each :
      (t : Buckets K V) (s : S) (k : K)
      → h.Placed t
      → value_at h (for_each h update t s).0 k
        ≡ elim (value_at h t k) [ none ↦ none | some v ↦ what k v ]
  value_at-for_each t s k p =
      let t' = (for_each h update t s).0 in
      let p' = for_each-Placed h update t s p in
      elim (Option-cases (value_at h t k)) [
        | inl e ↦
            let missing = (value_at-none h t k p e).1 in
            rw e (
              value_at-Absent h t' k p' (λ i j v d q.
                let r = bucket_of-key (slot t i) j v (sym (slot-for_each t s i) ∙ d) in
                missing i j r.0 r.1 q))
        | inr (v, e) ↦
            let here = value_at-some h t k v p e in
            let there : slot t' (h.get t k) ≡ bucket_after h update k (what k v) =
              slot-for_each t s (h.get t k) ∙ ap bucket_of here in
            elim (Option-cases (what k v)) [
              | inr (w, d) ↦
                  rw (e, d)
                    (value_at-slot h t' (h.get t k) k w p' (there ∙ ap (bucket_after h update k) d))
              | inl d ↦
                  rw (e, d) (value_at-Absent h t' k p' (λ i j u x q. gone v here i j u x q d p))
            ]
      ]
    where
      gone :
          (v : V)
          → slot t (h.get t k) ≡ some (k, v)
          → (i : ℕ) (j : K) (u : V) → slot (for_each h update t s).0 i ≡ some (j, u)
          → j ≡ k
          → what k v ≡ none
          → h.Placed t
          → ⊥
      gone v here i j u x q d p =
          let r = bucket_of-key (slot t i) j u (sym (slot-for_each t s i) ∙ x) in
          let at_k : slot t i ≡ some (k, r.0) = r.1 ∙ ap (λ y. some (y, r.0)) q in
          let same_place = h.placed_unique t p (h.get t k) i k v r.0 here at_k in
          ground (arith, same_place, at_k, here, r.2, q, d)

  -- The table after the loop does not depend on the state either.
  changed_indep :
      (t : Buckets K V) (s s' : S) → (changed h update t s).0 ≡ (changed h update t s').0
  changed_indep [] s s' = refl
  changed_indep (none ∷ t) s s' = ap (◌∷◌ none) (changed_indep t s s')
  changed_indep (some (k, v) ∷ t) s s' =
      ap₂ (λ b r. bucket_after h update k b ∷ r) (same k v s ∙ sym (same k v s'))
        (changed_indep t (update k v s).1 (update k v s').1)

  pub for_each_indep :
      (t : Buckets K V) (s s' : S) → (for_each h update t s).0 ≡ (for_each h update t s').0
  for_each_indep t s s' =
      rw (for_each-changed h update t s, for_each-changed h update t s') (changed_indep t s s')

  -- A property of all values that every change keeps.
  pub EachValue-for_each :
      (P : V → Type 0) (t : Buckets K V) (s : S)
      → ((k : K) (u v : V) → P u → what k u ≡ some v → P v)
      → EachValue P t
      → EachValue P (for_each h update t s).0
  EachValue-for_each P t s keeps each i k v e =
      let r = bucket_of-key (slot t i) k v (sym (slot-for_each t s i) ∙ e) in
      keeps k r.0 v (each i k r.0 r.1) r.2
