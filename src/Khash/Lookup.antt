-- ===== src/Khash/Lookup.antt =====
-- What a table holds for a key: kh_get and, where the key is there, kh_val.
use native.Mathlib.Decide.{ℕ_discrete}
use bgpview.Base.{
  ℕ, ◌≡◌, ◌≢◌, refl, ap, sym, subst, ◌∙◌, inl, inr, Option, none, some, [], ◌∷◌, length,
}
use bgpview.Khash.Buckets.{Buckets, slot, put_val, Absent, slot-put_val_self, slot-put_val_ne}
use bgpview.Khash.Interface.{Khash}

module _ {K V : Type 0} (h : Khash K V) where
  abbrev pub value_of : Option (K × V) → Option V
  value_of none = none
  value_of (some (k, v)) = some v

  abbrev pub value_at : Buckets K V → K → Option V
  value_at t k = value_of (slot t (h.get t k))

  past_end : (t : Buckets K V) → slot t (length t) ≡ none
  past_end [] = refl
  past_end (b ∷ t) = past_end t

  pub value_at-Absent : (t : Buckets K V) (k : K) → h.Placed t → Absent k t → value_at t k ≡ none
  value_at-Absent t k p n = elim (h.get_cases t k p) [
    | inl (v, e) ↦ absurd (n (h.get t k) k v e refl)
    | inr (e, _) ↦ ap value_of (ap (slot t) e ∙ past_end t)
  ]

  -- A key has one place.
  pub get-slot :
      (t : Buckets K V) (i : ℕ) (k : K) (v : V)
      → h.Placed t
      → slot t i ≡ some (k, v)
      → h.get t k ≡ i
  get-slot t i k v p e = elim (h.get_cases t k p) [
    | inl (u, e') ↦ h.placed_unique t p (h.get t k) i k u v e' e
    | inr (_, n) ↦ absurd (n i k v e refl)
  ]

  pub value_at-slot :
      (t : Buckets K V) (i : ℕ) (k : K) (v : V)
      → h.Placed t
      → slot t i ≡ some (k, v)
      → value_at t k ≡ some v
  value_at-slot t i k v p e = ap value_of (ap (slot t) (get-slot t i k v p e) ∙ e)

  -- The place of a key that is there.
  pub value_at-some :
      (t : Buckets K V) (k : K) (v : V)
      → h.Placed t
      → value_at t k ≡ some v
      → slot t (h.get t k) ≡ some (k, v)
  value_at-some t k v p e = elim (h.get_cases t k p) [
    | inl (u, e') ↦ e' ∙ ap (λ x. some (k, x)) (the_same u (ap value_of e'))
    | inr (e', _) ↦ absurd (none_some (sym (ap value_of (ap (slot t) e' ∙ past_end t)) ∙ e))
  ]
    where
      the_same : (u : V) → value_at t k ≡ some u → u ≡ v
      the_same u d = cc

      none_some : ◌≡◌ {A = Option V} none (some v) → ⊥
      none_some d = cc

  pub value_at-none :
      (t : Buckets K V) (k : K)
      → h.Placed t
      → value_at t k ≡ none
      → (h.get t k ≡ length t) × Absent k t
  value_at-none t k p e = elim (h.get_cases t k p) [
    | inl (u, e') ↦ absurd (some_none (sym (ap value_of e') ∙ e))
    | inr r ↦ r
  ]
    where
      some_none : {u : V} → ◌≡◌ {A = Option V} (some u) none → ⊥
      some_none d = cc

  -- If two tables hold the same values for a key, in any places, a lookup finds the same.
  pub value_at-agree :
      (t t' : Buckets K V) (k : K)
      → h.Placed t
      → h.Placed t'
      → ((i : ℕ) (v : V) → slot t i ≡ some (k, v) → (i' : ℕ) × (slot t' i' ≡ some (k, v)))
      → ((i : ℕ) (v : V) → slot t' i ≡ some (k, v) → (i' : ℕ) × (slot t i' ≡ some (k, v)))
      → value_at t' k ≡ value_at t k
  value_at-agree t t' k p p' there back = elim (h.get_cases t k p) [
    | inl (v, e) ↦
        let r = there (h.get t k) v e in value_at-slot t' r.0 k v p' r.1 ∙ sym (ap value_of e)
    | inr (e, n) ↦
        value_at-Absent t' k p' (λ i j v d q. absurd (gone n i j v d q))
        ∙ sym (value_at-Absent t k p n)
  ]
    where
      gone : Absent k t → (i : ℕ) (j : K) (v : V) → slot t' i ≡ some (j, v) → j ≡ k → ⊥
      gone n i j v d q = let r = back i v (d ∙ ap (λ x. some (x, v)) q) in n r.0 k v r.1 refl

  pub value_at-put_val :
      (t : Buckets K V) (i : ℕ) (k : K) (u v : V)
      → h.Placed t
      → slot t i ≡ some (k, u)
      → value_at (put_val t i v) k ≡ some v
  value_at-put_val t i k u v p e =
      value_at-slot (put_val t i v) i k v (h.val_placed t i v p) (slot-put_val_self t i k u v e)

  pub value_at-put_val_ne :
      (t : Buckets K V) (i : ℕ) (k : K) (u v : V) (j : K)
      → h.Placed t
      → slot t i ≡ some (k, u)
      → j ≢ k
      → value_at (put_val t i v) j ≡ value_at t j
  value_at-put_val_ne t i k u v j p e ne =
      value_at-agree t (put_val t i v) j p (h.val_placed t i v p)
        (λ m w d. (m, slot-put_val_ne t i m v (apart m w d) ∙ d))
        (λ m w d. (m, sym (slot-put_val_ne t i m v (apart' m w d)) ∙ d))
    where
      apart : (m : ℕ) (w : V) → slot t m ≡ some (j, w) → i ≢ m
      apart m w d q = ne (same_key (sym d ∙ ap (slot t) (sym q) ∙ e))
        where
          same_key : ◌≡◌ {A = Option (K × V)} (some (j, w)) (some (k, u)) → j ≡ k
          same_key r = cc

      apart' : (m : ℕ) (w : V) → slot (put_val t i v) m ≡ some (j, w) → i ≢ m
      apart' m w d q =
          ne (same_key (sym d ∙ ap (slot (put_val t i v)) (sym q) ∙ slot-put_val_self t i k u v e))
        where
          same_key : ◌≡◌ {A = Option (K × V)} (some (j, w)) (some (k, v)) → j ≡ k
          same_key r = cc

  pub value_at-put_ne :
      (t : Buckets K V) (k j : K) → h.Placed t → j ≢ k → value_at (h.put t k).table j ≡ value_at t j
  value_at-put_ne t k j p ne =
      value_at-agree t (h.put t k).table j p (h.put_placed t k p)
        (λ i v d. h.put_keeps t k i j v p d) (λ i v d. h.put_no_more t k i j v p ne d)

-- A property of every value, along stores and kh_put.
abbrev pub EachValue : {K V : Type 0} → (V → Type 0) → Buckets K V → Type 0
EachValue {K = K} {V = V} P t = (i : ℕ) (k : K) (v : V) → slot t i ≡ some (k, v) → P v

module _ {K V : Type 0} (P : V → Type 0) where
  pub EachValue-put_val :
      (t : Buckets K V) (i : ℕ) (k : K) (u v : V)
      → slot t i ≡ some (k, u)
      → P v
      → ((j : ℕ) (l : K) (w : V) → i ≢ j → slot t j ≡ some (l, w) → P w)
      → EachValue P (put_val t i v)
  EachValue-put_val t i k u v e here others j l w d = elim (ℕ_discrete i j) [
    | yes q ↦
        subst P (the_same (sym (slot-put_val_self t i k u v e) ∙ ap (slot (put_val t i v)) q ∙ d))
          here
    | no ne ↦ others j l w ne (sym (slot-put_val_ne t i j v ne) ∙ d)
  ]
    where
      the_same : ◌≡◌ {A = Option (K × V)} (some (k, v)) (some (l, w)) → v ≡ w
      the_same r = cc

  -- After kh_put of a new key and a store of its value.
  pub EachValue-put :
      (h : Khash K V) (t : Buckets K V) (k : K) (v : V)
      → h.Placed t
      → Absent k t
      → P v
      → EachValue P t
      → EachValue P (put_val (h.put t k).table (h.put t k).at v)
  EachValue-put h t k v p missing here each =
      let r = h.put t k in
      let put = h.put_absent t k p missing in
      EachValue-put_val r.table r.at k put.value v put.found here (λ j l w ne d.
        let old =
          h.put_no_more t k j l w p
            (λ q. ne (
              h.placed_unique r.table (h.put_placed t k p) r.at j k put.value w put.found
                (d ∙ ap (λ x. some (x, w)) q)))
            d in
        each old.0 l w old.1)
