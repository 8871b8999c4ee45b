-- ===== src/Khash/Linear.antt =====
-- A table that keeps its keys in the order of their arrival and looks for them from the start. It is
-- not how khash.h places keys; it shows that the laws of `Interface` can be met, and runs.
use mathlib.Core.List.{perm_append_singleton}
use mathlib.Core.List.Perm
use bgpview.Base.{
  ℕ, zero, suc, ◌<◌, ◌≡◌, ◌≢◌, refl, sym, subst, ap, ◌∙◌, ◌⊎◌, inl, inr, true, false, Option, none,
  some, [], ◌∷◌, ◌++◌, arith, length, ◌==◌, if◌then◌else◌,
}
use bgpview.Khash.Buckets.{Buckets, slot, put_val, unset, entries, Absent, Unique, slot-lt}
use bgpview.Khash.Interface.{Put, PutPresent, PutAbsent, Khash}

module _ {K V : Type 0} where
  slot-append_lt : (t u : Buckets K V) (i : ℕ) → i < length t → slot (t ++ u) i ≡ slot t i
  slot-append_lt [] u i h = absurd (omega arith)
  slot-append_lt (b ∷ t) u zero h = refl
  slot-append_lt (b ∷ t) u (suc i) h = slot-append_lt t u i (omega arith)

  slot-append_end : (t : Buckets K V) (b : Option (K × V)) → slot (t ++ b ∷ []) (length t) ≡ b
  slot-append_end [] b = refl
  slot-append_end (c ∷ t) b = slot-append_end t b

  entries-append : (t u : Buckets K V) → entries (t ++ u) ≡ entries t ++ entries u
  entries-append [] u = refl
  entries-append (none ∷ t) u = entries-append t u
  entries-append (some e ∷ t) u = ap (◌∷◌ e) (entries-append t u)

  -- An entry of the longer table is in the old one, or it is the new one at the end.
  slot-append_cases :
      (t : Buckets K V) (e : K × V) (i : ℕ) (d : K × V)
      → slot (t ++ some e ∷ []) i ≡ some d
      → (slot t i ≡ some d) ⊎ ((i ≡ length t) × (e ≡ d))
  slot-append_cases [] e zero d h = inr (refl, cc)
  slot-append_cases [] e (suc i) d h = cc
  slot-append_cases (b ∷ t) e zero d h = inl h
  slot-append_cases (b ∷ t) e (suc i) d h = elim (slot-append_cases t e i d h) [
    | inl m ↦ inl m
    | inr (m, n) ↦ inr (ap suc m, n)
  ]

  -- A value may be overwritten and a bucket emptied: no key moves.
  slot-put_val_key :
      (t : Buckets K V) (i : ℕ) (v : V) (j : ℕ) (k : K) (u : V)
      → slot (put_val t i v) j ≡ some (k, u)
      → (x : V) × (slot t j ≡ some (k, x))
  slot-put_val_key [] i v j k u h = cc
  slot-put_val_key (none ∷ t) zero v j k u h = (u, h)
  slot-put_val_key (some (l, x) ∷ t) zero v zero k u h = (x, cc)
  slot-put_val_key (some (l, x) ∷ t) zero v (suc j) k u h = (u, h)
  slot-put_val_key (none ∷ t) (suc i) v zero k u h = (u, h)
  slot-put_val_key (some e ∷ t) (suc i) v zero k u h = (u, h)
  slot-put_val_key (none ∷ t) (suc i) v (suc j) k u h = slot-put_val_key t i v j k u h
  slot-put_val_key (some e ∷ t) (suc i) v (suc j) k u h = slot-put_val_key t i v j k u h

  slot-unset :
      (t : Buckets K V) (i j : ℕ) (e : K × V) → slot (unset t i) j ≡ some e → slot t j ≡ some e
  slot-unset [] i j e h = cc
  slot-unset (b ∷ t) zero zero e h = cc
  slot-unset (b ∷ t) zero (suc j) e h = h
  slot-unset (b ∷ t) (suc i) zero e h = h
  slot-unset (b ∷ t) (suc i) (suc j) e h = slot-unset t i j e h

  pub put_val-Unique : (t : Buckets K V) (i : ℕ) (v : V) → Unique t → Unique (put_val t i v)
  put_val-Unique t i v q a b k x y ha hb =
      let (x', ha') = slot-put_val_key t i v a k x ha in
      let (y', hb') = slot-put_val_key t i v b k y hb in q a b k x' y' ha' hb'

  pub unset-Unique : (t : Buckets K V) (i : ℕ) → Unique t → Unique (unset t i)
  unset-Unique t i q a b k x y ha hb =
      q a b k x y (slot-unset t i a (k, x) ha) (slot-unset t i b (k, y) hb)

  append-Unique :
      (t : Buckets K V) (k : K) (u : V) → Unique t → Absent k t → Unique (t ++ some (k, u) ∷ [])
  append-Unique t k u q n a b l x y ha hb = elim (slot-append_cases t (k, u) a (l, x) ha) [
    | inl m ↦ elim (slot-append_cases t (k, u) b (l, y) hb) [
      | inl m' ↦ q a b l x y m m'
      | inr (_, e) ↦ absurd (n a l x m (cc))
    ]
    | inr (m, e) ↦ elim (slot-append_cases t (k, u) b (l, y) hb) [
      | inl m' ↦ absurd (n b l y m' (cc))
      | inr (m', _) ↦ m ∙ sym m'
    ]
  ]

  Absent-cons :
      (k : K) (b : Option (K × V)) (t : Buckets K V)
      → ((j : K) (v : V) → b ≡ some (j, v) → j ≢ k)
      → Absent k t
      → Absent k (b ∷ t)
  Absent-cons k b t h n zero j v e = h j v e
  Absent-cons k b t h n (suc i) j v e = n i j v e

abbrev pub here_or : {P : Type 0} → Dec P → ℕ → ℕ
here_or (yes e) n = 0
here_or (no e) n = suc n

pub empty-Unique : {K V : Type 0} → Unique {K = K} {V = V} []
empty-Unique i j k u v h = cc

module _ {K V : Type 0} (same : Discrete K) where
  -- The index of a key, or the length of the table.
  abbrev pub find : K → Buckets K V → ℕ
  find k [] = 0
  find k (none ∷ t) = suc (find k t)
  find k (some (j, v) ∷ t) = here_or (same j k) (find k t)

  abbrev pub Found : K → Buckets K V → ℕ → Type 0
  Found k t i = ((v : V) × (slot t i ≡ some (k, v))) ⊎ ((i ≡ length t) × Absent k t)

  pub find_cases : (k : K) (t : Buckets K V) → Found k t (find k t)
  find_cases k [] = inr (refl, λ i j v h. cc)
  find_cases k (none ∷ t) = elim (find_cases k t) [
    | inl (v, h) ↦ inl (v, h)
    | inr (h, n) ↦ inr (ap suc h, Absent-cons k none t (λ j v e. cc) n)
  ]
  find_cases k (some (l, w) ∷ t) =
      elim (same l k) as (λ d. Found k (some (l, w) ∷ t) (here_or d (find k t))) [
        | yes e ↦ inl (w, cc)
        | no e ↦ elim (find_cases k t) [
          | inl (v, h) ↦ inl (v, h)
          | inr (h, n) ↦ inr (ap suc h, Absent-cons k (some (l, w)) t (λ j v m d. e (cc)) n)
        ]
      ]

  abbrev pub put_at : K → V → Buckets K V → ℕ → Put K V
  put_at k blank t i =
      if i == length t
      then record { table = t ++ some (k, blank) ∷ []; at = length t; absent = true }
      else record { table = t; at = i; absent = false }

  put_found :
      (k : K) (blank : V) (t : Buckets K V) (i : ℕ) (v : V)
      → slot t i ≡ some (k, v)
      → put_at k blank t i ≡ record { table = t; at = i; absent = false }
  put_found k blank t i v h = ground (arith, slot-lt t i h)

  put_new :
      (k : K) (blank : V) (t : Buckets K V) (i : ℕ)
      → i ≡ length t
      → put_at k blank t i
        ≡ record { table = t ++ some (k, blank) ∷ []; at = length t; absent = true }
  put_new k blank t i h = ground arith

  pub put_placed :
      (k : K) (blank : V) (t : Buckets K V) → Unique t → Unique (put_at k blank t (find k t)).table
  put_placed k blank t q = elim (find_cases k t) [
    | inl (v, h) ↦ rw (put_found k blank t (find k t) v h) q
    | inr (h, n) ↦ rw (put_new k blank t (find k t) h) (append-Unique t k blank q n)
  ]

  pub put_present :
      (k : K) (blank : V) (t : Buckets K V) (i : ℕ) (v : V)
      → Unique t
      → slot t i ≡ some (k, v)
      → PutPresent t k v (put_at k blank t (find k t))
  put_present k blank t i v q h = elim (find_cases k t) [
    | inl (u, m) ↦
        rw (put_found k blank t (find k t) u m)
          (record { old = refl; found = rw (q (find k t) i k u v m h) h; kept = Perm.refl _ })
    | inr (_, n) ↦ absurd (n i k v h refl)
  ]

  pub put_absent :
      (k : K) (blank : V) (t : Buckets K V)
      → Absent k t
      → PutAbsent t k (put_at k blank t (find k t))
  put_absent k blank t n = elim (find_cases k t) [
    | inl (v, h) ↦ absurd (n (find k t) k v h refl)
    | inr (h, _) ↦ rw (put_new k blank t (find k t) h) (record {
      new = refl;
      value = blank;
      found = slot-append_end t (some (k, blank));
      added =
          rw (entries-append t (some (k, blank) ∷ []))
            (perm_append_singleton (k, blank) (entries t));
    })
  ]

  pub put_keeps :
      (k : K) (blank : V) (t : Buckets K V) (i : ℕ) (j : K) (v : V)
      → slot t i ≡ some (j, v)
      → (i' : ℕ) × (slot (put_at k blank t (find k t)).table i' ≡ some (j, v))
  put_keeps k blank t i j v h = elim (find_cases k t) [
    | inl (u, m) ↦ (i, rw (put_found k blank t (find k t) u m) h)
    | inr (m, _) ↦ (
      i,
      rw (put_new k blank t (find k t) m, slot-append_lt t (some (k, blank) ∷ []) i (slot-lt t i h))
          h,
    )
  ]

  pub put_no_more :
      (k : K) (blank : V) (t : Buckets K V) (i : ℕ) (j : K) (v : V)
      → j ≢ k
      → slot (put_at k blank t (find k t)).table i ≡ some (j, v)
      → (i' : ℕ) × (slot t i' ≡ some (j, v))
  put_no_more k blank t i j v ne h = elim (find_cases k t) [
    | inl (u, m) ↦
        (i, subst (λ r. slot r.table i ≡ some (j, v)) (put_found k blank t (find k t) u m) h)
    | inr (m, _) ↦
        elim (slot-append_cases t (k, blank) i (j, v)
          (subst (λ r. slot r.table i ≡ some (j, v)) (put_new k blank t (find k t) m) h)) [
            | inl old ↦ (i, old)
            | inr (_, e) ↦ absurd (ne cc)
          ]
  ]

-- An instance of khash.h, for keys that can be compared; `blank` is what fresh memory holds.
abbrev pub linear : {K V : Type 0} → Discrete K → V → Khash K V
linear same blank = record {
  Placed = Unique;
  get = λ t k. find same k t;
  put = λ t k. put_at same k blank t (find same k t);
  del = unset;
  init_placed = empty-Unique;
  placed_unique = λ t q. q;
  get_cases = λ t k q. find_cases same k t;
  put_placed = λ t k. put_placed same k blank t;
  put_present = λ t k i v. put_present same k blank t i v;
  put_absent = λ t k q. put_absent same k blank t;
  put_keeps = λ t k i j v q. put_keeps same k blank t i j v;
  put_no_more = λ t k i j v q. put_no_more same k blank t i j v;
  val_placed = put_val-Unique;
  del_lem = λ t i. refl;
  del_placed = unset-Unique;
}
