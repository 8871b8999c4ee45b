-- ===== src/Khash/Buckets.antt =====
-- What a khash table shows: an array of buckets, each empty or with a key and a value. An index is
-- a khiter_t; kh_begin is 0 and kh_end is the length.
use bgpview.Base.{
  ℕ, zero, suc, ◌+◌, ◌<◌, ◌≡◌, ◌≢◌, refl, ap, subst₂, Option, none, some, List, [], ◌∷◌, arith,
  length, drop,
}

abbrev pub Buckets : Type 0 → Type 0 → Type 0
Buckets K V = List (Option (K × V))

module _ {K V : Type 0} where
  -- The entry at an index; `none` where kh_exist is 0 and past the end.
  abbrev pub slot : Buckets K V → ℕ → Option (K × V)
  slot [] i = none
  slot (b ∷ t) zero = b
  slot (b ∷ t) (suc i) = slot t i

  -- kh_val(t, i) = v. It changes nothing where there is no entry.
  abbrev pub put_val : Buckets K V → ℕ → V → Buckets K V
  put_val [] i v = []
  put_val (none ∷ t) zero v = none ∷ t
  put_val (some (k, u) ∷ t) zero v = some (k, v) ∷ t
  put_val (b ∷ t) (suc i) v = b ∷ put_val t i v

  -- The buckets with one of them emptied.
  abbrev pub unset : Buckets K V → ℕ → Buckets K V
  unset [] i = []
  unset (b ∷ t) zero = none ∷ t
  unset (b ∷ t) (suc i) = b ∷ unset t i

  -- The entries in the order of the buckets.
  abbrev pub entries : Buckets K V → List (K × V)
  entries [] = []
  entries (none ∷ t) = entries t
  entries (some e ∷ t) = e ∷ entries t

  abbrev pub weigh : (K → V → ℕ) → List (K × V) → ℕ
  weigh w [] = 0
  weigh w ((k, v) ∷ es) = w k v + weigh w es

  -- The sum of a weight over all entries.
  abbrev pub total : (K → V → ℕ) → Buckets K V → ℕ
  total w [] = 0
  total w (none ∷ t) = total w t
  total w (some (k, v) ∷ t) = w k v + total w t

  -- No bucket holds the key.
  abbrev pub Absent : K → Buckets K V → Type 0
  Absent k t = (i : ℕ) (j : K) (v : V) → slot t i ≡ some (j, v) → j ≢ k

  -- No two buckets hold one key.
  abbrev pub Unique : Buckets K V → Type 0
  Unique t = (i j : ℕ) (k : K) (u v : V) → slot t i ≡ some (k, u) → slot t j ≡ some (k, v) → i ≡ j

  pub slot-lt : (t : Buckets K V) (i : ℕ) {e : K × V} → slot t i ≡ some e → i < length t
  slot-lt [] i h = cc
  slot-lt (b ∷ t) zero h = omega arith
  slot-lt (b ∷ t) (suc i) h = omega (arith, slot-lt t i h)

  pub length-put_val : (t : Buckets K V) (i : ℕ) (v : V) → length (put_val t i v) ≡ length t
  length-put_val [] i v = refl
  length-put_val (none ∷ t) zero v = refl
  length-put_val (some (k, u) ∷ t) zero v = refl
  length-put_val (none ∷ t) (suc i) v = ap suc (length-put_val t i v)
  length-put_val (some e ∷ t) (suc i) v = ap suc (length-put_val t i v)

  pub slot-put_val_self :
      (t : Buckets K V) (i : ℕ) (k : K) (u v : V)
      → slot t i ≡ some (k, u)
      → slot (put_val t i v) i ≡ some (k, v)
  slot-put_val_self [] i k u v h = cc
  slot-put_val_self (none ∷ t) zero k u v h = cc
  slot-put_val_self (some (j, w) ∷ t) zero k u v h = ground arith
  slot-put_val_self (none ∷ t) (suc i) k u v h = slot-put_val_self t i k u v h
  slot-put_val_self (some e ∷ t) (suc i) k u v h = slot-put_val_self t i k u v h

  pub slot-put_val_ne :
      (t : Buckets K V) (i j : ℕ) (v : V) → i ≢ j → slot (put_val t i v) j ≡ slot t j
  slot-put_val_ne [] i j v h = refl
  slot-put_val_ne (b ∷ t) zero zero v h = absurd (h refl)
  slot-put_val_ne (none ∷ t) zero (suc j) v h = refl
  slot-put_val_ne (some (k, u) ∷ t) zero (suc j) v h = refl
  slot-put_val_ne (none ∷ t) (suc i) zero v h = refl
  slot-put_val_ne (some e ∷ t) (suc i) zero v h = refl
  slot-put_val_ne (none ∷ t) (suc i) (suc j) v h = slot-put_val_ne t i j v (λ e. h (ap suc e))
  slot-put_val_ne (some e ∷ t) (suc i) (suc j) v h = slot-put_val_ne t i j v (λ e. h (ap suc e))

  -- One entry changes, and so does its share of the sum.
  pub total-put_val :
      (w : K → V → ℕ) (t : Buckets K V) (i : ℕ) (k : K) (u v : V)
      → slot t i ≡ some (k, u)
      → total w (put_val t i v) + w k u ≡ total w t + w k v
  total-put_val w [] i k u v h = cc
  total-put_val w (none ∷ t) zero k u v h = cc
  total-put_val w (some (j, x) ∷ t) zero k u v h = ground arith
  total-put_val w (none ∷ t) (suc i) k u v h = total-put_val w t i k u v h
  total-put_val w (some (j, x) ∷ t) (suc i) k u v h = omega (arith, total-put_val w t i k u v h)

  pub total-entries : (w : K → V → ℕ) (t : Buckets K V) → total w t ≡ weigh w (entries t)
  total-entries w [] = refl
  total-entries w (none ∷ t) = total-entries w t
  total-entries w (some (k, v) ∷ t) = omega (arith, total-entries w t)

  pub put_val-put_val :
      (t : Buckets K V) (i : ℕ) (u v : V) → put_val (put_val t i u) i v ≡ put_val t i v
  put_val-put_val [] i u v = refl
  put_val-put_val (none ∷ t) zero u v = refl
  put_val-put_val (some (k, x) ∷ t) zero u v = refl
  put_val-put_val (none ∷ t) (suc i) u v = ap (◌∷◌ none) (put_val-put_val t i u v)
  put_val-put_val (some e ∷ t) (suc i) u v = ap (◌∷◌ (some e)) (put_val-put_val t i u v)

  -- A property of every entry, by recursion, and as it is used.
  abbrev pub AllEntries : (K → V → Type 0) → Buckets K V → Type 0
  AllEntries P [] = Unit {0}
  AllEntries P (none ∷ t) = AllEntries P t
  AllEntries P (some (k, v) ∷ t) = P k v × AllEntries P t

  pub AllEntries-slot :
      (P : K → V → Type 0) (t : Buckets K V)
      → AllEntries P t
      → (i : ℕ) (k : K) (v : V) → slot t i ≡ some (k, v)
      → P k v
  AllEntries-slot P [] h i k v e = cc
  AllEntries-slot P (none ∷ t) h zero k v e = cc
  AllEntries-slot P (none ∷ t) h (suc i) k v e = AllEntries-slot P t h i k v e
  AllEntries-slot P (some (j, u) ∷ t) h zero k v e = subst₂ P (key e) (value e) h.0
    where
      key : ◌≡◌ {A = Option (K × V)} (some (j, u)) (some (k, v)) → j ≡ k
      key d = cc

      value : ◌≡◌ {A = Option (K × V)} (some (j, u)) (some (k, v)) → u ≡ v
      value d = cc
  AllEntries-slot P (some (j, u) ∷ t) h (suc i) k v e = AllEntries-slot P t h.1 i k v e

  pub put_val_self :
      (t : Buckets K V) (i : ℕ) (k : K) (v : V) → slot t i ≡ some (k, v) → put_val t i v ≡ t
  put_val_self [] i k v h = refl
  put_val_self (none ∷ t) zero k v h = refl
  put_val_self (some (j, u) ∷ t) zero k v h = ground arith
  put_val_self (none ∷ t) (suc i) k v h = ap (◌∷◌ none) (put_val_self t i k v h)
  put_val_self (some e ∷ t) (suc i) k v h = ap (◌∷◌ (some e)) (put_val_self t i k v h)

  pub slot-drop :
      (t bs : Buckets K V) (it : ℕ) (b : Option (K × V)) → drop it t ≡ b ∷ bs → slot t it ≡ b
  slot-drop [] bs zero b h = cc
  slot-drop [] bs (suc it) b h = cc
  slot-drop (c ∷ t) bs zero b h = cc
  slot-drop (c ∷ t) bs (suc it) b h = slot-drop t bs it b h
