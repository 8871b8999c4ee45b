-- ===== src/Khash/Interface.antt =====
-- The operations of khash.h that depend on where the library places a key, with their documented
-- behaviour. The library is a parameter of the model; `Linear` shows that the laws can be met.
use mathlib.Core.List.{Perm, Permᴰ}
use mathlib.Core.Logic.{∥∥₁_elim}
use native.Mathlib.Nat.{ℕ_set}
use bgpview.Base.{
  ℕ, ◌+◌, ◌≡◌, ◌≢◌, refl, ◌⊎◌, Bool, true, false, some, List, [], ◌∷◌, length, arith,
}
use bgpview.Khash.Buckets.{
  Buckets, slot, put_val, unset, entries, weigh, total, total-entries, Absent, Unique,
}

-- What kh_put returns: the table, which may have been rebuilt, the index of the key, and whether
-- the key is new (khret > 0).
pub record Put (K V : Type 0) : Type 0 where
  pub table : Buckets K V
  pub at : ℕ
  pub absent : Bool

-- kh_put of a key that is there: the entry is found again, and no entry is lost or made.
pub record PutPresent {K V : Type 0} (t : Buckets K V) (k : K) (v : V) (r : Put K V) : Type 0 where
  pub old : r.absent ≡ false
  pub found : slot r.table r.at ≡ some (k, v)
  pub kept : Perm (entries r.table) (entries t)

-- kh_put of a new key: one more entry, whose value is whatever was in the memory.
pub record PutAbsent {K V : Type 0} (t : Buckets K V) (k : K) (r : Put K V) : Type 0 where
  pub new : r.absent ≡ true
  pub value : V
  pub found : slot r.table r.at ≡ some (k, value)
  pub added : Perm (entries r.table) ((k, value) ∷ entries t)

pub record Khash (K V : Type 0) : Type 1 where
  -- the table is one that the library's operations built: each key sits where its probe finds it
  pub Placed : Buckets K V → Type 0
  pub get : Buckets K V → K → ℕ
  pub put : Buckets K V → K → Put K V
  pub del : Buckets K V → ℕ → Buckets K V
  pub init_placed : Placed []
  pub placed_unique : (t : Buckets K V) → Placed t → Unique t
  pub get_cases :
      (t : Buckets K V) (k : K)
      → Placed t
      → ((v : V) × (slot t (get t k) ≡ some (k, v))) ⊎ ((get t k ≡ length t) × Absent k t)
  pub put_placed : (t : Buckets K V) (k : K) → Placed t → Placed (put t k).table
  pub put_present :
      (t : Buckets K V) (k : K) (i : ℕ) (v : V)
      → Placed t
      → slot t i ≡ some (k, v)
      → PutPresent t k v (put t k)
  pub put_absent : (t : Buckets K V) (k : K) → Placed t → Absent k t → PutAbsent t k (put t k)
  -- kh_put keeps the other entries and makes no other
  pub put_keeps :
      (t : Buckets K V) (k : K) (i : ℕ) (j : K) (v : V)
      → Placed t
      → slot t i ≡ some (j, v)
      → (i' : ℕ) × (slot (put t k).table i' ≡ some (j, v))
  pub put_no_more :
      (t : Buckets K V) (k : K) (i : ℕ) (j : K) (v : V)
      → Placed t
      → j ≢ k
      → slot (put t k).table i ≡ some (j, v)
      → (i' : ℕ) × (slot t i' ≡ some (j, v))
  -- a store through kh_val moves nothing
  pub val_placed : (t : Buckets K V) (i : ℕ) (v : V) → Placed t → Placed (put_val t i v)
  -- kh_del marks the bucket and moves nothing
  pub del_lem : (t : Buckets K V) (i : ℕ) → del t i ≡ unset t i
  pub del_placed : (t : Buckets K V) (i : ℕ) → Placed t → Placed (del t i)

module _ {K V : Type 0} (w : K → V → ℕ) where
  weigh-permᴰ : {xs ys : List (K × V)} → Permᴰ xs ys → weigh w xs ≡ weigh w ys
  weigh-permᴰ Permᴰ.nil = refl
  weigh-permᴰ (Permᴰ.cons {a = (k, v)} {b = (j, u)} e p) = ground (arith, e, weigh-permᴰ p)
  weigh-permᴰ (Permᴰ.swap {a = (k, v)} {b = (j, u)} d e) = ground (arith, d, e)
  weigh-permᴰ (Permᴰ.trans p q) = omega (arith, weigh-permᴰ p, weigh-permᴰ q)

  weigh-perm : {xs ys : List (K × V)} → Perm xs ys → weigh w xs ≡ weigh w ys
  weigh-perm p = ∥∥₁_elim p (ℕ_set _ _) weigh-permᴰ

  -- Sums over the entries after kh_put.
  pub total-PutPresent :
      {t : Buckets K V} {k : K} {v : V} {r : Put K V}
      → PutPresent t k v r
      → total w r.table ≡ total w t
  total-PutPresent {t} {k} {v} {r} p =
      omega (arith, total-entries w r.table, total-entries w t, weigh-perm p.kept)

  pub total-PutAbsent :
      {t : Buckets K V} {k : K} {r : Put K V}
      → (p : PutAbsent t k r) → total w r.table ≡ total w t + w k p.value
  total-PutAbsent {t} {k} {r} p =
      omega (arith, total-entries w r.table, total-entries w t, weigh-perm p.added)
