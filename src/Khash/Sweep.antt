-- ===== src/Khash/Sweep.antt =====
-- The loops `for (k = kh_begin(h); k != kh_end(h); ++k)` that free the entries of a table, of
-- lib/bgpview.c.
use bgpview.Base.{
  ℕ, zero, suc, ◌+◌, ◌≡◌, refl, ap, ◌∙◌, Bool, true, false, none, some, List, [], ◌∷◌, ◌++◌, arith,
  length, inl, inr, if◌then◌else◌, Bool-cases,
}
use mathlib.Core.List.{append-nil, append_assoc}
use bgpview.Base.{length-append, Option}
use bgpview.Khash.Buckets.{Buckets, slot, unset, total}
use bgpview.Khash.Interface.{Khash}

module _ {K V C : Type 0} (h : Khash K V) (dead : V → Bool) (free : V → List C) where
  -- What is done at the index `k`: an entry that is dead is freed, which leaves calls, and deleted.
  abbrev free_entry : ℕ → Buckets K V → List C → Option (K × V) → Buckets K V × List C
  free_entry k t calls none = (t, calls)
  free_entry k t calls (some (key, v)) = if dead v then (h.del t k, calls ++ free v) else (t, calls)

  -- The loop from the index `k` on, for so many more buckets.
  unfoldable pub sweep : ℕ → ℕ → Buckets K V → List C → Buckets K V × List C
  sweep zero k t calls = (t, calls)
  sweep (suc n) k t calls =
      let (t', calls') = free_entry k t calls (slot t k) in sweep n (k + 1) t' calls'

-- The same without a loop.
module _ {K V : Type 0} (dead : V → Bool) where
  -- The table without its dead entries.
  abbrev pub kept : Buckets K V → Buckets K V
  kept [] = []
  kept (none ∷ t) = none ∷ kept t
  kept (some (k, v) ∷ t) = (if dead v then none else some (k, v)) ∷ kept t

module _ {K V C : Type 0} (dead : V → Bool) (free : V → List C) where
  -- What the dead entries leave when they are freed, in the order of the table.
  abbrev pub freed : Buckets K V → List C
  freed [] = []
  freed (none ∷ t) = freed t
  freed (some (k, v) ∷ t) = (if dead v then free v else []) ++ freed t

module _ {K V : Type 0} where
  pub slot-append : (xs ys : Buckets K V) → slot (xs ++ ys) (length xs) ≡ slot ys 0
  slot-append [] ys = refl
  slot-append (x ∷ xs) ys = slot-append xs ys

  pub unset-append : (xs ys : Buckets K V) → unset (xs ++ ys) (length xs) ≡ xs ++ unset ys 0
  unset-append [] ys = refl
  unset-append (x ∷ xs) ys = ap (◌∷◌ x) (unset-append xs ys)

module _ {K V C : Type 0} (h : Khash K V) (dead : V → Bool) (free : V → List C) where
  abbrev Swept : Buckets K V → Buckets K V → ℕ → List C → Type 0
  Swept xs ys k calls =
      sweep h dead free (length ys) k (xs ++ ys) calls
      ≡ (xs ++ kept dead ys, calls ++ freed dead free ys)

  -- One bucket is done and joins those before it.
  done :
      (xs ys : Buckets K V) (b : Option (K × V)) (k : ℕ) (calls : List C)
      → Swept (xs ++ (b ∷ [])) ys (k + 1) calls
      → sweep h dead free (length ys) (k + 1) (xs ++ (b ∷ ys)) calls
        ≡ (xs ++ (b ∷ kept dead ys), calls ++ freed dead free ys)
  done xs ys b k calls e =
      rw (append_assoc xs (b ∷ []) ys, append_assoc xs (b ∷ []) (kept dead ys)) at e

  sweep_step :
      (n k : ℕ) (t : Buckets K V) (calls : List C) (b : Option (K × V))
      → slot t k ≡ b
      → sweep h dead free (suc n) k t calls
        ≡ sweep h dead free n
            (k + 1)
            (free_entry h dead free k t calls b).0
            (free_entry h dead free k t calls b).1
  unfolding sweep
  sweep_step n k t calls b e =
      ap
        (λ x.
          sweep h dead free n (k + 1) (free_entry h dead free k t calls x).0
            (free_entry h dead free k t calls x).1)
        e

  sweep-append :
      (xs ys : Buckets K V) (k : ℕ) (calls : List C) → length xs ≡ k → Swept xs ys k calls
  unfolding sweep
  sweep-append xs [] k calls e = rw (append-nil xs, append-nil calls) refl
  sweep-append xs (none ∷ ys) k calls e =
      let next = done xs ys none k calls (
        sweep-append (xs ++ (none ∷ [])) ys (k + 1) calls
          (omega (arith, e, length-append xs (none ∷ [])))) in
      let at : slot (xs ++ (none ∷ ys)) k ≡ none = rw (← e) (slot-append xs (none ∷ ys)) in
      sweep_step (length ys) k (xs ++ (none ∷ ys)) calls none at ∙ next
  sweep-append xs (some (key, v) ∷ ys) k calls e =
      let at : slot (xs ++ (some (key, v) ∷ ys)) k ≡ some (key, v) =
        rw (← e) (slot-append xs (some (key, v) ∷ ys)) in
      elim (Bool-cases (dead v)) [
        | inl yes_dead ↦
            let next = done xs ys none k (calls ++ free v) (
              sweep-append (xs ++ (none ∷ [])) ys (k + 1) (calls ++ free v)
                (omega (arith, e, length-append xs (none ∷ [])))) in
            let gone : h.del (xs ++ (some (key, v) ∷ ys)) k ≡ xs ++ (none ∷ ys) =
              h.del_lem (xs ++ (some (key, v) ∷ ys)) k
              ∙ rw (← e) (unset-append xs (some (key, v) ∷ ys)) in
            sweep_step (length ys) k (xs ++ (some (key, v) ∷ ys)) calls (some (key, v)) at
            ∙ rw (yes_dead, gone, ← append_assoc calls (free v) (freed dead free ys)) next
        | inr alive ↦
            let next = done xs ys (some (key, v)) k calls (
              sweep-append (xs ++ (some (key, v) ∷ [])) ys (k + 1) calls
                (omega (arith, e, length-append xs (some (key, v) ∷ [])))) in
            sweep_step (length ys) k (xs ++ (some (key, v) ∷ ys)) calls (some (key, v)) at
            ∙ rw alive next
      ]

  -- The whole loop leaves the table without its dead entries, and each of them is freed, in order.
  pub sweep-kept :
      (t : Buckets K V) (calls : List C)
      → sweep h dead free (length t) 0 t calls ≡ (kept dead t, calls ++ freed dead free t)
  sweep-kept t calls = sweep-append [] t 0 calls refl

module _ {K V : Type 0} (dead : V → Bool) where
  -- What is left was there, and is not dead; and what is not dead is left.
  pub slot-kept :
      (t : Buckets K V) (i : ℕ) (k : K) (v : V)
      → slot (kept dead t) i ≡ some (k, v)
      → (slot t i ≡ some (k, v)) × (dead v ≡ false)
  slot-kept [] i k v h = cc
  slot-kept (none ∷ t) zero k v h = cc
  slot-kept (none ∷ t) (suc i) k v h = slot-kept t i k v h
  slot-kept (some (j, u) ∷ t) zero k v h = (ground arith, ground arith)
  slot-kept (some (j, u) ∷ t) (suc i) k v h = slot-kept t i k v h

  pub slot-kept_alive :
      (t : Buckets K V) (i : ℕ) (k : K) (v : V)
      → slot t i ≡ some (k, v)
      → dead v ≡ false
      → slot (kept dead t) i ≡ some (k, v)
  slot-kept_alive [] i k v h a = cc
  slot-kept_alive (none ∷ t) zero k v h a = cc
  slot-kept_alive (none ∷ t) (suc i) k v h a = slot-kept_alive t i k v h a
  slot-kept_alive (some (j, u) ∷ t) zero k v h a = ground arith
  slot-kept_alive (some (j, u) ∷ t) (suc i) k v h a = slot-kept_alive t i k v h a

  -- A sum to which no dead entry adds anything stays.
  pub total-kept :
      (w : K → V → ℕ) (t : Buckets K V)
      → ((i : ℕ) (k : K) (v : V) → slot t i ≡ some (k, v) → dead v ≡ true → w k v ≡ 0)
      → total w (kept dead t) ≡ total w t
  total-kept w [] h = refl
  total-kept w (none ∷ t) h = total-kept w t (λ i. h (suc i))
  total-kept w (some (k, v) ∷ t) h = ground (arith, total-kept w t (λ i. h (suc i)), h 0 k v refl)

-- Where nothing is dead, nothing happens.
pub kept-none_dead :
    {K V C : Type 0} (dead : V → Bool) (free : V → List C) (t : Buckets K V)
    → ((i : ℕ) (k : K) (v : V) → slot t i ≡ some (k, v) → dead v ≡ false)
    → (kept dead t ≡ t) × (freed dead free t ≡ [])
kept-none_dead dead free [] h = (refl, refl)
kept-none_dead dead free (none ∷ t) h =
    let rest = kept-none_dead dead free t (λ i. h (suc i)) in (ap (◌∷◌ none) rest.0, rest.1)
kept-none_dead dead free (some (k, v) ∷ t) h =
    let rest = kept-none_dead dead free t (λ i. h (suc i)) in
    let alive = h 0 k v refl in (rw (alive, rest.0) refl, rw (alive, rest.1) refl)
