-- ===== src/Khash/Scan.antt =====
-- The loops that walk over the buckets of a table: `it++` until the end or a bucket that matches.
use native.Mathlib.Numerals.{add-one}
use bgpview.Base.{
  ℕ, zero, suc, ◌+◌, ◌≤◌, ◌<◌, ◌≡◌, Bool, inl, inr, List, [], ◌∷◌, arith, length, drop, drop-suc,
  ◌==◌, if◌then◌else◌, Bool-cases,
}

module _ {B : Type 0} (match : B → Bool) where
  -- The loop `while (it != end && !match(it)) it++` over the buckets from `it` on.
  unfoldable pub skip : List B → ℕ → ℕ
  skip [] it = it
  skip (b ∷ bs) it = let rest = skip bs (it + 1) in if match b then it else rest

  -- The indices of all the buckets that match, in order; the first bucket has the index `it`.
  unfoldable pub matching : List B → ℕ → List ℕ
  matching [] it = []
  matching (b ∷ bs) it = let rest = matching bs (it + 1) in if match b then it ∷ rest else rest

  pub skip-le : (bs : List B) (it : ℕ) → (it ≤ skip bs it) × (skip bs it ≤ it + length bs)
  unfolding skip
  skip-le [] it = omega arith
  skip-le (b ∷ bs) it = ground (arith, skip-le bs (it + 1))

  -- The loop `for (it = first; it != end; it = next(it))` from a place that the scan has reached:
  -- the indices that it visits.
  unfoldable pub visit : ℕ → List B → ℕ → List ℕ
  visit zero t it = []
  visit (suc fuel) t it =
      let rest = it ∷ visit fuel t (skip (drop (it + 1) t) (it + 1)) in
      if it == length t then [] else rest

  -- The loop visits the buckets that match, each once and in order.
  pub visit-skip :
      (fuel : ℕ) (t bs : List B) (it : ℕ)
      → drop it t ≡ bs
      → it + length bs ≡ length t
      → length bs < fuel
      → visit fuel t (skip bs it) ≡ matching bs it
  unfolding visit skip matching
  visit-skip zero t bs it e n h = absurd (omega arith)
  visit-skip (suc fuel) t [] it e n h = ground arith
  visit-skip (suc fuel) t (b ∷ bs) it e n h =
      let d : drop (it + 1) t ≡ bs = rw add-one (drop-suc t bs it b e) in
      elim (Bool-cases (match b)) [
        | inl m ↦
            rw (m, d) (ground (arith, visit-skip fuel t bs (it + 1) d (omega arith) (omega arith)))
        | inr m ↦ rw m (visit-skip (suc fuel) t bs (it + 1) d (omega arith) (omega arith))
      ]

  -- The matches from an index that the scan has reached.
  abbrev pub matches_at : List B → ℕ → List ℕ
  matches_at t it = if it == length t then [] else it ∷ matching (drop (it + 1) t) (it + 1)

  -- The matches after an index are those from where the scan stops next.
  pub matching-skip :
      (t bs : List B) (it : ℕ)
      → drop it t ≡ bs
      → it + length bs ≡ length t
      → matching bs it ≡ matches_at t (skip bs it)
  unfolding skip matching
  matching-skip t [] it e n = ground arith
  matching-skip t (b ∷ bs) it e n =
      let d : drop (it + 1) t ≡ bs = rw add-one (drop-suc t bs it b e) in
      elim (Bool-cases (match b)) [
        | inl m ↦ rw (m, d) (ground arith)
        | inr m ↦ rw m (matching-skip t bs (it + 1) d (omega arith))
      ]
