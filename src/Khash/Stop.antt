-- ===== src/Khash/Stop.antt =====
-- Where a scan over the buckets of a table stops, and what it has left behind.
use native.Mathlib.Numerals.{add-one}
use native.Mathlib.Decide.{ℕ_discrete}
use bgpview.Base.{
  ℕ, ◌+◌, ◌≤◌, ◌<◌, ◌≡◌, Bool, true, false, Option, [], ◌∷◌, arith, length, drop, drop-suc, inl,
  inr, Bool-cases,
}
use bgpview.Khash.Buckets.{Buckets, slot, slot-drop}
use bgpview.Khash.Scan.{skip}

module _ {K V : Type 0} (match : Option (K × V) → Bool) where
  -- What the scan has passed does not match.
  pub skip-before :
      (t bs : Buckets K V) (it l : ℕ)
      → drop it t ≡ bs
      → it ≤ l
      → l < skip match bs it
      → match (slot t l) ≡ false
  unfolding skip
  skip-before t [] it l e h k = absurd (omega arith)
  skip-before t (b ∷ bs) it l e h k =
      let d : drop (it + 1) t ≡ bs = rw add-one (drop-suc t bs it b e) in
      elim (Bool-cases (match b)) [
        | inl m ↦ absurd (omega (arith, rw m at k))
        | inr m ↦ elim (ℕ_discrete it l) [
          | yes same ↦ ground (arith, slot-drop t bs it b e)
          | no other ↦ skip-before t bs (it + 1) l d (omega arith) (rw m at k)
        ]
      ]

  -- Where it stops before the end, the bucket matches.
  pub skip_stops :
      (t bs : Buckets K V) (it : ℕ)
      → drop it t ≡ bs
      → it + length bs ≡ length t
      → skip match bs it < length t
      → match (slot t (skip match bs it)) ≡ true
  unfolding skip
  skip_stops t [] it e n h = absurd (omega arith)
  skip_stops t (b ∷ bs) it e n h =
      let d : drop (it + 1) t ≡ bs = rw add-one (drop-suc t bs it b e) in
      elim (Bool-cases (match b)) [
        | inl m ↦ rw m (ground (arith, slot-drop t bs it b e))
        | inr m ↦ rw m (skip_stops t bs (it + 1) d (omega arith) (rw m at h))
      ]
