-- ===== src/Moas/Equal.antt =====
-- Two signatures are equal for the hash table exactly if they have the same sorted origins.
use bgpview.Base.{ℕ, ◌≡◌, ◌↔◌, refl, ap, sym, ◌∙◌, true, List, [], ◌∷◌, length, arith}
use bgpview.Moas.Types.{MoasSignature, same_origins, moasinfo_map_equal}

same_origins-true : (xs ys : List ℕ) → length xs ≡ length ys → same_origins xs ys ≡ true → xs ≡ ys
same_origins-true [] [] e h = refl
same_origins-true [] (y ∷ ys) e h = absurd (omega arith)
same_origins-true (x ∷ xs) [] e h = absurd (omega arith)
same_origins-true (x ∷ xs) (y ∷ ys) e h = ground (arith, same_origins-true xs ys (omega arith))

same_origins_self : (xs : List ℕ) → same_origins xs xs ≡ true
same_origins_self [] = refl
same_origins_self (x ∷ xs) = ground (arith, same_origins_self xs)

-- Where qsort keeps the number of elements, moasinfo_map_equal holds of two signatures exactly if
-- qsort makes the same of both.
pub moasinfo_map_equal-qsort :
    (qsort : List ℕ → List ℕ)
    → ((xs : List ℕ) → length (qsort xs) ≡ length xs)
    → (ms1 ms2 : MoasSignature)
    → (moasinfo_map_equal qsort ms1 ms2 ≡ true) ↔ (qsort ms1 ≡ qsort ms2)
unfolding moasinfo_map_equal
moasinfo_map_equal-qsort qsort keeps ms1 ms2 = (
  λ h.
      same_origins-true (qsort ms1) (qsort ms2) (ground (arith, keeps ms1, keeps ms2))
        (ground arith),
  λ e.
      let same : length ms1 ≡ length ms2 =
        sym (keeps ms1) ∙ ap (λ (xs : List ℕ). length xs) e ∙ keeps ms2 in
      rw (e, same) (ground (arith, same_origins_self (qsort ms2))),
)
