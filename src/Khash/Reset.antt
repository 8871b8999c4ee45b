-- ===== src/Khash/Reset.antt =====
-- Loops over the entries of a khash table that overwrite some of them.
use native.Mathlib.Decide.{ℕ_discrete}
use bgpview.Base.{
  ℕ, ◌+◌, ◌≤◌, ◌<◌, ◌≡◌, refl, sym, ap, ◌∙◌, Bool, true, false, Option, none, some, inl, inr, arith,
  length, drop, ltb, Bool-cases, Option-cases,
}
use bgpview.Khash.Buckets.{
  Buckets, slot, put_val, length-put_val, slot-put_val_self, slot-put_val_ne,
}
use bgpview.Khash.Scan.{skip, skip-le}
use bgpview.Khash.Stop.{skip-before}

-- A bucket with its value changed, if it has one.
abbrev pub on_value : {K V : Type 0} → (V → V) → Option (K × V) → Option (K × V)
on_value f none = none
on_value f (some (k, v)) = some (k, f v)

-- In the first buckets every value of the table `t0` is changed; the others are as they were.
pub record Swept {K V : Type 0} (f : V → V) (j : ℕ) (t0 t : Buckets K V) : Type 0 where
  pub len : length t ≡ length t0
  pub before : (i : ℕ) → i < j → slot t i ≡ on_value f (slot t0 i)
  pub after : (i : ℕ) → j ≤ i → slot t i ≡ slot t0 i

module _ {K V : Type 0} (f : V → V) where
  pub start-Swept : (t : Buckets K V) → Swept f 0 t t
  start-Swept t = record { len = refl; before = λ i lt. absurd (omega arith); after = λ i le. refl }

  -- A scan may pass over what does not change.
  pub skip-Swept :
      (match : Option (K × V) → Bool)
      → ((k : K) (v : V) → match (some (k, v)) ≡ false → f v ≡ v)
      → (t0 t : Buckets K V) (j : ℕ) → Swept f j t0 t
      → Swept f (skip match (drop j t) j) t0 t
  skip-Swept match same t0 t j h = record {
    len = h.len;
    before = λ i lt. elim (Bool-cases (ltb i j)) [
      | inl lower ↦ h.before i (ground arith)
      | inr higher ↦
          h.after i (ground arith)
          ∙ unchanged i (
              ap match (sym (h.after i (ground arith)))
              ∙ skip-before match t (drop j t) j i refl (ground arith) lt)
    ];
    after = λ i le. elim (Bool-cases (ltb i j)) [
      | inl lower ↦ absurd (omega (arith, skip-le match (drop j t) j, ltb_lt i j lower))
      | inr higher ↦ h.after i (ground arith)
    ];
  }
    where
      unchanged : (i : ℕ) → match (slot t0 i) ≡ false → slot t0 i ≡ on_value f (slot t0 i)
      unchanged i m = elim (Option-cases (slot t0 i)) [
        | inl e ↦ e ∙ sym (ap (on_value f) e)
        | inr ((k, v), e) ↦
            e ∙ sym (ap (on_value f) e ∙ ap (λ x. some (k, x)) (same k v (sym (ap match e) ∙ m)))
      ]

      ltb_lt : (a b : ℕ) → ltb a b ≡ true → a < b
      ltb_lt a b e = ground arith

  -- The next value is overwritten.
  pub put_val-Swept :
      (t0 t : Buckets K V) (j : ℕ) (k : K) (v u : V)
      → slot t j ≡ some (k, v)
      → f v ≡ u
      → Swept f j t0 t
      → Swept f (j + 1) t0 (put_val t j u)
  put_val-Swept t0 t j k v u at new h = record {
    len = length-put_val t j u ∙ h.len;
    before = λ i lt. elim (ℕ_discrete j i) [
      | yes same ↦
          ap (slot (put_val t j u)) (sym same)
          ∙ slot-put_val_self t j k v u at
          ∙ sym (
              ap (λ x. on_value f (slot t0 x)) (sym same)
              ∙ ap (on_value f) (sym (h.after j (omega arith)) ∙ at)
              ∙ ap (λ x. some (k, x)) new)
      | no other ↦ slot-put_val_ne t j i u other ∙ h.before i (omega (arith, other))
    ];
    after = λ i le. slot-put_val_ne t j i u (λ q. omega (arith, q)) ∙ h.after i (omega arith);
  }
