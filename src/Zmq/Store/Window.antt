-- ===== src/Zmq/Store/Window.antt =====
-- Each view of the buffer that is in use is at the place that belongs to its time.
use native.Mathlib.Nat.{mod-eq_of_lt, mod-eq-sub-mod}
use native.Mathlib.Decide.{ℕ_discrete}
use bgpview.Base.{
  ℕ, ◌+◌, ◌-◌, ◌*◌, ◌%◌, ◌^◌, ◌≤◌, ◌<◌, ◌≡◌, ◌≢◌, sym, subst₂, ap, ◌∙◌, ◌⊎◌, inl, inr, some, List,
  length, ltb, if◌then◌else◌, arith, get_elem?, set, length-set, get_elem?-set_cases, get_elem?-lt,
}
use bgpview.Zmq.Types.{unused, ZmqEnv, StoreView, Store, item_time, u32}

-- How far a place is from the first one, `f`, in a buffer of `cnt`.
abbrev pub offset : (cnt f i : ℕ) → ℕ
offset cnt f i = if ltb i f then i + cnt - f else i - f

pub wrap_mod : (cnt x : ℕ) → x < cnt + cnt → x % cnt ≡ (if ltb x cnt then x else x - cnt)
wrap_mod cnt x h = grind (arith, mod-eq_of_lt, mod-eq-sub-mod)

pub offset_suc :
    (cnt f i : ℕ) → f < cnt → i < cnt → i ≢ f → offset cnt f i ≡ offset cnt ((f + 1) % cnt) i + 1
offset_suc cnt f i p q n = ground (arith, wrap_mod cnt (f + 1))

-- A view in use is at the place of its time, which is at most `horizon`.
abbrev pub InPlace : {Z : ZmqEnv} → (horizon cnt f first i : ℕ) → StoreView Z → Type 0
InPlace {Z} horizon cnt f first i v =
    (Z.ops.get_time v.view ≡ first + offset cnt f i * 300) × (Z.ops.get_time v.view ≤ horizon)

-- A buffer that begins at the place `f` with the time `first`; no time is after `horizon`, and the
-- times of the window fit in 32 bits.
pub record Placed {Z : ZmqEnv} (horizon cnt f first : ℕ) (sviews : List (StoreView Z))
    : Type 0 where
  pub len : length sviews ≡ cnt
  pub f_lt : f < cnt
  pub aligned : first % 300 ≡ 0
  pub first_le : first ≤ horizon + 300
  pub fits : horizon + (cnt + 2) * 300 < 2 ^ 32
  pub own : (i : ℕ) (v : StoreView Z) → get_elem? sviews i ≡ some v → v.id ≡ i
  pub place :
      (i : ℕ) (v : StoreView Z)
      → get_elem? sviews i ≡ some v
      → (v.state ≡ unused) ⊎ InPlace horizon cnt f first i v

abbrev pub Window : {Z : ZmqEnv} → ℕ → Store Z → Type 0
Window h s = Placed h s.sviews_cnt s.sviews_first_idx s.sviews_first_time s.sviews

module _ {Z : ZmqEnv} {h cnt f first : ℕ} {xs : List (StoreView Z)}
    (w : Placed h cnt f first xs) where
  pub Placed-set :
      (i : ℕ) (u : StoreView Z)
      → u.id ≡ i
      → (u.state ≡ unused) ⊎ InPlace h cnt f first i u
      → Placed h cnt f first (set xs i u)
  Placed-set i u own put = record {
    len = length-set xs i u ∙ w.len;
    f_lt = w.f_lt;
    aligned = w.aligned;
    first_le = w.first_le;
    fits = w.fits;
    own = λ j v e. elim (get_elem?-set_cases xs i j u v e) [
      | inl (p, q) ↦ sym (ap (λ (x : StoreView Z). x.id) q) ∙ own ∙ p
      | inr d ↦ w.own j v d
    ];
    place = λ j v e. elim (get_elem?-set_cases xs i j u v e) [
      | inl (p, q) ↦ subst₂ (λ k x. (x.state ≡ unused) ⊎ InPlace h cnt f first k x) p q put
      | inr d ↦ w.place j v d
    ];
  }

  -- The window without its first view.
  pub Placed-advanced :
      (v : StoreView Z)
      → get_elem? xs f ≡ some v
      → v.state ≡ unused
      → first ≤ h
      → Placed h cnt ((f + 1) % cnt) (u32 (first + item_time)) xs
  Placed-advanced v e none_there le = record {
    len = w.len;
    f_lt = grind (arith, wrap_mod cnt (f + 1), w.f_lt);
    aligned = omega (arith, w.aligned, w.fits);
    first_le = omega (arith, w.fits);
    fits = w.fits;
    own = w.own;
    place = λ j u d. elim (w.place j u d) [
      | inl p ↦ inl p
      | inr p ↦ elim (ℕ_discrete j f) [
        | yes q ↦ inl (ap (λ (x : StoreView Z). x.state) (the_same j u d q) ∙ none_there)
        | no n ↦
            inr (omega (arith, p.0, le, w.fits, offset_suc cnt f j w.f_lt (place_lt j u d) n), p.1)
      ]
    ];
  }
    where
      the_same : (j : ℕ) (u : StoreView Z) → get_elem? xs j ≡ some u → j ≡ f → u ≡ v
      the_same j u d q = cc

      place_lt : (j : ℕ) (u : StoreView Z) → get_elem? xs j ≡ some u → j < cnt
      place_lt j u d = omega (arith, get_elem?-lt xs j u d, w.len)
