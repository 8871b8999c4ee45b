-- ===== src/Io/Outcome.antt =====
-- What a function of lib/io/bgpview_io.c comes to: a result, an error (-1), or an abort at an assert
-- or at a read past the end of a buffer.
use bgpview.Base.{ℕ, ◌+◌, ◌-◌, ◌%◌, ◌^◌, ◌≤◌, ◌<◌, ◌≡◌, refl, Bool, true, false, leb, arith}

pub data Outcome {ℓ} (A : Type ℓ) : Type ℓ where
  ok : A → Outcome A
  err : Outcome A
  fault : Outcome A

infixl 5 ◌>>=◌ ◌>>◌
abbrev pub ◌>>=◌ {ℓ κ} : {A : Type ℓ} {B : Type κ} → Outcome A → (A → Outcome B) → Outcome B
ok a >>= f = f a
err >>= f = err
fault >>= f = fault

abbrev pub ◌>>◌ {ℓ} : {B : Type ℓ} → Outcome (Unit {0}) → Outcome B → Outcome B
m >> k = m >>= λ _. k

-- What ends well has ended well in its first part.
pub bound-ok :
    {A B : Type 0} (m : Outcome A) (f : A → Outcome B) (b : B)
    → (m >>= f) ≡ ok b
    → (a : A) × (m ≡ ok a) × (f a ≡ ok b)
bound-ok (ok a) f b e = (a, refl, e)
bound-ok err f b e = cc
bound-ok fault f b e = cc

abbrev pub assert : Bool → Outcome (Unit {0})
assert true = ok tt
assert false = fault

-- The values of a size_t.
abbrev pub size_mod : ℕ
size_mod = 2 ^ 64

-- `len - n` of two size_t, which wraps
abbrev pub size_sub : ℕ → ℕ → ℕ
size_sub len n = (len + size_mod - n) % size_mod

-- `assert((len - n) >= size)`
abbrev pub assert_room : ℕ → ℕ → ℕ → Outcome (Unit {0})
assert_room len n size = assert (leb size (size_sub len n))

pub assert_room-le :
    (len n size : ℕ) → n + size ≤ len → len < size_mod → assert_room len n size ≡ ok tt
assert_room-le len n size h lt = ground arith
