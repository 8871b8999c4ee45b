-- ===== src/Io/Host/Little.antt =====
-- A little-endian machine.
use bgpview.Base.{
  ℕ, zero, suc, ◌+◌, ◌*◌, ◌/◌, ◌%◌, ◌^◌, ◌<◌, ◌≡◌, refl, List, [], ◌∷◌, length, arith,
}
use native.Mathlib.Nat.{pow-suc}
use bgpview.Io.Host.{Host}

-- The lowest byte comes first.
abbrev pub bytes : ℕ → ℕ → List ℕ
bytes zero n = []
bytes (suc w) n = (n % 256) ∷ bytes w (n / 256)

abbrev pub number : List ℕ → ℕ
number [] = 0
number (b ∷ bs) = b + 256 * number bs

pub length-bytes : (w n : ℕ) → length (bytes w n) ≡ w
length-bytes zero n = refl
length-bytes (suc w) n = omega (arith, length-bytes w (n / 256))

pub number-bytes : (w n : ℕ) → n < 256 ^ w → number (bytes w n) ≡ n
number-bytes zero n h = omega arith
number-bytes (suc w) n h =
    omega (arith, pow-suc 256 w, number-bytes w (n / 256) (omega (arith, pow-suc 256 w)))

-- `htons` and `ntohs` swap the two bytes.
abbrev pub swap16 : ℕ → ℕ
swap16 n = n % 256 * 256 + n / 256

abbrev pub little : Host
little = record {
  enc = bytes;
  dec = number;
  length_enc = length-bytes;
  dec_enc = number-bytes;
  htons = swap16;
  ntohs = swap16;
  ntohs_htons = λ n h. omega arith;
  htons_lt = λ n h. omega arith;
  ntohs_ones = refl;
}
