-- ===== src/Io/Host.antt =====
-- How the machine lays out integers in memory (memcpy from and to a variable), and the conversions
-- of arpa/inet.h: parameters of the model, with what the code relies on. Io/Host/Little is a machine
-- that meets it.
pub mod Little
use bgpview.Base.{ℕ, ◌<◌, ◌^◌, ◌*◌, ◌≡◌, List, length}

pub record Host : Type 0 where
  -- the bytes of an integer of so many bytes, and the integer of bytes
  pub enc : ℕ → ℕ → List ℕ
  pub dec : List ℕ → ℕ
  pub length_enc : (w n : ℕ) → length (enc w n) ≡ w
  pub dec_enc : (w n : ℕ) → n < 256 ^ w → dec (enc w n) ≡ n
  pub htons : ℕ → ℕ
  pub ntohs : ℕ → ℕ
  pub ntohs_htons : (n : ℕ) → n < 2 ^ 16 → ntohs (htons n) ≡ n
  pub htons_lt : (n : ℕ) → n < 2 ^ 16 → htons n < 2 ^ 16
  -- both bytes of 0xffff are the same
  pub ntohs_ones : ntohs 0xffff ≡ 0xffff
