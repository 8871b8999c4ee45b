-- ===== src/Zmq/Server/Ids.antt =====
-- msg_strhex and the printable ids: the keys and the names of the clients.
use bgpview.Base.{
  ℕ, ◌*◌, ◌/◌, ◌%◌, ◌<◌, ◌≡◌, ◌≢◌, refl, sym, ap, ap₂, ◌∙◌, true, false, ◌||◌, List, [], ◌∷◌,
  length, ltb, if◌then◌else◌, arith,
}
use bgpview.Zmq.Server.{hex_char, msg_strhex, msg_isbinary, client_id}

abbrev pub Bytes : List ℕ → Type 0
Bytes [] = Unit {0}
Bytes (b ∷ bs) = (b < 256) × Bytes bs

hex_char-injective : (c d : ℕ) → c < 16 → d < 16 → hex_char c ≡ hex_char d → c ≡ d
hex_char-injective c d p q e = ground arith

byte_eq :
    (b c : ℕ)
    → b < 256
    → c < 256
    → hex_char (b / 16) ≡ hex_char (c / 16)
    → hex_char (b % 16) ≡ hex_char (c % 16)
    → b ≡ c
byte_eq b c p q high low = omega (
  arith,
  hex_char-injective (b / 16) (c / 16) (omega arith) (omega arith) high,
  hex_char-injective (b % 16) (c % 16) (omega arith) (omega arith) low,
)

-- For lists of bytes: two identities with the same msg_strhex are the same, so the key of the
-- table of clients tells them apart.
pub msg_strhex-injective :
    (xs ys : List ℕ) → Bytes xs → Bytes ys → msg_strhex xs ≡ msg_strhex ys → xs ≡ ys
msg_strhex-injective [] [] p q e = refl
msg_strhex-injective [] (c ∷ ys) p q e = cc
msg_strhex-injective (b ∷ xs) [] p q e = cc
msg_strhex-injective (b ∷ xs) (c ∷ ys) p q e =
    ap₂ (◌∷◌) (byte_eq b c p.0 q.0 (first e) (second e))
      (msg_strhex-injective xs ys p.1 q.1 (rest e))
  where
    first : msg_strhex (b ∷ xs) ≡ msg_strhex (c ∷ ys) → hex_char (b / 16) ≡ hex_char (c / 16)
    first d = cc

    second : msg_strhex (b ∷ xs) ≡ msg_strhex (c ∷ ys) → hex_char (b % 16) ≡ hex_char (c % 16)
    second d = cc

    rest : msg_strhex (b ∷ xs) ≡ msg_strhex (c ∷ ys) → msg_strhex xs ≡ msg_strhex ys
    rest d = cc

length-msg_strhex : (xs : List ℕ) → length (msg_strhex xs) ≡ 2 * length xs
length-msg_strhex [] = refl
length-msg_strhex (b ∷ xs) = omega (arith, length-msg_strhex xs)

hex_char-printable : (d : ℕ) → d < 16 → (ltb (hex_char d) 9 || ltb 127 (hex_char d)) ≡ false
hex_char-printable d p = ground arith

msg_strhex-printable : (xs : List ℕ) → Bytes xs → msg_isbinary (msg_strhex xs) ≡ false
msg_strhex-printable [] p = refl
msg_strhex-printable (b ∷ xs) p = ground (
  arith,
  hex_char-printable (b / 16) (omega arith),
  hex_char-printable (b % 16) (omega arith),
  msg_strhex-printable xs p.1,
)

-- For a list of bytes that msg_isbinary holds of: the identity that spells its msg_strhex has
-- the same printable id, which is the name that the store knows a client by, but another key in
-- the table of clients.
pub client_id_shared :
    (identity : List ℕ)
    → Bytes identity
    → msg_isbinary identity ≡ true
    → (client_id (msg_strhex identity) ≡ client_id identity)
      × (msg_strhex (msg_strhex identity) ≢ msg_strhex identity)
client_id_shared [] p q = cc
client_id_shared (b ∷ bs) p q = (
  ap (λ x. if x then msg_strhex (msg_strhex (b ∷ bs)) else msg_strhex (b ∷ bs))
        (msg_strhex-printable (b ∷ bs) p)
      ∙ sym (ap (λ x. if x then msg_strhex (b ∷ bs) else b ∷ bs) q),
  λ e. absurd (
      omega
        (arith, length-msg_strhex (msg_strhex (b ∷ bs)), length-msg_strhex (b ∷ bs), ap length e)),
)
