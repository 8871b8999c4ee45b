-- ===== src/Io/Ip/RoundTrip.antt =====
-- What is written for an address or a prefix is read back, and fits the buffer.
use bgpview.Base.{
  ℕ, ◌+◌, ◌^◌, ◌≤◌, ◌<◌, ◌≡◌, refl, List, [], ◌∷◌, ◌++◌, arith, length, drop, take-append,
  drop-append, length-append,
}
use mathlib.Core.List.{append_assoc}
use bgpview.Io.Outcome.{ok, size_mod, assert_room-le}
use bgpview.Io.Host.{Host}
use bgpview.Io.Ip.{
  IpAddr, v4, v6, no_version, BgpPfx, load, serialize_ip, deserialize_ip, serialize_pfx,
  deserialize_pfx, serialize_val, deserialize_val,
}

-- An address of a known version, with its number of bytes.
abbrev pub IsAddress : IpAddr → Type 0
IsAddress (v4 a) = length a ≡ 4
IsAddress (v6 a) = length a ≡ 16
IsAddress no_version = ⊥

-- The bytes of an address in the buffer.
abbrev pub ip_bytes : IpAddr → List ℕ
ip_bytes (v4 a) = 4 ∷ a
ip_bytes (v6 a) = 6 ∷ a
ip_bytes no_version = []

pub load-append : (n : ℕ) (xs ys : List ℕ) → length xs ≡ n → load n (xs ++ ys) ≡ ok xs
load-append n xs ys e = rw (← e) (ground (arith, take-append xs ys, length-append xs ys))

pub drop_append : (n : ℕ) (xs ys : List ℕ) → length xs ≡ n → drop n (xs ++ ys) ≡ ys
drop_append n xs ys e = rw (← e) (drop-append xs ys)

pub serialize_ip_lem :
    (len : ℕ) (ip : IpAddr)
    → IsAddress ip
    → length (ip_bytes ip) ≤ len
    → len < size_mod
    → serialize_ip len ip ≡ ok (ip_bytes ip)
unfolding serialize_ip
serialize_ip_lem len (v4 a) is h lt = ground arith
serialize_ip_lem len (v6 a) is h lt = ground arith
serialize_ip_lem len no_version is h lt = absurd is

pub deserialize_ip_lem :
    (len : ℕ) (ip : IpAddr) (rest : List ℕ)
    → IsAddress ip
    → length (ip_bytes ip) ≤ len
    → len < size_mod
    → deserialize_ip len (ip_bytes ip ++ rest) ≡ ok (ip, length (ip_bytes ip))
unfolding deserialize_ip
deserialize_ip_lem len (v4 a) rest is h lt =
    let room = assert_room-le len 1 4 (omega arith) lt in
    rw (room, load-append 4 a rest is) (ground arith)
deserialize_ip_lem len (v6 a) rest is h lt =
    let room = assert_room-le len 1 16 (omega arith) lt in
    rw (room, load-append 16 a rest is) (ground arith)
deserialize_ip_lem len no_version rest is h lt = absurd is

-- The bytes of a prefix in the buffer.
module _ (h : Host) where
  abbrev pub pfx_bytes : BgpPfx → List ℕ
  pfx_bytes pfx = ip_bytes pfx.address ++ h.enc 1 pfx.mask_len

  -- A value is stored in an empty place, and read from the front of what follows.
  pub serialize_val_lem :
      (len n w x : ℕ) → n + w ≤ len → len < size_mod → serialize_val h len n w x ≡ ok (h.enc w x)
  serialize_val_lem len n w x le lt = rw (assert_room-le len n w le lt) refl

  pub deserialize_val_lem :
      (len n w x : ℕ) (rest : List ℕ)
      → n + w ≤ len
      → len < size_mod
      → x < 256 ^ w
      → deserialize_val h len n w (h.enc w x ++ rest) ≡ ok (x, rest)
  deserialize_val_lem len n w x rest le lt fits =
      rw
        (
          assert_room-le len n w le lt,
          load-append w (h.enc w x) rest (h.length_enc w x),
          drop_append w (h.enc w x) rest (h.length_enc w x),
          h.dec_enc w x fits,
        )
        refl

  -- In a buffer with room for it, a prefix of a known version is written as its version, its address
  -- and its length, no more bytes than the buffer has; read from a buffer that starts with these
  -- bytes, the prefix comes back, with their number.
  pub deserialize_pfx-serialize_pfx :
      (len : ℕ) (pfx : BgpPfx) (rest : List ℕ)
      → IsAddress pfx.address
      → pfx.mask_len < 256
      → length (pfx_bytes pfx) ≤ len
      → len < size_mod
      → (serialize_pfx h len pfx ≡ ok (pfx_bytes pfx))
        × (deserialize_pfx h len (pfx_bytes pfx ++ rest) ≡ ok (pfx, length (pfx_bytes pfx)))
  unfolding serialize_pfx deserialize_pfx
  deserialize_pfx-serialize_pfx len pfx rest is fits le lt =
      let ip = ip_bytes pfx.address in
      let size = length-append ip (h.enc 1 pfx.mask_len) in
      let one = h.length_enc 1 pfx.mask_len in
      (
        rw
            (
              serialize_ip_lem len pfx.address is (omega (arith, size)) lt,
              serialize_val_lem len (length ip) 1 pfx.mask_len (omega (arith, size, one)) lt,
            )
            refl,
        rw
            (
              append_assoc ip (h.enc 1 pfx.mask_len) rest,
              deserialize_ip_lem len pfx.address (h.enc 1 pfx.mask_len ++ rest) is
                  (omega (arith, size)) lt,
              drop_append (length ip) ip (h.enc 1 pfx.mask_len ++ rest) refl,
              deserialize_val_lem len (length ip) 1 pfx.mask_len rest (omega (arith, size, one)) lt
                  fits,
              size,
              one,
            )
            refl,
      )
