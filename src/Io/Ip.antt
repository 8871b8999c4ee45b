-- ===== src/Io/Ip.antt =====
-- lib/io/bgpview_io.c: addresses and prefixes.
pub mod RoundTrip
use bgpview.Base.{
  ℕ, ◌+◌, ◌≡◌, Bool, Option, none, some, List, [], ◌∷◌, ◌++◌, leb, length, take, drop, ◌==◌,
  if◌then◌else◌,
}
use bgpview.Io.Outcome.{Outcome, ok, err, fault, ◌>>=◌, ◌>>◌, assert, assert_room}
use bgpview.Io.Host.{Host}

-- bgpstream_ip_addr_t: the version and the bytes of the address as they lie in memory
pub data IpAddr : Type 0 where
  v4 : List ℕ → IpAddr
  v6 : List ℕ → IpAddr
  no_version : IpAddr

-- bgpstream_pfx_t
pub record BgpPfx : Type 0 where
  pub address : IpAddr
  pub mask_len : ℕ

-- BW_INTERNAL_AF_INET and BW_INTERNAL_AF_INET6
abbrev pub internal_af_inet : ℕ
internal_af_inet = 4

abbrev pub internal_af_inet6 : ℕ
internal_af_inet6 = 6

-- The first `n` bytes from a pointer; a fault where the memory ends before.
abbrev pub load : ℕ → List ℕ → Outcome (List ℕ)
load n buf = if leb n (length buf) then ok (take n buf) else fault

-- Each of these returns the bytes written; the int that the function returns is their number.
unfoldable pub serialize_ip : ℕ → IpAddr → Outcome (List ℕ)
serialize_ip len (v4 a) = do assert (leb 1 len); assert_room len 1 4; ok (internal_af_inet ∷ a)
serialize_ip len (v6 a) = do assert (leb 1 len); assert_room len 1 16; ok (internal_af_inet6 ∷ a)
serialize_ip len no_version = err

-- Each of these returns a value and the number of bytes read.
unfoldable pub deserialize_ip : ℕ → List ℕ → Outcome (IpAddr × ℕ)
deserialize_ip len buf = do
  assert (leb 1 len)
  elim buf [
    | [] ↦ fault
    | b ∷ bs ↦
        if b == internal_af_inet
        then (do assert_room len 1 4; a ← load 4 bs; ok (v4 a, 5))
        else if b == internal_af_inet6
        then (do assert_room len 1 16; a ← load 16 bs; ok (v6 a, 17))
        else err
  ]

-- BGPVIEW_IO_SERIALIZE_VAL, BGPVIEW_IO_DESERIALIZE_VAL: an integer of `w` bytes where `n` of the
-- `len` bytes of the buffer are used; the second returns it and the buffer after it.
module _ (h : Host) where
  abbrev pub serialize_val : ℕ → ℕ → ℕ → ℕ → Outcome (List ℕ)
  serialize_val len n w x = do assert_room len n w; ok (h.enc w x)

  abbrev pub deserialize_val : ℕ → ℕ → ℕ → List ℕ → Outcome (ℕ × List ℕ)
  deserialize_val len n w buf = do
    assert_room len n w
    bytes ← load w buf
    ok (h.dec bytes, drop w buf)

  unfoldable pub serialize_pfx : ℕ → BgpPfx → Outcome (List ℕ)
  unfolding serialize_ip
  serialize_pfx len pfx = do
    s ← serialize_ip len pfx.address
    m ← serialize_val len (length s) 1 pfx.mask_len
    ok (s ++ m)

  unfoldable pub deserialize_pfx : ℕ → List ℕ → Outcome (BgpPfx × ℕ)
  unfolding deserialize_ip
  deserialize_pfx len buf = do
    (ip, s) ← deserialize_ip len buf
    (m, rest) ← deserialize_val len s 1 (drop s buf)
    ok (record { address = ip; mask_len = m }, s + 1)
