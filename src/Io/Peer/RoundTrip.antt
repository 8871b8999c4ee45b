-- ===== src/Io/Peer/RoundTrip.antt =====
-- What is written for a peer is read back; and a buffer that is too short.
use bgpview.Base.{
  ℕ, ◌+◌, ◌%◌, ◌^◌, ◌≤◌, ◌<◌, ◌≡◌, refl, ap, subst, List, [], ◌∷◌, ◌++◌, arith, length,
  length-append,
}
use mathlib.Core.List.{append_assoc, append-nil}
use bgpview.Io.Outcome.{ok, size_mod, assert_room-le}
use bgpview.Io.Host.{Host}
use bgpview.Io.Ip.{v4, v6, no_version, IpAddr, load}
use bgpview.Io.Ip.RoundTrip.{
  IsAddress, ip_bytes, load-append, drop_append, serialize_ip_lem, deserialize_ip_lem,
  serialize_val_lem, deserialize_val_lem,
}
use bgpview.Io.Peer.{PeerSig, serialize_peer, deserialize_peer}

-- All of a list.
load_all : (xs : List ℕ) → load (length xs) xs ≡ ok xs
load_all xs =
    subst (λ l. load (length xs) l ≡ ok xs) (append-nil xs) (load-append (length xs) xs [] refl)

length-ip_bytes : (ip : IpAddr) → IsAddress ip → 5 ≤ length (ip_bytes ip)
length-ip_bytes (v4 a) is = omega arith
length-ip_bytes (v6 a) is = omega arith
length-ip_bytes no_version is = absurd is

module _ (h : Host) where
  abbrev pub peer_bytes : ℕ → PeerSig → List ℕ
  peer_bytes id sig =
      h.enc 2 id
      ++ (h.enc 2 (length sig.collector_str)
          ++ (sig.collector_str ++ (ip_bytes sig.peer_ip_addr ++ h.enc 4 sig.peer_asnumber)))

  abbrev pub peer_size : PeerSig → ℕ
  peer_size sig = length sig.collector_str + length (ip_bytes sig.peer_ip_addr) + 8

  module _ (len id : ℕ) (sig : PeerSig) (is : IsAddress sig.peer_ip_addr) (id_fits : id < 2 ^ 16)
      (name_fits : length sig.collector_str < 2 ^ 16) (asn_fits : sig.peer_asnumber < 2 ^ 32)
      (le : peer_size sig ≤ len) (lt : len < size_mod) where
    serialize_peer_lem : serialize_peer h len id sig ≡ ok (peer_bytes id sig)
    unfolding serialize_peer
    serialize_peer_lem =
        let n = length sig.collector_str in
        let small : n % 2 ^ 16 ≡ n = omega arith in
        rw
          (
            small,
            serialize_val_lem h len 0 2 id (omega arith) lt,
            serialize_val_lem h len 2 2 n (omega arith) lt,
            assert_room-le len 4 n (omega arith) lt,
            load_all sig.collector_str,
            serialize_ip_lem len sig.peer_ip_addr is (omega arith) lt,
            serialize_val_lem h len (4 + n + length (ip_bytes sig.peer_ip_addr)) 4 sig.peer_asnumber
                (omega arith) lt,
          )
          refl

    deserialize_peer_lem :
        (rest : List ℕ)
        → deserialize_peer h len (peer_bytes id sig ++ rest) ≡ ok (id, sig, peer_size sig)
    unfolding deserialize_peer
    deserialize_peer_lem rest =
        let n = length sig.collector_str in
        let ip = ip_bytes sig.peer_ip_addr in
        let tail4 = h.enc 4 sig.peer_asnumber ++ rest in
        let tail3 = ip ++ tail4 in
        let tail2 = sig.collector_str ++ tail3 in
        let tail1 = h.enc 2 n ++ tail2 in
        let parts : peer_bytes id sig ++ rest ≡ h.enc 2 id ++ tail1 =
          rw
            (
              append_assoc (h.enc 2 id)
                  (h.enc 2 n ++ (sig.collector_str ++ (ip ++ h.enc 4 sig.peer_asnumber))) rest,
              append_assoc (h.enc 2 n) (sig.collector_str ++ (ip ++ h.enc 4 sig.peer_asnumber))
                  rest,
              append_assoc sig.collector_str (ip ++ h.enc 4 sig.peer_asnumber) rest,
              append_assoc ip (h.enc 4 sig.peer_asnumber) rest,
            )
            refl in
        rw
          (
            parts,
            deserialize_val_lem h len 0 2 id tail1 (omega arith) lt (omega arith),
            deserialize_val_lem h len 2 2 n tail2 (omega arith) lt (omega arith),
            assert_room-le len 4 (n + 1) (omega (arith, length-ip_bytes sig.peer_ip_addr is)) lt,
            load-append n sig.collector_str tail3 refl,
            drop_append n sig.collector_str tail3 refl,
            deserialize_ip_lem len sig.peer_ip_addr tail4 is (omega arith) lt,
            drop_append (length ip) ip tail4 refl,
            deserialize_val_lem h len (4 + n + length ip) 4 sig.peer_asnumber rest (omega arith) lt
                (omega arith),
          )
          (ap (λ k. ok (id, sig, k)) (omega arith))

    -- In a buffer with room for it, a peer is written as its id, the name of its collector, its
    -- address and its AS number; read from a buffer that starts with these bytes, the id and the
    -- signature come back, with the number of bytes.
    pub deserialize_peer-serialize_peer :
        (rest : List ℕ)
        → (serialize_peer h len id sig ≡ ok (peer_bytes id sig))
          × (deserialize_peer h len (peer_bytes id sig ++ rest) ≡ ok (id, sig, peer_size sig))
    deserialize_peer-serialize_peer rest = (serialize_peer_lem, deserialize_peer_lem rest)

  -- Since the address is checked against the whole buffer, a peer with an IPv4 address and a name is
  -- written without an abort into a buffer that has room for its id and its name only, or for up to
  -- four bytes more: more bytes than the buffer has.
  pub serialize_peer_overruns :
      (len id : ℕ) (name a : List ℕ) (asn : ℕ)
      → length a ≡ 4
      → 0 < length name
      → length name < 2 ^ 16
      → length name + 4 ≤ len
      → len < length name + 9
      → let sig : PeerSig = record {
        collector_str = name;
        peer_ip_addr = v4 a;
        peer_asnumber = asn;
      } in
        (bytes : List ℕ) × (serialize_peer h len id sig ≡ ok bytes) × (len < length bytes)
  unfolding serialize_peer
  serialize_peer_overruns len id name a asn is some_name fits le lt =
      let sig : PeerSig = record {
        collector_str = name;
        peer_ip_addr = v4 a;
        peer_asnumber = asn;
      } in
      let n = length name in
      let small : n % 2 ^ 16 ≡ n = omega arith in
      let below : len < size_mod = omega arith in
      (
        peer_bytes id sig,
        rw
            (
              small,
              serialize_val_lem h len 0 2 id (omega arith) below,
              serialize_val_lem h len 2 2 n (omega arith) below,
              assert_room-le len 4 n (omega arith) below,
              load_all name,
              serialize_ip_lem len (v4 a) is (omega arith) below,
            )
            (ground arith),
        omega (
          arith,
          length-append (h.enc 2 id) (h.enc 2 n ++ (name ++ ((4 ∷ a) ++ h.enc 4 asn))),
          length-append (h.enc 2 n) (name ++ ((4 ∷ a) ++ h.enc 4 asn)),
          length-append name ((4 ∷ a) ++ h.enc 4 asn),
          length-append a (h.enc 4 asn),
          h.length_enc 2 id,
          h.length_enc 2 n,
          h.length_enc 4 asn,
        ),
      )
