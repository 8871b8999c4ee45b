-- ===== src/Io/Peer.antt =====
-- lib/io/bgpview_io.c: the signature of a peer.
pub mod RoundTrip
use bgpview.Base.{ℕ, ◌+◌, ◌%◌, ◌^◌, Bool, List, ◌++◌, leb, length, take, drop}
use bgpview.Io.Outcome.{Outcome, ok, err, fault, ◌>>=◌, ◌>>◌, assert_room}
use bgpview.Io.Host.{Host}
use bgpview.Io.Ip.{IpAddr, load, serialize_ip, deserialize_ip, serialize_val, deserialize_val}

-- bgpstream_peer_sig_t; the name of the collector is the bytes before its NUL
pub record PeerSig : Type 0 where
  pub collector_str : List ℕ
  pub peer_ip_addr : IpAddr
  pub peer_asnumber : ℕ

module _ (h : Host) where
  -- The address is given the length of the whole buffer, and not of what is left of it.
  unfoldable pub serialize_peer : ℕ → ℕ → PeerSig → Outcome (List ℕ)
  unfolding serialize_ip
  serialize_peer len id sig = do
    b1 ← serialize_val h len 0 2 id
    let nlen = length sig.collector_str % 2 ^ 16
    b2 ← serialize_val h len 2 2 nlen
    assert_room len 4 nlen
    b3 ← load nlen sig.collector_str
    b4 ← serialize_ip len sig.peer_ip_addr
    b5 ← serialize_val h len (4 + nlen + length b4) 4 sig.peer_asnumber
    ok (b1 ++ (b2 ++ (b3 ++ (b4 ++ b5))))

  -- The id, the signature, and the number of bytes read.
  unfoldable pub deserialize_peer : ℕ → List ℕ → Outcome (ℕ × PeerSig × ℕ)
  unfolding deserialize_ip
  deserialize_peer len buf = do
    (id, buf1) ← deserialize_val h len 0 2 buf
    (nlen, buf2) ← deserialize_val h len 2 2 buf1
    assert_room len 4 (nlen + 1)
    name ← load nlen buf2
    let buf3 = drop nlen buf2
    (ip, s) ← deserialize_ip len buf3
    (asn, rest) ← deserialize_val h len (4 + nlen + s) 4 (drop s buf3)
    ok (
      id,
      record { collector_str = name; peer_ip_addr = ip; peer_asnumber = asn },
      4 + nlen + s + 4,
    )
