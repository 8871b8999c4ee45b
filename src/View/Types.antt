-- ===== src/View/Types.antt =====
-- lib/bgpview.c: the structures of a view. A pointer to user data is its address, 0 for NULL, and
-- so is a pointer to a destructor.
use bgpview.Base.{ℕ, Bool, Option, List}
use bgpview.Khash.Buckets.{Buckets}
use bgpview.Khash.Interface.{Khash}
use bgpview.View.Field.{FieldState, Counts}

-- bgpstream_addr_version_t; UNKNOWN is 0
pub data AddrVersion : Type 0 where
  unknown ipv4 ipv6 : AddrVersion

-- bwv_pfx_peerinfo_t and bwv_pfx_peerinfo_ext_t; a view without extended data leaves `user` alone
pub record PfxPeerInfo : Type 0 where
  pub as_path_id : ℕ
  pub state : FieldState
  pub user : ℕ

-- bwv_peerid_pfxinfo_t; `peers` is `none` before the table is made
pub record PfxInfo : Type 0 where
  pub peers : Option (Buckets ℕ PfxPeerInfo)
  pub peers_cnt : Counts
  pub state : FieldState
  pub user : ℕ

-- bwv_peerinfo_t
pub record PeerInfo : Type 0 where
  pub v4_pfx_cnt : Counts
  pub v6_pfx_cnt : Counts
  pub state : FieldState
  pub user : ℕ

-- What the view uses of libbgpstream and of khash.h, neither of which is part of the repository.
pub record Env : Type 1 where
  -- bgpstream_pfx_t, as the key of the prefix tables, and its address version
  pub Pfx : Type 0
  pub version : Pfx → AddrVersion
  -- a collector, an address and an AS number; the map between these and peer ids
  pub Sig : Type 0
  pub SigMap : Type 0
  pub get_id : SigMap → Sig → ℕ × SigMap
  pub get_sig : SigMap → ℕ → Option Sig
  pub peer_asnumber : Sig → ℕ
  -- the AS path store; `none` where bgpstream_as_path_store_get_path_id fails
  pub AsPath : Type 0
  pub PathStore : Type 0
  pub get_path_id : PathStore → AsPath → ℕ → Option ℕ × PathStore
  -- the four instances of KHASH_INIT (the two layouts of the innermost one count as one)
  pub v4_hash : Khash Pfx PfxInfo
  pub v6_hash : Khash Pfx PfxInfo
  pub peers_hash : Khash ℕ PfxPeerInfo
  pub peerinfo_hash : Khash ℕ PeerInfo

-- struct bgpview
pub record View (E : Env) : Type 0 where
  pub time : ℕ
  pub time_created : ℕ
  pub v4pfxs : Buckets E.Pfx PfxInfo
  pub v4pfxs_cnt : Counts
  pub v6pfxs : Buckets E.Pfx PfxInfo
  pub v6pfxs_cnt : Counts
  pub peersigns : E.SigMap
  pub peersigns_shared : Bool
  pub pathstore : E.PathStore
  pub pathstore_shared : Bool
  pub peerinfo : Buckets ℕ PeerInfo
  pub peerinfo_cnt : Counts
  pub user_destructor : ℕ
  pub peer_user_destructor : ℕ
  pub pfx_user_destructor : ℕ
  pub pfx_peer_user_destructor : ℕ
  pub state : FieldState
  pub user : ℕ
  pub disable_extended : Bool
  pub need_gc_v4pfxs : Bool
  pub need_gc_v6pfxs : Bool
  pub need_gc_peerinfo : Bool

-- struct bgpview_iter, without its pointer to the view and the AS path iterator of libbgpstream
pub record Iter : Type 0 where
  pub version_ptr : AddrVersion
  pub version_filter : AddrVersion
  pub pfx_it : ℕ
  pub pfx_state_mask : ℕ
  pub pfx_peer_it : ℕ
  pub pfx_peer_it_valid : Bool
  pub pfx_peer_state_mask : ℕ
  pub peer_it : ℕ
  pub peer_state_mask : ℕ

-- A call of a destructor: the function and the pointer that it is given.
pub record Call : Type 0 where
  pub destructor : ℕ
  pub pointer : ℕ

-- What an operation on an iterator works on: the view, the iterator, and the destructor calls made.
pub record State (E : Env) : Type 0 where
  pub view : View E
  pub iter : Iter
  pub calls : List Call

-- The value of an int function that reports a failure (-1), nothing done or success (0), or a
-- change (1).
pub data Ret : Type 0 where
  minus_one zero_ret one_ret : Ret
