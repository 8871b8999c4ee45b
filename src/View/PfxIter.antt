-- ===== src/View/PfxIter.antt =====
-- lib/bgpview.c, "PFX ITERATORS".
pub mod Order
pub mod Seek
use bgpview.Base.{
  ℕ, ◌+◌, Bool, true, false, not, Option, none, some, ltb, ◌==◌, length, drop, if◌then◌else◌,
}
use bgpview.Khash.Buckets.{slot}
use bgpview.Khash.Scan.{skip}
use bgpview.View.Field.{matches}
use bgpview.View.Types.{AddrVersion, unknown, ipv4, ipv6, PfxInfo, Env, View, Iter}
use bgpview.View.State.{
  Action, pure, fault, get_view, get_iter, put_iter, assert, ◌>>=◌, ◌>>◌, pfx_table,
}

-- Does the bucket hold a prefix in one of the states of the mask?
abbrev pub pfx_matches : {P : Type 0} → ℕ → Option (P × PfxInfo) → Bool
pfx_matches mask none = false
pfx_matches mask (some (p, info)) = matches mask info.state

module _ {E : Env} where
  -- __pfx_valid of the table of a version
  abbrev pub pfx_valid : AddrVersion → View E → Iter → Bool
  pfx_valid ver v it = not (it.pfx_it == length (pfx_table ver v))

  -- The last block of bgpview_iter_first_pfx, reached with version_ptr IPv6.
  unfoldable pub first_pfx_v6 : View E → Iter → Iter × Bool
  first_pfx_v6 v it =
      let found = record it {
        version_ptr = ipv6;
        pfx_it = skip (pfx_matches it.pfx_state_mask) v.v6pfxs 0;
      } in
      (found, pfx_valid ipv6 v found)

  -- The block for IPv4; with no prefix found it goes on to IPv6 only if no version is asked for.
  unfoldable pub first_pfx_v4 : View E → Iter → Iter × Bool
  unfolding first_pfx_v6
  first_pfx_v4 v it =
      let found = record it {
        version_ptr = ipv4;
        pfx_it = skip (pfx_matches it.pfx_state_mask) v.v4pfxs 0;
      } in
      if pfx_valid ipv4 v found
      then (found, true)
      else elim it.version_filter [ unknown ↦ first_pfx_v6 v found | _ ↦ (found, false) ]

  -- bgpview_iter_first_pfx
  unfoldable pub first_pfx : View E → AddrVersion → ℕ → Iter → Iter × Bool
  unfolding first_pfx_v4 first_pfx_v6
  first_pfx v ver mask it =
      let set = record it {
        version_filter = ver;
        pfx_state_mask = mask;
        pfx_peer_it_valid = false;
      } in
      elim ver [ ipv6 ↦ first_pfx_v6 v set | _ ↦ first_pfx_v4 v set ]

  -- The index of the next prefix that matches in the table of a version.
  abbrev pub next_pfx_it : AddrVersion → View E → Iter → ℕ
  next_pfx_it ver v it =
      skip (pfx_matches it.pfx_state_mask) (drop (it.pfx_it + 1) (pfx_table ver v)) (it.pfx_it + 1)

  -- __iter_next_pfx_v4 and __iter_next_pfx_v6
  unfoldable pub next_pfx_v4 : View E → Iter → Iter
  unfolding first_pfx
  next_pfx_v4 v it =
      let next = record it { pfx_it = next_pfx_it ipv4 v it } in
      if pfx_valid ipv4 v next then next else elim it.version_filter [
        | unknown ↦ (first_pfx v ipv6 it.pfx_state_mask next).0
        | _ ↦ next
      ]

  unfoldable pub next_pfx_v6 : View E → Iter → Iter
  next_pfx_v6 v it = record it { pfx_it = next_pfx_it ipv6 v it }

  -- __iter_next_pfx
  unfoldable pub next_pfx : View E → Iter → Iter
  unfolding next_pfx_v4 next_pfx_v6
  next_pfx v it =
      let moved = record it { pfx_peer_it_valid = false } in
      elim it.version_ptr [ ipv4 ↦ next_pfx_v4 v moved | _ ↦ next_pfx_v6 v moved ]

  -- __iter_has_more_pfx
  unfoldable pub has_more_pfx : View E → Iter → Bool
  has_more_pfx v it = elim it.version_ptr [
    | ipv4 ↦ pfx_valid ipv4 v it
    | ipv6 ↦ pfx_valid ipv6 v it
    | unknown ↦ false
  ]

  unfoldable pub iter_first_pfx : AddrVersion → ℕ → Action E Bool
  iter_first_pfx ver mask = do
    v ← get_view
    it ← get_iter
    put_iter (first_pfx v ver mask it).0
    pure (first_pfx v ver mask it).1

  -- Past the end of the table there is no bucket to read.
  unfoldable pub move_next_pfx : Action E (Unit {0})
  move_next_pfx = do
    v ← get_view
    it ← get_iter
    assert (ltb it.pfx_it (length (pfx_table it.version_ptr v)))
    put_iter (next_pfx v it)

  unfoldable pub iter_has_more_pfx : Action E Bool
  iter_has_more_pfx = do v ← get_view; it ← get_iter; pure (has_more_pfx v it)

  unfoldable pub iter_next_pfx : Action E Bool
  unfolding move_next_pfx iter_has_more_pfx
  iter_next_pfx = do move_next_pfx; iter_has_more_pfx

  -- kh_get in the prefix table of a version
  abbrev pub get_pfx : View E → AddrVersion → E.Pfx → ℕ
  get_pfx v ipv4 p = E.v4_hash.get v.v4pfxs p
  get_pfx v ipv6 p = E.v6_hash.get v.v6pfxs p
  get_pfx v unknown p = 0

  -- One case of the switch in bgpview_iter_seek_pfx: a prefix that does not match counts as missing.
  unfoldable pub settle_pfx : View E → AddrVersion → Iter → Iter × Bool
  settle_pfx v ver it =
      if it.pfx_it == length (pfx_table ver v)
      then (it, false)
      else if pfx_matches it.pfx_state_mask (slot (pfx_table ver v) it.pfx_it)
      then (it, true)
      else (record it { pfx_it = length (pfx_table ver v) }, false)

  -- bgpview_iter_seek_pfx; a prefix of an unknown version fails the assert
  unfoldable pub iter_seek_pfx : E.Pfx → ℕ → Action E Bool
  unfolding settle_pfx
  iter_seek_pfx p mask = do
    v ← get_view
    it ← get_iter
    let ver = E.version p
    let sought = record it {
      version_filter = ver;
      version_ptr = ver;
      pfx_state_mask = mask;
      pfx_peer_it_valid = false;
      pfx_peer_it = 0;
      pfx_it = get_pfx v ver p;
    }
    let settled = settle_pfx v ver sought
    elim ver [ unknown ↦ fault | _ ↦ (do put_iter settled.0; pure settled.1) ]
