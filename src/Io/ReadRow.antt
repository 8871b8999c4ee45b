-- ===== src/Io/ReadRow.antt =====
-- lib/io/bgpview_io.c: bgpview_io_deserialize_pfx_row.
pub mod Framing
pub mod Missing
use bgpview.Base.{
  ℕ, zero, suc, ◌+◌, ◌^◌, Bool, true, false, not, ◌&&◌, ◌||◌, Option, none, some, List, [], ◌∷◌,
  ltb, length, drop, ◌==◌, if◌then◌else◌,
}
use bgpview.View.Field.{FieldState, active, is_state, all_valid}
use bgpview.View.Types.{Env, State, Ret, minus_one}
use bgpview.View.PfxPeerIter.{iter_pfx_seek_peer, iter_seek_pfx_peer}
use bgpview.View.Create.{iter_add_pfx_peer_by_id, iter_pfx_add_peer_by_id}
use bgpview.View.Activate.{iter_pfx_activate_peer, iter_pfx_deactivate_peer}
use bgpview.Io.Outcome.{Outcome, ok, err, fault, size_sub}
use bgpview.Io.Ip.{BgpPfx, deserialize_pfx, deserialize_val}
use bgpview.Io.Path.{IoEnv, deserialize_as_path_store_path}
use bgpview.Io.Row.{
  Run, pure, fail, abort, run, lift, ◌>>=◌, ◌>>◌, assert, Answer, failed, reject, accept,
  end_of_peers,
}

-- The element of an array; a fault past its end.
abbrev pub element : List ℕ → ℕ → Outcome ℕ
element [] i = fault
element (x ∷ xs) zero = ok x
element (x ∷ xs) (suc i) = element xs i

-- The arguments that stay the same: whether there is an iterator, the callbacks, the two maps (with
-- `none` for a negative pathid_map_cnt), and whether entries are activated or deactivated.
pub record RowArgs {E : Env} (io : IoEnv E) : Type 0 where
  pub has_it : Bool
  pub pfx_cb : Option (BgpPfx → Answer)
  pub pfx_peer_cb : Option (io.StorePath → Answer)
  pub peerid_map : List ℕ
  pub pathid_map : Option (List ℕ)
  pub state : FieldState

-- Where the loop stands: what is left of the buffer, how much is read, the entries added and seen.
pub record RowPos : Type 0 where
  pub buf : List ℕ
  pub read : ℕ
  pub pfx_peers_added : ℕ
  pub pfx_peer_rx : ℕ

-- UINT16_MAX
abbrev pub max_rounds : ℕ
max_rounds = 65535

module _ {E : Env} (io : IoEnv E) (a : RowArgs io) (len : ℕ) (pfx : BgpPfx) (skip_pfx : Bool) where
  -- The id of the path of an entry, if the bytes have one, and the position after it.
  unfoldable pub read_path : RowPos → Run E (ℕ × RowPos)
  read_path l =
      if is_state active a.state
      then elim a.pathid_map [
        | some m ↦ (do
          (idx, rest) ← lift (deserialize_val io.host len l.read 4 l.buf)
          id ← if a.has_it then lift (element m idx) else pure 0
          pure (id, record l { buf = rest; read = l.read + 4 }))
        | none ↦ (do
          store ← λ s. ok (if a.has_it then some s.view.pathstore else none, s)
          (added, n) ← lift (deserialize_as_path_store_path io (size_sub len l.read) l.buf store)
          id ← elim added [
            | none ↦ pure 0
            | some (id, st) ↦ λ s. ok (id, record s { view = record s.view { pathstore = st } })
          ]
          pure (id, record l { buf = drop n l.buf; read = l.read + n }))
      ]
      else pure (0, l)

  -- bgpview_iter_add_pfx_peer_by_id and the like, which return -1 for an error
  abbrev check : Ret → Run E (Unit {0})
  check minus_one = fail
  check _ = pure tt

  -- An entry that is to be active is added and activated.
  unfoldable pub add_entry : ℕ → ℕ → RowPos → Run E RowPos
  add_entry peerid pathid l = do
    answer ← elim a.pfx_peer_cb [
      | none ↦ pure accept
      | some f ↦ λ s. ok (f (io.get_store_path s.view.pathstore pathid), s)
    ]
    elim answer [
      | failed ↦ fail
      | reject ↦ pure l
      | accept ↦ (do
        id ← lift (element a.peerid_map peerid)
        r ←
            if l.pfx_peers_added == 0
            then run (iter_add_pfx_peer_by_id (io.from_pfx pfx) id pathid)
            else run (iter_pfx_add_peer_by_id id pathid)
        check r
        t ← run iter_pfx_activate_peer
        check t
        pure (record l { pfx_peers_added = l.pfx_peers_added + 1 }))
    ]

  -- An entry that is to be inactive is sought, and deactivated if it is there.
  unfoldable pub drop_entry : ℕ → RowPos → Run E RowPos
  drop_entry peerid l = do
    id ← lift (element a.peerid_map peerid)
    found ←
        if l.pfx_peers_added == 0
        then run (iter_seek_pfx_peer (io.from_pfx pfx) id all_valid all_valid)
        else run (iter_pfx_seek_peer id all_valid)
    elim found [ true ↦ (do _ ← run iter_pfx_deactivate_peer; pure tt) | false ↦ pure tt ]
    pure (record l { pfx_peers_added = l.pfx_peers_added + 1 })

  unfoldable pub read_entry : ℕ → RowPos → Run E RowPos
  unfolding read_path add_entry drop_entry
  read_entry peerid l = do
    (pathid, l1) ← read_path l
    if not a.has_it || skip_pfx then pure l1 else (do
      assert (ltb peerid (length a.peerid_map))
      if is_state active a.state then add_entry peerid pathid l1 else drop_entry peerid l1)

  -- The loop, for so many more rounds.
  unfoldable pub read_entries : ℕ → RowPos → Run E RowPos
  read_entries zero l = pure l
  read_entries (suc n) l = do
    (x, rest) ← lift (deserialize_val io.host len l.read 2 l.buf)
    let peerid = io.host.ntohs x
    let l1 = record l { buf = rest; read = l.read + 2 }
    elim (peerid == end_of_peers) [
      | true ↦ pure l1
      | false ↦ (do
        l2 ← read_entry peerid (record l1 { pfx_peer_rx = l1.pfx_peer_rx + 1 })
        read_entries n l2)
    ]

module _ {E : Env} (io : IoEnv E) (a : RowArgs io) where
  -- Does the caller leave out the prefix?
  unfoldable pub skips_pfx : BgpPfx → Run E Bool
  skips_pfx pfx = elim a.pfx_cb [
    | none ↦ pure false
    | some f ↦
        if is_state active a.state
        then elim (f pfx) [ failed ↦ fail | reject ↦ pure true | accept ↦ pure false ]
        else pure false
  ]

  -- The number of bytes read.
  unfoldable pub deserialize_pfx_row : ℕ → List ℕ → Run E ℕ
  unfolding skips_pfx
  deserialize_pfx_row len buf = do
    (pfx, s) ← lift (deserialize_pfx io.host len buf)
    skip ← skips_pfx pfx
    l ←
        read_entries io a len pfx skip max_rounds
          (record { buf = drop s buf; read = s; pfx_peers_added = 0; pfx_peer_rx = 0 })
    (x, rest) ← lift (deserialize_val io.host len l.read 2 l.buf)
    assert (io.host.ntohs x == l.pfx_peer_rx)
    pure (l.read + 2)
