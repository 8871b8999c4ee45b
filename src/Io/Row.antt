-- ===== src/Io/Row.antt =====
-- lib/io/bgpview_io.c: a prefix with its active entries (a "row").
pub mod Ends
pub mod Written
use bgpview.Base.{
  ◌≡◌, refl, ℕ, zero, suc, ◌+◌, ◌%◌, ◌^◌, Bool, true, false, Option, none, some, List, [], ◌++◌,
  ltb, length, ◌==◌, if◌then◌else◌,
}
use bgpview.View.Field.{field_active}
use bgpview.View.Types.{Env, State}
use bgpview.View.State.{Action}
use bgpview.View.PfxPeerIter.{pfx_peerinfos, iter_pfx_first_peer, iter_pfx_next_peer}
use bgpview.View.Store.{get_peer_id}
use bgpview.View.Access.{iter_pfx_get_pfx, iter_pfx_peer_get_as_path_store_path_id}
use bgpview.View.Activate.{peer_fuel}
use bgpview.Io.Outcome.{Outcome, ok, err, fault, size_sub}
use bgpview.Io.Ip.{serialize_pfx, serialize_val}
use bgpview.Io.Path.{IoEnv, serialize_as_path_store_path}

-- A function on a view through an iterator that may also report an error.
abbrev pub Run : Env → Type 0 → Type 0
Run E A = State E → Outcome (A × State E)

module _ {E : Env} {A : Type 0} where
  abbrev pub pure : A → Run E A
  pure a s = ok (a, s)

  abbrev pub fail : Run E A
  fail s = err

  abbrev pub abort : Run E A
  abort s = fault

  -- An operation on the view, whose fault is an abort.
  abbrev pub run : Action E A → Run E A
  run m s = elim (m s) [ none ↦ fault | some r ↦ ok r ]

  -- A function on bytes.
  abbrev pub lift : Outcome A → Run E A
  lift (ok a) s = ok (a, s)
  lift err s = err
  lift fault s = fault

module _ {E : Env} {A B : Type 0} where
  infixl 5 ◌>>=◌
  abbrev pub ◌>>=◌ : Run E A → (A → Run E B) → Run E B
  ◌>>=◌ m f s = elim (m s) [ ok (a, s') ↦ f a s' | err ↦ err | fault ↦ fault ]

module _ {E : Env} {B : Type 0} where
  infixl 5 ◌>>◌
  abbrev pub ◌>>◌ : Run E (Unit {0}) → Run E B → Run E B
  m >> k = m >>= λ _. k

-- A run that ends well has ended well in its first part.
pub bind-ok :
    {E : Env} {A B : Type 0} (m : Run E A) (f : A → Run E B) (b : B) (s s' : State E)
    → (m >>= f) s ≡ ok (b, s')
    → (a : A) × (s1 : State E) × (m s ≡ ok (a, s1)) × (f a s1 ≡ ok (b, s'))
bind-ok {E} {A} {B} m f b s s' e = from (m s) refl e
  where
    from :
        (o : Outcome (A × State E))
        → m s ≡ o
        → elim o [ ok (a, s1) ↦ f a s1 | err ↦ err | fault ↦ fault ] ≡ ok (b, s')
        → (a : A) × (s1 : State E) × (m s ≡ ok (a, s1)) × (f a s1 ≡ ok (b, s'))
    from (ok (a, s1)) q d = (a, s1, q, d)
    from err q d = cc
    from fault q d = cc

abbrev pub assert : {E : Env} → Bool → Run E (Unit {0})
assert true s = ok (tt, s)
assert false s = fault

-- What a filter callback returns: a negative number, 0 or another one.
pub data Answer : Type 0 where
  failed reject accept : Answer

-- The values of `use_pathid`: 1, 0 and others.
pub data PathMode : Type 0 where
  index full omitted : PathMode

-- BGPVIEW_IO_END_OF_PEERS
abbrev pub end_of_peers : ℕ
end_of_peers = 0xffff

-- The bytes of a row, and how many entries it has.
pub record Row : Type 0 where
  pub bytes : List ℕ
  pub peers_cnt : ℕ

module _ {E : Env} (io : IoEnv E) (cb : Option (State E → Answer)) (use_pathid : PathMode) where
  -- The path of the current entry.
  abbrev pub get_path : Run E io.StorePath
  get_path = do
    id ← run iter_pfx_peer_get_as_path_store_path_id
    λ s. ok (io.get_store_path s.view.pathstore id, s)

  -- bgpview_io_serialize_pfx_peer; no bytes for an entry that the callback does not want
  unfoldable pub serialize_pfx_peer : ℕ → Run E (List ℕ)
  serialize_pfx_peer len = do
    answer ← λ s. elim cb [ none ↦ ok (accept, s) | some f ↦ ok (f s, s) ]
    elim answer [
      | failed ↦ fail
      | reject ↦ pure []
      | accept ↦ (do
        peerid ← run get_peer_id
        assert (ltb 0 peerid)
        assert (ltb peerid end_of_peers)
        b1 ← lift (serialize_val io.host len 0 2 (io.host.htons peerid))
        spath ← get_path
        b2 ← elim use_pathid [
          | index ↦ lift (serialize_val io.host len 2 4 (io.path_idx spath))
          | full ↦ lift (serialize_as_path_store_path io (size_sub len 2) spath)
          | omitted ↦ pure []
        ]
        pure (b1 ++ b2))
    ]

  -- The loop of bgpview_io_serialize_pfx_peers, where so many bytes of the buffer are used.
  unfoldable pub serialize_loop : ℕ → ℕ → ℕ → Run E Row
  serialize_loop zero len written = abort
  serialize_loop (suc fuel) len written = do
    it ← λ s. ok (s.iter, s)
    elim it.pfx_peer_it_valid [
      | false ↦ pure (record { bytes = []; peers_cnt = 0 })
      | true ↦ (do
        b ← serialize_pfx_peer (size_sub len written)
        _ ← run iter_pfx_next_peer
        rest ← serialize_loop fuel len (written + length b)
        pure (record {
          bytes = b ++ rest.bytes;
          peers_cnt = if length b == 0 then rest.peers_cnt else suc rest.peers_cnt;
        }))
    ]

  unfoldable pub serialize_pfx_peers : ℕ → Run E Row
  unfolding serialize_loop
  serialize_pfx_peers len = do
    info ← run pfx_peerinfos
    _ ← run (iter_pfx_first_peer field_active)
    serialize_loop (peer_fuel info) len 0

  -- No bytes for a prefix without entries.
  unfoldable pub serialize_pfx_row : ℕ → Run E Row
  unfolding serialize_pfx_peers
  serialize_pfx_row len = do
    pfx ← run iter_pfx_get_pfx
    b1 ← lift (serialize_pfx io.host len (io.to_pfx pfx))
    row ← serialize_pfx_peers (size_sub len (length b1))
    let written = length b1 + length row.bytes
    if row.peers_cnt == 0 then pure (record { bytes = []; peers_cnt = 0 }) else (do
      b2 ← lift (serialize_val io.host len written 2 end_of_peers)
      b3 ← lift (serialize_val io.host len (written + 2) 2 (io.host.htons (row.peers_cnt % 2 ^ 16)))
      pure (record { bytes = b1 ++ (row.bytes ++ (b2 ++ b3)); peers_cnt = row.peers_cnt }))
