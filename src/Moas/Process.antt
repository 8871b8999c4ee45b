-- ===== src/Moas/Process.antt =====
-- lib/consumers/bvc_moas.c: a view is processed.
pub mod Ends
pub mod Signature
pub mod Detection
pub mod Windows
use bgpview.Base.{
  ℕ, zero, suc, ◌+◌, ◌-◌, ◌%◌, ◌^◌, Bool, true, false, none, some, List, [], ◌∷◌, ◌++◌, length, ltb,
  ◌==◌, if◌then◌else◌,
}
use bgpview.View.Field.{active, field_active}
use bgpview.View.Types.{AddrVersion, unknown, Env, View, State}
use bgpview.View.State.{get_view}
use bgpview.View.PfxIter.{iter_first_pfx, iter_next_pfx, iter_has_more_pfx}
use bgpview.View.PfxIter.Order.{pfx_rounds}
use bgpview.View.PfxPeerIter.{
  pfx_peerinfos, iter_pfx_first_peer, iter_pfx_has_more_peer, iter_pfx_next_peer,
}
use bgpview.View.Store.{get_peer_id}
use bgpview.View.Access.{iter_pfx_get_pfx, iter_pfx_peer_get_as_path_store_path_id}
use bgpview.View.Activate.{peer_fuel, new_iter}
use bgpview.Io.Outcome.{Outcome, ok, fault}
use bgpview.Io.Row.{Run, pure, fail, abort, run, lift, ◌>>=◌, ◌>>◌}
use bgpview.Moas.Types.{
  Category, new, newrec, ongoing, finished, MoasSignature, MoasEnv, Seg, asn, other_seg, Event, Log,
  MoasState, write_event,
}
use bgpview.Moas.Table.{note_moas, clean_moas}

-- MAX_UNIQUE_ORIGINS
abbrev pub max_unique_origins : ℕ
max_unique_origins = 128

-- Is the AS number one of the origins?
abbrev pub has_origin : ℕ → MoasSignature → Bool
has_origin n [] = false
has_origin n (x ∷ ms) = if x == n then true else has_origin n ms

-- A new origin is added; a fault past the end of the array.
unfoldable pub add_origin : ℕ → MoasSignature → Outcome MoasSignature
add_origin n ms =
    if has_origin n ms
    then ok ms
    else if ltb (length ms) max_unique_origins
    then ok (ms ++ (n ∷ []))
    else fault

module _ {E : Env} {A : Type 0} (body : A → Run E A) where
  -- `for (bgpview_iter_pfx_first_peer(..); bgpview_iter_pfx_has_more_peer(..); ..)`
  unfoldable pub peers_loop : ℕ → A → Run E A
  peers_loop zero a = abort
  peers_loop (suc fuel) a = do
    more ← run iter_pfx_has_more_peer
    elim more [
      | false ↦ pure a
      | true ↦ (do b ← body a; _ ← run iter_pfx_next_peer; peers_loop fuel b)
    ]

  unfoldable pub for_active_peers : A → Run E A
  unfolding peers_loop
  for_active_peers a = do
    info ← run pfx_peerinfos
    _ ← run (iter_pfx_first_peer field_active)
    peers_loop (peer_fuel info) a

  -- `for (bgpview_iter_first_pfx(..); bgpview_iter_has_more_pfx(..); bgpview_iter_next_pfx(..))`
  unfoldable pub pfxs_loop : ℕ → A → Run E A
  pfxs_loop zero a = abort
  pfxs_loop (suc fuel) a = do
    more ← run iter_has_more_pfx
    elim more [ false ↦ pure a | true ↦ (do b ← body a; _ ← run iter_next_pfx; pfxs_loop fuel b) ]

  unfoldable pub for_active_pfxs : A → Run E A
  unfolding pfxs_loop
  for_active_pfxs a = do
    v ← run get_view
    _ ← run (iter_first_pfx unknown field_active)
    pfxs_loop (pfx_rounds v) a

-- The part before the loop, for the time of a view: where the window begins, and the state.
unfoldable pub start_view : {P : Type 0} → ℕ → MoasState P → ℕ × MoasState P
start_view time state =
    let last_valid_ts = (time + 2 ^ 32 - state.window_size) % 2 ^ 32 in
    let first_ts = if state.first_ts == 0 then time else state.first_ts in
    (
      last_valid_ts,
      record state {
        first_ts = first_ts;
        current_window_size =
            if ltb last_valid_ts first_ts
            then (time + 2 ^ 32 - first_ts) % 2 ^ 32
            else state.window_size;
        log = record {
          wandio_fh = [];
          new_moas_pfxs_count = 0;
          new_recurring_moas_pfxs_count = 0;
          ongoing_moas_pfxs_count = 0;
          finished_moas_pfxs_count = 0;
        };
      },
    )

module _ {E : Env} (m : MoasEnv E) where
  -- The path of an entry of a full-feed peer is added to the line.
  unfoldable pub log_path : AddrVersion → List ℕ → Run E (List ℕ)
  log_path version paths = do
    peerid ← run get_peer_id
    if m.full_feed_peer_ids version peerid
        then (do
          path_id ← run iter_pfx_peer_get_as_path_store_path_id
          pure (paths ++ (path_id ∷ [])))
        else pure paths

  unfoldable pub log_moas : E.Pfx → MoasSignature → Category → ℕ → Log E.Pfx → Run E (Log E.Pfx)
  unfolding write_event for_active_peers
  log_moas pfx ms mc ts l = do
    let line = for_active_peers (log_path (E.version pfx)) []
    paths ← elim mc [ new ↦ line | newrec ↦ line | ongoing ↦ pure [] | finished ↦ pure [] ]
    pure (write_event (record { ts = ts; pfx = pfx; ms = ms; mc = mc; paths = paths }) l)

  unfoldable pub add_moas : MoasSignature → ℕ → ℕ → MoasState E.Pfx → Run E (MoasState E.Pfx)
  add_moas ms ts last_valid_ts state = do
    pfx ← run iter_pfx_get_pfx
    (mc, moases) ← lift (note_moas m pfx ms ts last_valid_ts state.current_moases)
    l ← log_moas pfx (m.qsort ms) mc ts state.log
    pure (record state { current_moases = moases; log = l })

  -- The origin of an entry, if its peer is a full-feed one and it is an AS number.
  unfoldable pub collect_origin : AddrVersion → MoasSignature → Run E MoasSignature
  unfolding add_origin
  collect_origin version ms = do
    peerid ← run get_peer_id
    if m.full_feed_peer_ids version peerid
        then (do
          path_id ← run iter_pfx_peer_get_as_path_store_path_id
          seg ← λ s. ok (m.origin_seg s.view.pathstore path_id, s)
          elim seg [
            | none ↦ fail
            | some other_seg ↦ pure ms
            | some (asn n) ↦ lift (add_origin n ms)
          ])
        else pure ms

  -- The body of the loop over prefixes.
  unfoldable pub process_pfx : ℕ → ℕ → MoasState E.Pfx → Run E (MoasState E.Pfx)
  unfolding for_active_peers
  process_pfx ts last_valid_ts state = do
    pfx ← run iter_pfx_get_pfx
    if m.blacklist_pfxs pfx then pure state else (do
      ms ← for_active_peers (collect_origin (E.version pfx)) []
      if ltb 1 (length ms) then add_moas ms ts last_valid_ts state else pure state)

  -- The loop over prefixes, and the cleaning after it.
  unfoldable pub process_pfxs : ℕ → ℕ → MoasState E.Pfx → Run E (MoasState E.Pfx)
  unfolding for_active_pfxs
  process_pfxs ts last_valid_ts started = do
    state ← for_active_pfxs (process_pfx ts last_valid_ts) started
    let r = clean_moas m ts last_valid_ts state.current_moases state.log
    pure (record state { current_moases = r.0; log = r.1 })

  -- The iterator is one of the function's own.
  unfoldable pub process_view : MoasState E.Pfx → Run E (MoasState E.Pfx)
  unfolding start_view process_pfxs
  process_view state s =
      let v = s.view in
      let start = start_view v.time state in
      process_pfxs v.time start.0 start.1 (record s { iter = new_iter v })
