-- ===== src/Moas/Table.antt =====
-- lib/consumers/bvc_moas.c: the table of the MOASes in the window.
use bgpview.Base.{ℕ, none, some, [], length, ltb, ◌==◌, if◌then◌else◌}
use bgpview.Khash.Buckets.{Buckets, slot, put_val}
use bgpview.Khash.Walk.{Change, keep, set, delete, for_each}
use bgpview.View.Types.{Env}
use bgpview.Io.Outcome.{Outcome, ok, fault, ◌>>=◌}
use bgpview.Moas.Types.{
  Category, new, newrec, ongoing, finished, MoasProperties, MoasSignature, MoasInfo, Moases,
  MoasEnv, Event, Log, write_event,
}

-- The entry at an index; a fault where there is none.
abbrev pub entry_at : {K V : Type 0} → Buckets K V → ℕ → Outcome (K × V)
entry_at t i = elim (slot t i) [ none ↦ fault | some e ↦ ok e ]

module _ {E : Env} (m : MoasEnv E) where
  -- The first part of add_moas: the index of the prefix, which is put in if it is not there.
  unfoldable pub find_pfx : E.Pfx → Moases E.Pfx → Moases E.Pfx × ℕ
  find_pfx pfx t =
      let k = m.moases_hash.get t pfx in
      let r = m.moases_hash.put t pfx in
      if k == length t then (put_val r.table r.at [], r.at) else (t, k)

  -- A MOAS that is there: its category, and the map after it.
  unfoldable pub again : ℕ → ℕ → ℕ → MoasInfo → MoasProperties → Category × MoasInfo
  again ts last_valid_ts k t mp =
      if mp.start == 0
      then (
        if ltb mp.end last_valid_ts then new else newrec,
        put_val t k (record mp { start = ts; end = ts }),
      )
      else (ongoing, put_val t k (record mp { end = ts }))

  -- The second part: the category of the MOAS, and the map of the prefix after it.
  unfoldable pub note_ms : MoasSignature → ℕ → ℕ → MoasInfo → Outcome (Category × MoasInfo)
  unfolding again
  note_ms ms ts last_valid_ts t =
      let key = m.qsort ms in
      let k = m.moasinfo_hash.get t key in
      let r = m.moasinfo_hash.put t key in
      if k == length t
      then ok (new, put_val r.table r.at (record { first_seen = ts; start = ts; end = ts }))
      else (do (_, mp) ← entry_at t k; ok (again ts last_valid_ts k t mp))

  -- add_moas up to its call of log_moas
  unfoldable pub note_moas :
      E.Pfx → MoasSignature → ℕ → ℕ → Moases E.Pfx → Outcome (Category × Moases E.Pfx)
  note_moas pfx ms ts last_valid_ts t = do
    let (t1, k) = find_pfx pfx t
    (_, per_pfx_moases) ← entry_at t1 k
    (mc, per) ← note_ms ms ts last_valid_ts per_pfx_moases
    ok (mc, put_val t1 k per)

  module _ (ts last_valid_ts : ℕ) where
    abbrev pub finished_event : E.Pfx → MoasSignature → Event E.Pfx
    finished_event pfx ms = record { ts = ts; pfx = pfx; ms = ms; mc = finished; paths = [] }

    -- clean_moas on one MOAS
    unfoldable pub clean_ms :
        E.Pfx → MoasSignature → MoasProperties → Log E.Pfx → Change MoasProperties × Log E.Pfx
    unfolding write_event
    clean_ms pfx ms mp l =
        if ltb mp.end last_valid_ts
        then (delete, l)
        else if ltb mp.end ts
        then if ltb 0 mp.start
          then (set (record mp { start = 0 }), write_event (finished_event pfx ms) l)
          else (keep, l)
        else (keep, l)

    -- on the MOASes of a prefix
    unfoldable pub clean_pfx : E.Pfx → MoasInfo → Log E.Pfx → Change MoasInfo × Log E.Pfx
    unfolding clean_ms for_each
    clean_pfx pfx per_pfx_moases l =
        let r = for_each m.moasinfo_hash (clean_ms pfx) per_pfx_moases l in (set r.0, r.1)

    unfoldable pub clean_moas : Moases E.Pfx → Log E.Pfx → Moases E.Pfx × Log E.Pfx
    unfolding clean_pfx for_each
    clean_moas t l = for_each m.moases_hash clean_pfx t l
