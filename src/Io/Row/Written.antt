-- ===== src/Io/Row/Written.antt =====
-- What is written for a prefix with path indices is a row that a reader passes over.
use bgpview.Base.{
  ℕ, zero, suc, ◌+◌, ◌%◌, ◌^◌, ◌≤◌, ◌<◌, ◌≡◌, refl, ap, ap₂, subst, ◌∙◌, Bool, true, false, none,
  List, [], ◌∷◌, ◌++◌, arith, length, leb, ltb, length-append, ◌==◌, if◌then◌else◌, ◌⊎◌, inl, inr,
  Bool-cases,
}
use mathlib.Core.List.{append_assoc}
use bgpview.View.Types.{Env, State}
use bgpview.View.Store.{get_peer_id}
use bgpview.View.Access.{iter_pfx_get_pfx}
use bgpview.View.PfxPeerIter.{pfx_peerinfos, iter_pfx_first_peer, iter_pfx_next_peer}
use bgpview.View.Field.{field_active}
use bgpview.View.Activate.{peer_fuel}
use bgpview.Io.Outcome.{◌>>=◌, bound-ok, Outcome, ok, size_mod, size_sub}
use bgpview.Io.Host.{Host}
use bgpview.Io.Ip.{BgpPfx, v4, v6, no_version, IpAddr, serialize_ip, serialize_pfx, serialize_val}
use bgpview.Io.Ip.RoundTrip.{IsAddress, ip_bytes, pfx_bytes}
use bgpview.Io.Path.{IoEnv}
use bgpview.Io.Row.{
  run, lift, assert, Row, index, end_of_peers, get_path, serialize_pfx_peer, serialize_loop,
  serialize_pfx_peers, serialize_pfx_row,
}
use bgpview.Io.Row.Ends.{Ends, Ends-bind, Ends-after, Ends-pure, Ends-if, Ends-ite, Ends-lift}
use bgpview.Io.ReadRow.{deserialize_pfx_row}
use bgpview.Io.ReadRow.Framing.{
  entries_bytes, row_bytes, EntriesFit, skim, deserialize_pfx_row-row_bytes,
}

module _ (h : Host) where
  serialize_val_ok : (len n w x : ℕ) (b : List ℕ) → serialize_val h len n w x ≡ ok b → b ≡ h.enc w x
  serialize_val_ok len n w x b e = elim (Bool-cases (leb w (size_sub len n))) [
    | inl q ↦ ground arith
    | inr q ↦ ground arith
  ]

  serialize_ip_ok :
      (len : ℕ) (ip : IpAddr) (b : List ℕ) → serialize_ip len ip ≡ ok b → b ≡ ip_bytes ip
  unfolding serialize_ip
  serialize_ip_ok len (v4 a) b e = ground arith
  serialize_ip_ok len (v6 a) b e = ground arith
  serialize_ip_ok len no_version b e = cc

-- An assert that holds.
Ends-assert : (E : Env) (c : Bool) → Ends {E = E} (assert c) (λ _. c ≡ true)
unfolding Ends
Ends-assert E true b s s' e = refl
Ends-assert E false b s s' e = cc

module _ {E : Env} (io : IoEnv E) (idx_fits : (p : io.StorePath) → io.path_idx p < 2 ^ 32) where
  -- The bytes of an entry.
  abbrev IsEntry : List ℕ → Type 0
  IsEntry b =
      (id : ℕ) × (idx : ℕ) × (b ≡ io.host.enc 2 (io.host.htons id) ++ io.host.enc 4 idx)
      × (id < end_of_peers)
      × (idx < 2 ^ 32)

  serialize_pfx_peer-IsEntry : (len : ℕ) → Ends (serialize_pfx_peer io none index len) IsEntry
  unfolding serialize_pfx_peer
  serialize_pfx_peer-IsEntry len = Ends-after (run get_peer_id) _ IsEntry (λ id.
      Ends-after (assert (ltb 0 id)) _ IsEntry (λ _.
        Ends-bind (assert (ltb id end_of_peers)) _ (λ _. ltb id end_of_peers ≡ true) IsEntry
          (Ends-assert E (ltb id end_of_peers))
          (λ _ below.
            Ends-bind (lift (serialize_val io.host len 0 2 (io.host.htons id))) _
              (λ b1. b1 ≡ io.host.enc 2 (io.host.htons id)) IsEntry
              (Ends-lift E (serialize_val io.host len 0 2 (io.host.htons id)) _
                (λ b e. serialize_val_ok io.host len 0 2 (io.host.htons id) b e))
              (λ b1 is1. Ends-after (get_path io none index) _ IsEntry (λ spath.
                Ends-bind (lift (serialize_val io.host len 2 4 (io.path_idx spath))) _
                  (λ b2. b2 ≡ io.host.enc 4 (io.path_idx spath)) IsEntry
                  (Ends-lift E (serialize_val io.host len 2 4 (io.path_idx spath)) _
                    (λ b e. serialize_val_ok io.host len 2 4 (io.path_idx spath) b e))
                  (λ b2 is2.
                    Ends-pure E (b1 ++ b2) IsEntry
                      (id, io.path_idx spath, ap₂ ◌++◌ is1 is2, less below, idx_fits spath)))))))
    where
      less : {a b : ℕ} → ltb a b ≡ true → a < b
      less q = ground arith

  -- The bytes of entries, and their number.
  abbrev AreEntries : Row → Type 0
  AreEntries row =
      (es : List (ℕ × ℕ)) × (row.bytes ≡ entries_bytes io.host es)
      × (row.peers_cnt ≡ length es)
      × EntriesFit es

  one_more :
      (b : List ℕ) (rest : Row)
      → IsEntry b
      → AreEntries rest
      → AreEntries (record {
        bytes = b ++ rest.bytes;
        peers_cnt = if length b == 0 then rest.peers_cnt else suc rest.peers_cnt;
      })
  one_more b rest (id, idx, is, id_fits, fits) (es, bytes, cnt, all) =
      let first = io.host.enc 2 (io.host.htons id) in
      let some_bytes : length b ≡ 6 =
        ap (λ (x : List ℕ). length x) is
        ∙ omega (
          arith,
          length-append first (io.host.enc 4 idx),
          io.host.length_enc 2 (io.host.htons id),
          io.host.length_enc 4 idx,
        ) in
      (
        (id, idx) ∷ es,
        ap₂ ◌++◌ is bytes ∙ append_assoc first (io.host.enc 4 idx) (entries_bytes io.host es),
        rw some_bytes (ap suc cnt),
        (id_fits, fits, all),
      )

  serialize_loop-AreEntries :
      (fuel len written : ℕ) → Ends (serialize_loop io none index fuel len written) AreEntries
  unfolding serialize_loop Ends
  serialize_loop-AreEntries zero len written = λ b s s' e. cc
  serialize_loop-AreEntries (suc fuel) len written =
      Ends-after (λ s. ok (s.iter, s)) _ AreEntries
        (λ it.
          Ends-if it.pfx_peer_it_valid _ _ AreEntries
            (Ends-bind (serialize_pfx_peer io none index (size_sub len written)) _ IsEntry
              AreEntries (serialize_pfx_peer-IsEntry (size_sub len written))
              (λ b is. Ends-after (run iter_pfx_next_peer) _ AreEntries (λ _.
                Ends-bind (serialize_loop io none index fuel len (written + length b)) _ AreEntries
                  AreEntries (serialize_loop-AreEntries fuel len (written + length b))
                  (λ rest are. Ends-pure E _ AreEntries (one_more b rest is are)))))
            (Ends-pure E (record { bytes = []; peers_cnt = 0 }) AreEntries ([], refl, refl, tt)))

  serialize_pfx_peers-AreEntries :
      (len : ℕ) → Ends (serialize_pfx_peers io none index len) AreEntries
  unfolding serialize_pfx_peers
  serialize_pfx_peers-AreEntries len = Ends-after (run pfx_peerinfos) _ AreEntries (λ info.
      Ends-after (run (iter_pfx_first_peer field_active)) _ AreEntries
        (λ _. serialize_loop-AreEntries (peer_fuel info) len 0))

  serialize_pfx_ok :
      (len : ℕ) (pfx : BgpPfx) (b : List ℕ)
      → serialize_pfx io.host len pfx ≡ ok b
      → b ≡ pfx_bytes io.host pfx
  unfolding serialize_pfx
  serialize_pfx_ok len pfx b e =
      let (s, e1, e2) =
        bound-ok (serialize_ip len pfx.address)
          (λ s. serialize_val io.host len (length s) 1 pfx.mask_len >>= λ m. ok (s ++ m)) b e in
      let (m, e3, e4) =
        bound-ok (serialize_val io.host len (length s) 1 pfx.mask_len) (λ m. ok (s ++ m)) b e2 in
      the_same (s ++ m) e4
      ∙ ap₂ ◌++◌ (serialize_ip_ok io.host len pfx.address s e1)
          (serialize_val_ok io.host len (length s) 1 pfx.mask_len m e3)
    where
      the_same : (x : List ℕ) → ◌≡◌ {A = Outcome (List ℕ)} (ok x) (ok b) → b ≡ x
      the_same x q = cc

  -- The bytes of a row, if there are any entries.
  abbrev IsRow : Row → Type 0
  IsRow row =
      (row.peers_cnt ≡ 0)
      ⊎ ((p : E.Pfx) × (es : List (ℕ × ℕ)) × (row.bytes
            ≡ pfx_bytes io.host (io.to_pfx p)
              ++ (entries_bytes io.host es
                  ++ (io.host.enc 2 end_of_peers
                      ++ io.host.enc 2 (io.host.htons (length es % 2 ^ 16)))))
          × (row.peers_cnt ≡ length es)
          × EntriesFit es)

  serialize_pfx_row-IsRow : (len : ℕ) → Ends (serialize_pfx_row io none index len) IsRow
  unfolding serialize_pfx_row
  serialize_pfx_row-IsRow len = Ends-after (run iter_pfx_get_pfx) _ IsRow (λ p.
      Ends-bind (lift (serialize_pfx io.host len (io.to_pfx p))) _
        (λ b. b ≡ pfx_bytes io.host (io.to_pfx p)) IsRow
        (Ends-lift E (serialize_pfx io.host len (io.to_pfx p)) _
          (serialize_pfx_ok len (io.to_pfx p)))
        (λ b1 is1.
          Ends-bind (serialize_pfx_peers io none index (size_sub len (length b1))) _ AreEntries
            IsRow (serialize_pfx_peers-AreEntries (size_sub len (length b1)))
            (λ row (es, bytes, cnt, all).
              Ends-ite (row.peers_cnt == 0) _ _ IsRow
                (λ _. Ends-pure E (record { bytes = []; peers_cnt = 0 }) IsRow (inl refl))
                (λ _.
                  let written = length b1 + length row.bytes in
                  let number = io.host.htons (row.peers_cnt % 2 ^ 16) in
                  Ends-bind (lift (serialize_val io.host len written 2 end_of_peers)) _
                    (λ b. b ≡ io.host.enc 2 end_of_peers) IsRow
                    (Ends-lift E (serialize_val io.host len written 2 end_of_peers) _
                      (serialize_val_ok io.host len written 2 end_of_peers))
                    (λ b2 is2.
                      Ends-bind (lift (serialize_val io.host len (written + 2) 2 number)) _
                        (λ b. b ≡ io.host.enc 2 number) IsRow
                        (Ends-lift E (serialize_val io.host len (written + 2) 2 number) _
                          (serialize_val_ok io.host len (written + 2) 2 number))
                        (λ b3 is3.
                          Ends-pure E
                            (record {
                              bytes = b1 ++ (row.bytes ++ (b2 ++ b3));
                              peers_cnt = row.peers_cnt;
                            })
                            IsRow
                            (inr (
                              p,
                              es,
                              ap₂ ◌++◌ is1 (
                                  ap₂ ◌++◌ bytes (
                                    ap₂ ◌++◌ is2 (
                                      is3
                                      ∙ ap (λ (n : ℕ). io.host.enc 2 (io.host.htons (n % 2 ^ 16)))
                                          cnt))),
                              cnt,
                              all,
                            ))))))))

  -- Where the path indices have 32 bits and the addresses of the view are of a known version, with a
  -- length of a byte: if a prefix is written with path indices and no filter, and it has entries, but
  -- fewer than 65535, then from any buffer that starts with the bytes written and has room for them, a
  -- reader without an iterator reads exactly these bytes, and leaves its state alone.
  pub deserialize_pfx_row-serialize_pfx_row :
      (len len2 : ℕ) (row : Row) (rest : List ℕ) (s s' s2 : State E)
      → ((p : E.Pfx) → IsAddress (io.to_pfx p).address × ((io.to_pfx p).mask_len < 256))
      → serialize_pfx_row io none index len s ≡ ok (row, s')
      → 0 < row.peers_cnt
      → row.peers_cnt < 65535
      → length row.bytes ≤ len2
      → len2 < size_mod
      → deserialize_pfx_row io (skim io) len2 (row.bytes ++ rest) s2 ≡ ok (length row.bytes, s2)
  unfolding Ends
  deserialize_pfx_row-serialize_pfx_row len len2 row rest s s' s2 known e entries few room lt =
      elim (serialize_pfx_row-IsRow len row s s' e) [
        | inl none_there ↦ absurd (omega arith)
        | inr (p, es, bytes, cnt, all) ↦
            let small : length es % 2 ^ 16 ≡ length es = omega arith in
            let same : row.bytes ≡ row_bytes io.host (io.to_pfx p) es = rw (bytes, small) refl in
            rw same (
              deserialize_pfx_row-row_bytes io len2 lt (io.to_pfx p) es rest s2 (known p).0
                (known p).1 all (omega arith) (subst (λ (x : List ℕ). length x ≤ len2) same room))
      ]
