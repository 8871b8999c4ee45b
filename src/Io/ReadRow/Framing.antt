-- ===== src/Io/ReadRow/Framing.antt =====
-- A reader without an iterator passes over exactly the bytes of a row.
use bgpview.Base.{
  ℕ, zero, suc, ◌+◌, ◌*◌, ◌^◌, ◌≤◌, ◌<◌, ◌≡◌, refl, ap, ap₂, ◌∙◌, false, none, some, List, [], ◌∷◌,
  ◌++◌, arith, length, length-append, ◌==◌,
}
use mathlib.Core.List.{append_assoc}
use bgpview.View.Field.{active}
use bgpview.View.Types.{Env, State}
use bgpview.Io.Outcome.{ok, size_mod}
use bgpview.Io.Host.{Host}
use bgpview.Io.Ip.{BgpPfx, deserialize_val}
use bgpview.Io.Ip.RoundTrip.{
  IsAddress, pfx_bytes, drop_append, deserialize_val_lem, deserialize_pfx-serialize_pfx,
}
use bgpview.Io.Path.{IoEnv}
use bgpview.Io.Row.{end_of_peers}
use bgpview.Io.ReadRow.{RowArgs, RowPos, read_entry, read_entries, deserialize_pfx_row}

-- The entries of a row with path indices, as pairs of a peer id and an index.
module _ (h : Host) where
  abbrev pub entries_bytes : List (ℕ × ℕ) → List ℕ
  entries_bytes [] = []
  entries_bytes ((id, idx) ∷ es) = h.enc 2 (h.htons id) ++ (h.enc 4 idx ++ entries_bytes es)

  -- The mark at the end of the entries, and their number.
  abbrev pub end_bytes : ℕ → List ℕ
  end_bytes n = h.enc 2 end_of_peers ++ h.enc 2 (h.htons n)

  abbrev pub row_bytes : BgpPfx → List (ℕ × ℕ) → List ℕ
  row_bytes pfx es = pfx_bytes h pfx ++ (entries_bytes es ++ end_bytes (length es))

  pub length-entries_bytes : (es : List (ℕ × ℕ)) → length (entries_bytes es) ≡ 6 * length es
  length-entries_bytes [] = refl
  length-entries_bytes ((id, idx) ∷ es) = omega (
    arith,
    length-append (h.enc 2 (h.htons id)) (h.enc 4 idx ++ entries_bytes es),
    length-append (h.enc 4 idx) (entries_bytes es),
    h.length_enc 2 (h.htons id),
    h.length_enc 4 idx,
    length-entries_bytes es,
  )

-- Peer ids below the mark and indices of 32 bits.
abbrev pub EntriesFit : List (ℕ × ℕ) → Type 0
EntriesFit [] = Unit
EntriesFit ((id, idx) ∷ es) = (id < end_of_peers) × (idx < 2 ^ 32) × EntriesFit es

-- A reader that only passes over rows with path indices, as for a view that is not wanted.
abbrev pub skim : {E : Env} (io : IoEnv E) → RowArgs io
skim io = record {
  has_it = false;
  pfx_cb = none;
  pfx_peer_cb = none;
  peerid_map = [];
  pathid_map = some [];
  state = active;
}

module _ {E : Env} (io : IoEnv E) (len : ℕ) (lt : len < size_mod) where
  read_entry_lem :
      (pfx : BgpPfx) (id idx : ℕ) (l : RowPos) (rest : List ℕ) (s : State E)
      → idx < 2 ^ 32
      → l.read + 4 ≤ len
      → read_entry io (skim io) len pfx false id (record l { buf = io.host.enc 4 idx ++ rest }) s
        ≡ ok (record l { buf = rest; read = l.read + 4 }, s)
  unfolding read_entry
  read_entry_lem pfx id idx l rest s fits le =
      rw (deserialize_val_lem io.host len l.read 4 idx rest le lt fits) refl

  entries_step :
      (pfx : BgpPfx) (n : ℕ) (l : RowPos) (x : ℕ) (buf rest : List ℕ) (l2 : RowPos) (s : State E)
      → deserialize_val io.host len l.read 2 buf ≡ ok (x, rest)
      → (io.host.ntohs x == end_of_peers) ≡ false
      → read_entry io
          (skim io)
          len
          pfx
          false
          (io.host.ntohs x)
          (record l { buf = rest; read = l.read + 2; pfx_peer_rx = l.pfx_peer_rx + 1 })
          s
        ≡ ok (l2, s)
      → read_entries io (skim io) len pfx false (suc n) (record l { buf = buf }) s
        ≡ read_entries io (skim io) len pfx false n l2 s
  unfolding read_entries
  entries_step pfx n l x buf rest l2 s d ne e = ground arith

  read_entries_lem :
      (pfx : BgpPfx) (es : List (ℕ × ℕ)) (n : ℕ) (l : RowPos) (rest : List ℕ) (s : State E)
      → EntriesFit es
      → length es < n
      → l.read + 6 * length es + 2 ≤ len
      → read_entries io
          (skim io)
          len
          pfx
          false
          n
          (record l { buf = entries_bytes io.host es ++ (io.host.enc 2 end_of_peers ++ rest) })
          s
        ≡ ok (
          record l {
            buf = rest;
            read = l.read + 6 * length es + 2;
            pfx_peer_rx = l.pfx_peer_rx + length es;
          },
          s,
        )
  unfolding read_entries
  read_entries_lem pfx es zero l rest s fit lt_n le = absurd (omega arith)
  read_entries_lem pfx [] (suc n) l rest s fit lt_n le = ground (
    arith,
    deserialize_val_lem io.host len l.read 2 end_of_peers rest (omega arith) lt (omega arith),
    io.host.ntohs_ones,
  )
  read_entries_lem pfx ((id, idx) ∷ es) (suc n) l rest s (id_fits, idx_fits, fit) lt_n le =
      let tail2 = entries_bytes io.host es ++ (io.host.enc 2 end_of_peers ++ rest) in
      let tail1 = io.host.enc 4 idx ++ tail2 in
      let parts : entries_bytes io.host ((id, idx) ∷ es) ++ (io.host.enc 2 end_of_peers ++ rest)
          ≡ io.host.enc 2 (io.host.htons id) ++ tail1 =
        rw
          (
            append_assoc (io.host.enc 2 (io.host.htons id))
                (io.host.enc 4 idx ++ entries_bytes io.host es)
                (io.host.enc 2 end_of_peers ++ rest),
            append_assoc (io.host.enc 4 idx) (entries_bytes io.host es)
                (io.host.enc 2 end_of_peers ++ rest),
          )
          refl in
      let same_id = io.host.ntohs_htons id (omega arith) in
      let l1 = record l { buf = tail1; read = l.read + 2; pfx_peer_rx = l.pfx_peer_rx + 1 } in
      let l2 = record l1 { buf = tail2; read = l.read + 2 + 4 } in
      rw parts (
        entries_step pfx n l (io.host.htons id) (io.host.enc 2 (io.host.htons id) ++ tail1) tail1 l2
          s
          (deserialize_val_lem io.host len l.read 2 (io.host.htons id) tail1 (omega arith) lt
            (io.host.htons_lt id (omega arith)))
          (rw same_id (ground arith))
          (rw same_id (read_entry_lem pfx id idx l1 tail2 s idx_fits (omega arith)))
        ∙ read_entries_lem pfx es n l2 rest s fit (omega arith) (omega arith)
        ∙ ap (λ p. ok (p, s))
            (ap₂ (λ r x. record l { buf = rest; read = r; pfx_peer_rx = x }) (omega arith)
              (omega arith)))

  -- A row with path indices, of a prefix of a known version and fewer than 65535 entries, is passed
  -- over by a reader without an iterator: the state stays, and the number of bytes returned is that of
  -- the row, whatever follows it in the buffer.
  pub deserialize_pfx_row-row_bytes :
      (pfx : BgpPfx) (es : List (ℕ × ℕ)) (rest : List ℕ) (s : State E)
      → IsAddress pfx.address
      → pfx.mask_len < 256
      → EntriesFit es
      → length es < 65535
      → length (row_bytes io.host pfx es) ≤ len
      → deserialize_pfx_row io (skim io) len (row_bytes io.host pfx es ++ rest) s
        ≡ ok (length (row_bytes io.host pfx es), s)
  unfolding deserialize_pfx_row
  deserialize_pfx_row-row_bytes pfx es rest s is fits fit few le =
      let h = io.host in
      let n = length es in
      let first = pfx_bytes h pfx in
      let tail2 = h.enc 2 (h.htons n) ++ rest in
      let tail1 = entries_bytes h es ++ (h.enc 2 end_of_peers ++ tail2) in
      let size : length (row_bytes h pfx es) ≡ length first + 6 * n + 4 = omega (
        arith,
        length-append first (entries_bytes h es ++ end_bytes h n),
        length-append (entries_bytes h es) (end_bytes h n),
        length-append (h.enc 2 end_of_peers) (h.enc 2 (h.htons n)),
        length-entries_bytes h es,
        h.length_enc 2 end_of_peers,
        h.length_enc 2 (h.htons n),
      ) in
      let parts : row_bytes h pfx es ++ rest ≡ first ++ tail1 =
        rw
          (
            append_assoc first (entries_bytes h es ++ end_bytes h n) rest,
            append_assoc (entries_bytes h es) (end_bytes h n) rest,
            append_assoc (h.enc 2 end_of_peers) (h.enc 2 (h.htons n)) rest,
          )
          refl in
      let start : RowPos = record {
        buf = [];
        read = length first;
        pfx_peers_added = 0;
        pfx_peer_rx = 0;
      } in
      ground (
        arith,
        parts,
        (deserialize_pfx-serialize_pfx h len pfx tail1 is fits (omega (arith, size)) lt).1,
        drop_append (length first) first tail1 refl,
        read_entries_lem pfx es 65535 start tail2 s fit few (omega (arith, size)),
        deserialize_val_lem h len (length first + 6 * n + 2) 2 (h.htons n) rest
            (omega (arith, size)) lt (h.htons_lt n (omega arith)),
        h.ntohs_htons n (omega arith),
        size,
      )
