-- ===== src/Io/Path.antt =====
-- lib/io/bgpview_io.c: paths of the path store. The store and its paths are libbgpstream's.
use bgpview.Base.{ℕ, ◌+◌, ◌%◌, ◌^◌, Option, none, some, List, ◌++◌, length}
use bgpview.Io.Outcome.{Outcome, ok, err, ◌>>=◌, ◌>>◌, assert_room}
use bgpview.Io.Host.{Host}
use bgpview.Io.Ip.{BgpPfx, load, serialize_val, deserialize_val}
use bgpview.View.Types.{Env}

-- What the serialization uses of libbgpstream, and how a key of a prefix table and a
-- bgpstream_pfx_t correspond.
pub record IoEnv (E : Env) : Type 1 where
  pub host : Host
  pub to_pfx : E.Pfx → BgpPfx
  pub from_pfx : BgpPfx → E.Pfx
  pub StorePath : Type 0
  pub get_store_path : E.PathStore → ℕ → StorePath
  pub path_idx : StorePath → ℕ
  pub is_core : StorePath → ℕ
  pub path_data : StorePath → List ℕ
  -- bgpstream_as_path_store_insert_path, for the data of a path and whether it is a core path
  pub insert_path : E.PathStore → List ℕ → ℕ → Option ℕ × E.PathStore

module _ {E : Env} (io : IoEnv E) where
  unfoldable pub serialize_as_path_store_path : ℕ → io.StorePath → Outcome (List ℕ)
  serialize_as_path_store_path len spath = do
    let data_len = length (io.path_data spath) % 2 ^ 16
    b1 ← serialize_val io.host len 0 1 (io.is_core spath)
    b2 ← serialize_val io.host len 1 2 data_len
    assert_room len 3 data_len
    b3 ← load data_len (io.path_data spath)
    ok (b1 ++ (b2 ++ b3))

  -- The id of the path and the store after it, where there is a store, and the number of bytes
  -- read. Without a store the bytes of the path are passed over.
  unfoldable pub deserialize_as_path_store_path :
      ℕ → List ℕ → Option E.PathStore → Outcome (Option (ℕ × E.PathStore) × ℕ)
  deserialize_as_path_store_path len buf store = do
    (core, buf1) ← deserialize_val io.host len 0 1 buf
    (pathlen, buf2) ← deserialize_val io.host len 1 2 buf1
    assert_room len 3 pathlen
    elim store [
      | none ↦ ok (none, 3 + pathlen)
      | some st ↦ (do
        path ← load pathlen buf2
        let r = io.insert_path st path core
        elim r.0 [ none ↦ err | some id ↦ ok (some (id, r.1), 3 + pathlen) ])
    ]
