-- ===== src/Moas/Types.antt =====
-- lib/consumers/bvc_moas.c: the structures.
use bgpview.Base.{
  ℕ, ◌+◌, ◌%◌, ◌^◌, Bool, true, false, Option, List, [], ◌∷◌, ◌++◌, length, ◌==◌, if◌then◌else◌,
}
use bgpview.Khash.Buckets.{Buckets}
use bgpview.Khash.Interface.{Khash}
use bgpview.View.Types.{AddrVersion, Env}

-- moas_category_t
pub data Category : Type 0 where
  new newrec ongoing finished : Category

-- moas_properties_t
pub record MoasProperties : Type 0 where
  pub first_seen : ℕ
  pub start : ℕ
  pub end : ℕ

-- moas_signature_t: the first `n` of the origins
abbrev pub MoasSignature : Type 0
MoasSignature = List ℕ

-- moasinfo_map_t and pfx_moasinfo_map_t. The equality of signatures sorts their origins, so a sorted
-- signature is a key.
abbrev pub MoasInfo : Type 0
MoasInfo = Buckets MoasSignature MoasProperties

abbrev pub Moases : Type 0 → Type 0
Moases P = Buckets P MoasInfo

-- A segment of an AS path, bgpstream_as_path_seg_t: an AS number, or a set and the like.
pub data Seg : Type 0 where
  asn : ℕ → Seg
  other_seg : Seg

-- What the consumer uses of khash.h, libc, libbgpstream, and of the consumers before it.
pub record MoasEnv (E : Env) : Type 1 where
  -- the instances of KHASH_INIT
  pub moasinfo_hash : Khash MoasSignature MoasProperties
  pub moases_hash : Khash E.Pfx MoasInfo
  -- qsort of AS numbers
  pub qsort : List ℕ → List ℕ
  -- the segment of the origin of a path, `none` for NULL
  pub origin_seg : E.PathStore → ℕ → Option Seg
  -- the prefixes of the blacklist, and the full-feed peers of a version that the visibility consumer
  -- left in the state of the chain
  pub blacklist_pfxs : E.Pfx → Bool
  pub full_feed_peer_ids : AddrVersion → ℕ → Bool

-- The loop of moasinfo_map_equal.
abbrev pub same_origins : List ℕ → List ℕ → Bool
same_origins [] ms2 = true
same_origins (x ∷ ms1) [] = false
same_origins (x ∷ ms1) (y ∷ ms2) = if x == y then same_origins ms1 ms2 else false

module _ (qsort : List ℕ → List ℕ) where
  unfoldable pub moasinfo_map_equal : MoasSignature → MoasSignature → Bool
  moasinfo_map_equal ms1 ms2 =
      if length ms1 == length ms2 then same_origins (qsort ms1) (qsort ms2) else false

-- What log_moas is given, with the sorted signature: a line of the output file, or nothing for an
-- ongoing MOAS. The line holds the time, the prefix, the category, and the paths.
pub record Event (P : Type 0) : Type 0 where
  pub ts : ℕ
  pub pfx : P
  pub ms : MoasSignature
  pub mc : Category
  pub paths : List ℕ

-- The open output file and the counts of bvc_moas_state_t.
pub record Log (P : Type 0) : Type 0 where
  pub wandio_fh : List (Event P)
  pub new_moas_pfxs_count : ℕ
  pub new_recurring_moas_pfxs_count : ℕ
  pub ongoing_moas_pfxs_count : ℕ
  pub finished_moas_pfxs_count : ℕ

-- `++` of a uint32_t
abbrev pub next32 : ℕ → ℕ
next32 n = (n + 1) % 2 ^ 32

module _ {P : Type 0} where
  unfoldable pub update_moas_counters : Category → Log P → Log P
  update_moas_counters new l = record l { new_moas_pfxs_count = next32 l.new_moas_pfxs_count }
  update_moas_counters newrec l = record l {
    new_recurring_moas_pfxs_count = next32 l.new_recurring_moas_pfxs_count;
  }
  update_moas_counters ongoing l = record l {
    ongoing_moas_pfxs_count = next32 l.ongoing_moas_pfxs_count;
  }
  update_moas_counters finished l = record l {
    finished_moas_pfxs_count = next32 l.finished_moas_pfxs_count;
  }

  -- A line, and the count of its category.
  abbrev pub add_line : Event P → Log P → Log P
  add_line e l = record l { wandio_fh = l.wandio_fh ++ (e ∷ []) }

  unfoldable pub write_event : Event P → Log P → Log P
  unfolding update_moas_counters
  write_event e l = elim e.mc [
    | ongoing ↦ update_moas_counters ongoing l
    | mc ↦ update_moas_counters mc (add_line e l)
  ]

-- bvc_moas_state_t, without its timeseries and its options
pub record MoasState (P : Type 0) : Type 0 where
  pub first_ts : ℕ
  pub window_size : ℕ
  pub current_window_size : ℕ
  pub current_moases : Moases P
  pub log : Log P
