-- ===== src/Zmq/Types.antt =====
-- lib/io/zmq/bgpview_io_zmq_store.c: the structures of the store that gathers the views of a window of
-- time, and what the store uses of the view, of the server and of libbgpstream.
use bgpview.Base.{ℕ, ◌%◌, ◌^◌, ◌≡◌, Bool, true, false, Option, List}
use bgpview.Khash.Buckets.{Buckets}
use bgpview.Khash.Interface.{Khash}

-- bgpview_io_zmq_server_client_info_t
pub record ClientInfo (Name : Type 0) : Type 0 where
  pub name : Name
  pub intents : ℕ

-- bgpstream_str_set_t, of libbgpstream
pub record NameSet (Name : Type 0) : Type 1 where
  pub Set : Type 0
  pub create : Set
  pub clear : Set → Set
  pub insert : Name → Set → Set
  pub exists : Set → Name → Bool
  pub exists_create : (n : Name) → exists create n ≡ false
  pub exists_clear : (s : Set) (n : Name) → exists (clear s) n ≡ false
  pub exists_insert_self : (n : Name) (s : Set) → exists (insert n s) n ≡ true
  pub exists_insert_keeps :
      (n m : Name) (s : Set) → exists s m ≡ true → exists (insert n s) m ≡ true

-- The operations of lib/bgpview.h that the store calls. A view is made and cleared at a time of the
-- wall clock; a view that is made has its user data disabled.
pub record ViewOps : Type 1 where
  pub View : Type 0
  pub create : ℕ → View
  pub clear : ℕ → View → Option View
  pub get_time : View → ℕ
  pub get_time_created : View → ℕ
  pub set_time : ℕ → View → View
  pub get_time_set : (t : ℕ) (v : View) → get_time (set_time t v) ≡ t

-- store_view_state_t
pub data StoreViewState : Type 0 where
  unused unknown partial full : StoreViewState

-- completion_trigger_t
pub data CompletionTrigger : Type 0 where
  state_unknown wdw_exceeded client_disconnect table_end timeout_expired : CompletionTrigger

-- dispatch_status_t
pub record DispatchStatus : Type 0 where
  pub sent : Bool
  pub modified : Bool

-- What the store works with; `sends` is whether bgpview_io_zmq_server_publish_view succeeds with a
-- view, after it was called with others.
pub record ZmqEnv : Type 1 where
  pub ops : ViewOps
  pub Name : Type 0
  pub names : NameSet Name
  pub clients_hash : Khash Name (ClientInfo Name)
  pub sends : List ops.View → ops.View → Bool

-- store_view_t, without `modified`, which is only ever set to 0. The array dis_status is a function
-- from its indices.
pub record StoreView (Z : ZmqEnv) : Type 0 where
  pub id : ℕ
  pub state : StoreViewState
  pub reuse_cnt : ℕ
  pub reuse_remaining : ℕ
  pub pub_cnt : ℕ
  pub dis_status : StoreViewState → DispatchStatus
  pub done_clients : Z.names.Set
  pub view : Z.ops.View

-- struct bgpview_io_zmq_store, with the views that were given to the server to publish, the last
-- first. The shared tables of signatures and paths are part of what makes a view.
pub record Store (Z : ZmqEnv) : Type 0 where
  pub sviews : List (StoreView Z)
  pub sviews_cnt : ℕ
  pub sviews_first_idx : ℕ
  pub sviews_first_time : ℕ
  pub active_clients : Buckets Z.Name (ClientInfo Z.Name)
  pub published : List Z.ops.View

-- WDW_ITEM_TIME and BGPVIEW_IO_ZMQ_STORE_BGPVIEW_TIMEOUT
abbrev pub item_time : ℕ
item_time = 300

abbrev pub view_timeout : ℕ
view_timeout = 3600

-- A uint32_t.
abbrev pub u32 : ℕ → ℕ
u32 n = n % 2 ^ 32
