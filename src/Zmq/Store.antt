-- ===== src/Zmq/Store.antt =====
-- lib/io/zmq/bgpview_io_zmq_store.c: the store, a circular buffer of views, one for each 300 seconds
-- of a window that slides with the times that clients send.
pub mod Window
pub mod Checked
pub mod Slide
pub mod Get
pub mod Notify
pub mod Disconnect
pub mod Timeouts
pub mod Updated
use bgpview.Base.{
  ℕ, zero, suc, ◌+◌, ◌-◌, ◌*◌, ◌/◌, ◌%◌, ◌^◌, Bool, true, false, Option, none, some, List, [], ◌∷◌,
  length, ltb, leb, ◌==◌, if◌then◌else◌,
}
use bgpview.Khash.Buckets.{Buckets, put_val}
use bgpview.View.Types.{Ret, minus_one, zero_ret, one_ret}
use bgpview.Zmq.Types.{
  ClientInfo, StoreViewState, unused, unknown, partial, full, CompletionTrigger, wdw_exceeded,
  client_disconnect, table_end, timeout_expired, DispatchStatus, ZmqEnv, StoreView, Store,
  item_time, view_timeout, u32,
}
use bgpview.Zmq.Op.{
  Op, pure, from_option, gets, ◌>>=◌, ◌>>◌, assert, modify, get_sview, put_sview, unless_failed,
}
use bgpview.Zmq.Sview.{wdw_len, wdw_duration, is_unused, store_view_create, completion_check}

-- What store_view_get comes to: an error, WINDOW_TIME_EXCEEDED, or WINDOW_TIME_VALID with the place
-- of the view in the buffer.
pub data Found : Type 0 where
  failed exceeded : Found
  valid : ℕ → Found

-- i * WDW_ITEM_TIME and a uint32_t
abbrev pub truncated : ℕ → ℕ
truncated t = t / item_time * item_time

module _ {Z : ZmqEnv} where
  -- The place of the view of a time, as store_view_get and VIEW_GET_SVIEW compute it.
  abbrev pub sview_of : ℕ → Store Z → ℕ
  sview_of t s =
      (s.sviews_first_idx + u32 (t + 2 ^ 32 - s.sviews_first_time) / item_time) % wdw_len s

  -- A view that is given back for a time.
  unfoldable pub open_view : (t i : ℕ) → Op Z Found
  open_view t i = do
    sview ← get_sview i
    put_sview i (record sview { state = unknown; view = Z.ops.set_time t sview.view })
    pure (valid i)

  -- The loop that slides the window, from its i-th view on, for so many more.
  unfoldable pub slide : (now min_first_time idx_offset time_offset fuel i : ℕ) → Op Z Ret
  slide now min idx_offset time_offset zero i = pure zero_ret
  slide now min idx_offset time_offset (suc n) i = do
    cnt ← gets wdw_len
    let idx = (i + idx_offset) % cnt
    let slot_time = u32 (i * item_time + time_offset)
    sview ← get_sview idx
    modify (λ s. record s { sviews_first_idx = idx; sviews_first_time = slot_time })
    elim (leb min slot_time) [
      | true ↦ pure zero_ret
      | false ↦ elim (is_unused sview.state) [
        | true ↦ slide now min idx_offset time_offset n (i + 1)
        | false ↦ (do
          r ← completion_check now idx wdw_exceeded
          unless_failed r (slide now min idx_offset time_offset n (i + 1)))
      ]
    ]

  -- What follows the slide: the window begins at `min` at the earliest.
  unfoldable pub open_last : (t min : ℕ) → Op Z Found
  unfolding open_view
  open_last t min = do
    modify (λ s. if ltb s.sviews_first_time min then record s { sviews_first_time = min } else s)
    i ← gets (sview_of t)
    open_view t i

  unfoldable pub store_view_get : (now new_time : ℕ) → Op Z Found
  unfolding open_view open_last
  store_view_get now t = do
    assert (truncated t == t)
    first ← gets (λ s. s.sviews_first_time)
    duration ← gets wdw_duration
    if ltb t first
        then pure exceeded
        else if ltb t (u32 (first + duration))
        then (do i ← gets (sview_of t); open_view t i)
        else (do
          let min = u32 (u32 (t + 2 ^ 32 - duration) + item_time)
          idx_offset ← gets (λ s. s.sviews_first_idx)
          cnt ← gets wdw_len
          r ← slide now min idx_offset first cnt 0
          elim r [
            | minus_one ↦ pure failed
            | zero_ret ↦ open_last t min
            | one_ret ↦ open_last t min
          ])

  -- The place of the view that is given back; `none` for NULL.
  unfoldable pub get_view : (now time : ℕ) → Op Z (Option ℕ)
  get_view now time = do
    r ← store_view_get now (truncated time)
    elim r [
      | failed ↦ pure none
      | exceeded ↦ pure none
      | valid i ↦ (do
        sview ← get_sview i
        put_sview i (record sview { state = unknown })
        pure (some i))
    ]

  unfoldable pub view_updated : (now : ℕ) (view : Option Z.ops.View) → ClientInfo Z.Name → Op Z Ret
  view_updated now none client = pure zero_ret
  view_updated now (some view) client = do
    i ← gets (sview_of (Z.ops.get_time view))
    sview ← get_sview i
    put_sview i (record sview {
      done_clients = Z.names.insert client.name sview.done_clients;
      dis_status = λ j. record (sview.dis_status j) { modified = true };
    })
    _ ← completion_check now i table_end
    pure zero_ret

  unfoldable pub client_connect : ClientInfo Z.Name → Op Z Ret
  client_connect client s =
      let t = s.active_clients in
      let k = Z.clients_hash.get t client.name in
      let r = Z.clients_hash.put t client.name in
      some (
        zero_ret,
        record s {
          active_clients =
              if k == length t then put_val r.table r.at client else put_val t k client;
        },
      )

  -- The loop over the views, from an index on, for so many more.
  unfoldable pub notify_views : (now fuel i : ℕ) → Op Z Ret
  notify_views now zero i = pure zero_ret
  notify_views now (suc n) i = do
    sview ← get_sview i
    elim (is_unused sview.state) [
      | true ↦ notify_views now n (i + 1)
      | false ↦ (do _ ← completion_check now i client_disconnect; notify_views now n (i + 1))
    ]

  -- The clients without the one that leaves.
  abbrev pub without : Z.Name → Store Z → Buckets Z.Name (ClientInfo Z.Name)
  without name s =
      let t = s.active_clients in
      let k = Z.clients_hash.get t name in if k == length t then t else Z.clients_hash.del t k

  unfoldable pub disconnect : (now : ℕ) → ClientInfo Z.Name → Op Z Ret
  disconnect now client = do
    modify (λ s. record s { active_clients = without client.name s })
    cnt ← gets wdw_len
    notify_views now cnt 0

  unfoldable pub check_from : (now fuel i : ℕ) → Op Z Ret
  check_from now zero i = pure zero_ret
  check_from now (suc n) i = do
    cnt ← gets wdw_len
    first ← gets (λ s. s.sviews_first_idx)
    let idx = (i + first) % cnt
    sview ← get_sview idx
    elim (is_unused sview.state) [
      | true ↦ check_from now n (i + 1)
      | false ↦ elim (ltb (Z.ops.get_time_created sview.view + view_timeout) now) [
        | false ↦ check_from now n (i + 1)
        | true ↦ (do
          r ← completion_check now idx timeout_expired
          unless_failed r (check_from now n (i + 1)))
      ]
    ]

  -- Every result but 0 is an error here.
  unfoldable pub check_timeouts : (now : ℕ) → Op Z Ret
  check_timeouts now = do cnt ← gets wdw_len; check_from now cnt 0

-- The views of a new store; the i-th may be cleared i times more before it is made anew.
abbrev pub new_sviews : {Z : ZmqEnv} → (now cnt fuel i : ℕ) → List (StoreView Z)
new_sviews now cnt zero i = []
new_sviews now cnt (suc n) i =
    let sview = store_view_create now cnt i in
    record sview { reuse_remaining = sview.reuse_remaining + i } ∷ new_sviews now cnt n (i + 1)

-- bgpview_io_zmq_store_create
abbrev pub store_create : {Z : ZmqEnv} → (now window_len : ℕ) → Store Z
store_create now cnt = record {
  sviews = new_sviews now cnt cnt 0;
  sviews_cnt = cnt;
  sviews_first_idx = 0;
  sviews_first_time = 0;
  active_clients = [];
  published = [];
}
