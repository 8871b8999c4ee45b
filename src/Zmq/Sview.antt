-- ===== src/Zmq/Sview.antt =====
-- lib/io/zmq/bgpview_io_zmq_store.c: what becomes of one view of the store: it is completed, given to
-- the server to publish, and cleared.
pub mod Runs
use bgpview.Base.{
  ℕ, zero, suc, ◌+◌, ◌-◌, ◌*◌, ◌/◌, ◌%◌, ◌^◌, Bool, true, false, none, some, List, [], ◌∷◌, length,
  ltb, leb, ◌==◌, if◌then◌else◌,
}
use bgpview.Khash.Buckets.{Buckets, put_val}
use bgpview.View.Types.{Ret, minus_one, zero_ret, one_ret}
use bgpview.Zmq.Types.{
  ClientInfo, StoreViewState, unused, unknown, partial, full, CompletionTrigger, state_unknown,
  wdw_exceeded, client_disconnect, table_end, timeout_expired, DispatchStatus, ZmqEnv, StoreView,
  Store, item_time, u32,
}
use bgpview.Zmq.Op.{
  Op, pure, from_option, gets, ◌>>=◌, ◌>>◌, assert, modify, get_sview, put_sview, unless_failed,
}

-- WDW_LEN and WDW_DURATION
abbrev pub wdw_len : {Z : ZmqEnv} → Store Z → ℕ
wdw_len s = s.sviews_cnt

abbrev pub wdw_duration : {Z : ZmqEnv} → Store Z → ℕ
wdw_duration s = wdw_len s * item_time

-- Whether two states are the same one.
abbrev pub is_unused : StoreViewState → Bool
is_unused unused = true
is_unused _ = false

-- One entry of the array dis_status is overwritten.
abbrev pub set_status :
    (StoreViewState → DispatchStatus)
    → StoreViewState
    → DispatchStatus
    → StoreViewState
    → DispatchStatus
set_status d unused x unused = x
set_status d unknown x unknown = x
set_status d partial x partial = x
set_status d full x full = x
set_status d _ x j = d j

abbrev pub nothing_sent : StoreViewState → DispatchStatus
nothing_sent i = record { sent = false; modified = false }

-- client->intents & BGPVIEW_PRODUCER_INTENT_PREFIX
abbrev pub sends_prefixes : {Name : Type 0} → ClientInfo Name → Bool
sends_prefixes client = client.intents % 2 == 1

-- Whether every client that sends prefixes has sent its table.
abbrev pub all_done : (Z : ZmqEnv) → Buckets Z.Name (ClientInfo Z.Name) → Z.names.Set → Bool
all_done Z [] done = true
all_done Z (none ∷ t) done = all_done Z t done
all_done Z (some (k, client) ∷ t) done =
    let rest = all_done Z t done in
    if sends_prefixes client
    then (if Z.names.exists done client.name then rest else false)
    else rest

-- The triggers after which a view is removed.
abbrev pub to_remove : CompletionTrigger → Bool
to_remove wdw_exceeded = true
to_remove timeout_expired = true
to_remove state_unknown = false
to_remove client_disconnect = false
to_remove table_end = false

module _ {Z : ZmqEnv} where
  -- store_view_create, of a store whose window has so many views
  abbrev pub store_view_create : (now cnt id : ℕ) → StoreView Z
  store_view_create now cnt id = record {
    id = id;
    state = unused;
    reuse_cnt = 0;
    reuse_remaining = cnt - 1;
    pub_cnt = 0;
    dis_status = nothing_sent;
    done_clients = Z.names.create;
    view = Z.ops.create now;
  }

  unfoldable pub store_view_clear : (now i : ℕ) → Op Z Ret
  store_view_clear now i = do
    sview ← get_sview i
    cnt ← gets wdw_len
    if sview.reuse_remaining == 0
        then (do put_sview sview.id (store_view_create now cnt sview.id); pure zero_ret)
        else (do
          v ← from_option (Z.ops.clear now sview.view)
          put_sview i (record sview {
            state = unused;
            reuse_cnt = sview.reuse_cnt + 1;
            reuse_remaining = sview.reuse_remaining - 1;
            dis_status = nothing_sent;
            done_clients = Z.names.clear sview.done_clients;
            pub_cnt = 0;
            view = v;
          })
          pure zero_ret)

  unfoldable pub store_view_completion_check : ℕ → Op Z (Unit {0})
  store_view_completion_check i = do
    sview ← get_sview i
    clients ← gets (λ s. s.active_clients)
    put_sview i
        (record sview { state = if all_done Z clients sview.done_clients then full else partial })

  unfoldable pub store_view_remove : (now i : ℕ) → Op Z Ret
  store_view_remove now i = do
    sview ← get_sview i
    first ← gets (λ s. s.sviews_first_time)
    modify (λ s.
        if Z.ops.get_time sview.view == first
        then record s {
          sviews_first_time = u32 (s.sviews_first_time + item_time);
          sviews_first_idx = (s.sviews_first_idx + 1) % wdw_len s;
        }
        else s)
    store_view_clear now i

  -- Whether a view is to be published in a state.
  abbrev pub to_dispatch : StoreView Z → Bool
  to_dispatch sview = elim sview.state [
    | full ↦ (sview.dis_status full).modified
    | partial ↦ (sview.dis_status partial).modified
    | unused ↦ false
    | unknown ↦ false
  ]

  unfoldable pub dispatcher_run : ℕ → Op Z Ret
  dispatcher_run i = do
    sview ← get_sview i
    if to_dispatch sview
        then (do
          let sview' = record sview {
            dis_status =
                set_status sview.dis_status sview.state (record { sent = true; modified = false });
          }
          put_sview i sview'
          before ← gets (λ s. s.published)
          modify (λ s. record s { published = sview.view ∷ before })
          if Z.sends before sview.view
              then (do put_sview i (record sview' { pub_cnt = sview.pub_cnt + 1 }); pure zero_ret)
              else pure minus_one)
        else pure zero_ret

  unfoldable pub completion_check : (now i : ℕ) → CompletionTrigger → Op Z Ret
  completion_check now i trigger = do
    store_view_completion_check i
    sview ← get_sview i
    put_sview i (record sview { state = if to_remove trigger then full else sview.state })
    r ← dispatcher_run i
    unless_failed r (if to_remove trigger then store_view_remove now i else pure zero_ret)
