-- ===== src/Zmq/Loop.antt =====
-- lib/io/zmq/bgpview_io_zmq_server.c: run_server, which receives a message, and then looks after
-- heartbeats and the clients that are gone.
pub mod Running
pub mod Reached
pub mod Start
pub mod Purge
use bgpview.Base.{
  ℕ, zero, suc, ◌+◌, ◌*◌, ◌/◌, ◌%◌, ◌^◌, Bool, true, false, ◌||◌, Option, none, some, List, [], ◌∷◌,
  length, ltb, leb, ◌==◌, if◌then◌else◌,
}
use bgpview.Khash.Buckets.{Buckets, slot, put_val}
use bgpview.Khash.Interface.{Khash}
use bgpview.View.Types.{Ret, minus_one, zero_ret, one_ret}
use bgpview.Zmq.Types.{ClientInfo, ZmqEnv, StoreView, Store}
use bgpview.Zmq.Op.{Op, get_sview, put_sview}
use bgpview.Zmq.Store.{get_view, view_updated, client_connect, disconnect, check_timeouts}
use bgpview.Zmq.Server.{
  ServerClient, ServerEnv, Server, Message, view_msg, heartbeat_msg, ready_msg, term_msg,
  invalid_msg, Clock, u64, heartbeats_per_timeout, all_reachable, set_intents, Srv, pure, gets,
  on_store, ◌>>=◌, ◌>>◌, modify, assert, unless_failed, client_of,
}
use bgpview.Zmq.Messages.{handle_message}

module _ {V : ServerEnv} where
  -- A round of clients_purge at a bucket: the rest, where the loop goes on.
  unfoldable pub purge_at :
      Clock → ℕ → Srv V Ret → Option (List ℕ × ServerClient V.zmq.Name) → Srv V Ret
  purge_at now k rest none = rest
  purge_at now k rest (some (_, c)) = if ltb now.msec c.expiry then pure zero_ret else (do
    r ← on_store (disconnect now.sec c.info)
    unless_failed r (do modify (λ s. record s { clients = V.clients_hash.del s.clients k }); rest))

  -- The loop of clients_purge, from a bucket on, for so many more.
  unfoldable pub purge_from : Clock → (fuel k : ℕ) → Srv V Ret
  unfolding purge_at
  purge_from now zero k = pure zero_ret
  purge_from now (suc n) k = do
    c ← gets (λ s. slot s.clients k)
    purge_at now k (purge_from now n (k + 1)) c

  unfoldable pub clients_purge : Clock → Srv V Ret
  unfolding purge_from
  clients_purge now = do n ← gets (λ s. length s.clients); purge_from now n 0

  -- The heartbeats, and the timeouts of the store at every 61st of them.
  unfoldable pub heartbeats : Clock → Srv V Ret
  heartbeats now = do
    next ← gets (λ s. s.heartbeat_next)
    clients ← gets (λ s. s.clients)
    if ltb now.msec next
        then pure zero_ret
        else if all_reachable V.can_send clients
        then (do
          modify (λ s. record s { heartbeat_next = u64 (now.msec + s.heartbeat_interval) })
          cnt ← gets (λ s. s.store_timeout_cnt)
          if cnt == heartbeats_per_timeout
              then (do
                r ← on_store (check_timeouts now.sec)
                unless_failed r
                    (do modify (λ s. record s { store_timeout_cnt = 0 }); pure zero_ret))
              else (do modify (λ s. record s { store_timeout_cnt = cnt + 1 }); pure zero_ret))
        else pure minus_one

-- What run_server receives: a message of a client, nothing in time, an interrupt or an error.
pub data Received (V : ServerEnv) : Type 0 where
  message : (identity : List ℕ) → Message V → Received V
  timeout : Received V
  interrupt : Received V

module _ {V : ServerEnv} where
  unfoldable pub handle_received : Clock → Received V → Srv V Ret
  handle_received now (message identity m) = do
    c ← client_of now.msec identity
    handle_message now.sec c m
  handle_received now timeout = pure zero_ret
  handle_received now interrupt = pure minus_one

  unfoldable pub run_server : Clock → Received V → Srv V Ret
  unfolding handle_received
  run_server now event = do
    r ← handle_received now event
    unless_failed r (do
      next ← gets (λ s. s.heartbeat_next)
      assert (ltb 0 next)
      r' ← heartbeats now
      unless_failed r' (clients_purge now))
