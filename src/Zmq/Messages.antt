-- ===== src/Zmq/Messages.antt =====
-- lib/io/zmq/bgpview_io_zmq_server.c: the messages of a client.
pub mod Receive
use bgpview.Base.{
  ℕ, zero, suc, ◌+◌, ◌*◌, ◌/◌, ◌%◌, ◌^◌, Bool, true, false, ◌||◌, Option, none, some, List, [], ◌∷◌,
  length, ltb, leb, ◌==◌, if◌then◌else◌,
}
use bgpview.Khash.Buckets.{Buckets, slot, put_val}
use bgpview.Khash.Interface.{Khash}
use bgpview.View.Types.{Ret, minus_one, zero_ret, one_ret}
use bgpview.Zmq.Types.{ClientInfo, ZmqEnv, StoreView, Store}
use bgpview.Zmq.Op.{Op, get_sview, put_sview}
use bgpview.Zmq.Store.{get_view, view_updated, client_connect, disconnect, check_timeouts}
use bgpview.Zmq.Server.{
  ServerClient, ServerEnv, Server, Message, view_msg, heartbeat_msg, ready_msg, term_msg,
  invalid_msg, Clock, u64, heartbeats_per_timeout, all_reachable, set_intents, Srv, pure, gets,
  on_store, ◌>>=◌, ◌>>◌, modify, assert, unless_failed, client_of,
}

module _ {Z : ZmqEnv} where
  -- bgpview_io_zmq_recv into the view at a place, and the time that the store wants.
  unfoldable pub recv_into : ℕ → (Z.ops.View → Bool × Z.ops.View) → Op Z (Option Z.ops.View)
  recv_into i body s = elim (get_sview i s) [
    | none ↦ none
    | some (v, _) ↦
        let r = body v.view in
        let received = Z.ops.set_time (Z.ops.get_time v.view) r.1 in
        elim r.0 [
          | false ↦ elim (put_sview i (record v { view = r.1 }) s) [
            | none ↦ none
            | some (_, s') ↦ some (none, s')
          ]
          | true ↦ elim (put_sview i (record v { view = received }) s) [
            | none ↦ none
            | some (_, s') ↦ some (some received, s')
          ]
        ]
  ]

module _ {V : ServerEnv} where
  unfoldable pub handle_ready_message : Option ℕ → ServerClient V.zmq.Name → Srv V Ret
  handle_ready_message none c = pure minus_one
  handle_ready_message (some n) c = if c.info.intents == n then pure zero_ret else (do
    modify (λ s. record s {
      clients = put_val s.clients (V.clients_hash.get s.clients c.hexid) (set_intents n c);
    })
    on_store (client_connect (set_intents n c).info))

  unfoldable pub handle_recv_view :
      (now : ℕ)
      → Option ℕ
      → (V.zmq.ops.View → Bool × V.zmq.ops.View)
      → Bool
      → ClientInfo V.zmq.Name
      → Srv V Ret
  unfolding recv_into
  handle_recv_view now none body skipped client = pure minus_one
  handle_recv_view now (some time) body skipped client = do
    i ← on_store (get_view now time)
    elim i [
      | none ↦ if skipped then on_store (view_updated now none client) else pure minus_one
      | some i ↦ (do
        v ← on_store (recv_into i body)
        elim v [
          | none ↦ pure minus_one
          | some view ↦ on_store (view_updated now (some view) client)
        ])
    ]

  -- handle_view_message after handle_ready_message, where the seq num was received and the reply sent.
  unfoldable pub handle_view_message :
      (now : ℕ)
      → (seq : Bool) → Option ℕ
      → (V.zmq.ops.View → Bool × V.zmq.ops.View)
      → Bool
      → ServerClient V.zmq.Name
      → Srv V Ret
  unfolding handle_recv_view
  handle_view_message now false time body skipped c = pure minus_one
  handle_view_message now true time body skipped c =
      if V.can_send c.identity
      then handle_recv_view now time body skipped c.info
      else pure minus_one

  unfoldable pub clients_remove : ServerClient V.zmq.Name → Srv V (Unit {0})
  clients_remove c = modify (λ s.
      let k = V.clients_hash.get s.clients c.hexid in
      if k == length s.clients then s else record s { clients = V.clients_hash.del s.clients k })

  unfoldable pub handle_message : (now : ℕ) → ServerClient V.zmq.Name → Message V → Srv V Ret
  unfolding handle_ready_message handle_view_message clients_remove
  handle_message now c (view_msg intents seq time body skipped) = do
    r ← handle_ready_message intents c
    unless_failed r
        (do r' ← handle_view_message now seq time body skipped c; unless_failed r' (pure zero_ret))
  handle_message now c heartbeat_msg = pure zero_ret
  handle_message now c (ready_msg intents) = do
    r ← handle_ready_message intents c
    unless_failed r (pure zero_ret)
  handle_message now c term_msg = do
    r ← on_store (disconnect now c.info)
    unless_failed r (do clients_remove c; pure zero_ret)
  handle_message now c invalid_msg = pure minus_one
