-- ===== src/Zmq/Loop/Running.antt =====
-- A message leaves the window of the store in order.
use bgpview.Base.{
  ℕ, ◌≤◌, ◌<◌, ◌≡◌, refl, inl, inr, Bool, true, false, Option, none, some, length, ◌==◌, arith,
  Bool-cases,
}
use bgpview.Khash.Buckets.{put_val}
use bgpview.View.Types.{Ret, minus_one, zero_ret, one_ret}
use bgpview.Zmq.Types.{Store}
use bgpview.Zmq.Sview.Runs.{Clears}
use bgpview.Zmq.Store.{truncated, client_connect, disconnect}
use bgpview.Zmq.Store.Window.{Window}
use bgpview.Zmq.Store.Notify.{disconnect-Notified}
use bgpview.Zmq.Server.{
  ServerClient, ServerEnv, Server, Message, view_msg, heartbeat_msg, ready_msg, term_msg,
  invalid_msg, set_intents, Srv, pure, ◌>>=◌, ◌>>◌, on_store, unless_failed,
}
use bgpview.Zmq.Messages.{handle_ready_message, handle_view_message, clients_remove, handle_message}
use bgpview.Zmq.Messages.Receive.{Receives-Window, handle_recv_view-Receives}

-- A server whose heartbeats have an interval `b`, with a store whose views are at their places.
pub record Running {V : ServerEnv} (h b : ℕ) (s : Server V) : Type 0 where
  pub window : Window h s.store
  pub interval : s.heartbeat_interval ≡ b
  pub next : 0 < s.heartbeat_next

-- The call returns, and with 0 only in such a state.
abbrev pub Serves : {V : ServerEnv} → (h b : ℕ) → Server V → Srv V Ret → Type 0
Serves {V} h b s m =
    (r : Ret) × (s' : Server V) × (m s ≡ some (r, s')) × (r ≡ zero_ret → Running h b s')

-- No view of a message is after the horizon.
abbrev pub OnTime : {V : ServerEnv} → ℕ → Message V → Type 0
OnTime h (view_msg intents seq none body skipped) = Unit {0}
OnTime h (view_msg intents seq (some time) body skipped) = truncated time ≤ h
OnTime h heartbeat_msg = Unit {0}
OnTime h (ready_msg intents) = Unit {0}
OnTime h term_msg = Unit {0}
OnTime h invalid_msg = Unit {0}

module _ {V : ServerEnv} {h b : ℕ} where
  pub Serves-fails : (s : Server V) → Serves h b s (pure minus_one)
  Serves-fails s = (minus_one, s, refl, λ e. cc)

  pub Serves-done : (s : Server V) → Running h b s → Serves h b s (pure zero_ret)
  Serves-done s w = (zero_ret, s, refl, λ e. w)

  pub Serves-then :
      (s : Server V) (m k : Srv V Ret)
      → Serves h b s m
      → ((s' : Server V) → Running h b s' → Serves h b s' k)
      → Serves h b s (m >>= λ r. unless_failed r k)
  Serves-then s m k (zero_ret, s', e, w) next =
      let n = next s' (w refl) in (n.0, n.1, ground (arith, e, n.2), n.3)
  Serves-then s m k (minus_one, s', e, w) next = (minus_one, s', ground (arith, e), λ d. cc)
  Serves-then s m k (one_ret, s', e, w) next = (minus_one, s', ground (arith, e), λ d. cc)

  -- A call of the store that keeps the window.
  pub Serves-store :
      (s : Server V) (m : Store V.zmq → Option (Ret × Store V.zmq))
      → Running h b s
      → (r : Ret) (t : Store V.zmq) → m s.store ≡ some (r, t)
      → (r ≡ zero_ret → Window h t)
      → Serves h b s (on_store m)
  Serves-store s m w r t e keeps = (
    r,
    record s { store = t },
    ground (arith, e),
    λ q. record { window = keeps q; interval = w.interval; next = w.next },
  )

  serve_ready :
      (s : Server V) (intents : Option ℕ) (c : ServerClient V.zmq.Name)
      → Running h b s
      → Serves h b s (handle_ready_message intents c)
  unfolding handle_ready_message client_connect
  serve_ready s none c w = Serves-fails s
  serve_ready s (some n) c w = elim (Bool-cases (c.info.intents == n)) [
    | inl q ↦ (zero_ret, s, ground (arith, q), λ _. w)
    | inr q ↦
        let r =
          Serves-store
            (record s {
              clients = put_val s.clients (V.clients_hash.get s.clients c.hexid) (set_intents n c);
            })
            (client_connect (set_intents n c).info)
            (record { window = w.window; interval = w.interval; next = w.next }) zero_ret _ refl
            (λ _. w.window) in
        (r.0, r.1, ground (arith, q, r.2), r.3)
  ]

  serve_view :
      (s : Server V) (now : ℕ) (intents : Option ℕ) (seq : Bool) (time : Option ℕ)
      → (body : V.zmq.ops.View → Bool × V.zmq.ops.View) (skipped : Bool)
        (c : ServerClient V.zmq.Name)
      → Clears V.zmq
      → OnTime {V = V} h (view_msg intents seq time body skipped)
      → Running h b s
      → Serves h b s (handle_view_message now seq time body skipped c)
  unfolding handle_view_message
  serve_view s now intents false time body skipped c clears le w = Serves-fails s
  serve_view s now intents true none body skipped c clears le w =
      elim (Bool-cases (V.can_send c.identity)) [
        | inl q ↦ (minus_one, s, ground (arith, q), λ e. cc)
        | inr q ↦ (minus_one, s, ground (arith, q), λ e. cc)
      ]
  serve_view s now intents true (some time) body skipped c clears le w =
      elim (Bool-cases (V.can_send c.identity)) [
        | inl q ↦
            let r = handle_recv_view-Receives now time body skipped c.info s w.window le clears in
            (
              r.0,
              record s { store = r.1 },
              ground (arith, q, r.2),
              λ e. record {
                window = Receives-Window w.window r.3 e;
                interval = w.interval;
                next = w.next;
              },
            )
        | inr q ↦ (minus_one, s, ground (arith, q), λ e. cc)
      ]

  serve_remove :
      (s : Server V) (c : ServerClient V.zmq.Name)
      → Running h b s
      → (s' : Server V) × (clients_remove c s ≡ some (tt, s')) × Running h b s'
  unfolding clients_remove
  serve_remove s c w =
      elim (Bool-cases (V.clients_hash.get s.clients c.hexid == length s.clients)) [
        | inl q ↦ (s, ground (arith, q), w)
        | inr q ↦ (
          record s {
            clients = V.clients_hash.del s.clients (V.clients_hash.get s.clients c.hexid);
          },
          ground (arith, q),
          record { window = w.window; interval = w.interval; next = w.next },
        )
      ]

  serve_removed :
      (s : Server V) (c : ServerClient V.zmq.Name)
      → Running h b s
      → Serves h b s (clients_remove c >> pure zero_ret)
  serve_removed s c w = let r = serve_remove s c w in (zero_ret, r.0, ground (arith, r.1), λ e. r.2)

  pub serve_disconnect :
      (s : Server V) (now : ℕ) (c : ServerClient V.zmq.Name)
      → Running h b s
      → Serves h b s (on_store (disconnect now c.info))
  serve_disconnect s now c w =
      let d = disconnect-Notified now c.info s.store w.window in
      Serves-store s (disconnect now c.info) w zero_ret d.0 d.1 (λ _. d.2.window)

  pub serve_msg :
      (s : Server V) (now : ℕ) (c : ServerClient V.zmq.Name) (m : Message V)
      → Clears V.zmq
      → OnTime h m
      → Running h b s
      → Serves h b s (handle_message now c m)
  unfolding handle_message
  serve_msg s now c (view_msg intents seq time body skipped) clears le w =
      Serves-then s (handle_ready_message intents c)
        (handle_view_message now seq time body skipped c >>= λ r. unless_failed r (pure zero_ret))
        (serve_ready s intents c w)
        (λ s1 w1.
          Serves-then s1 (handle_view_message now seq time body skipped c) (pure zero_ret)
            (serve_view s1 now intents seq time body skipped c clears le w1)
            (λ s2 w2. Serves-done s2 w2))
  serve_msg s now c heartbeat_msg clears le w = Serves-done s w
  serve_msg s now c (ready_msg intents) clears le w =
      Serves-then s (handle_ready_message intents c) (pure zero_ret) (serve_ready s intents c w)
        (λ s1 w1. Serves-done s1 w1)
  serve_msg s now c term_msg clears le w =
      Serves-then s (on_store (disconnect now c.info)) (clients_remove c >> pure zero_ret)
        (serve_disconnect s now c w) (λ s1 w1. serve_removed s1 c w1)
  serve_msg s now c invalid_msg clears le w = Serves-fails s
