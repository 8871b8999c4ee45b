-- ===== src/Zmq/Loop/Reached.antt =====
-- A call of run_server leaves the window of the store in order.
use bgpview.Base.{
  ℕ, zero, suc, ◌+◌, ◌^◌, ◌<◌, ◌≡◌, refl, inl, inr, Option, none, some, List, length, ltb, ◌==◌,
  arith, Bool-cases,
}
use bgpview.Khash.Buckets.{slot}
use bgpview.View.Types.{Ret, minus_one, zero_ret}
use bgpview.Zmq.Sview.Runs.{Clears}
use bgpview.Zmq.Store.{check_timeouts, disconnect}
use bgpview.Zmq.Store.Timeouts.{check_timeouts-Window}
use bgpview.Zmq.Server.{
  ServerClient, ServerEnv, Server, Clock, u64, all_reachable, heartbeats_per_timeout, Srv, pure,
  gets, assert, ◌>>=◌, modify, on_store, unless_failed, client_of, client_at, msg_strhex, ◌>>◌,
}
use bgpview.Zmq.Loop.{
  purge_at, purge_from, clients_purge, heartbeats, Received, message, timeout, interrupt,
  handle_received, run_server,
}
use bgpview.Zmq.Loop.Running.{
  Running, Serves, Serves-fails, Serves-done, Serves-then, Serves-store, OnTime, serve_disconnect,
  serve_msg,
}

-- What is received in time.
abbrev pub InTime : {V : ServerEnv} → ℕ → Received V → Type 0
InTime h (message identity m) = OnTime h m
InTime h timeout = Unit {0}
InTime h interrupt = Unit {0}

module _ {V : ServerEnv} {h b : ℕ} where
  client_at-Running :
      (s : Server V) (now : ℕ) (identity : List ℕ) (o : Option (List ℕ × ServerClient V.zmq.Name))
      → Running h b s
      → (c : ServerClient V.zmq.Name) × (s' : Server V) × (client_at now identity o s
          ≡ some (c, s'))
        × Running h b s'
  unfolding client_at
  client_at-Running s now identity none w =
      (_, _, refl, record { window = w.window; interval = w.interval; next = w.next })
  client_at-Running s now identity (some (k, c)) w =
      (_, _, refl, record { window = w.window; interval = w.interval; next = w.next })

  serve_event :
      (s : Server V) (now : Clock) (event : Received V)
      → Clears V.zmq
      → InTime h event
      → Running h b s
      → Serves h b s (handle_received now event)
  unfolding handle_received client_of
  serve_event s now (message identity m) clears le w =
      let c =
        client_at-Running s now.msec identity
          (slot s.clients (V.clients_hash.get s.clients (msg_strhex identity))) w in
      let r = serve_msg c.1 now.sec c.0 m clears le c.3 in (r.0, r.1, ground (arith, c.2, r.2), r.3)
  serve_event s now timeout clears le w = Serves-done s w
  serve_event s now interrupt clears le w = Serves-fails s

  purge_one :
      (now : Clock) (k : ℕ) (s : Server V) (rest : Srv V Ret)
      → (o : Option (List ℕ × ServerClient V.zmq.Name)) → Running h b s
      → ((s' : Server V) → Running h b s' → Serves h b s' rest)
      → Serves h b s (purge_at now k rest o)
  unfolding purge_at
  purge_one now k s rest none w more = more s w
  purge_one now k s rest (some (key, c)) w more = elim (Bool-cases (ltb now.msec c.expiry)) [
    | inl alive ↦ (zero_ret, s, ground (arith, alive), λ _. w)
    | inr dead ↦
        let r =
          Serves-then s (on_store (disconnect now.sec c.info))
            (modify (λ s. record s { clients = V.clients_hash.del s.clients k }) >> rest)
            (serve_disconnect s now.sec c w)
            (λ s1 w1.
              more (record s1 { clients = V.clients_hash.del s1.clients k })
                (record { window = w1.window; interval = w1.interval; next = w1.next })) in
        (r.0, r.1, ground (arith, dead, r.2), r.3)
  ]

  serve_purge :
      (now : Clock) (n k : ℕ) (s : Server V) → Running h b s → Serves h b s (purge_from now n k)
  unfolding purge_from
  serve_purge now zero k s w = Serves-done s w
  serve_purge now (suc n) k s w =
      purge_one now k s (purge_from now n (k + 1)) (slot s.clients k) w
        (λ s' w'. serve_purge now n (k + 1) s' w')

  serve_heartbeats :
      (s : Server V) (now : Clock)
      → Clears V.zmq
      → 0 < b
      → now.msec + b < 2 ^ 64
      → Running h b s
      → Serves h b s (heartbeats now)
  unfolding heartbeats
  serve_heartbeats s now clears pos lt w = elim (Bool-cases (ltb now.msec s.heartbeat_next)) [
    | inl q ↦ (zero_ret, s, ground (arith, q), λ _. w)
    | inr q ↦ elim (Bool-cases (all_reachable V.can_send s.clients)) [
      | inr u ↦ (minus_one, s, ground (arith, q, u), λ e. cc)
      | inl u ↦ elim (Bool-cases (s.store_timeout_cnt == heartbeats_per_timeout)) [
        | inr c ↦ (
          zero_ret,
          record s {
            heartbeat_next = u64 (now.msec + s.heartbeat_interval);
            store_timeout_cnt = s.store_timeout_cnt + 1;
          },
          ground (arith, q, u, c),
          λ _. record { window = w.window; interval = w.interval; next = next_pos },
        )
        | inl c ↦
            let t = check_timeouts-Window clears now.sec s.store w.window in
            let r =
              Serves-then (record s { heartbeat_next = u64 (now.msec + s.heartbeat_interval) })
                (on_store (check_timeouts now.sec))
                (modify (λ s. record s { store_timeout_cnt = 0 }) >> pure zero_ret)
                (Serves-store (record s { heartbeat_next = u64 (now.msec + s.heartbeat_interval) })
                  (check_timeouts now.sec)
                  (record { window = w.window; interval = w.interval; next = next_pos }) t.0 t.1 t.2
                  (λ _. t.3))
                (λ s1 w1. (
                  zero_ret,
                  record s1 { store_timeout_cnt = 0 },
                  refl,
                  λ _. record { window = w1.window; interval = w1.interval; next = w1.next },
                )) in
            (r.0, r.1, ground (arith, q, u, c, r.2), r.3)
      ]
    ]
  ]
    where
      next_pos : 0 < u64 (now.msec + s.heartbeat_interval)
      next_pos = omega (arith, w.interval)

  -- Where the views in use are at the places of their times, heartbeat_next is not 0, the
  -- interval of the heartbeats is positive, the clock plus the interval fits in 64 bits, no cut
  -- time of a view that is received is after the horizon, and bgpview_clear returns: run_server
  -- returns, whatever it receives; and if it returns 0, the views are at the places of their
  -- times again, the interval is the same and heartbeat_next is not 0.
  pub run_server-Running :
      (s : Server V) (now : Clock) (event : Received V)
      → Clears V.zmq
      → InTime h event
      → 0 < b
      → now.msec + b < 2 ^ 64
      → Running h b s
      → (r : Ret) × (s' : Server V) × (run_server now event s ≡ some (r, s'))
        × (r ≡ zero_ret → Running h b s')
  unfolding run_server clients_purge
  run_server-Running s now event clears le pos lt w =
      Serves-then s (handle_received now event) after (serve_event s now event clears le w)
        (λ s1 w1.
          let r =
            Serves-then s1 (heartbeats now) (clients_purge now)
              (serve_heartbeats s1 now clears pos lt w1)
              (λ s2 w2. serve_purge now (length s2.clients) 0 s2 w2) in
          (r.0, r.1, ground (arith, w1.next, r.2), r.3))
    where
      after : Srv V Ret
      after = do
        next ← gets (λ s. s.heartbeat_next)
        assert (ltb 0 next)
        r' ← heartbeats now
        unless_failed r' (clients_purge now)
