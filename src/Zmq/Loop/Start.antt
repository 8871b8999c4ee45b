-- ===== src/Zmq/Loop/Start.antt =====
-- bgpview_io_zmq_server_start: what holds of the server after any messages.
use bgpview.Base.{
  ℕ, zero, suc, ◌+◌, ◌*◌, ◌^◌, ◌<◌, ◌≡◌, refl, sym, ap, subst, ◌∙◌, inl, Option, some, [], length,
  arith, get_elem?,
}
use bgpview.View.Types.{Ret, zero_ret}
use bgpview.Zmq.Types.{ZmqEnv, StoreView, unused}
use bgpview.Zmq.Sview.{store_view_create}
use bgpview.Zmq.Sview.Runs.{Clears}
use bgpview.Zmq.Store.{store_create, new_sviews}
use bgpview.Zmq.Store.Window.{Window}
use bgpview.Zmq.Server.{ServerEnv, Server, Clock, u64}
use bgpview.Zmq.Loop.{Received, run_server}
use bgpview.Zmq.Loop.Running.{Running}
use bgpview.Zmq.Loop.Reached.{InTime, run_server-Running}

-- The states between two calls of run_server in bgpview_io_zmq_server_start.
pub data Served {V : ServerEnv} (h b : ℕ) (s0 : Server V) : Server V → Type 0 where
  started : Served h b s0 s0
  served :
      {s s' : Server V} (now : Clock) (event : Received V)
      → Served h b s0 s
      → InTime h event
      → now.msec + b < 2 ^ 64
      → run_server now event s ≡ some (zero_ret, s')
      → Served h b s0 s'

-- bgpview_io_zmq_server_start, up to its loop
abbrev pub server_start :
    {V : ServerEnv} → (now : Clock) (window_len interval liveness : ℕ) → Server V
server_start now window_len interval liveness = record {
  clients = [];
  heartbeat_interval = interval;
  heartbeat_next = u64 (now.msec + interval);
  heartbeat_liveness = liveness;
  store_timeout_cnt = 0;
  store = store_create now.sec window_len;
}

length-new_sviews : (Z : ZmqEnv) (now cnt n i : ℕ) → length (new_sviews {Z = Z} now cnt n i) ≡ n
length-new_sviews Z now cnt zero i = refl
length-new_sviews Z now cnt (suc n) i = ap suc (length-new_sviews Z now cnt n (i + 1))

module _ {Z : ZmqEnv} (now cnt : ℕ) where
  new_sviews-fresh :
      (n i j : ℕ) (v : StoreView Z)
      → get_elem? (new_sviews now cnt n i) j ≡ some v
      → (v.id ≡ i + j) × (v.state ≡ unused)
  new_sviews-fresh zero i j v e = cc
  new_sviews-fresh (suc n) i zero v e = (omega (arith, id_eq e), state_eq e)
    where
      first : StoreView Z
      first =
          let x = store_view_create now cnt i in
          record x { reuse_remaining = x.reuse_remaining + i }

      id_eq : ◌≡◌ {A = Option (StoreView Z)} (some first) (some v) → v.id ≡ i
      id_eq q = ground arith

      state_eq : ◌≡◌ {A = Option (StoreView Z)} (some first) (some v) → v.state ≡ unused
      state_eq q = ground arith
  new_sviews-fresh (suc n) i (suc j) v e =
      let r = new_sviews-fresh n (i + 1) j v e in (omega (arith, r.0), r.1)

pub store_create-Window :
    {Z : ZmqEnv} (h now cnt : ℕ)
    → 0 < cnt
    → h + (cnt + 2) * 300 < 2 ^ 32
    → Window h (store_create {Z = Z} now cnt)
store_create-Window {Z} h now cnt pos fits = record {
  len = length-new_sviews Z now cnt cnt 0;
  f_lt = pos;
  aligned = refl;
  first_le = omega arith;
  fits = fits;
  own = λ i v e. omega (arith, (new_sviews-fresh now cnt cnt 0 i v e).0);
  place = λ i v e. inl (new_sviews-fresh now cnt cnt 0 i v e).1;
}

Served-Running :
    {S : ServerEnv} {h b : ℕ} {s0 s : Server S}
    → Clears S.zmq
    → 0 < b
    → Running h b s0
    → Served h b s0 s
    → Running h b s
Served-Running clears pos w started = w
Served-Running {S} {h} {b} clears pos w (served {s} {s'} now event before le lt run) =
    let r = run_server-Running s now event clears le pos lt (Served-Running clears pos w before) in
    the_same r.0 r.1 r.2 r.3
  where
    the_same :
        (r : Ret) (x : Server S)
        → run_server now event s ≡ some (r, x)
        → (r ≡ zero_ret → Running h b x)
        → Running h b s'
    the_same r x e keeps =
        subst (Running h b) (same_state (sym e ∙ run)) (keeps (same_ret (sym e ∙ run)))
      where
        same_ret :
            ◌≡◌ {A = Option (Ret × Server S)} (some (r, x)) (some (zero_ret, s')) → r ≡ zero_ret
        same_ret q = cc

        same_state : ◌≡◌ {A = Option (Ret × Server S)} (some (r, x)) (some (zero_ret, s')) → x ≡ s'
        same_state q = cc

-- Where the window has a place, its times fit in 32 bits with the horizon, the interval of the
-- heartbeats is positive, the clock plus the interval fits in 64 bits, and bgpview_clear
-- returns: after bgpview_io_zmq_server_start and any number of calls of run_server that return
-- 0, with times not after the horizon, the views in use are at the places of their times.
pub server_start-Window :
    {V : ServerEnv} (h : ℕ) (now : Clock) (cnt b liveness : ℕ) (s : Server V)
    → Clears V.zmq
    → 0 < cnt
    → h + (cnt + 2) * 300 < 2 ^ 32
    → 0 < b
    → now.msec + b < 2 ^ 64
    → Served h b (server_start now cnt b liveness) s
    → Window h s.store
server_start-Window h now cnt b liveness s clears pos fits beat lt run =
    (Served-Running clears beat
      (record {
        window = store_create-Window h now.sec cnt pos fits;
        interval = refl;
        next = omega arith;
      })
      run).window
