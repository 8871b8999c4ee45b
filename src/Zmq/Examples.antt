-- ===== src/Zmq/Examples.antt =====
-- A small server with two views in its store, and the theorems about lib/io/zmq applied to it.
use native.Mathlib.Decide.{ℕ_discrete}
use bgpview.Base.{
  ℕ, zero, suc, ◌+◌, ◌≡◌, ◌≢◌, refl, ◌⊎◌, inr, Bool, true, false, Option, none, some, List, [], ◌∷◌,
  ◌==◌, if◌then◌else◌, arith, get_elem?,
}
use bgpview.Khash.Linear.{linear}
use bgpview.View.Types.{Ret, zero_ret}
use bgpview.Zmq.Types.{ClientInfo, NameSet, ViewOps, unused, partial, ZmqEnv, StoreView, Store}
use bgpview.Zmq.Sview.{nothing_sent}
use bgpview.Zmq.Sview.Runs.{Clears}
use bgpview.Zmq.Store.{get_view, view_updated, disconnect, check_timeouts}
use bgpview.Zmq.Store.Window.{InPlace, Window}
use bgpview.Zmq.Store.Get.View.{Gives, get_view-Gives}
use bgpview.Zmq.Store.Updated.{Updated, view_updated-Updated}
use bgpview.Khash.Buckets.{Unique}
use bgpview.Zmq.Store.Disconnect.{Disconnected, disconnect-Disconnected}
use bgpview.Zmq.Store.Timeouts.Skips.{check_timeouts_skips}
use bgpview.Zmq.Server.{ServerClient, ServerEnv, Server, view_msg, Clock, msg_strhex, client_id}
use bgpview.Zmq.Server.Ids.{msg_strhex-injective, client_id_shared}
use bgpview.Zmq.Messages.{handle_recv_view}
use bgpview.Zmq.Messages.Receive.{Receives, handle_recv_view-Receives}
use bgpview.Zmq.Loop.{
  message, timeout, run_server, handle_received, heartbeats, clients_purge, purge_from,
}
use bgpview.Zmq.Loop.Running.{Running}
use bgpview.Zmq.Loop.Reached.{run_server-Running}
use bgpview.Zmq.Loop.Start.{started, served, server_start, server_start-Window}
use bgpview.Zmq.Loop.Purge.{clients_purge-survivors}

-- A view is its time and the time it was made.
abbrev two_times : ViewOps
two_times = record {
  View = ℕ × ℕ;
  create = λ now. (0, now);
  clear = λ now v. some (0, now);
  get_time = λ v. v.0;
  get_time_created = λ v. v.1;
  set_time = λ t v. (t, v.1);
  get_time_set = λ t v. refl;
}

insert_self : (n : ℕ) (s : ℕ → Bool) → (if n == n then true else s n) ≡ true
insert_self n s = ground arith

insert_keeps : (n m : ℕ) (s : ℕ → Bool) → s m ≡ true → (if m == n then true else s m) ≡ true
insert_keeps n m s e = ground (arith, e)

abbrev number_set : NameSet ℕ
number_set = record {
  Set = ℕ → Bool;
  create = λ n. false;
  clear = λ s n. false;
  insert = λ n s m. if m == n then true else s m;
  exists = λ s n. s n;
  exists_create = λ n. refl;
  exists_clear = λ s n. refl;
  exists_insert_self = insert_self;
  exists_insert_keeps = insert_keeps;
}

abbrev producer : ℕ → ClientInfo ℕ
producer n = record { name = n; intents = 1 }

abbrev small : ZmqEnv
small = record {
  ops = two_times;
  Name = ℕ;
  names = number_set;
  clients_hash = linear ℕ_discrete (producer 0);
  sends = λ log v. true;
}

abbrev sview : (id time : ℕ) → StoreView small
sview id time = record {
  id = id;
  state = partial;
  reuse_cnt = 0;
  reuse_remaining = 1;
  pub_cnt = 0;
  dis_status = nothing_sent;
  done_clients = λ n. n == 7;
  view = (time, 100);
}

-- The second place is the first of the window.
abbrev sample : Store small
sample = record {
  sviews = sview 0 1200 ∷ sview 1 900 ∷ [];
  sviews_cnt = 2;
  sviews_first_idx = 1;
  sviews_first_time = 900;
  active_clients = some (7, producer 7) ∷ some (8, producer 8) ∷ [];
  published = [];
}

sample-Window : Window 100000 sample
sample-Window = record {
  len = refl;
  f_lt = omega arith;
  aligned = refl;
  first_le = omega arith;
  fits = omega arith;
  own = own;
  place = place;
}
  where
    own : (i : ℕ) (v : StoreView small) → get_elem? sample.sviews i ≡ some v → v.id ≡ i
    own zero v e = ground arith
    own (suc zero) v e = ground arith
    own (suc (suc i)) v e = cc

    place :
        (i : ℕ) (v : StoreView small)
        → get_elem? sample.sviews i ≡ some v
        → (v.state ≡ unused) ⊎ InPlace 100000 2 1 900 i v
    place zero v e = inr (ground arith)
    place (suc zero) v e = inr (ground arith)
    place (suc (suc i)) v e = cc

clears : Clears small
clears now v = ((0, now), refl)

get_view-Gives_example :
    (i : Option ℕ) × (s' : Store small) × (get_view 5000 1700 sample ≡ some (i, s'))
    × Gives 100000 sample 1500 i s'
get_view-Gives_example = get_view-Gives sample 5000 1700 sample-Window (omega arith) clears

view_updated-Updated_example :
    (s' : Store small) × (view_updated 5000 (some (1200, 100)) (producer 8) sample
      ≡ some (zero_ret, s'))
    × Updated 100000 sample 0 (sview 0 1200) (producer 8) s'
view_updated-Updated_example =
    view_updated-Updated sample sample-Window 0 (sview 0 1200) refl (λ e. cc) 5000 (producer 8)
      (1200, 100) refl

sample_clients-Unique : Unique sample.active_clients
sample_clients-Unique zero zero k u v e d = refl
sample_clients-Unique zero (suc zero) k u v e d = absurd (ground (arith, e, d))
sample_clients-Unique (suc zero) zero k u v e d = absurd (ground (arith, e, d))
sample_clients-Unique (suc zero) (suc zero) k u v e d = refl
sample_clients-Unique zero (suc (suc j)) k u v e d = cc
sample_clients-Unique (suc zero) (suc (suc j)) k u v e d = cc
sample_clients-Unique (suc (suc i)) j k u v e d = cc

disconnect-Disconnected_example :
    (s' : Store small) × (disconnect 5000 (producer 8) sample ≡ some (zero_ret, s'))
    × Disconnected 100000 sample 8 s'
disconnect-Disconnected_example =
    disconnect-Disconnected 5000 (producer 8) sample sample-Window sample_clients-Unique

check_timeouts_skips_example :
    (r : Ret) × (s' : Store small) × (check_timeouts 5000 sample ≡ some (r, s'))
    × (get_elem? s'.sviews 0 ≡ some (sview 0 1200))
check_timeouts_skips_example =
    check_timeouts_skips clears 5000 sample sample-Window (sview 1 900) refl (λ e. cc) refl
      (omega arith)

-- The server, with the identity of a client as the sum of its bytes.
abbrev sum_bytes : List ℕ → ℕ
sum_bytes [] = 0
sum_bytes (b ∷ bs) = b + sum_bytes bs

identities : Discrete (List ℕ)
identities = hlevel (ℕ_discrete)

abbrev client : (n expiry : ℕ) → ServerClient ℕ
client n expiry = record {
  identity = n ∷ [];
  hexid = msg_strhex (n ∷ []);
  expiry = expiry;
  info = producer n;
}

abbrev small_server : ServerEnv
small_server = record {
  zmq = small;
  c_string = sum_bytes;
  clients_hash = linear identities (client 0 0);
  can_send = λ identity. true;
}

abbrev sample_server : Server small_server
sample_server = record {
  clients =
      some (msg_strhex (7 ∷ []), client 7 4000) ∷ some (msg_strhex (8 ∷ []), client 8 9000000) ∷ [];
  heartbeat_interval = 2000;
  heartbeat_next = 5001000;
  heartbeat_liveness = 450;
  store_timeout_cnt = 60;
  store = sample;
}

abbrev noon : Clock
noon = record { sec = 5000; msec = 5000000 }

abbrev whole : ℕ × ℕ → Bool × (ℕ × ℕ)
whole v = (true, (77, v.1))

handle_recv_view-Receives_example :
    (r : Ret) × (t : Store small) × (handle_recv_view 5000
        (some 1301)
        whole
        true
        (producer 8)
        sample_server
      ≡ some (r, record sample_server { store = t }))
    × Receives 100000 sample 1200 whole true (producer 8) r t
handle_recv_view-Receives_example =
    handle_recv_view-Receives 5000 1301 whole true (producer 8) sample_server sample-Window
      (omega arith) clears

sample-Running : Running 100000 2000 sample_server
sample-Running = record { window = sample-Window; interval = refl; next = omega arith }

run_server-Running_example :
    (r : Ret) × (s' : Server small_server) × (run_server noon
        (message (8 ∷ []) (view_msg (some 1) true (some 1301) whole true))
        sample_server
      ≡ some (r, s'))
    × (r ≡ zero_ret → Running 100000 2000 s')
run_server-Running_example =
    run_server-Running sample_server noon
      (message (8 ∷ []) (view_msg (some 1) true (some 1301) whole true)) clears (omega arith)
      (omega arith) (omega arith) sample-Running

abbrev new_server : Server small_server
new_server = server_start noon 6 2000 450

server_start-Window_example : Window 100000 new_server.store
unfolding run_server handle_received heartbeats clients_purge purge_from
server_start-Window_example =
    server_start-Window 100000 noon 6 2000 450 new_server clears (omega arith) (omega arith)
      (omega arith) (omega arith) (served noon timeout started tt (omega arith) refl)

clients_purge-survivors_example :
    (s' : Server small_server) × (clients_purge noon sample_server ≡ some (zero_ret, s'))
    × (s'.clients ≡ none ∷ some (msg_strhex (8 ∷ []), client 8 9000000) ∷ [])
    × Window 100000 s'.store
clients_purge-survivors_example = clients_purge-survivors noon sample_server sample-Window

msg_strhex-injective_example : ◌≡◌ {A = List ℕ} (171 ∷ 5 ∷ []) (171 ∷ 5 ∷ [])
msg_strhex-injective_example =
    msg_strhex-injective (171 ∷ 5 ∷ []) (171 ∷ 5 ∷ []) (omega arith) (omega arith) refl

client_id_shared_example :
    (client_id (48 ∷ 48 ∷ 48 ∷ 49 ∷ []) ≡ client_id (0 ∷ 1 ∷ []))
    × (msg_strhex (48 ∷ 48 ∷ 48 ∷ 49 ∷ []) ≢ msg_strhex (0 ∷ 1 ∷ []))
client_id_shared_example = client_id_shared (0 ∷ 1 ∷ []) (omega arith) refl
