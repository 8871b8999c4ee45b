-- ===== src/Zmq/Server.antt =====
-- lib/io/zmq/bgpview_io_zmq_server.c: the server and its clients.
pub mod Ids
use bgpview.Base.{
  ℕ, zero, suc, ◌+◌, ◌*◌, ◌/◌, ◌%◌, ◌^◌, Bool, true, false, ◌||◌, Option, none, some, List, [], ◌∷◌,
  length, ltb, leb, ◌==◌, if◌then◌else◌,
}
use bgpview.Khash.Buckets.{Buckets, slot, put_val}
use bgpview.Khash.Interface.{Khash}
use bgpview.View.Types.{Ret, minus_one, zero_ret, one_ret}
use bgpview.Zmq.Types.{ClientInfo, ZmqEnv, StoreView, Store}
use bgpview.Zmq.Op.{Op, get_sview, put_sview}
use bgpview.Zmq.Store.{get_view, view_updated, client_connect, disconnect, check_timeouts}

-- hex_char
abbrev pub hex_char : ℕ → ℕ
hex_char d = if ltb d 10 then 48 + d else 55 + d

-- msg_strhex, of the bytes of a frame
abbrev pub msg_strhex : List ℕ → List ℕ
msg_strhex [] = []
msg_strhex (b ∷ bs) = hex_char (b / 16) ∷ hex_char (b % 16) ∷ msg_strhex bs

abbrev pub msg_isbinary : List ℕ → Bool
msg_isbinary [] = false
msg_isbinary (b ∷ bs) = (ltb b 9 || ltb 127 b) || msg_isbinary bs

-- The printable id of a client (msg_str copies the bytes).
abbrev pub client_id : List ℕ → List ℕ
client_id identity = if msg_isbinary identity then msg_strhex identity else identity

-- bgpview_io_zmq_server_client_t, without the printable id, which its info has
pub record ServerClient (Name : Type 0) : Type 0 where
  pub identity : List ℕ
  pub hexid : List ℕ
  pub expiry : ℕ
  pub info : ClientInfo Name

-- What the server works with: the tables of the store, a C string as a key of them, the table of
-- clients, and whether a frame can be sent to a client.
pub record ServerEnv : Type 1 where
  pub zmq : ZmqEnv
  pub c_string : List ℕ → zmq.Name
  pub clients_hash : Khash (List ℕ) (ServerClient zmq.Name)
  pub can_send : List ℕ → Bool

-- struct bgpview_io_zmq_server, without its sockets and names
pub record Server (V : ServerEnv) : Type 0 where
  pub clients : Buckets (List ℕ) (ServerClient V.zmq.Name)
  pub heartbeat_interval : ℕ
  pub heartbeat_next : ℕ
  pub heartbeat_liveness : ℕ
  pub store_timeout_cnt : ℕ
  pub store : Store V.zmq

-- The frames of a message after its type; `none` where one is missing or has another size. `body` is
-- what bgpview_io_zmq_recv makes of a view, and whether it succeeds; without a view it succeeds or not.
pub data Message (V : ServerEnv) : Type 0 where
  view_msg :
      (intents : Option ℕ) (seq : Bool) (time : Option ℕ)
      → (body : V.zmq.ops.View → Bool × V.zmq.ops.View) → (skipped : Bool) → Message V
  heartbeat_msg : Message V
  ready_msg : (intents : Option ℕ) → Message V
  term_msg : Message V
  invalid_msg : Message V

-- Whether a heartbeat can be sent to every client.
abbrev pub all_reachable :
    {Name : Type 0} → (List ℕ → Bool) → Buckets (List ℕ) (ServerClient Name) → Bool
all_reachable can_send [] = true
all_reachable can_send (none ∷ t) = all_reachable can_send t
all_reachable can_send (some (_, c) ∷ t) =
    let rest = all_reachable can_send t in if can_send c.identity then rest else false

-- The wall clock: epoch_sec() and epoch_msec().
pub record Clock : Type 0 where
  pub sec : ℕ
  pub msec : ℕ

abbrev pub u64 : ℕ → ℕ
u64 n = n % 2 ^ 64

-- STORE_HEARTBEATS_PER_TIMEOUT
abbrev pub heartbeats_per_timeout : ℕ
heartbeats_per_timeout = 60

abbrev pub Srv : ServerEnv → Type 0 → Type 0
Srv V A = Server V → Option (A × Server V)

module _ {V : ServerEnv} {A : Type 0} where
  abbrev pub pure : A → Srv V A
  pure a s = some (a, s)

  abbrev pub gets : (Server V → A) → Srv V A
  gets f s = some (f s, s)

  -- A call of the store.
  abbrev pub on_store : Op V.zmq A → Srv V A
  on_store m s = elim (m s.store) [ none ↦ none | some (a, t) ↦ some (a, record s { store = t }) ]

module _ {V : ServerEnv} {A B : Type 0} where
  infixl 5 ◌>>=◌
  abbrev pub ◌>>=◌ : Srv V A → (A → Srv V B) → Srv V B
  ◌>>=◌ m f s = elim (m s) [ none ↦ none | some (a, s') ↦ f a s' ]

module _ {V : ServerEnv} {B : Type 0} where
  infixl 5 ◌>>◌
  abbrev pub ◌>>◌ : Srv V (Unit {0}) → Srv V B → Srv V B
  m >> k = m >>= λ _. k

-- client->info.intents = new_intents
abbrev pub set_intents : {Name : Type 0} → ℕ → ServerClient Name → ServerClient Name
set_intents n c = record c { info = record c.info { intents = n } }

module _ {V : ServerEnv} where
  abbrev pub modify : (Server V → Server V) → Srv V (Unit {0})
  modify f s = some (tt, f s)

  abbrev pub assert : Bool → Srv V (Unit {0})
  assert true s = some (tt, s)
  assert false s = none

  -- `if (call != 0) goto err;`
  abbrev pub unless_failed : Ret → Srv V Ret → Srv V Ret
  unless_failed zero_ret m = m
  unless_failed minus_one m = pure minus_one
  unless_failed one_ret m = pure minus_one

  -- When a client that is heard of now expires.
  abbrev pub expiry_after : ℕ → Server V → ℕ
  expiry_after now s = u64 (now + s.heartbeat_interval * s.heartbeat_liveness)

  -- client_get and, where the key is not in the table, client_init.
  unfoldable pub client_at :
      (now : ℕ) (identity : List ℕ)
      → Option (List ℕ × ServerClient V.zmq.Name)
      → Srv V (ServerClient V.zmq.Name)
  client_at now identity (some (_, c)) s =
      let c' : ServerClient V.zmq.Name = record c { expiry = expiry_after now s } in
      let k = V.clients_hash.get s.clients (msg_strhex identity) in
      some (c', record s { clients = put_val s.clients k c' })
  client_at now identity none s =
      let c' : ServerClient V.zmq.Name = record {
        identity = identity;
        hexid = msg_strhex identity;
        expiry = expiry_after now s;
        info = record { name = V.c_string (client_id identity); intents = 0 };
      } in
      let r = V.clients_hash.put s.clients (msg_strhex identity) in
      some (c', record s { clients = put_val r.table r.at c' })

  -- The client of an identity frame.
  unfoldable pub client_of : (now : ℕ) (identity : List ℕ) → Srv V (ServerClient V.zmq.Name)
  unfolding client_at
  client_of now identity s =
      client_at now identity (slot s.clients (V.clients_hash.get s.clients (msg_strhex identity))) s
