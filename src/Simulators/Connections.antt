-- ===== src/Simulators/Connections.antt =====
-- simulators/server.py, class ModbusServerSimulator: its bookkeeping of connections, without TLS. A
-- socket is a number, as are an address and a time; the thread's loop is a sequence of these calls.
pub mod Registers
pub mod Steps
pub mod Sweep
use pyomb.Prelude.{
  ℕ, suc, ◌+◌, ◌-◌, Bool, true, false, Option, none, some, List, [], ◌∷◌, ◌++◌, length, ltb, leb,
  ◌==◌, if◌then◌else◌,
}
use pyomb.Errors.{Result, ok, err, mode_error}
use pyomb.Struct.{Bytes}
use pyomb.Transport.Socket.{Inbox, Outbox}
use pyomb.Transport.TcpStream
use pyomb.Simulators.Server.{ModbusServerSimulator, on_data}

-- A dict keyed by sockets, in the order of insertion.
abbrev pub Register : Type 0
Register = List (ℕ × ℕ)

-- `x in l`, `l.remove(x)` where it is in, and the dict's `pop`, `get` and assignment.
unfoldable pub has : ℕ → List ℕ → Bool
has k [] = false
has k (x ∷ xs) = let rest = has k xs in if x == k then true else rest

unfoldable pub remove : ℕ → List ℕ → List ℕ
remove k [] = []
remove k (x ∷ xs) = let rest = remove k xs in if x == k then xs else x ∷ rest

unfoldable pub pop : ℕ → Register → Register
pop k [] = []
pop k ((x, v) ∷ r) = let rest = pop k r in if x == k then r else (x, v) ∷ rest

unfoldable pub lookup : ℕ → Register → Option ℕ
lookup k [] = none
lookup k ((x, v) ∷ r) = let rest = lookup k r in if x == k then some v else rest

unfoldable pub assign : ℕ → ℕ → Register → Register
assign k v [] = (k, v) ∷ []
assign k v ((x, w) ∷ r) = let rest = assign k v r in if x == k then (x, v) ∷ r else (x, w) ∷ rest

-- The attributes, the loop's `last_activity_time`, and the sockets closed so far.
pub record Connections : Type 0 where
  pub read_list : List ℕ
  pub clients : List ℕ
  pub peer_names : Register
  pub last_activity : Register
  pub closed : List ℕ

-- The settings, and the listening socket.
pub record Settings : Type 0 where
  pub srv : ℕ
  pub connection_limit : ℕ
  pub inactive_timeout : ℕ
  pub process_connections : Bool

-- What `_open_listener` leaves.
unfoldable pub opened : Settings → Connections
opened s = record {
  read_list = s.srv ∷ [];
  clients = [];
  peer_names = [];
  last_activity = [];
  closed = [];
}

unfoldable pub forget : ℕ → Connections → Connections
forget conn c = record {
  read_list = remove conn c.read_list;
  clients = remove conn c.clients;
  peer_names = pop conn c.peer_names;
  last_activity = pop conn c.last_activity;
  closed = c.closed ++ (conn ∷ []);
}

-- The socket and the address are what the listener's `accept` gives.
unfoldable pub accept_connection : Settings → ℕ → ℕ → ℕ → Connections → Connections
accept_connection s conn addr now c =
    if leb s.connection_limit (length c.read_list - 1)
    then record {
      read_list = c.read_list;
      clients = c.clients;
      peer_names = c.peer_names;
      last_activity = c.last_activity;
      closed = c.closed ++ (conn ∷ []);
    }
    else record {
      read_list = if s.process_connections then c.read_list ++ (conn ∷ []) else c.read_list;
      clients = c.clients ++ (conn ∷ []);
      peer_names = assign conn addr c.peer_names;
      last_activity =
          if s.process_connections then assign conn now c.last_activity else c.last_activity;
      closed = c.closed;
    }

-- `last_activity_time[conn] = now`
abbrev pub touch : ℕ → ℕ → Connections → Connections
touch conn now c = record {
  read_list = c.read_list;
  clients = c.clients;
  peer_names = c.peer_names;
  last_activity = assign conn now c.last_activity;
  closed = c.closed;
}

-- A connection's two directions.
abbrev pub Link : Type 0
Link = Inbox × Outbox

-- `_serve` behind `on_data`
unfoldable pub kept : ℕ → Connections → Result (Unit {0}) → Connections
unfolding forget
kept conn c (ok _) = c
kept conn c (err e) = forget conn c

-- `_serve` behind `receive`
unfoldable pub served :
    ModbusServerSimulator → ℕ → ℕ → Connections → Outbox → Result Bytes × Inbox → Connections × Link
unfolding forget kept
served server conn now c o (err e, q) = (forget conn c, (q, o))
served server conn now c o (ok [], q) = (forget conn c, (q, o))
served server conn now c o (ok (b ∷ t), q) =
    let (r, left) = on_data server (b ∷ t) o in (kept conn (touch conn now c) r, (q, left))

unfoldable pub serve : ModbusServerSimulator → ℕ → ℕ → ℕ → Connections → Link → Connections × Link
unfolding served
serve server frag_size conn now c (q, o) =
    served server conn now c o (TcpStream.receive frag_size q)

-- One turn of `_sweep_inactive`, on what the register says of the connection.
unfoldable pub sweep_one : Settings → ℕ → ℕ → Option ℕ → Connections → Connections
unfolding forget
sweep_one s now conn none c = c
sweep_one s now conn (some last_seen) c =
    if ltb (last_seen + s.inactive_timeout) now then forget conn c else c

-- The loop, over a copy of the read list.
unfoldable pub sweep_list : Settings → ℕ → List ℕ → Connections → Connections
unfolding sweep_one lookup
sweep_list s now [] c = c
sweep_list s now (conn ∷ rest) c =
    sweep_list s now rest
      (if conn == s.srv then c else sweep_one s now conn (lookup conn c.last_activity) c)

unfoldable pub sweep_inactive : Settings → ℕ → Connections → Connections
unfolding sweep_list
sweep_inactive s now c = sweep_list s now c.read_list c

-- `accept` of a caller outside the thread, behind its wait for a connection.
unfoldable pub accept : Settings → Connections → Result (Option (ℕ × Option ℕ)) × Connections
unfolding lookup
accept s c = if s.process_connections then (err mode_error, c) else elim c.clients [
  | [] ↦ (ok none, c)
  | conn ∷ rest ↦ (
    ok (some (conn, lookup conn c.peer_names)),
    record {
      read_list = c.read_list;
      clients = rest;
      peer_names = c.peer_names;
      last_activity = c.last_activity;
      closed = c.closed;
    },
  )
]

-- `reset`; it stops the thread too.
unfoldable pub reset : Connections → Connections
reset c = record {
  read_list = c.read_list;
  clients = [];
  peer_names = c.peer_names;
  last_activity = c.last_activity;
  closed = c.closed ++ c.clients;
}
