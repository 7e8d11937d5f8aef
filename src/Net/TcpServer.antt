-- ===== src/Net/TcpServer.antt =====
-- ham/net/TcpServer.cc, ham/net/TcpServer.h: the connections of a server, by their names. The acceptor is
-- known by whether it listens. A connection is known by its name, its loop and its descriptor.
pub mod Loops
pub mod Names
pub mod Pending
pub mod Destroying
pub mod Lifecycle
use ham.Net.LoopPool.{EventLoopThreadPool, new_pool, get_next_loop}
use ham.Base.Text.{decimal, same_text}
use ham.Base.{
  undefined, require, ℕ, zero, suc, ◌+◌, ◌-◌, ◌*◌, ◌/◌, ◌%◌, ◌^◌, ◌≤◌, ◌<◌, min, String, ◌≡◌, refl,
  sym, ap, ◌∙◌, ◌≢◌, ◌⊎◌, inl, inr, Bool, true, false, not, ◌&&◌, ◌||◌, Option, none, some, List,
  [], ◌∷◌, ◌++◌, arith, ltb, leb, ◌==◌, if◌then◌else◌, add_size, sub_size, length, take, drop,
  bytes, Result, ok, err, ◌>>=◌, ◌>>◌, assert, Returns,
}

pub record Connection : Type 0 where
  pub name : List ℕ
  pub io_loop : ℕ
  pub fd : ℕ

-- `std::map<std::string, TcpConnectionPtr>`; the order of the entries does not matter here.
abbrev pub ConnectionMap : Type 0
ConnectionMap = List (List ℕ × Connection)

pub record TcpServer : Type 0 where
  pub host_port : List ℕ
  pub started : Bool
  pub listening : Bool
  pub next_conn_id : ℕ
  pub pool : EventLoopThreadPool
  pub connections : ConnectionMap

-- The base loop and the text of the address to listen on.
abbrev pub new_server : ℕ → List ℕ → TcpServer
new_server base host_port = record {
  host_port = host_port;
  started = false;
  listening = false;
  next_conn_id = 1;
  pool = new_pool base;
  connections = [];
}

-- `connections_[name] = conn`.
unfoldable pub assign : List ℕ → Connection → ConnectionMap → ConnectionMap
assign name c [] = (name, c) ∷ []
assign name c ((n, d) ∷ m) =
    let rest = assign name c m in if same_text n name then (name, c) ∷ m else (n, d) ∷ rest

-- `connections_.erase(name)`.
unfoldable pub erase : List ℕ → ConnectionMap → ConnectionMap
erase name [] = []
erase name ((n, d) ∷ m) = let rest = erase name m in if same_text n name then m else (n, d) ∷ rest

unfoldable pub connection_name : List ℕ → ℕ → List ℕ
connection_name host_port id = host_port ++ (bytes "#" ++ decimal id)

-- `setNumOfThreads` asserts that the number is not negative.
unfoldable pub set_num_of_threads : ℕ → TcpServer → TcpServer
set_num_of_threads n s = record s { pool = ham.Net.LoopPool.set_num_of_threads n s.pool }

-- `start` in the thread of the base loop, which lets the acceptor listen once.
unfoldable pub start : (ℕ → ℕ) → TcpServer → Result TcpServer
start start_loop s = do
  pool ← ham.Net.LoopPool.start start_loop s.pool
  ok (record s { started = true; pool = pool; listening = true })

-- The increment of the last `int` is undefined.
unfoldable pub next_id : TcpServer → Result (ℕ × TcpServer)
next_id s = do
  require (ltb s.next_conn_id (2 ^ 31 - 1)) undefined
  ok (s.next_conn_id, record s { next_conn_id = suc s.next_conn_id })

-- `newConnectionCallback`, up to the call of `runInLoop`.
unfoldable pub new_connection : ℕ → TcpServer → Result (Connection × TcpServer)
unfolding next_id connection_name assign
new_connection fd s = do
  (io_loop, pool) ← get_next_loop s.pool
  (id, counted) ← next_id (record s { pool = pool })
  let name = connection_name counted.host_port id
  let c : Connection = record { name = name; io_loop = io_loop; fd = fd }
  ok (c, record counted { connections = assign name c counted.connections })

-- `removeConnectionInLoop`, up to the call of `queueInLoop`.
unfoldable pub remove_connection : Connection → TcpServer → TcpServer
unfolding erase
remove_connection c s = record s { connections = erase c.name s.connections }
