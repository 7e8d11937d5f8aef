-- ===== src/Net/TcpServer/Loops.antt =====
-- A server and its loops: each connection belongs to one loop, and the map belongs to the base loop.
-- What a functor does is one step, and the functors run in any order.
use ham.Net.TcpServer.{
  ConnectionMap, start, set_num_of_threads, Connection, TcpServer, new_server, new_connection,
  remove_connection,
}
use ham.Base.{◌++◌, ◌≡◌, ℕ, List, [], ◌∷◌, ◌==◌, if◌then◌else◌, Result, ok, ◌>>=◌, ◌>>◌, assert}

-- The functors that the loops are given.
pub data Task : Type 0 where
  establish_task : Connection → Task
  remove_task : Connection → Task
  destory_task : Connection → Task

-- `pending` are the functors that are to run, each with its loop. The other lists have the connections
-- that were made, on which `establishConnection`, `handleClose`, `removeConnectionInLoop` and
-- `destoryConnection` were called, the latest first.
pub record System : Type 0 where
  pub server : TcpServer
  pub pending : List (ℕ × Task)
  pub created : List Connection
  pub established : List Connection
  pub closed : List Connection
  pub removed : List Connection
  pub destroyed : List Connection

abbrev pub init : ℕ → List ℕ → System
init base host_port = record {
  server = new_server base host_port;
  pending = [];
  created = [];
  established = [];
  closed = [];
  removed = [];
  destroyed = [];
}

unfoldable pub queue_task : ℕ → Task → System → System
queue_task loop t s = record s { pending = (loop, t) ∷ s.pending }

-- A functor in the thread of a loop; each asserts that it is the right one.
unfoldable pub run_task : ℕ → Task → System → Result System
unfolding queue_task remove_connection
run_task loop (establish_task c) s = do
  assert (loop == c.io_loop)
  ok (record s { established = c ∷ s.established })
run_task loop (remove_task c) s = do
  assert (loop == s.server.pool.base_loop)
  ok (
      queue_task c.io_loop (destory_task c)
        (record s { server = remove_connection c s.server; removed = c ∷ s.removed }))
run_task loop (destory_task c) s = do
  assert (loop == c.io_loop)
  ok (record s { destroyed = c ∷ s.destroyed })

-- `runInLoop` of `loop`, in the thread of `current`.
unfoldable pub run_in_loop : ℕ → ℕ → Task → System → Result System
unfolding run_task queue_task
run_in_loop current loop t s =
    if current == loop then run_task loop t s else ok (queue_task loop t s)

-- `newConnectionCallback`, in the thread of the base loop.
unfoldable pub accept_connection : ℕ → System → Result System
unfolding run_in_loop new_connection
accept_connection fd s = do
  (c, server) ← new_connection fd s.server
  run_in_loop server.pool.base_loop c.io_loop (establish_task c)
      (record s { server = server; created = c ∷ s.created })

-- `handleClose` of a connection, in the thread of its loop: the close callback is `removeConnection`.
unfoldable pub close_connection : Connection → System → Result System
unfolding run_in_loop
close_connection c s =
    run_in_loop c.io_loop s.server.pool.base_loop (remove_task c)
      (record s { closed = c ∷ s.closed })

-- The destructor, in the thread `current`: it destroys the connections of the map itself.
unfoldable pub destroy_all : ℕ → ConnectionMap → System → Result System
unfolding run_task
destroy_all current [] s = ok s
destroy_all current ((n, c) ∷ m) s = run_task current (destory_task c) s >>= destroy_all current m

-- A connection that is established may close, and more than once: `handleEvent` may call the close
-- callback of a channel twice for one event.
pub data Step (s : System) : System → Type 0 where
  sets_threads : (n : ℕ) → Step s (record s { server = set_num_of_threads n s.server })
  starts :
      (start_loop : ℕ → ℕ) (server : TcpServer)
      → start start_loop s.server ≡ ok server
      → Step s (record s { server = server })
  accepts : (fd : ℕ) (t : System) → accept_connection fd s ≡ ok t → Step s t
  closes :
      (c : Connection) (xs ys : List Connection)
      → s.established ≡ xs ++ (c ∷ ys)
      → (t : System) → close_connection c s ≡ ok t
      → Step s t
  runs :
      (loop : ℕ) (task : Task) (xs ys : List (ℕ × Task))
      → s.pending ≡ xs ++ ((loop, task) ∷ ys)
      → (t : System) → run_task loop task (record s { pending = xs ++ ys }) ≡ ok t
      → Step s t

pub data Reachable (base : ℕ) (host_port : List ℕ) : System → Type 0 where
  at_start : Reachable base host_port (init base host_port)
  later : {s t : System} → Reachable base host_port s → Step s t → Reachable base host_port t
