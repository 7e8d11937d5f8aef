-- ===== src/Net/Examples/Servers.antt =====
-- A server with the base loop 4 and one more loop, 7. Its connection has been closed in loop 7 and
-- removed in loop 4, and is to be destroyed in loop 7.
use ham.Net.TcpServer.{
  Connection, ConnectionMap, TcpServer, set_num_of_threads, start, connection_name, assign, next_id,
  new_connection, remove_connection, erase,
}
use ham.Net.TcpServer.Loops.{
  establish_task, remove_task, destory_task, System, Reachable, at_start, later, sets_threads,
  starts, accepts, closes, runs, accept_connection, close_connection, run_task, run_in_loop,
  queue_task,
}
use ham.Net.TcpServer.Lifecycle.{Lives, Reachable-Lives}
use ham.Net.LoopPool
use ham.Net.LoopPool.{EventLoopThreadPool, get_next_loop, next_of, loop_at, start_loops}
use ham.Base.Text.{decimal}
use ham.Base.{ℕ, refl, Bool, true, List, [], ◌∷◌, arith, bytes}

abbrev first : Connection
first = record { name = bytes "h:80#1"; io_loop = 7; fd = 9 }

abbrev server : Bool → ℕ → List ℕ → ConnectionMap → TcpServer
server started next loops connections = record {
  host_port = bytes "h:80";
  started = started;
  listening = started;
  next_conn_id = next;
  pool = record {
    base_loop = 4;
    started = started;
    num_of_threads = 1;
    loops = loops;
    next_loop_idx = 0;
  };
  connections = connections;
}

abbrev accepted : System
accepted = record {
  server = server true 2 (7 ∷ []) ((bytes "h:80#1", first) ∷ []);
  pending = (7, establish_task first) ∷ [];
  created = first ∷ [];
  established = [];
  closed = [];
  removed = [];
  destroyed = [];
}

abbrev closed : System
closed = record accepted {
  pending = (4, remove_task first) ∷ [];
  established = first ∷ [];
  closed = first ∷ [];
}

abbrev removed : System
removed = record closed {
  server = server true 2 (7 ∷ []) [];
  pending = (7, destory_task first) ∷ [];
  removed = first ∷ [];
}

accepted-Reachable : Reachable 4 (bytes "h:80") accepted
unfolding set_num_of_threads ham.Net.LoopPool.set_num_of_threads start ham.Net.LoopPool.start
    start_loops accept_connection new_connection next_id get_next_loop next_of loop_at
    connection_name decimal run_in_loop queue_task run_task assign
accepted-Reachable =
    later
      (later (later at_start (sets_threads 1)) (starts (λ i. 7) (server true 1 (7 ∷ []) []) refl))
      (accepts 9 accepted refl)

removed-Reachable : Reachable 4 (bytes "h:80") removed
unfolding close_connection run_in_loop queue_task run_task remove_connection erase
removed-Reachable =
    later
      (later
        (later accepted-Reachable (
          runs 7 (establish_task first) [] [] refl
            (record accepted { pending = []; established = first ∷ [] }) refl))
        (closes first [] [] refl closed refl))
      (runs 4 (remove_task first) [] [] refl removed refl)

Reachable-Lives_example : Lives 1 (connection_name (bytes "h:80") 1) removed
Reachable-Lives_example = Reachable-Lives 4 (bytes "h:80") 1 (omega arith) removed-Reachable
