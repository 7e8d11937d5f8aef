-- ===== src/Net/TcpServer/Lifecycle.antt =====
-- The life of a connection, from `newConnectionCallback` to `destoryConnection`.
use ham.Net.TcpServer.{set_num_of_threads}
use ham.Net.LoopPool
use ham.Net.TcpServer.Names.{start-SameConnections}
use ham.Net.TcpServer.Loops.{sets_threads, starts}
use ham.Net.TcpServer.Pending.{sum, establishing, removing, destroying, misplaced, taken}
use ham.Net.TcpServer.{Connection, TcpServer, new_connection, remove_connection, connection_name}
use ham.Net.TcpServer.Loops.{
  Task, establish_task, remove_task, destory_task, System, queue_task, run_task, run_in_loop,
  accept_connection, close_connection, Step, accepts, closes, runs, Reachable, at_start, later,
}
use ham.Net.TcpServer.Names.{
  one, count, entries, count-middle, same_text-connection_name, entries-assign_other,
  entries-assign_same, entries-erase_other, entries-erase_same, Made, new_connection-Made,
}
use ham.Base.Text.{same_text}
use ham.Base.{
  Returns-eq, Returns_at, Result-cases, ==-self, Bool-cases, Returns-assert, ℕ, ◌+◌, ◌^◌, ◌≤◌, ◌<◌,
  ◌≡◌, refl, inl, inr, ◌&&◌, List, [], ◌∷◌, ◌++◌, arith, ltb, leb, ◌==◌, ok, Returns,
}

-- What holds of the connection whose name is `n`: it was made if its number `i` has been given out, and
-- each further event comes after the one before it, as often as that; it is in the map until it is first
-- removed. No functor is in a wrong loop.
pub record Lives (i : ℕ) (n : List ℕ) (s : System) : Type 0 where
  pub named : n ≡ connection_name s.server.host_port i
  pub numbered : 1 ≤ s.server.next_conn_id
  pub born : count n s.created ≡ one (leb 1 i && ltb i s.server.next_conn_id)
  pub establishes : count n s.established + sum (establishing n) s.pending ≡ count n s.created
  pub closes_late : count n s.established ≡ 0 → count n s.closed ≡ 0
  pub removes : count n s.removed + sum (removing n) s.pending ≡ count n s.closed
  pub destroys : count n s.destroyed + sum (destroying n) s.pending ≡ count n s.removed
  pub mapped : entries n s.server.connections + one (ltb 0 (count n s.removed)) ≡ count n s.created
  pub placed : sum (misplaced s.server.pool.base_loop) s.pending ≡ 0

run-Lives :
    (i : ℕ) (n : List ℕ) (s : System) (loop : ℕ) (task : Task) (xs ys : List (ℕ × Task))
    → s.pending ≡ xs ++ ((loop, task) ∷ ys)
    → Lives i n s
    → Returns (run_task loop task (record s { pending = xs ++ ys })) (Lives i n)
unfolding run_task queue_task remove_connection
run-Lives i n s loop (establish_task c) xs ys e h =
    let less = taken n s.server.pool.base_loop xs ys s.pending (loop, establish_task c) e in
    Returns-assert (loop == c.io_loop) _ _ (ground (arith, less)) (ground (arith, less))
run-Lives i n s loop (remove_task c) xs ys e h =
    let less = taken n s.server.pool.base_loop xs ys s.pending (loop, remove_task c) e in
    Returns-assert (loop == s.server.pool.base_loop) _ _ (ground (arith, less))
      (elim (Bool-cases (same_text c.name n)) [
        | inl same ↦
            ground (
              arith,
              less,
              entries-erase_same c.name n s.server.connections same,
              ==-self c.io_loop,
            )
        | inr other ↦ ground (
          arith,
          less,
          entries-erase_other c.name n s.server.connections other,
          ==-self c.io_loop,
        )
      ])
run-Lives i n s loop (destory_task c) xs ys e h =
    let less = taken n s.server.pool.base_loop xs ys s.pending (loop, destory_task c) e in
    Returns-assert (loop == c.io_loop) _ _ (ground (arith, less)) (ground (arith, less))

-- A functor that runs at once does what it does when it has been queued first.
run_in_loop-Lives :
    (i : ℕ) (n : List ℕ) (s : System) (current loop : ℕ) (task : Task)
    → Lives i n (record s { pending = (loop, task) ∷ s.pending })
    → Returns (run_in_loop current loop task s) (Lives i n)
unfolding run_in_loop queue_task
run_in_loop-Lives i n s current loop task h = elim (Bool-cases (current == loop)) [
  | inl here ↦ rw here (
      run-Lives i n (record s { pending = (loop, task) ∷ s.pending }) loop task [] s.pending refl h)
  | inr there ↦ rw there h
]

close-Lives :
    (i : ℕ) (n : List ℕ) (s : System) (c : Connection) (xs ys : List Connection)
    → s.established ≡ xs ++ (c ∷ ys)
    → Lives i n s
    → Returns (close_connection c s) (Lives i n)
unfolding close_connection
close-Lives i n s c xs ys e h =
    run_in_loop-Lives i n (record s { closed = c ∷ s.closed }) c.io_loop s.server.pool.base_loop
      (remove_task c)
      (elim (Bool-cases (same_text c.name n)) [
        | inl same ↦
            let is_established : count n s.established
                ≡ one (same_text c.name n) + count n (xs ++ ys) =
              rw e (count-middle n xs ys c) in
            ground (arith, is_established, ==-self s.server.pool.base_loop)
        | inr other ↦ ground (arith, ==-self s.server.pool.base_loop)
      ])

birth-Lives :
    (i : ℕ) (n : List ℕ) (s : System) (c : Connection) (server : TcpServer)
    → i < 2 ^ 31
    → Made s.server c server
    → Lives i n s
    → Lives i n (record s {
      server = server;
      created = c ∷ s.created;
      pending = (c.io_loop, establish_task c) ∷ s.pending;
    })
birth-Lives i n s c server hi made h =
    let id = s.server.next_conn_id in
    let same_name : same_text c.name n ≡ (id == i) =
      rw (made.name_lem, h.named)
        (same_text-connection_name s.server.host_port id i (omega (arith, made.id-bound)) hi) in
    elim (Bool-cases (id == i)) [
      | inl same ↦ ground (
        arith,
        made,
        h,
        ==-self c.io_loop,
        same_name,
        entries-assign_same c.name n c s.server.connections,
      )
      | inr other ↦ ground (
        arith,
        made,
        h,
        ==-self c.io_loop,
        same_name,
        entries-assign_other c.name n c s.server.connections,
      )
    ]

accept-Lives :
    (i : ℕ) (n : List ℕ) (s : System) (fd : ℕ) (t : System)
    → i < 2 ^ 31
    → accept_connection fd s ≡ ok t
    → Lives i n s
    → Lives i n t
unfolding accept_connection
accept-Lives i n s fd t hi e h = elim (Result-cases (new_connection fd s.server)) [
  | inl (f, k) ↦ absurd (ground (arith, rw k at e))
  | inr ((c, server), k) ↦
      Returns_at
        (run_in_loop server.pool.base_loop c.io_loop (establish_task c)
          (record s { server = server; created = c ∷ s.created }))
        t (Lives i n) (rw k at e)
        (run_in_loop-Lives i n (record s { server = server; created = c ∷ s.created })
          server.pool.base_loop c.io_loop (establish_task c)
          (birth-Lives i n s c server hi (new_connection-Made fd s.server c server k) h))
]

Step-Lives : {i : ℕ} {n : List ℕ} {s t : System} → i < 2 ^ 31 → Step s t → Lives i n s → Lives i n t
unfolding set_num_of_threads ham.Net.LoopPool.set_num_of_threads
Step-Lives {i} {n} {s} hi (sets_threads k) h = ground arith
Step-Lives {i} {n} {s} hi (starts start_loop server e) h =
    ground (arith, h, start-SameConnections start_loop s.server server e)
Step-Lives {i} {n} {s} hi (accepts fd t e) h = accept-Lives i n s fd t hi e h
Step-Lives {i} {n} {s} hi (closes c xs ys at t e) h =
    Returns_at (close_connection c s) t (Lives i n) e (close-Lives i n s c xs ys at h)
Step-Lives {i} {n} {s} hi (runs loop task xs ys at t e) h =
    Returns_at (run_task loop task (record s { pending = xs ++ ys })) t (Lives i n) e
      (run-Lives i n s loop task xs ys at h)

-- In every state of a server and its loops, whatever the order in which the loops run their functors: the
-- connection of each number below 2 ^ 31 is made once when its number is given out and established once
-- at most; it closes only after that, and is removed and destroyed in this order and as often as it
-- closes, so once if it closes once; each functor for this is pending exactly between the event that
-- queues it and the one that it makes; and the map has the connection under its name, once, from its
-- making to its first removal. Every pending functor is in the loop that it asserts.
pub Reachable-Lives :
    (base : ℕ) (host_port : List ℕ) (i : ℕ) {s : System}
    → i < 2 ^ 31
    → Reachable base host_port s
    → Lives i (connection_name host_port i) s
Reachable-Lives base host_port i hi at_start = record {
  named = refl;
  numbered = omega arith;
  born = ground arith;
  establishes = omega arith;
  closes_late = λ e. refl;
  removes = omega arith;
  destroys = omega arith;
  mapped = omega arith;
  placed = omega arith;
}
Reachable-Lives base host_port i hi (later r st) =
    Step-Lives hi st (Reachable-Lives base host_port i hi r)

-- A pending functor runs without a failed assertion.
pub runs-Lives :
    (base : ℕ) (host_port : List ℕ) {s : System} (loop : ℕ) (task : Task) (xs ys : List (ℕ × Task))
    → Reachable base host_port s
    → s.pending ≡ xs ++ ((loop, task) ∷ ys)
    → (t : System) × Step s t × (run_task loop task (record s { pending = xs ++ ys }) ≡ ok t)
runs-Lives base host_port {s} loop task xs ys r e =
    let run = run_task loop task (record s { pending = xs ++ ys }) in
    let n = connection_name host_port 0 in
    let (t, done, _) =
      Returns-eq run (Lives 0 n)
        (run-Lives 0 n s loop task xs ys e (Reachable-Lives base host_port 0 (omega arith) r)) in
    (t, runs loop task xs ys e t done, done)
