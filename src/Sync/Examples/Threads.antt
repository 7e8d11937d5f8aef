-- ===== src/Sync/Examples/Threads.antt =====
-- A latch of count 1 with a thread that waits, and a pool of one thread with two tasks.
use ham.Sync.CountDownLatch.{CountDownLatch, pos, call_wait, wait_sleeps, count_down}
use ham.Sync.CountDownLatch.Waits.{Opens, countdowns-Opens}
use ham.Sync.ThreadPool.{
  System, start_threads, added, is_full, start_step, stop_step, loop_goes_on, run_enters,
  run_pushes, take_pops,
}
use ham.Sync.ThreadPool.Work.{Served, Reachable-Served}
use ham.Sync.ThreadPool.Stop.{AllEnded, stopped-AllEnded}
use ham.Sync.CountDownLatch
use ham.Sync.ThreadPool
use ham.Base.{refl, Bool, true, false, [], ◌∷◌, arith}

abbrev counted_down : CountDownLatch
counted_down = record {
  count = pos 0;
  waits_at = 0;
  waits_asleep = 1;
  waits_returned = 0;
  testing = 1;
  notifying = 0;
  countdowns = 1;
}

counted_down-Reachable : CountDownLatch.Reachable 1 counted_down
counted_down-Reachable =
    CountDownLatch.later
      (CountDownLatch.later (CountDownLatch.later CountDownLatch.start call_wait)
        (wait_sleeps 0 refl refl))
      count_down

countdowns-Opens_example : Opens counted_down
countdowns-Opens_example = countdowns-Opens 1 counted_down-Reachable refl (omega arith)

-- The thread runs the first task, the second one is in the queue.
abbrev at_work : Bool → System
at_work is_running = record {
  pool = record { is_running = is_running; threads = 1; queue = 6 ∷ []; maxsize = 2 };
  testing = 0;
  taking = 0;
  sleeping = 0;
  running = 5 ∷ [];
  ended = 0;
  runs_at = [];
  runs_asleep = [];
  owed_not_empty = 2;
  owed_not_full = 1;
  queued = 5 ∷ 6 ∷ [];
  started = 5 ∷ [];
  direct = [];
}

at_work-Reachable : ThreadPool.Reachable 2 (at_work true)
unfolding start_threads added is_full
at_work-Reachable =
    let r1 =
      ThreadPool.later (ThreadPool.later ThreadPool.start (start_step 1))
        (loop_goes_on 0 refl refl) in
    let r2 =
      ThreadPool.later (ThreadPool.later r1 (run_enters 5 (omega arith)))
        (run_pushes 5 [] [] refl refl) in
    let r3 =
      ThreadPool.later (ThreadPool.later r2 (run_enters 6 (omega arith)))
        (run_pushes 6 [] [] refl refl) in
    ThreadPool.later r3 (take_pops 0 5 (6 ∷ []) refl refl)

Reachable-Served_example : Served (at_work true)
Reachable-Served_example = Reachable-Served 2 at_work-Reachable

stopped-AllEnded_example : (t : System) × AllEnded 0 (at_work false) t
stopped-AllEnded_example = stopped-AllEnded 2 (ThreadPool.later at_work-Reachable stop_step) refl
