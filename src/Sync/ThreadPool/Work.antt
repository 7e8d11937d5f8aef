-- ===== src/Sync/ThreadPool/Work.antt =====
-- ham/base/ThreadPool.cc: the tasks of the queue, and the threads that wait for them or for room.
use mathlib.Core.List.{append_assoc}
use ham.Sync.ThreadPool.{
  start_step, stop_step, run_direct, run_moved_direct, run_enters, run_sleeps, run_pushes,
  loop_goes_on, loop_ends, take_sleeps, take_pops, take_nothing, task_returns, task_throws,
  notify_take, notify_no_take, notify_run, notify_no_run, take_wakes, run_wakes, ThreadPool, added,
  start_threads, is_full, System, Step, Reachable, start, later,
}
use ham.Base.{
  length-middle, length-append, ℕ, ◌+◌, ◌-◌, ◌≤◌, ◌<◌, ◌≡◌, refl, true, false, [], ◌∷◌, ◌++◌, arith,
  length,
}

-- How many more tasks fit.
abbrev pub room : ThreadPool → ℕ
room p = p.maxsize - length p.queue

pub record Served (s : System) : Type 0 where
  pub in_order : s.started ++ s.pool.queue ≡ s.queued
  pub all_threads :
      s.pool.threads ≡ s.testing + (s.taking + (s.sleeping + (length s.running + s.ended)))
  pub takes_wake : 0 < s.sleeping → length s.pool.queue ≤ s.taking + s.owed_not_empty
  pub runs_wake : 0 < length s.runs_asleep → room s.pool ≤ length s.runs_at + s.owed_not_full
  pub bounded : 0 < length s.runs_asleep → 0 < s.pool.maxsize
  pub stopped_takes : s.pool.is_running ≡ false → s.sleeping ≡ 0
  pub stopped_runs : s.pool.is_running ≡ false → s.runs_asleep ≡ []

is_full-room : (p : ThreadPool) → is_full p ≡ true → (room p ≡ 0) × (0 < p.maxsize)
unfolding is_full
is_full-room p e = ground arith

Step-Served : {s t : System} → Step s t → Served s → Served t
unfolding start_threads added
Step-Served {s} (start_step n) h = ground arith
Step-Served {s} stop_step h = ground arith
Step-Served {s} (run_direct x e) h = ground arith
Step-Served {s} (run_moved_direct x e) h = ground arith
Step-Served {s} (run_enters x e) h = ground arith
Step-Served {s} (run_sleeps x xs ys e k) h =
    ground (arith, is_full-room s.pool, length-middle xs ys x)
Step-Served {s} (run_pushes x xs ys e k) h = ground (
  arith,
  length-middle xs ys x,
  length-append s.pool.queue (x ∷ []),
  append_assoc s.started s.pool.queue (x ∷ []),
)
Step-Served {s} (loop_goes_on n e k) h = ground arith
Step-Served {s} (loop_ends n e k) h = ground arith
Step-Served {s} (take_sleeps n e empty k) h = ground arith
Step-Served {s} (take_pops n x xs e q) h = ground (arith, append_assoc s.started (x ∷ []) xs)
Step-Served {s} (take_nothing n e empty k) h = ground arith
Step-Served {s} (task_returns x xs ys e) h = ground (arith, length-middle xs ys x)
Step-Served {s} (task_throws x xs ys e) h = ground (arith, length-middle xs ys x)
Step-Served {s} (notify_take k n e z) h = ground arith
Step-Served {s} (notify_no_take k e z) h = ground arith
Step-Served {s} (notify_run k x xs ys e z) h = ground (arith, length-middle xs ys x)
Step-Served {s} (notify_no_run k e z) h = ground arith
Step-Served {s} (take_wakes n e) h = ground arith
Step-Served {s} (run_wakes x xs ys e) h = ground (arith, length-middle xs ys x)

-- The tasks that the threads have started are, in order and each once, the first of the tasks that went
-- into the queue, and the queue has the others. While a thread sleeps in `take`, each task of the queue
-- has a thread that is about to take it or a notification that is to come; while a caller sleeps in
-- `run`, so does each free place of the queue. When the pool does not run, nobody sleeps.
pub Reachable-Served : (maxsize : ℕ) {s : System} → Reachable maxsize s → Served s
Reachable-Served maxsize start = record {
  in_order = refl;
  all_threads = omega arith;
  takes_wake = λ h. absurd (omega arith);
  runs_wake = λ h. absurd (omega arith);
  bounded = λ h. absurd (omega arith);
  stopped_takes = λ _. refl;
  stopped_runs = λ _. refl;
}
Reachable-Served maxsize (later r st) = Step-Served st (Reachable-Served maxsize r)
