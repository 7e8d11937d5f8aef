-- ===== src/Sync/ThreadPool.antt =====
-- ham/base/ThreadPool.cc: threads that run tasks out of a queue. A task is named by a number, and what a
-- thread does while it holds the mutex is one step.
pub mod Work
pub mod Stop
use ham.Base.{
  ℕ, zero, suc, ◌+◌, ◌-◌, ◌*◌, ◌/◌, ◌%◌, ◌^◌, ◌≤◌, ◌<◌, min, String, ◌≡◌, refl, sym, ap, ◌∙◌, ◌≢◌,
  ◌⊎◌, inl, inr, Bool, true, false, not, ◌&&◌, ◌||◌, Option, none, some, List, [], ◌∷◌, ◌++◌, arith,
  ltb, leb, ◌==◌, if◌then◌else◌, add_size, sub_size, length, take, drop, bytes, Result, ok, err,
  ◌>>=◌, ◌>>◌, assert, Returns,
}

-- `threads` is the size of `threads_`.
pub record ThreadPool : Type 0 where
  pub is_running : Bool
  pub threads : ℕ
  pub queue : List ℕ
  pub maxsize : ℕ

abbrev pub new_pool : ℕ → ThreadPool
new_pool maxsize = record { is_running = false; threads = 0; queue = []; maxsize = maxsize }

-- The threads that `start` adds.
unfoldable pub added : ℕ → ThreadPool → ℕ
added num_of_threads p = if p.is_running then 0 else num_of_threads

unfoldable pub start_threads : ℕ → ThreadPool → ThreadPool
unfolding added
start_threads num_of_threads p = record p {
  is_running = true;
  threads = p.threads + added num_of_threads p;
}

unfoldable pub is_full : ThreadPool → Bool
is_full p = ltb 0 p.maxsize && leb p.maxsize (length p.queue)

-- The threads of the pool are at the test of `threadFunc`, at the mutex or asleep in `take`, in a task,
-- or at their end. The callers inside `run` are at the mutex or asleep, named by their tasks. `owed`
-- counts the notifications that are still to come. `queued` and `started` are the tasks that went into
-- the queue or out of it so far, and `direct` the ones that callers of `run` ran themselves.
pub record System : Type 0 where
  pub pool : ThreadPool
  pub testing : ℕ
  pub taking : ℕ
  pub sleeping : ℕ
  pub running : List ℕ
  pub ended : ℕ
  pub runs_at : List ℕ
  pub runs_asleep : List ℕ
  pub owed_not_empty : ℕ
  pub owed_not_full : ℕ
  pub queued : List ℕ
  pub started : List ℕ
  pub direct : List ℕ

abbrev pub init : ℕ → System
init maxsize = record {
  pool = new_pool maxsize;
  testing = 0;
  taking = 0;
  sleeping = 0;
  running = [];
  ended = 0;
  runs_at = [];
  runs_asleep = [];
  owed_not_empty = 0;
  owed_not_full = 0;
  queued = [];
  started = [];
  direct = [];
}

pub data Step (s : System) : System → Type 0 where
  start_step :
      (n : ℕ)
      → Step s (record s { pool = start_threads n s.pool; testing = s.testing + added n s.pool })
  -- The part of `stop` that holds the mutex.
  stop_step : Step s (record s {
    pool = record s.pool { is_running = false };
    taking = s.taking + s.sleeping;
    sleeping = 0;
    runs_at = s.runs_at ++ s.runs_asleep;
    runs_asleep = [];
  })
  -- Without threads, `run(const Task&)` calls the task, and `run(Task&&)` also goes on to queue it.
  run_direct : (x : ℕ) → s.pool.threads ≡ 0 → Step s (record s { direct = s.direct ++ (x ∷ []) })
  run_moved_direct :
      (x : ℕ)
      → s.pool.threads ≡ 0
      → Step s (record s { direct = s.direct ++ (x ∷ []); runs_at = x ∷ s.runs_at })
  run_enters : (x : ℕ) → 0 < s.pool.threads → Step s (record s { runs_at = x ∷ s.runs_at })
  run_sleeps :
      (x : ℕ) (xs ys : List ℕ)
      → s.runs_at ≡ xs ++ (x ∷ ys)
      → (is_full s.pool && s.pool.is_running) ≡ true
      → Step s (record s { runs_at = xs ++ ys; runs_asleep = x ∷ s.runs_asleep })
  run_pushes :
      (x : ℕ) (xs ys : List ℕ)
      → s.runs_at ≡ xs ++ (x ∷ ys)
      → (is_full s.pool && s.pool.is_running) ≡ false
      → Step s (record s {
        pool = record s.pool { queue = s.pool.queue ++ (x ∷ []) };
        runs_at = xs ++ ys;
        owed_not_empty = suc s.owed_not_empty;
        queued = s.queued ++ (x ∷ []);
      })
  loop_goes_on :
      (n : ℕ)
      → s.testing ≡ suc n
      → s.pool.is_running ≡ true
      → Step s (record s { testing = n; taking = suc s.taking })
  loop_ends :
      (n : ℕ)
      → s.testing ≡ suc n
      → s.pool.is_running ≡ false
      → Step s (record s { testing = n; ended = suc s.ended })
  take_sleeps :
      (n : ℕ)
      → s.taking ≡ suc n
      → s.pool.queue ≡ []
      → s.pool.is_running ≡ true
      → Step s (record s { taking = n; sleeping = suc s.sleeping })
  take_pops :
      (n x : ℕ) (xs : List ℕ)
      → s.taking ≡ suc n
      → s.pool.queue ≡ x ∷ xs
      → Step s (record s {
        pool = record s.pool { queue = xs };
        taking = n;
        running = x ∷ s.running;
        owed_not_full = if ltb 0 s.pool.maxsize then suc s.owed_not_full else s.owed_not_full;
        started = s.started ++ (x ∷ []);
      })
  -- `take` returns a task that is empty.
  take_nothing :
      (n : ℕ)
      → s.taking ≡ suc n
      → s.pool.queue ≡ []
      → s.pool.is_running ≡ false
      → Step s (record s { taking = n; testing = suc s.testing })
  task_returns :
      (x : ℕ) (xs ys : List ℕ)
      → s.running ≡ xs ++ (x ∷ ys)
      → Step s (record s { running = xs ++ ys; testing = suc s.testing })
  -- `threadFunc` catches an exception outside of its loop.
  task_throws :
      (x : ℕ) (xs ys : List ℕ)
      → s.running ≡ xs ++ (x ∷ ys)
      → Step s (record s { running = xs ++ ys; ended = suc s.ended })
  notify_take :
      (k n : ℕ)
      → s.owed_not_empty ≡ suc k
      → s.sleeping ≡ suc n
      → Step s (record s { owed_not_empty = k; sleeping = n; taking = suc s.taking })
  notify_no_take :
      (k : ℕ) → s.owed_not_empty ≡ suc k → s.sleeping ≡ 0 → Step s (record s { owed_not_empty = k })
  notify_run :
      (k x : ℕ) (xs ys : List ℕ)
      → s.owed_not_full ≡ suc k
      → s.runs_asleep ≡ xs ++ (x ∷ ys)
      → Step s (record s { owed_not_full = k; runs_asleep = xs ++ ys; runs_at = x ∷ s.runs_at })
  notify_no_run :
      (k : ℕ)
      → s.owed_not_full ≡ suc k
      → s.runs_asleep ≡ []
      → Step s (record s { owed_not_full = k })
  -- A wait may also end by itself.
  take_wakes :
      (n : ℕ) → s.sleeping ≡ suc n → Step s (record s { sleeping = n; taking = suc s.taking })
  run_wakes :
      (x : ℕ) (xs ys : List ℕ)
      → s.runs_asleep ≡ xs ++ (x ∷ ys)
      → Step s (record s { runs_asleep = xs ++ ys; runs_at = x ∷ s.runs_at })

pub data Reachable (maxsize : ℕ) : System → Type 0 where
  start : Reachable maxsize (init maxsize)
  later : {s t : System} → Reachable maxsize s → Step s t → Reachable maxsize t
