-- ===== src/Sync/ThreadPool/Stop.antt =====
-- ham/base/ThreadPool.cc: how the threads come to their end after `stop`.
use ham.Sync.ThreadPool.{
  loop_ends, take_pops, take_nothing, task_returns, System, Step, Reachable, later,
}
use ham.Sync.ThreadPool.Work.{Reachable-Served}
use ham.Base.{
  length-append, ℕ, zero, suc, ◌+◌, ◌≤◌, ◌≡◌, refl, ap, ◌∙◌, false, List, [], ◌∷◌, ◌++◌, arith, ltb,
  if◌then◌else◌, length,
}

-- Some steps, one after the other.
pub data Steps (s : System) : System → Type 0 where
  here : Steps s s
  onward : {t u : System} → Steps s t → Step t u → Steps s u

Reachable-Steps :
    {maxsize : ℕ} {s t : System} → Reachable maxsize s → Steps s t → Reachable maxsize t
Reachable-Steps r here = r
Reachable-Steps r (onward p st) = later (Reachable-Steps r p) st

-- From `s` the pool, which does not run, has come to `t`.
record Ending (s t : System) : Type 0 where
  path : Steps s t
  not_running : t.pool.is_running ≡ false
  same_threads : t.pool.threads ≡ s.pool.threads
  few_started : length t.started + t.taking ≤ length s.started + s.taking

after-Ending :
    {s t u : System}
    → Ending s t
    → Step t u
    → u.pool.is_running ≡ t.pool.is_running
    → u.pool.threads ≡ t.pool.threads
    → length u.started + u.taking ≤ length t.started + t.taking
    → Ending s u
after-Ending {s} {t} {u} h st same threads few = record {
  path = onward h.path st;
  not_running = same ∙ h.not_running;
  same_threads = threads ∙ h.same_threads;
  few_started = omega (arith, h.few_started);
}

-- Every thread in `take` comes out of it, with a task or without.
take_one :
    (s t : System) (n : ℕ) (queue : List ℕ)
    → t.pool.queue ≡ queue
    → t.taking ≡ suc n
    → Ending s t
    → (u : System) × Ending s u × (u.taking ≡ n)
take_one s t n [] q e h = (
  record t { taking = n; testing = suc t.testing },
  after-Ending h (take_nothing n e q h.not_running) refl refl (omega (arith, e)),
  refl,
)
take_one s t n (x ∷ xs) q e h = (
  record t {
    pool = record t.pool { queue = xs };
    taking = n;
    running = x ∷ t.running;
    owed_not_full = if ltb 0 t.pool.maxsize then suc t.owed_not_full else t.owed_not_full;
    started = t.started ++ (x ∷ []);
  },
  after-Ending h (take_pops n x xs e q) refl refl
      (omega (arith, e, length-append t.started (x ∷ []))),
  refl,
)

empty_taking :
    (s t : System) (n : ℕ) → t.taking ≡ n → Ending s t → (u : System) × Ending s u × (u.taking ≡ 0)
empty_taking s t zero e h = (t, h, e)
empty_taking s t (suc n) e h =
    let (u, h', e') = take_one s t n t.pool.queue refl e h in empty_taking s u n e' h'

-- Every task returns.
empty_running :
    (s t : System) (xs : List ℕ)
    → t.running ≡ xs
    → t.taking ≡ 0
    → Ending s t
    → (u : System) × Ending s u × (u.taking ≡ 0) × (u.running ≡ [])
empty_running s t [] e none_takes h = (t, h, none_takes, e)
empty_running s t (x ∷ xs) e none_takes h =
    empty_running s (record t { running = xs; testing = suc t.testing }) xs refl none_takes
      (after-Ending h (task_returns x [] xs e) refl refl (omega arith))

-- Every thread finds that the pool does not run.
empty_testing :
    (s t : System) (n : ℕ)
    → t.testing ≡ n
    → t.taking ≡ 0
    → t.running ≡ []
    → Ending s t
    → (u : System) × Ending s u × (u.taking ≡ 0) × (u.running ≡ []) × (u.testing ≡ 0)
empty_testing s t zero e none_takes none_runs h = (t, h, none_takes, none_runs, e)
empty_testing s t (suc n) e none_takes none_runs h =
    empty_testing s (record t { testing = n; ended = suc t.ended }) n refl none_takes none_runs
      (after-Ending h (loop_ends n e h.not_running) refl refl (omega arith))

-- All threads have ended, and `most` tasks at most were started on the way.
pub record AllEnded (most : ℕ) (s t : System) : Type 0 where
  pub path : Steps s t
  pub all_ended : t.ended ≡ s.pool.threads
  pub few_started : length t.started ≤ length s.started + most

-- When the pool has been stopped and its tasks return, all its threads come to their end, and each thread
-- that was in `take` starts one more task at most.
pub stopped-AllEnded :
    (maxsize : ℕ) {s : System}
    → Reachable maxsize s
    → s.pool.is_running ≡ false
    → (t : System) × AllEnded s.taking s t
stopped-AllEnded maxsize {s} r stopped =
    let (t, ht, t_takes) = empty_taking s s s.taking refl record {
      path = here;
      not_running = stopped;
      same_threads = refl;
      few_started = omega arith;
    } in
    let (u, hu, u_takes, u_runs) = empty_running s t t.running refl t_takes ht in
    let (v, hv, v_takes, v_runs, v_tests) = empty_testing s u u.testing refl u_takes u_runs hu in
    let h = Reachable-Served maxsize (Reachable-Steps r hv.path) in
    (
      v,
      record {
        path = hv.path;
        all_ended = omega (
          arith,
          h.all_threads,
          hv.same_threads,
          h.stopped_takes hv.not_running,
          v_takes,
          v_tests,
          ap length v_runs,
        );
        few_started = omega (arith, hv.few_started);
      },
    )
