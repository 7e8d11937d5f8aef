-- ===== src/Net/LoopThread.antt =====
-- ham/net/EventLoopThread.cc: a thread that makes a loop and hands it to the one that started it. What a
-- thread does while it holds the mutex is one step.
pub mod Handshake
pub mod Joining
use ham.Base.{
  ℕ, zero, suc, ◌+◌, ◌-◌, ◌*◌, ◌/◌, ◌%◌, ◌^◌, ◌≤◌, ◌<◌, min, String, ◌≡◌, refl, sym, ap, ◌∙◌, ◌≢◌,
  ◌⊎◌, inl, inr, Bool, true, false, not, ◌&&◌, ◌||◌, Option, none, some, List, [], ◌∷◌, ◌++◌, arith,
  ltb, leb, ◌==◌, if◌then◌else◌, add_size, sub_size, length, take, drop, bytes, Result, ok, err,
  ◌>>=◌, ◌>>◌, assert, Returns,
}

-- Where the starter is in `startLoop`: before it, at the mutex, asleep on the condition, behind the
-- mutex, or back with `loop_`, which may be null; and then in the destructor: with the loop that it has
-- read from `loop_`, in its `quit` behind `quit_ = true`, in `join`, or at its end. A destructor that has
-- read null destroys `thread_` while it is joinable, and one that calls `quit` of a loop that is gone has
-- no defined behaviour.
pub data Starter : Type 0 where
  idle : Starter
  at_mutex : Starter
  asleep : Starter
  behind_mutex : Starter
  returned : Option ℕ → Starter
  quitting : ℕ → Starter
  waking : ℕ → Starter
  joining : Starter
  destroyed : Starter
  unjoined : Starter
  dangling : Starter

-- Where the thread is in `threadFunc`.
pub data Worker : Type 0 where
  no_thread : Worker
  initialising : Worker
  initialised : Worker
  looping : Worker
  ended : Worker

-- A loop is named by its address; `own_loop` is the address of the thread's local variable, and `quit`
-- is its `quit_`. `init_calls` are the loops that the init callback was called with.
pub record EventLoopThread : Type 0 where
  pub own_loop : ℕ
  pub loop : Option ℕ
  pub starter : Starter
  pub worker : Worker
  pub exiting : Bool
  pub has_callback : Bool
  pub init_calls : List ℕ
  pub quit : Bool

abbrev pub new_thread : ℕ → Bool → EventLoopThread
new_thread own_loop has_callback = record {
  own_loop = own_loop;
  loop = none;
  starter = idle;
  worker = no_thread;
  exiting = false;
  has_callback = has_callback;
  init_calls = [];
  quit = false;
}

-- `cond_.notify_one()`.
abbrev pub notified : Starter → Starter
notified asleep = at_mutex
notified w = w

pub data Step (s : EventLoopThread) : EventLoopThread → Type 0 where
  start_loop : s.starter ≡ idle → Step s (record s { starter = at_mutex; worker = initialising })
  initialise :
      s.worker ≡ initialising
      → Step s (record s {
        worker = initialised;
        init_calls = if s.has_callback then s.own_loop ∷ s.init_calls else s.init_calls;
      })
  publish :
      s.worker ≡ initialised
      → Step s (record s { loop = some s.own_loop; starter = notified s.starter; worker = looping })
  starter_sleeps : s.starter ≡ at_mutex → s.loop ≡ none → Step s (record s { starter = asleep })
  starter_sees :
      (l : ℕ)
      → s.starter ≡ at_mutex
      → s.loop ≡ some l
      → Step s (record s { starter = behind_mutex })
  -- `loop_` is read again without the mutex.
  starter_returns : s.starter ≡ behind_mutex → Step s (record s { starter = returned s.loop })
  -- `loop.loop()` returns when somebody has called `quit`.
  loop_ends : s.worker ≡ looping → s.quit ≡ true → Step s (record s { loop = none; worker = ended })
  -- The destructor, of a thread that was started or not.
  destructor_idle : s.starter ≡ idle → Step s (record s { starter = destroyed; exiting = true })
  destructor_sees :
      (r : Option ℕ) (l : ℕ)
      → s.starter ≡ returned r
      → s.loop ≡ some l
      → Step s (record s { starter = quitting l; exiting = true })
  destructor_misses :
      (r : Option ℕ)
      → s.starter ≡ returned r
      → s.loop ≡ none
      → Step s (record s { starter = unjoined; exiting = true })
  destructor_quits :
      (l : ℕ)
      → s.starter ≡ quitting l
      → s.worker ≡ looping
      → Step s (record s { starter = waking l; quit = true })
  destructor_dangles :
      (l : ℕ) → s.starter ≡ quitting l → s.worker ≡ ended → Step s (record s { starter = dangling })
  -- `quit` goes on to the loop's `wakeup`, and the loop may have ended meanwhile.
  destructor_wakes :
      (l : ℕ) → s.starter ≡ waking l → s.worker ≡ looping → Step s (record s { starter = joining })
  destructor_wakes_none :
      (l : ℕ) → s.starter ≡ waking l → s.worker ≡ ended → Step s (record s { starter = dangling })
  destructor_joins :
      s.starter ≡ joining → s.worker ≡ ended → Step s (record s { starter = destroyed })

-- A wait may also end by itself.
pub data Wakes (s : EventLoopThread) : EventLoopThread → Type 0 where
  starter_wakes : s.starter ≡ asleep → Wakes s (record s { starter = at_mutex })

-- Another one may call `quit` of the loop, if there are any that do.
pub data Reachable (own_loop : ℕ) (has_callback others : Bool) : EventLoopThread → Type 0 where
  at_start : Reachable own_loop has_callback others (new_thread own_loop has_callback)
  later :
      {s t : EventLoopThread}
      → Reachable own_loop has_callback others s
      → Step s t
      → Reachable own_loop has_callback others t
  awake :
      {s t : EventLoopThread}
      → Reachable own_loop has_callback others s
      → Wakes s t
      → Reachable own_loop has_callback others t
  other_quits :
      {s : EventLoopThread}
      → Reachable own_loop has_callback others s
      → others ≡ true
      → s.worker ≡ looping
      → Reachable own_loop has_callback others (record s { quit = true })

-- Some steps, one after the other; no wait ends by itself.
pub data Steps (s : EventLoopThread) : EventLoopThread → Type 0 where
  here : Steps s s
  onward : {t u : EventLoopThread} → Steps s t → Step t u → Steps s u
