-- ===== src/Net/EventLoop.antt =====
-- ham/net/EventLoop.cc, ham/net/EventLoop.h: the loop of a thread, the tasks that other threads queue for
-- it, and the event descriptor that wakes it up. A functor is named by a number.
pub mod Threads
pub mod Wakeup
pub mod Progress
pub mod Parts
pub mod Watching
pub mod Retiring
pub mod Polling
use ham.Base.{
  ℕ, suc, zero, ◌+◌, Bool, true, false, not, ◌||◌, Option, none, some, List, [], ◌∷◌, ◌++◌,
  if◌then◌else◌,
}

-- `wakeup_count` is the counter behind `wakeup_fd_`: the descriptor is readable while it is positive.
pub record EventLoop : Type 0 where
  pub looping : Bool
  pub quit : Bool
  pub event_handling : Bool
  pub calling_pending_functors : Bool
  pub pending_functors : List ℕ
  pub wakeup_count : ℕ

abbrev pub new_loop : EventLoop
new_loop = record {
  looping = false;
  quit = false;
  event_handling = false;
  calling_pending_functors = false;
  pending_functors = [];
  wakeup_count = 0;
}

-- `wakeup`: a write of 1 is added to the counter.
unfoldable pub wakeup : EventLoop → EventLoop
wakeup l = record l { wakeup_count = suc l.wakeup_count }

-- `handleWakeupFd`: a read takes the whole counter.
unfoldable pub handle_wakeup_fd : EventLoop → EventLoop
handle_wakeup_fd l = record l { wakeup_count = 0 }

-- The part of `queueInLoop` that holds the mutex.
unfoldable pub push_functor : ℕ → EventLoop → EventLoop
push_functor f l = record l { pending_functors = l.pending_functors ++ (f ∷ []) }

unfoldable pub queue_in_loop : Bool → ℕ → EventLoop → EventLoop
unfolding push_functor wakeup
queue_in_loop in_loop_thread f l =
    let pushed = push_functor f l in
    if not in_loop_thread || pushed.calling_pending_functors then wakeup pushed else pushed

-- What is called at once, and the loop.
unfoldable pub run_in_loop : Bool → ℕ → EventLoop → Option ℕ × EventLoop
unfolding queue_in_loop
run_in_loop in_loop_thread f l =
    if in_loop_thread then (some f, l) else (none, queue_in_loop in_loop_thread f l)

unfoldable pub set_quit : EventLoop → EventLoop
set_quit l = record l { quit = true }

unfoldable pub quit_loop : Bool → EventLoop → EventLoop
unfolding set_quit wakeup
quit_loop in_loop_thread l = if in_loop_thread then set_quit l else wakeup (set_quit l)

-- The parts of `loop` and `doPendingFunctors` between which other threads may come.
unfoldable pub start_looping : EventLoop → EventLoop
start_looping l = record l { looping = true }

unfoldable pub stop_looping : EventLoop → EventLoop
stop_looping l = record l { looping = false }

unfoldable pub start_handling : EventLoop → EventLoop
start_handling l = record l { event_handling = true }

unfoldable pub start_functors : EventLoop → EventLoop
start_functors l = record l { event_handling = false; calling_pending_functors = true }

-- The swap with an empty vector, under the mutex.
unfoldable pub swap_functors : EventLoop → List ℕ × EventLoop
swap_functors l = (l.pending_functors, record l { pending_functors = [] })

unfoldable pub end_functors : EventLoop → EventLoop
end_functors l = record l { calling_pending_functors = false }
