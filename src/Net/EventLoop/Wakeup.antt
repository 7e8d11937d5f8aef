-- ===== src/Net/EventLoop/Wakeup.antt =====
-- ham/net/EventLoop.cc: the order of the tasks, and the event descriptor while the loop may sleep.

use mathlib.Core.Bool.{false≢true}
use mathlib.Core.List.{append_assoc, append-nil}
use ham.Net.EventLoop.{
  start_looping, stop_looping, start_handling, start_functors, swap_functors, end_functors, wakeup,
  push_functor, set_quit, queue_in_loop, quit_loop,
}
use ham.Net.EventLoop.Threads.{
  early_quit, early_queue, start, later, other_quit, other_wake, other_push, own_quit, own_queue,
  run_out, run, take_over, handled, handle, get_up, leave, sleep, enter, Pc, waiting, handling,
  swapping, running, System, Step, Reachable, handle_channel,
}
use ham.Base.{
  length-append, ◌≤◌, Bool-cases, ℕ, ◌+◌, ◌<◌, ◌≡◌, refl, ap, ◌∙◌, inl, inr, Bool, true, false,
  List, [], ◌∷◌, ◌++◌, arith, length,
}

-- The functors that were taken out of the loop and wait to be run.
abbrev pub taken : Pc → List ℕ
taken (running fs) = fs
taken _ = []

-- From here the loop may go to sleep before it looks at the pending functors again.
abbrev before_sleep : Pc → Bool
before_sleep (handling _) = false
before_sleep swapping = false
before_sleep _ = true

abbrev is_waiting : Pc → Bool
is_waiting waiting = true
is_waiting _ = false

abbrev is_calling : Pc → Bool
is_calling (running _) = true
is_calling swapping = true
is_calling _ = false

pub record Inv (s : System) : Type 0 where
  pub in_order : s.queued ≡ s.ran ++ (taken s.pc ++ s.loop.pending_functors)
  pub calling : s.loop.calling_pending_functors ≡ is_calling s.pc
  pub early_pending : s.early ≤ length s.loop.pending_functors
  pub task_wakes :
      before_sleep s.pc ≡ true
      → s.early < length s.loop.pending_functors
      → 0 < s.loop.wakeup_count + s.owed
  pub quit_wakes : is_waiting s.pc ≡ true → s.loop.quit ≡ true → 0 < s.loop.wakeup_count + s.owed

push_order :
    (queued ran fs pending : List ℕ) (f : ℕ)
    → queued ≡ ran ++ (fs ++ pending)
    → queued ++ (f ∷ []) ≡ ran ++ (fs ++ (pending ++ (f ∷ [])))
push_order queued ran fs pending f e =
    rw e
      (append_assoc ran (fs ++ pending) (f ∷ []) ∙ ap (◌++◌ ran) (append_assoc fs pending (f ∷ [])))

Step-Inv : {s t : System} → Step s t → Inv s → Inv t
unfolding start_looping stop_looping start_handling start_functors swap_functors end_functors wakeup
    push_functor set_quit queue_in_loop quit_loop handle_channel
Step-Inv {s} (enter e) h = ground arith
Step-Inv {s} (sleep e k) h = ground arith
Step-Inv {s} (leave e k) h = ground arith
Step-Inv {s} (get_up active e) h = ground arith
Step-Inv {s} (handle c cs e) h = ground arith
Step-Inv {s} (handled e) h = ground arith
Step-Inv {s} (take_over e) h = ground (arith, append-nil s.loop.pending_functors)
Step-Inv {s} (run f fs e) h =
    ground (arith, append_assoc s.ran (f ∷ []) (fs ++ s.loop.pending_functors))
Step-Inv {s} (run_out e) h = ground arith
Step-Inv {s} (own_queue f e) h = elim (Bool-cases s.loop.calling_pending_functors) [
  | inl k ↦ ground (
    arith,
    push_order s.queued s.ran (taken s.pc) s.loop.pending_functors f,
    length-append s.loop.pending_functors (f ∷ []),
  )
  | inr k ↦ ground (
    arith,
    push_order s.queued s.ran (taken s.pc) s.loop.pending_functors f,
    length-append s.loop.pending_functors (f ∷ []),
  )
]
Step-Inv {s} (early_queue f e) h = elim (Bool-cases s.loop.calling_pending_functors) [
  | inl k ↦ ground (
    arith,
    push_order s.queued s.ran (taken s.pc) s.loop.pending_functors f,
    length-append s.loop.pending_functors (f ∷ []),
  )
  | inr k ↦ ground (
    arith,
    push_order s.queued s.ran (taken s.pc) s.loop.pending_functors f,
    length-append s.loop.pending_functors (f ∷ []),
  )
]
Step-Inv {s} (early_quit e) h = ground arith
Step-Inv {s} (own_quit e) h = ground arith
Step-Inv {s} (other_push f) h = ground (
  arith,
  push_order s.queued s.ran (taken s.pc) s.loop.pending_functors f,
  length-append s.loop.pending_functors (f ∷ []),
)
Step-Inv {s} other_quit h = ground arith
Step-Inv {s} (other_wake n e) h = ground arith

-- No functor is lost, repeated or reordered: the functors run so far, the ones taken out, and the pending
-- ones are together the ones queued, in order. While the loop may go to sleep before it looks at the
-- pending functors again, any functor that is pending besides those that the own thread queued before it
-- called `loop` keeps the event descriptor readable, or another thread is about to write to it; so does
-- `quit` while the loop sleeps.
pub Reachable-Inv : {s : System} → Reachable s → Inv s
Reachable-Inv start = record {
  in_order = refl;
  calling = refl;
  early_pending = omega arith;
  task_wakes = λ e h. absurd (omega arith);
  quit_wakes = λ e h. absurd (false≢true e);
}
Reachable-Inv (later r st) = Step-Inv st (Reachable-Inv r)
