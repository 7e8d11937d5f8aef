-- ===== src/Net/EventLoop/Threads.antt =====
-- ham/net/EventLoop.cc: the loop's thread and the others, interleaved in any order.
use ham.Net.EventLoop.{
  EventLoop, new_loop, start_looping, stop_looping, start_handling, start_functors, swap_functors,
  end_functors, handle_wakeup_fd, wakeup, push_functor, set_quit, queue_in_loop, quit_loop,
}
use ham.Base.{ℕ, suc, Bool, true, false, List, [], ◌∷◌, ◌++◌, ◌≡◌}

-- A channel that `epoll_wait` reports.
pub data Ready : Type 0 where
  wakeup_channel : Ready
  other_channel : ℕ → Ready

-- Where the loop's thread stands in `loop`.
pub data Pc : Type 0 where
  outside : Pc
  testing : Pc
  waiting : Pc
  handling : List Ready → Pc
  swapping : Pc
  running : List ℕ → Pc
  stopped : Pc

-- `owed` counts the other threads that have pushed a functor or set `quit_`, and have not written to the
-- event descriptor yet. `queued` and `ran` are all functors that were queued or run so far, and `early`
-- counts the pending ones that the loop's own thread queued before it called `loop`.
pub record System : Type 0 where
  pub loop : EventLoop
  pub pc : Pc
  pub owed : ℕ
  pub early : ℕ
  pub queued : List ℕ
  pub ran : List ℕ

abbrev pub init : System
init = record { loop = new_loop; pc = outside; owed = 0; early = 0; queued = []; ran = [] }

-- The callback of a channel.
unfoldable pub handle_channel : Ready → EventLoop → EventLoop
unfolding handle_wakeup_fd
handle_channel wakeup_channel l = handle_wakeup_fd l
handle_channel (other_channel c) l = l

-- A callback or a functor is on its way: the loop's thread may call the loop.
abbrev pub in_callback : Pc → Bool
in_callback (handling _) = true
in_callback (running _) = true
in_callback _ = false

pub data Step (s : System) : System → Type 0 where
  enter : s.pc ≡ outside → Step s (record s { pc = testing; loop = start_looping s.loop })
  sleep : s.pc ≡ testing → s.loop.quit ≡ false → Step s (record s { pc = waiting })
  leave :
      s.pc ≡ testing
      → s.loop.quit ≡ true
      → Step s (record s { pc = stopped; loop = stop_looping s.loop })
  -- `epoll_wait` returns, with whatever is ready, or after its timeout with nothing.
  get_up :
      (active : List Ready)
      → s.pc ≡ waiting
      → Step s (record s { pc = handling active; loop = start_handling s.loop })
  handle :
      (c : Ready) (cs : List Ready)
      → s.pc ≡ handling (c ∷ cs)
      → Step s (record s { pc = handling cs; loop = handle_channel c s.loop })
  handled : s.pc ≡ handling [] → Step s (record s { pc = swapping; loop = start_functors s.loop })
  take_over :
      s.pc ≡ swapping
      → Step s (record s {
        pc = running (swap_functors s.loop).0;
        loop = (swap_functors s.loop).1;
        early = 0;
      })
  run :
      (f : ℕ) (fs : List ℕ)
      → s.pc ≡ running (f ∷ fs)
      → Step s (record s { pc = running fs; ran = s.ran ++ (f ∷ []) })
  run_out : s.pc ≡ running [] → Step s (record s { pc = testing; loop = end_functors s.loop })
  own_queue :
      (f : ℕ)
      → in_callback s.pc ≡ true
      → Step s (record s { loop = queue_in_loop true f s.loop; queued = s.queued ++ (f ∷ []) })
  -- `queueInLoop` and `quit` of the own thread before `loop`, which wake nobody.
  early_queue :
      (f : ℕ)
      → s.pc ≡ outside
      → Step s (record s {
        loop = queue_in_loop true f s.loop;
        queued = s.queued ++ (f ∷ []);
        early = suc s.early;
      })
  early_quit : s.pc ≡ outside → Step s (record s { loop = quit_loop true s.loop })
  own_quit : in_callback s.pc ≡ true → Step s (record s { loop = quit_loop true s.loop })
  -- `queueInLoop` and `quit` of another thread, in their two halves.
  other_push :
      (f : ℕ)
      → Step s (record s {
        loop = push_functor f s.loop;
        queued = s.queued ++ (f ∷ []);
        owed = suc s.owed;
      })
  other_quit : Step s (record s { loop = set_quit s.loop; owed = suc s.owed })
  other_wake : (n : ℕ) → s.owed ≡ suc n → Step s (record s { loop = wakeup s.loop; owed = n })

pub data Reachable : System → Type 0 where
  start : Reachable init
  later : {s t : System} → Reachable s → Step s t → Reachable t
