-- ===== src/Net/Examples/Tasks.antt =====
-- A loop that sleeps while another thread is inside `queueInLoop`, and a server with one connection.
use ham.Net.EventLoop.{start_looping, push_functor}
use ham.Net.EventLoop.Threads.{
  System, Reachable, start, later, enter, sleep, other_push, waiting, wakeup_channel,
}
use ham.Net.EventLoop.Wakeup.{Inv, Reachable-Inv}
use ham.Net.EventLoop.Progress.{Steps, RoundDone, woken, waiting-drains}
use ham.Base.{refl, true, false, [], ◌∷◌}

abbrev asleep : System
asleep = record {
  loop = record {
    looping = true;
    quit = false;
    event_handling = false;
    calling_pending_functors = false;
    pending_functors = 5 ∷ [];
    wakeup_count = 0;
  };
  pc = waiting;
  owed = 1;
  early = 0;
  queued = 5 ∷ [];
  ran = [];
}

asleep-Reachable : Reachable asleep
unfolding start_looping push_functor
asleep-Reachable = later (later (later start (enter refl)) (other_push 5)) (sleep refl refl)

Reachable-Inv_example : Inv asleep
Reachable-Inv_example = Reachable-Inv asleep-Reachable

waiting-drains_example :
    (t : System) × Steps (woken (wakeup_channel ∷ []) asleep) t × RoundDone (5 ∷ []) t
waiting-drains_example = waiting-drains (wakeup_channel ∷ []) asleep-Reachable refl
