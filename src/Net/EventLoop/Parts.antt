-- ===== src/Net/EventLoop/Parts.antt =====
-- ham/net/EventLoop.cc: a loop with its poller, its timers and its two channels of its own, in the thread
-- `current`. Channels and loops are named by their addresses.
use mathlib.Core.List.{[]}
use ham.Net.EventLoop.{EventLoop, new_loop}
use ham.Net.Epoller.{wait, Wait, Epoller, Ctl, new_epoller, change}
use ham.Net.TimerQueue.{TimerQueue, new_timer_queue, add_timer}
use ham.Net.Timer.{Timer, TimerId, add_time}
use ham.Net.Channel.{Callbacks, handle_event, Callback, Events, new_channel, none_event}
use ham.Base.{
  ◌∷◌, List, critical, require, ℕ, Bool, true, false, Option, none, some, ◌==◌, Result, ok, ◌>>=◌,
  ◌>>◌, assert,
}

-- `owner` is `ownerLoop` of the channels.
pub record Parts (K : Type 0) : Type 0 where
  pub address : ℕ
  pub thread_id : ℕ
  pub base : EventLoop
  pub poller : Epoller K
  pub timer_queue : TimerQueue
  pub owner : ℕ → ℕ
  pub wakeup_channel : ℕ
  pub alarm_channel : ℕ

-- `kReadEvent_` as `enableReading` adds it.
abbrev pub reading : Events → Events
reading e = record e { input = true; priority = true }

abbrev pub nothing : Events → Events
nothing e = none_event

module _ {K : Type 0} where
  unfoldable pub is_in_loop_thread : ℕ → Parts K → Bool
  is_in_loop_thread current s = s.thread_id == current

  unfoldable pub assert_in_loop_thread : ℕ → Parts K → Result (Unit {0})
  unfolding is_in_loop_thread
  assert_in_loop_thread current s = require (is_in_loop_thread current s) critical

  -- `runAt`, `runAfter` and `runEvery` in the thread of the loop; the new timer stands at `p`, and
  -- `created` timers were made before.
  unfoldable pub run_at : ℕ → ℕ → ℕ → ℕ → Parts K → Result (Parts K × TimerId)
  run_at p time created now s = do
    (queue, id) ← add_timer p time 0 false created now s.timer_queue
    ok (record s { timer_queue = queue }, id)

  unfoldable pub run_after : ℕ → ℕ → ℕ → ℕ → Parts K → Result (Parts K × TimerId)
  unfolding run_at
  run_after p delay created now s = run_at p (add_time now delay) created now s

  -- `repeats` is whether the interval is above 0.
  unfoldable pub run_every : ℕ → ℕ → Bool → ℕ → ℕ → Parts K → Result (Parts K × TimerId)
  run_every p interval repeats created now s = do
    (queue, id) ← add_timer p (add_time now interval) interval repeats created now s.timer_queue
    ok (record s { timer_queue = queue }, id)

  unfoldable pub cancel_timer : TimerId → Parts K → Result (Parts K)
  cancel_timer id s = do
    queue ← ham.Net.TimerQueue.cancel_timer id s.timer_queue
    ok (record s { timer_queue = queue })

module _ {K : Type 0} (epoll_ctl : Ctl K) where
  -- `Channel::enableReading` and the like, as far as the poller: the channel changes, `update` calls
  -- `updateChannel` of its loop, and that the poller's.
  unfoldable pub update_channel : (Events → Events) → ℕ → ℕ → Parts K → Result (Parts K)
  unfolding assert_in_loop_thread
  update_channel f channel current s = do
    assert (s.owner channel == s.address)
    assert_in_loop_thread current s
    poller ← change epoll_ctl f channel s.poller
    ok (record s { poller = poller })

  unfoldable pub remove_channel : ℕ → ℕ → Parts K → Result (Parts K)
  unfolding assert_in_loop_thread
  remove_channel channel current s = do
    assert (s.owner channel == s.address)
    assert_in_loop_thread current s
    poller ← ham.Net.Epoller.remove_channel epoll_ctl channel s.poller
    ok (record s { poller = poller })

  -- Before the constructor's body: a poller with an empty map over a new instance `k` of the kernel's,
  -- channels that were never added, each with the descriptor it is made for, and no timer.
  abbrev pub raw_parts : ℕ → ℕ → ℕ → ℕ → (ℕ → ℕ) → (ℕ → ℕ) → (ℕ → Timer) → K → Parts K
  raw_parts address current wakeup alarm fds owner store k = record {
    address = address;
    thread_id = current;
    base = new_loop;
    poller = new_epoller (λ a. new_channel (fds a)) k;
    timer_queue = new_timer_queue store;
    owner = owner;
    wakeup_channel = wakeup;
    alarm_channel = alarm;
  }

  abbrev no_loop : Option ℕ → Bool
  no_loop none = true
  no_loop (some l) = false

  -- `EventLoop::EventLoop`; `here` is `t_loopInThisThread`, and the result has its new value. The
  -- constructor of the timer queue enables its channel first.
  unfoldable pub construct : ℕ → Option ℕ → Parts K → Result (Parts K × Option ℕ)
  unfolding update_channel
  construct current here s = do
    armed ← update_channel reading s.alarm_channel current s
    require (no_loop here) critical
    awake ← update_channel reading s.wakeup_channel current armed
    ok (awake, some s.address)

  -- `disableAll` and `remove` of a channel.
  unfoldable pub retire : ℕ → ℕ → Parts K → Result (Parts K)
  unfolding update_channel remove_channel
  retire channel current s = do
    quiet ← update_channel nothing channel current s
    remove_channel channel current quiet

  -- `EventLoop::~EventLoop`, and behind it that of the timer queue.
  unfoldable pub destruct : ℕ → Parts K → Result (Parts K × Option ℕ)
  destruct current s = do
    assert s.base.quit
    closed ← retire s.wakeup_channel current s
    gone ← retire s.alarm_channel current closed
    ok (gone, none)

module _ {K : Type 0} where
  -- `handleEvent` of each active channel, with the callbacks that are set and whether a tied object
  -- lives: the callbacks that are called, by their channels. They are taken to leave the active channels
  -- alone.
  unfoldable pub handle_active :
      (ℕ → Callbacks) → (ℕ → Bool) → List ℕ → Epoller K → List (ℕ × List Callback)
  handle_active callbacks alive [] p = []
  handle_active callbacks alive (c ∷ cs) p =
      (c, handle_event (callbacks c) (alive c) (p.channels c)) ∷ handle_active callbacks alive cs p

  -- The part of `loop` from `wait` to the end of the handlers.
  unfoldable pub poll_round :
      (ℕ → Callbacks) → (ℕ → Bool) → Wait → Parts K → Result (List (ℕ × List Callback) × Parts K)
  unfolding handle_active
  poll_round callbacks alive w s = do
    (active, poller) ← wait w s.poller
    ok (handle_active callbacks alive active poller, record s { poller = poller })
