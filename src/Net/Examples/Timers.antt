-- ===== src/Net/Examples/Timers.antt =====
-- The theorems on the timers, at a queue of two.
use ham.Net.TimerQueue.Expired.{get_expired-twice, get_expired-Splits, Splits}
use ham.Net.TimerQueue.Alarm.{how_much_time_from_now-exact}
use ham.Net.Timer.{Timer}
use ham.Net.TimerQueue.{
  find_entry, how_much_time_from_now, cancel_timer_in_loop, get_expired, TimerQueue, insert,
}
use ham.Net.TimerQueue.Entries.{Leads, cancel_timer_in_loop-insert, IsSorted}
use ham.Net.TimerQueue.Sound.{IsSound, cancel_timer_in_loop-IsSound}
use ham.Net.TimerQueue.Reset.{Renewed}
use ham.Net.TimerQueue.Rounds.{Rings, handle_read-IsSound, reset-Renewed, expired_at}
use ham.Net.TimerQueue.{handle_read, reset}
use ham.Base.{
  Result, ok, some, true, ◌∷◌, [], assert_failed, ℕ, ◌+◌, ◌-◌, ◌*◌, ◌≤◌, ◌<◌, ◌≡◌, refl, ◌⊎◌, false,
  none, [], ◌∷◌, arith, err, Returns,
}

-- Timers 3 and 5 wait.
abbrev timer_at : ℕ → Timer
timer_at t = record { expiration = t; interval = 0; repeat = false; serial_num = t }

abbrev two_timers : TimerQueue
two_timers = record {
  timers = λ p. timer_at (p * 10);
  timer_list = (30, 3) ∷ (50, 5) ∷ [];
  earliest_changed = false;
  calling_expired_timers = false;
  canceling_timers = [];
  alarm = none;
}

cancel_timer_in_loop-insert_example : Returns (insert 4 two_timers) λ q'.
    IsSorted q'.timer_list
    × Leads q'.earliest_changed (40, 4) two_timers.timer_list q'.timer_list
    × ((cancel_timer_in_loop 4 q').timer_list ≡ two_timers.timer_list)
cancel_timer_in_loop-insert_example =
    cancel_timer_in_loop-insert 4 two_timers (refl, (refl, tt)) (unfold find_entry in refl)

how_much_time_from_now-exact_example :
    let delay = how_much_time_from_now 2500000 1000 in
    (delay.tv_nsec < 1000 * 1000 * 1000)
    × (100 * 1000 ≤ delay.tv_sec * (1000 * 1000 * 1000) + delay.tv_nsec)
    × (2500000 * 1000 ≤ 1000 * 1000 + (delay.tv_sec * (1000 * 1000 * 1000) + delay.tv_nsec))
    × ((delay.tv_sec * (1000 * 1000 * 1000) + delay.tv_nsec ≡ 100 * 1000)
        ⊎ (delay.tv_sec * (1000 * 1000 * 1000) + delay.tv_nsec ≡ (2500000 - 1000) * 1000))
how_much_time_from_now-exact_example = how_much_time_from_now-exact 2500000 1000

get_expired-Splits_example :
    Returns (get_expired 30 two_timers) (Splits 30 ((30, 3) ∷ (50, 5) ∷ []))
get_expired-Splits_example = get_expired-Splits 30 two_timers (refl, (refl, tt)) (omega arith)

abbrev at_once : TimerQueue
at_once = record two_timers { timer_list = (30, 3) ∷ (30, 5) ∷ [] }

get_expired-twice_example : get_expired 30 at_once ≡ err assert_failed
get_expired-twice_example = get_expired-twice 30 at_once (refl, (refl, tt)) (omega arith)

-- The alarm is set for the first of two timers that repeat every 7 microseconds.
abbrev repeating : TimerQueue
repeating = record two_timers {
  timers = λ p. record (timer_at (p * 10)) { interval = 7; repeat = true };
  alarm = some (how_much_time_from_now 30 1);
}

repeating-IsSound : IsSound [] repeating
repeating-IsSound = record {
  sorted = (refl, (refl, tt));
  agree = (refl, (refl, tt));
  apart = tt;
  armed = (30, 1, omega arith, refl);
}

-- Each callback cancels timer 5.
abbrev cancels : ℕ → TimerQueue → Result TimerQueue
cancels p q = ok (cancel_timer_in_loop 5 q)

handle_read-IsSound_example :
    Returns
      (handle_read cancels 31 32 repeating)
      λ q'. IsSound [] q' × Rings 32 q'.timer_list q'.alarm
handle_read-IsSound_example =
    handle_read-IsSound cancels 31 32 repeating (omega arith) repeating-IsSound (omega arith)
      (λ p q h. cancel_timer_in_loop-IsSound (expired_at 31 repeating.timer_list) 5 q h)

-- Timer 3 has been called.
abbrev one_called : TimerQueue
one_called = record repeating { timer_list = (50, 5) ∷ [] }

reset-Renewed_example : Returns (reset ((30, 3) ∷ []) 31 32 one_called) λ q'.
    IsSound [] q'
    × Renewed 31 one_called ((30, 3) ∷ []) q'.timer_list
    × Rings 32 q'.timer_list q'.alarm
reset-Renewed_example =
    reset-Renewed ((30, 3) ∷ []) 31 32 one_called (omega arith) (tt, tt)
      (record {
        sorted = (refl, tt);
        agree = (refl, tt);
        apart = ((refl, tt), tt);
        armed = (30, 1, omega arith, refl);
      })
