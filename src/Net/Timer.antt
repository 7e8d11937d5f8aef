-- ===== src/Net/Timer.antt =====
-- ham/base/Timestamp.h, ham/base/Timestamp.cc, ham/net/Timer.h, ham/net/Timer.cc: times, in
-- microseconds since the epoch, and a timer.
use ham.Base.Text.{decimal}
use ham.Base.{ℕ, suc, ◌+◌, ◌-◌, ◌*◌, ◌/◌, ◌%◌, Bool, ◌&&◌, List, ◌++◌, ltb, if◌then◌else◌, bytes}

-- `Timestamp::valid`.
abbrev pub is_valid : ℕ → Bool
is_valid t = ltb 0 t

-- `addTime`.
abbrev pub add_time : ℕ → ℕ → ℕ
add_time t micros = t + micros

abbrev pub microseconds_per_second : ℕ
microseconds_per_second = 1000 * 1000

pub record Timer : Type 0 where
  pub expiration : ℕ
  -- `interval_` as `addTime` adds it, in whole microseconds.
  pub interval : ℕ
  -- `interval_ > 0.0`.
  pub repeat : Bool
  pub serial_num : ℕ

-- `Timer::Timer`; `created` is the number of the timers created before.
abbrev pub new_timer : ℕ → ℕ → Bool → ℕ → Timer
new_timer when micros repeats created = record {
  expiration = when;
  interval = micros;
  repeat = repeats;
  serial_num = suc created;
}

-- `Timer::restart`.
unfoldable pub restart : ℕ → Timer → Timer
restart now t =
    if t.repeat
    then record t { expiration = add_time now t.interval }
    else record t { expiration = 0 }

-- `Timestamp::secondsFromEpoch`.
unfoldable pub seconds_from_epoch : ℕ → ℕ
seconds_from_epoch t = t / microseconds_per_second

-- `Timestamp::toString`.
unfoldable pub to_string : ℕ → List ℕ
unfolding seconds_from_epoch
to_string t = decimal (seconds_from_epoch t) ++ (bytes "." ++ decimal (t % microseconds_per_second))

-- `timeDifference`: whether it is below zero, and the seconds that the division leaves.
unfoldable pub time_difference : ℕ → ℕ → Bool × ℕ
time_difference lhs rhs =
    let seconds = (lhs - rhs + (rhs - lhs)) / microseconds_per_second in
    (ltb lhs rhs && ltb 0 seconds, seconds)

-- `TimerId`; no timer is at the address 0.
pub record TimerId : Type 0 where
  pub timer : ℕ
  pub serial_num : ℕ

-- `TimerId::TimerId`.
abbrev pub no_timer : TimerId
no_timer = record { timer = 0; serial_num = 0 }
