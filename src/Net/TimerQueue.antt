-- ===== src/Net/TimerQueue.antt =====
-- ham/net/TimerQueue.cc: the timers of a loop. A timer is named by its address, and no address is null,
-- which is 0.
pub mod Agreement
pub mod Alarm
pub mod Entries
pub mod Expired
pub mod Partition
pub mod Renewal
pub mod Reset
pub mod Rounds
pub mod Sound
use ham.Net.Timer.{Timer, is_valid, microseconds_per_second, restart, new_timer, TimerId}
use ham.Base.{
  undefined, ℕ, zero, suc, ◌+◌, ◌-◌, ◌*◌, ◌/◌, ◌%◌, ◌^◌, ◌≤◌, ◌<◌, min, String, ◌≡◌, refl, sym, ap,
  ◌∙◌, ◌≢◌, ◌⊎◌, inl, inr, Bool, true, false, not, ◌&&◌, ◌||◌, Option, none, some, List, [], ◌∷◌,
  ◌++◌, arith, ltb, leb, ◌==◌, if◌then◌else◌, add_size, sub_size, length, take, drop, bytes, Result,
  ok, err, ◌>>=◌, ◌>>◌, assert, Returns,
}

-- `struct timespec`.
pub record Timespec : Type 0 where
  pub tv_sec : ℕ
  pub tv_nsec : ℕ

-- `std::set<std::pair<Timestamp, std::shared_ptr<Timer>>>`, in its order.
abbrev pub TimerList : Type 0
TimerList = List (ℕ × ℕ)

pub record TimerQueue : Type 0 where
  pub timers : ℕ → Timer
  pub timer_list : TimerList
  pub earliest_changed : Bool
  pub calling_expired_timers : Bool
  pub canceling_timers : List ℕ
  -- What `timerfd_settime` was last given.
  pub alarm : Option Timespec

abbrev pub new_timer_queue : (ℕ → Timer) → TimerQueue
new_timer_queue store = record {
  timers = store;
  timer_list = [];
  earliest_changed = false;
  calling_expired_timers = false;
  canceling_timers = [];
  alarm = none;
}

-- `howMuchTimeFromNow`: a difference that is negative is below 100 too.
unfoldable pub how_much_time_from_now : ℕ → ℕ → Timespec
how_much_time_from_now when now =
    let microseconds = if ltb (when - now) 100 then 100 else when - now in
    record {
      tv_sec = microseconds / microseconds_per_second;
      tv_nsec = microseconds % microseconds_per_second * 1000;
    }

unfoldable pub reset_alarm : ℕ → ℕ → TimerQueue → TimerQueue
unfolding how_much_time_from_now
reset_alarm expiration now q = record q { alarm = some (how_much_time_from_now expiration now) }

-- The order of the pairs.
abbrev pub before : ℕ × ℕ → ℕ × ℕ → Bool
before (s, p) (t, q) = ltb s t || ((s == t) && ltb p q)

-- `std::set::insert`; the Boolean is whether the entry is new.
unfoldable pub insert_entry : ℕ × ℕ → TimerList → TimerList × Bool
insert_entry e [] = (e ∷ [], true)
insert_entry e (x ∷ xs) =
    let rest = insert_entry e xs in
    if before x e
    then (x ∷ rest.0, rest.1)
    else (if before e x then (e ∷ (x ∷ xs), true) else (x ∷ xs, false))

abbrev pub is_earliest : ℕ → TimerList → Bool
is_earliest when [] = true
is_earliest when ((t, p) ∷ xs) = ltb when t

-- `insert`.
unfoldable pub insert : ℕ → TimerQueue → Result TimerQueue
unfolding insert_entry
insert timer q = do
  let when = (q.timers timer).expiration
  let changed = is_earliest when q.timer_list
  let res = insert_entry (when, timer) q.timer_list
  assert res.1
  ok (record q { timer_list = res.0; earliest_changed = changed })

-- The store with another timer at `p`.
unfoldable pub set_timer : (ℕ → Timer) → ℕ → Timer → ℕ → Timer
set_timer timers p t p' = if p == p' then t else timers p'

-- `addTimerInLoop`; `now` is the time of the system call.
unfoldable pub add_timer_in_loop : ℕ → ℕ → TimerQueue → Result TimerQueue
unfolding reset_alarm
add_timer_in_loop timer now q = do
  after ← insert timer q
  ok (
      if after.earliest_changed
      then reset_alarm (after.timers timer).expiration now after
      else after)

-- `addTimer` in the thread of the loop; `make_shared` puts the new timer at `p`.
unfoldable pub add_timer : ℕ → ℕ → ℕ → Bool → ℕ → ℕ → TimerQueue → Result (TimerQueue × TimerId)
unfolding set_timer add_timer_in_loop
add_timer p when micros repeats created now q = do
  let timer = new_timer when micros repeats created
  after ← add_timer_in_loop p now (record q { timers = set_timer q.timers p timer })
  ok (after, record { timer = p; serial_num = timer.serial_num })

abbrev pub same_entry : ℕ × ℕ → ℕ × ℕ → Bool
same_entry (s, p) (t, q) = (s == t) && (p == q)

unfoldable pub find_entry : ℕ × ℕ → TimerList → Bool
find_entry e [] = false
find_entry e (x ∷ xs) = same_entry x e || find_entry e xs

unfoldable pub erase_entry : ℕ × ℕ → TimerList → TimerList
erase_entry e [] = []
erase_entry e (x ∷ xs) = let rest = erase_entry e xs in if same_entry x e then xs else x ∷ rest

unfoldable pub is_in : ℕ → List ℕ → Bool
is_in p [] = false
is_in p (x ∷ xs) = (x == p) || is_in p xs

unfoldable pub cancel_timer_in_loop : ℕ → TimerQueue → TimerQueue
unfolding find_entry erase_entry is_in
cancel_timer_in_loop timer q =
    let entry : ℕ × ℕ = ((q.timers timer).expiration, timer) in
    if find_entry entry q.timer_list
    then record q { timer_list = erase_entry entry q.timer_list }
    else (if q.calling_expired_timers
        then record q { canceling_timers = timer ∷ q.canceling_timers }
        else q)

-- `cancelTimer` in the thread of the loop: it reads the time of the timer.
unfoldable pub cancel_timer : TimerId → TimerQueue → Result TimerQueue
unfolding cancel_timer_in_loop
cancel_timer id q = if id.timer == 0 then err undefined else ok (cancel_timer_in_loop id.timer q)

-- The entries below `helper`, and the others: `lower_bound`.
unfoldable pub split_at : ℕ × ℕ → TimerList → TimerList × TimerList
split_at helper [] = ([], [])
split_at helper (x ∷ xs) =
    let rest = split_at helper xs in if before x helper then (x ∷ rest.0, rest.1) else ([], x ∷ xs)

-- One entry that expires at `now` is taken too.
unfoldable pub take_now : ℕ → TimerList × TimerList → TimerList × TimerList
take_now now (early, []) = (early, [])
take_now now (early, (t, p) ∷ xs) =
    if t == now then (early ++ ((t, p) ∷ []), xs) else (early, (t, p) ∷ xs)

abbrev pub starts_after : ℕ → TimerList → Bool
starts_after now [] = true
starts_after now ((t, p) ∷ xs) = ltb now t

unfoldable pub get_expired : ℕ → TimerQueue → Result (TimerList × TimerQueue)
get_expired now q = do
  let parts = take_now now (split_at (now, 0) q.timer_list)
  assert (starts_after now parts.1)
  ok (parts.0, record q { timer_list = parts.1 })

-- One timer of `reset`.
unfoldable pub reset_timer : ℕ → ℕ → TimerQueue → Result TimerQueue
reset_timer now p q =
    if (q.timers p).repeat && not (is_in p q.canceling_timers)
    then insert p (record q { timers = set_timer q.timers p (restart now (q.timers p)) })
    else ok q

unfoldable pub reset_timers : ℕ → TimerList → TimerQueue → Result TimerQueue
reset_timers now [] q = ok q
reset_timers now ((t, p) ∷ xs) q = reset_timer now p q >>= reset_timers now xs

abbrev pub first_expiration : (ℕ → Timer) → TimerList → ℕ
first_expiration timers [] = 0
first_expiration timers ((t, p) ∷ xs) = (timers p).expiration

abbrev pub next_expired : TimerQueue → ℕ
next_expired q = first_expiration q.timers q.timer_list

-- `clock` is the time of the system call.
unfoldable pub reset : TimerList → ℕ → ℕ → TimerQueue → Result TimerQueue
unfolding reset_alarm
reset expired now clock q = do
  after ← reset_timers now expired q
  ok (if is_valid (next_expired after) then reset_alarm (next_expired after) clock after else after)

-- The callbacks, which may use the queue.
unfoldable pub run_all :
    (ℕ → TimerQueue → Result TimerQueue) → TimerList → TimerQueue → Result TimerQueue
run_all run [] q = ok q
run_all run ((t, p) ∷ xs) q = run p q >>= run_all run xs

-- `handleRead`.
unfoldable pub handle_read :
    (ℕ → TimerQueue → Result TimerQueue) → ℕ → ℕ → TimerQueue → Result TimerQueue
handle_read run now clock q = do
  (expired, waiting) ← get_expired now q
  called ←
      run_all run expired (record waiting { canceling_timers = []; calling_expired_timers = true })
  reset expired now clock (record called { calling_expired_timers = false })
