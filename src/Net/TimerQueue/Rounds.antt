-- ===== src/Net/TimerQueue/Rounds.antt =====
-- `handleRead`: a whole round of the timers, with callbacks that use the queue.
use ham.Net.TimerQueue.Renewal.{reset_timers-Renewed}
use ham.Net.TimerQueue.Agreement.{Armed, Distinct, Agree}
use ham.Net.Timer.{is_valid, Timer}
use ham.Net.TimerQueue.Partition.{append-Rest, sorted-Distinct, Distinct-append, Rest}
use ham.Net.TimerQueue.Entries.{IsSorted}
use ham.Net.TimerQueue.Entries.{first_time}
use ham.Net.TimerQueue.Reset.{Renewed, IsResetting}
use ham.Net.TimerQueue.Sound.{IsSound}
use ham.Net.TimerQueue.Expired.{get_expired-Splits, split_at-append, take_now-append, count_at}
use ham.Net.TimerQueue.{
  Timespec, starts_after, next_expired, get_expired, reset_timers, how_much_time_from_now,
  first_expiration, split_at, take_now, reset_alarm, TimerList, TimerQueue, handle_read, run_all,
  reset,
}
use ham.Base.{
  ◌⊎◌, Option, Returns-mono, subst, Bool-cases, Returns-bind, ℕ, ◌≤◌, ◌<◌, ◌≡◌, refl, sym, ◌∙◌, inl,
  inr, true, false, some, [], ◌∷◌, ◌++◌, arith, if◌then◌else◌, Result, ok, Returns,
}

run_all-keeps :
    (P : TimerQueue → Type 0) (run : ℕ → TimerQueue → Result TimerQueue)
    → ((p : ℕ) (q : TimerQueue) → P q → Returns (run p q) P)
    → (ds : TimerList) (q : TimerQueue) → P q
    → Returns (run_all run ds q) P
unfolding run_all
run_all-keeps P run keep [] q h = h
run_all-keeps P run keep ((t, p) ∷ ds) q h =
    Returns-bind (run p q) (run_all run ds) P P (keep p q h)
      λ q' h'. run_all-keeps P run keep ds q' h'

first_Agree :
    (timers : ℕ → Timer) (es : TimerList)
    → Agree timers es
    → first_expiration timers es ≡ first_time es
first_Agree timers [] a = refl
first_Agree timers ((t, p) ∷ es) a = a.0

Armed-now :
    (es : TimerList) (clock : ℕ)
    → is_valid (first_time es) ≡ true
    → Armed es (some (how_much_time_from_now (first_time es) clock))
Armed-now [] clock e = tt
Armed-now ((t, p) ∷ es) clock e = (t, clock, omega arith, refl)

-- The alarm was set at `clock` for the first entry, if that has a valid time.
abbrev pub Rings : ℕ → TimerList → Option Timespec → Type 0
Rings clock [] alarm = Unit {0}
Rings clock ((t, p) ∷ es) alarm =
    (is_valid t ≡ false) ⊎ (alarm ≡ some (how_much_time_from_now t clock))

Rings-now :
    (es : TimerList) (clock : ℕ)
    → Rings clock es (some (how_much_time_from_now (first_time es) clock))
Rings-now [] clock = tt
Rings-now ((t, p) ∷ es) clock = inr refl

Rings-invalid :
    (es : TimerList) (clock : ℕ) (alarm : Option Timespec)
    → is_valid (first_time es) ≡ false
    → Rings clock es alarm
Rings-invalid [] clock alarm e = tt
Rings-invalid ((t, p) ∷ es) clock alarm e = inl e

-- The end of `reset`.
abbrev rearmed : ℕ → TimerQueue → TimerQueue
rearmed clock q = if is_valid (next_expired q) then reset_alarm (next_expired q) clock q else q

rearmed-IsSound :
    (clock : ℕ) (q : TimerQueue)
    → IsResetting [] q
    → IsSound [] (rearmed clock q)
      × ((rearmed clock q).timer_list ≡ q.timer_list)
      × Rings clock q.timer_list (rearmed clock q).alarm
unfolding reset_alarm
rearmed-IsSound clock q h =
    let same = first_Agree q.timers q.timer_list h.agree in
    elim (Bool-cases (is_valid (first_time q.timer_list))) [
      | inl e ↦
          rw (same, e)
            (
              record {
                sorted = h.sorted;
                agree = h.agree;
                apart = tt;
                armed = Armed-now q.timer_list clock e;
              },
              refl,
              Rings-now q.timer_list clock,
            )
      | inr e ↦
          rw (same, e)
            (
              record { sorted = h.sorted; agree = h.agree; apart = tt; armed = h.armed e },
              refl,
              Rings-invalid q.timer_list clock q.alarm e,
            )
    ]

-- After `reset` the queue is sound, and its alarm has been set at the time of the call for the first
-- entry, if that has a valid time. A timer that has been called is back, `interval_` after `now`, if it
-- repeats and was not cancelled meanwhile; otherwise it has no entry.
pub reset-Renewed :
    (ds : TimerList) (now clock : ℕ) (q : TimerQueue)
    → 0 < now
    → Distinct ds
    → IsSound ds q
    → Returns
        (reset ds now clock q)
        λ q'. IsSound [] q' × Renewed now q ds q'.timer_list × Rings clock q'.timer_list q'.alarm
unfolding reset
reset-Renewed ds now clock q pos d h =
    Returns-bind (reset_timers now ds q) _ _ _
      (reset_timers-Renewed now pos ds q d
        (record { sorted = h.sorted; agree = h.agree; apart = h.apart; armed = λ _. h.armed }))
      λ q' (r, n).
        let (sound, same, rings) = rearmed-IsSound clock q' r in
        (
          sound,
          subst (λ (es : TimerList). Renewed now q ds es) (sym same) n,
          subst (λ (es : TimerList). Rings clock es (rearmed clock q').alarm) (sym same) rings,
        )

-- The timers that `getExpired` takes, and the entries that it leaves.
abbrev pub expired_at : ℕ → TimerList → TimerList
expired_at now es = (take_now now (split_at (now, 0) es)).0

abbrev waiting_at : ℕ → TimerList → TimerList
waiting_at now es = (take_now now (split_at (now, 0) es)).1

get_expired_eq :
    (now : ℕ) (q : TimerQueue)
    → IsSorted q.timer_list
    → count_at now q.timer_list ≤ 1
    → get_expired now q
      ≡ ok (expired_at now q.timer_list, record q { timer_list = waiting_at now q.timer_list })
unfolding get_expired
get_expired_eq now q s few = elim (Bool-cases (starts_after now (waiting_at now q.timer_list))) [
  | inl e ↦ rw e refl
  | inr e ↦ absurd (rw e at (get_expired-Splits now q s few))
]

-- What `handleRead` has when it calls the timers.
abbrev pub calling : ℕ → TimerQueue → TimerQueue
calling now q = record q {
  timer_list = waiting_at now q.timer_list;
  canceling_timers = [];
  calling_expired_timers = true;
}

calling_IsSound :
    (now : ℕ) (q : TimerQueue)
    → IsSound [] q
    → Distinct (expired_at now q.timer_list) × IsSound (expired_at now q.timer_list) (calling now q)
calling_IsSound now q h =
    let es = q.timer_list in
    let parts = split_at (now, 0) es in
    let joined : expired_at now es ++ waiting_at now es ≡ es =
      take_now-append now parts.0 parts.1 ∙ split_at-append (now, 0) es in
    let (distinct, apart) =
      Distinct-append (expired_at now es) (waiting_at now es)
        (subst Distinct (sym joined) (sorted-Distinct q.timers es h.sorted h.agree)) in
    let whole : Rest q.timers q.alarm es = record {
      sorted = h.sorted;
      agree = h.agree;
      armed = h.armed;
    } in
    let rest =
      append-Rest q.timers q.alarm (expired_at now es) (waiting_at now es)
        (subst (Rest q.timers q.alarm) (sym joined) whole) in
    (
      distinct,
      record { sorted = rest.sorted; agree = rest.agree; apart = apart; armed = rest.armed },
    )

-- A round of the timers returns and leaves the queue sound: the entries in order, each at the time of its
-- timer, and the alarm set, at the time `clock` of the call, for the first entry, if that has a valid
-- time. At most one timer may expire at this very microsecond, and each callback returns with the queue
-- still sound towards the timers being called.
pub handle_read-IsSound :
    (run : ℕ → TimerQueue → Result TimerQueue) (now clock : ℕ) (q : TimerQueue)
    → 0 < now
    → IsSound [] q
    → count_at now q.timer_list ≤ 1
    → ((p : ℕ) (q' : TimerQueue)
        → IsSound (expired_at now q.timer_list) q'
        → Returns (run p q') (IsSound (expired_at now q.timer_list)))
    → Returns (handle_read run now clock q) λ q'. IsSound [] q' × Rings clock q'.timer_list q'.alarm
unfolding handle_read
handle_read-IsSound run now clock q pos h few keep =
    let ds = expired_at now q.timer_list in
    let (distinct, sound) = calling_IsSound now q h in
    rw (get_expired_eq now q h.sorted few) (
      Returns-bind (run_all run ds (calling now q)) _ (IsSound ds) _
        (run_all-keeps (IsSound ds) run keep ds (calling now q) sound)
        λ q' s.
          let idle : IsSound ds (record q' { calling_expired_timers = false }) = record {
            sorted = s.sorted;
            agree = s.agree;
            apart = s.apart;
            armed = s.armed;
          } in
          Returns-mono (reset ds now clock (record q' { calling_expired_timers = false })) _ _
            (reset-Renewed ds now clock (record q' { calling_expired_timers = false }) pos distinct
              idle)
            λ q'' r. (r.0, r.2))
