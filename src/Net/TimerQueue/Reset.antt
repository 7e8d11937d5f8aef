-- ===== src/Net/TimerQueue/Reset.antt =====
-- `reset`: the repeating timers that have been called come back.
use ham.Net.TimerQueue.Agreement.{
  Apart-insert, set_timer-Agree, insert_Agree, insert_eq, Apart, Armed, Lacks, Agree,
}
use ham.Net.TimerQueue.{
  before, is_earliest, find_entry, set_timer, Timespec, is_in, TimerQueue, TimerList, reset_timer,
  insert_entry,
}
use ham.Net.Timer.{Timer, is_valid, restart}
use ham.Net.TimerQueue.Entries.{first_time, insert_entry-IsSorted, IsSorted}
use ham.Net.TimerQueue.Sound.{set_timer_at}
use ham.Base.{
  Bool-cases, ℕ, ◌+◌, ◌<◌, ◌≡◌, refl, ap, ◌∙◌, inl, inr, Bool, true, false, not, ◌&&◌, Option, [],
  ◌∷◌, arith, if◌then◌else◌, ok,
}

abbrev pub is_renewed : ℕ → TimerQueue → Bool
is_renewed p q = (q.timers p).repeat && not (is_in p q.canceling_timers)

-- Each timer of `ds` that repeats, and was not cancelled when `c` was reached, has its next entry, and
-- every other one has none.
abbrev pub Renewed : ℕ → TimerQueue → TimerList → TimerList → Type 0
Renewed now c [] es = Unit
Renewed now c ((t, p) ∷ ds) es =
    (is_renewed p c ≡ true → find_entry (now + (c.timers p).interval, p) es ≡ true)
    × (is_renewed p c ≡ false → Lacks p es)
    × Renewed now c ds es

-- The queue while `reset` has the timers of `ds` to go: only a valid first entry may lack an alarm.
pub record IsResetting (ds : TimerList) (q : TimerQueue) : Type 0 where
  pub sorted : IsSorted q.timer_list
  pub agree : Agree q.timers q.timer_list
  pub apart : Apart ds q.timer_list
  pub armed : is_valid (first_time q.timer_list) ≡ false → Armed q.timer_list q.alarm

invalid-pos : (t : ℕ) → 0 < t → is_valid t ≡ false → ⊥
invalid-pos t h e = ground arith

insert_Armed_valid :
    (t p : ℕ) (es : TimerList) (alarm : Option Timespec)
    → 0 < t
    → (is_valid (first_time es) ≡ false → Armed es alarm)
    → is_valid (first_time (insert_entry (t, p) es).0) ≡ false
    → Armed (insert_entry (t, p) es).0 alarm
unfolding insert_entry
insert_Armed_valid t p [] alarm h a = λ e. absurd (invalid-pos t h e)
insert_Armed_valid t p ((s, q) ∷ es) alarm h a = elim (Bool-cases (before (s, q) (t, p))) [
  | inl k ↦ rw k λ e. a e
  | inr k ↦ elim (Bool-cases (before (t, p) (s, q))) [
    | inl k' ↦ rw (k, k') λ e. absurd (invalid-pos t h e)
    | inr k' ↦ rw (k, k') λ e. a e
  ]
]

-- The state that `reset_timer` leaves for a timer that comes back.
abbrev pub renewed : ℕ → ℕ → TimerQueue → TimerQueue
renewed now p q =
    let next = now + (q.timers p).interval in
    record q {
      timers = set_timer q.timers p (restart now (q.timers p));
      timer_list = (insert_entry (next, p) q.timer_list).0;
      earliest_changed = is_earliest next q.timer_list;
    }

and_left : (a b : Bool) → (a && b) ≡ true → a ≡ true
and_left true b e = refl
and_left false b e = e

restart_expiration :
    (now : ℕ) (x : Timer) → x.repeat ≡ true → (restart now x).expiration ≡ now + x.interval
unfolding restart
restart_expiration now x e = simp e

pub reset_timer_eq :
    (now p : ℕ) (q : TimerQueue)
    → Lacks p q.timer_list
    → reset_timer now p q ≡ ok (if is_renewed p q then renewed now p q else q)
unfolding reset_timer
reset_timer_eq now p q l = elim (Bool-cases (is_renewed p q)) [
  | inl k ↦
      let x = restart now (q.timers p) in
      let q' = record q { timers = set_timer q.timers p x } in
      let e : (q'.timers p).expiration ≡ now + (q.timers p).interval =
        ap (λ t. t.expiration) (set_timer_at q.timers p x)
        ∙ restart_expiration now (q.timers p)
            (and_left (q.timers p).repeat (not (is_in p q.canceling_timers)) k) in
      rw (k, insert_eq p q' l, e) refl
  | inr k ↦ rw k refl
]

pub renewed-IsResetting :
    (now p : ℕ) (ds : TimerList) (q : TimerQueue)
    → 0 < now
    → Lacks p ds
    → Lacks p q.timer_list
    → is_renewed p q ≡ true
    → IsResetting ds q
    → IsResetting ds (renewed now p q)
renewed-IsResetting now p ds q pos l l' k h =
    let next = now + (q.timers p).interval in
    let x = restart now (q.timers p) in
    let timers' = set_timer q.timers p x in
    let e : (timers' p).expiration ≡ next =
      ap (λ t. t.expiration) (set_timer_at q.timers p x)
      ∙ restart_expiration now (q.timers p)
          (and_left (q.timers p).repeat (not (is_in p q.canceling_timers)) k) in
    record {
      sorted = insert_entry-IsSorted (next, p) q.timer_list h.sorted;
      agree =
          insert_Agree timers' next p q.timer_list e
            (set_timer-Agree q.timers p x q.timer_list l' h.agree);
      apart = Apart-insert ds next p q.timer_list l h.apart;
      armed = insert_Armed_valid next p q.timer_list q.alarm (omega arith) h.armed;
    }

pub IsResetting-tail :
    (t p : ℕ) (ds : TimerList) (q : TimerQueue) → IsResetting ((t, p) ∷ ds) q → IsResetting ds q
IsResetting-tail t p ds q h = record {
  sorted = h.sorted;
  agree = h.agree;
  apart = h.apart.1;
  armed = h.armed;
}
