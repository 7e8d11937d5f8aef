-- ===== src/Net/TimerQueue/Sound.antt =====
-- What holds of a timer queue between two of its operations, while timers of `ds` are called.
use ham.Net.Timer.{new_timer, Timer}
use ham.Net.TimerQueue.Agreement.{
  insert_Armed_old, insert_Armed_new, Apart-insert, insert_Agree, set_timer-Agree, insert_eq, Agree,
  Armed, Apart, Lacks,
}
use ham.Net.TimerQueue.Entries.{insert_entry-IsSorted, is_above}
use ham.Net.TimerQueue.{
  is_earliest, set_timer, insert_entry, find_entry, same_entry, reset_alarm, add_timer_in_loop,
  TimerQueue, Timespec, TimerList, erase_entry, cancel_timer_in_loop, before, add_timer,
}
use ham.Net.TimerQueue.Entries.{IsSorted}
use ham.Base.{
  ==-self, if-both, Bool-cases, ℕ, ◌≡◌, refl, ap, inl, inr, Bool, true, Option, [], ◌∷◌, arith,
  if◌then◌else◌, ok, Returns,
}

pub record IsSound (ds : TimerList) (q : TimerQueue) : Type 0 where
  pub sorted : IsSorted q.timer_list
  pub agree : Agree q.timers q.timer_list
  pub apart : Apart ds q.timer_list
  pub armed : Armed q.timer_list q.alarm

erase_Agree :
    (timers : ℕ → Timer) (e : ℕ × ℕ) (es : TimerList)
    → Agree timers es
    → Agree timers (erase_entry e es)
unfolding erase_entry
erase_Agree timers e [] h = tt
erase_Agree timers e (x ∷ es) h = elim (Bool-cases (same_entry x e)) [
  | inl k ↦ rw k h.1
  | inr k ↦ rw k (h.0, erase_Agree timers e es h.1)
]

erase_Lacks : (r : ℕ) (e : ℕ × ℕ) (es : TimerList) → Lacks r es → Lacks r (erase_entry e es)
unfolding erase_entry
erase_Lacks r e [] h = tt
erase_Lacks r e (x ∷ es) h = elim (Bool-cases (same_entry x e)) [
  | inl k ↦ rw k h.1
  | inr k ↦ rw k (h.0, erase_Lacks r e es h.1)
]

Apart-erase :
    (ds : TimerList) (e : ℕ × ℕ) (es : TimerList) → Apart ds es → Apart ds (erase_entry e es)
Apart-erase [] e es h = tt
Apart-erase ((t, p) ∷ ds) e es h = (erase_Lacks p e es h.0, Apart-erase ds e es h.1)

pub before_trans : (x y z : ℕ × ℕ) → before x y ≡ true → before y z ≡ true → before x z ≡ true
before_trans (s, p) (t, q) (u, r) h k = ground arith

pub is_above-tail :
    (x y : ℕ × ℕ) (es : TimerList) → before x y ≡ true → is_above y es ≡ true → is_above x es ≡ true
is_above-tail x y [] h k = refl
is_above-tail x y (z ∷ es) h k = before_trans x y z h k

is_above-erase :
    (x e : ℕ × ℕ) (es : TimerList)
    → is_above x es ≡ true
    → IsSorted es
    → is_above x (erase_entry e es) ≡ true
unfolding erase_entry
is_above-erase x e [] h s = refl
is_above-erase x e (y ∷ es) h s =
    if-both (λ ys. is_above x ys ≡ true) (same_entry y e) es (y ∷ erase_entry e es)
      (is_above-tail x y es h s.0) h

erase_IsSorted : (e : ℕ × ℕ) (es : TimerList) → IsSorted es → IsSorted (erase_entry e es)
unfolding erase_entry
erase_IsSorted e [] s = tt
erase_IsSorted e (x ∷ es) s =
    if-both IsSorted (same_entry x e) es (x ∷ erase_entry e es) s.1
      (is_above-erase x e es s.0 s.1, erase_IsSorted e es s.1)

-- The entries behind the first are later.
pub Armed-tail :
    (x : ℕ × ℕ) (es : TimerList) (alarm : Option Timespec)
    → is_above x es ≡ true
    → Armed (x ∷ es) alarm
    → Armed es alarm
Armed-tail (t, p) [] alarm h a = tt
Armed-tail (t, p) ((s, q) ∷ es) alarm h (u, now, k, e) = (u, now, ground (arith, h, k), e)

erase_Armed :
    (e : ℕ × ℕ) (es : TimerList) (alarm : Option Timespec)
    → IsSorted es
    → Armed es alarm
    → Armed (erase_entry e es) alarm
unfolding erase_entry
erase_Armed e [] alarm s a = tt
erase_Armed e (x ∷ es) alarm s a =
    if-both (λ ys. Armed ys alarm) (same_entry x e) es (x ∷ erase_entry e es)
      (Armed-tail x es alarm s.0 a) a

-- Cancelling keeps the queue sound.
pub cancel_timer_in_loop-IsSound :
    (ds : TimerList) (p : ℕ) (q : TimerQueue) → IsSound ds q → IsSound ds (cancel_timer_in_loop p q)
unfolding cancel_timer_in_loop
cancel_timer_in_loop-IsSound ds p q h =
    let e : ℕ × ℕ = ((q.timers p).expiration, p) in
    if-both (IsSound ds) (find_entry e q.timer_list) _ _
      (record {
        sorted = erase_IsSorted e q.timer_list h.sorted;
        agree = erase_Agree q.timers e q.timer_list h.agree;
        apart = Apart-erase ds e q.timer_list h.apart;
        armed = erase_Armed e q.timer_list q.alarm h.sorted h.armed;
      })
      (if-both (IsSound ds) q.calling_expired_timers _ _
        (record { sorted = h.sorted; agree = h.agree; apart = h.apart; armed = h.armed }) h)

pub set_timer_at : (timers : ℕ → Timer) (p : ℕ) (x : Timer) → set_timer timers p x p ≡ x
unfolding set_timer
set_timer_at timers p x = rw (==-self p) refl

-- A queue after `insert`, with its alarm set when the earliest entry has changed.
abbrev inserted : ℕ → ℕ → ℕ → TimerQueue → TimerQueue
inserted p when now q =
    let after = record q {
      timer_list = (insert_entry (when, p) q.timer_list).0;
      earliest_changed = is_earliest when q.timer_list;
    } in
    if is_earliest when q.timer_list then reset_alarm when now after else after

add_timer_in_loop_eq :
    (p when now : ℕ) (q : TimerQueue)
    → Lacks p q.timer_list
    → (q.timers p).expiration ≡ when
    → add_timer_in_loop p now q ≡ ok (inserted p when now q)
unfolding add_timer_in_loop
add_timer_in_loop_eq p when now q l e = rw (insert_eq p q l, e) refl

inserted-IsSound :
    (ds : TimerList) (p when now : ℕ) (q : TimerQueue)
    → Lacks p ds
    → (q.timers p).expiration ≡ when
    → IsSound ds q
    → IsSound ds (inserted p when now q)
unfolding reset_alarm
inserted-IsSound ds p when now q l e h = elim (Bool-cases (is_earliest when q.timer_list)) [
  | inl k ↦ rw k (record {
    sorted = insert_entry-IsSorted (when, p) q.timer_list h.sorted;
    agree = insert_Agree q.timers when p q.timer_list e h.agree;
    apart = Apart-insert ds when p q.timer_list l h.apart;
    armed = insert_Armed_new when p now q.timer_list k;
  })
  | inr k ↦ rw k (record {
    sorted = insert_entry-IsSorted (when, p) q.timer_list h.sorted;
    agree = insert_Agree q.timers when p q.timer_list e h.agree;
    apart = Apart-insert ds when p q.timer_list l h.apart;
    armed = insert_Armed_old when p q.timer_list q.alarm k h.armed;
  })
]

-- `addTimer` puts a timer that is not in use into the queue, keeps the queue sound, and yields its id.
pub add_timer-IsSound :
    (ds : TimerList) (p when micros : ℕ) (repeats : Bool) (created now : ℕ) (q : TimerQueue)
    → Lacks p ds
    → Lacks p q.timer_list
    → IsSound ds q
    → Returns (add_timer p when micros repeats created now q) λ r. IsSound ds r.0 × (r.1.timer ≡ p)
unfolding add_timer
add_timer-IsSound ds p when micros repeats created now q l l' h =
    let x = new_timer when micros repeats created in
    let q' = record q { timers = set_timer q.timers p x } in
    let e : (q'.timers p).expiration ≡ when = ap (λ t. t.expiration) (set_timer_at q.timers p x) in
    rw (add_timer_in_loop_eq p when now q' l' e) (
      inserted-IsSound ds p when now q' l e (record {
        sorted = h.sorted;
        agree = set_timer-Agree q.timers p x q.timer_list l' h.agree;
        apart = h.apart;
        armed = h.armed;
      }),
      refl,
    )
