-- ===== src/Net/TimerQueue/Agreement.antt =====
-- The entries of a timer queue against its timers and its alarm.
use mathlib.Core.Bool.{false≢true}
use ham.Net.Timer.{Timer}
use ham.Net.TimerQueue.{
  how_much_time_from_now, before, Timespec, is_earliest, TimerQueue, TimerList, set_timer,
  find_entry, insert_entry, insert,
}
use ham.Net.TimerQueue.Entries.{insert_entry-Inserted}
use ham.Base.{
  Bool-cases, ℕ, ◌≤◌, ◌≡◌, refl, sym, inl, inr, true, false, Option, some, [], ◌∷◌, arith, ltb,
  ◌==◌, ok,
}

-- Every entry has the time of its timer.
abbrev pub Agree : (ℕ → Timer) → TimerList → Type 0
Agree timers [] = Unit
Agree timers ((t, p) ∷ es) = ((timers p).expiration ≡ t) × Agree timers es

-- No entry is for the timer.
abbrev pub Lacks : ℕ → TimerList → Type 0
Lacks p [] = Unit
Lacks p ((t, q) ∷ es) = ((q == p) ≡ false) × Lacks p es

-- No timer of `ds` has an entry.
abbrev pub Apart : TimerList → TimerList → Type 0
Apart [] es = Unit
Apart ((t, p) ∷ ds) es = Lacks p es × Apart ds es

-- No timer has two entries.
abbrev pub Distinct : TimerList → Type 0
Distinct [] = Unit
Distinct ((t, p) ∷ es) = Lacks p es × Distinct es

-- The alarm was last set for the earliest entry, or for an earlier time.
abbrev pub Armed : TimerList → Option Timespec → Type 0
Armed [] alarm = Unit
Armed ((t, p) ∷ es) alarm =
    (u : ℕ) × (now : ℕ) × (u ≤ t) × (alarm ≡ some (how_much_time_from_now u now))

pub insert_Agree :
    (timers : ℕ → Timer) (t p : ℕ) (es : TimerList)
    → (timers p).expiration ≡ t
    → Agree timers es
    → Agree timers (insert_entry (t, p) es).0
unfolding insert_entry
insert_Agree timers t p [] e h = (e, tt)
insert_Agree timers t p ((s, q) ∷ es) e h = elim (Bool-cases (before (s, q) (t, p))) [
  | inl k ↦ rw k (h.0, insert_Agree timers t p es e h.1)
  | inr k ↦ elim (Bool-cases (before (t, p) (s, q))) [
    | inl k' ↦ rw (k, k') (e, h)
    | inr k' ↦ rw (k, k') h
  ]
]

pub insert_Lacks :
    (r t p : ℕ) (es : TimerList)
    → (p == r) ≡ false
    → Lacks r es
    → Lacks r (insert_entry (t, p) es).0
unfolding insert_entry
insert_Lacks r t p [] e h = (e, tt)
insert_Lacks r t p ((s, q) ∷ es) e h = elim (Bool-cases (before (s, q) (t, p))) [
  | inl k ↦ rw k (h.0, insert_Lacks r t p es e h.1)
  | inr k ↦ elim (Bool-cases (before (t, p) (s, q))) [
    | inl k' ↦ rw (k, k') (e, h)
    | inr k' ↦ rw (k, k') h
  ]
]

Lacks-find : (t p : ℕ) (es : TimerList) → Lacks p es → find_entry (t, p) es ≡ false
unfolding find_entry
Lacks-find t p [] h = refl
Lacks-find t p ((s, q) ∷ es) h = ground (arith, Lacks-find t p es h.1)

pub Apart-insert :
    (ds : TimerList) (t p : ℕ) (es : TimerList)
    → Lacks p ds
    → Apart ds es
    → Apart ds (insert_entry (t, p) es).0
Apart-insert [] t p es l h = tt
Apart-insert ((s, q) ∷ ds) t p es l h =
    (insert_Lacks q t p es (ground (arith, l.0)) h.0, Apart-insert ds t p es l.1 h.1)

pub set_timer-Agree :
    (timers : ℕ → Timer) (p : ℕ) (x : Timer) (es : TimerList)
    → Lacks p es
    → Agree timers es
    → Agree (set_timer timers p x) es
unfolding set_timer
set_timer-Agree timers p x [] l h = tt
set_timer-Agree timers p x ((s, q) ∷ es) l h =
    (ground (arith, l.0), set_timer-Agree timers p x es l.1 h.1)

-- What `insert` does for a timer with no entry.
pub insert_eq :
    (p : ℕ) (q : TimerQueue)
    → Lacks p q.timer_list
    → insert p q
      ≡ ok (record q {
        timer_list = (insert_entry ((q.timers p).expiration, p) q.timer_list).0;
        earliest_changed = is_earliest (q.timers p).expiration q.timer_list;
      })
unfolding insert
insert_eq p q l =
    let e : ℕ × ℕ = ((q.timers p).expiration, p) in
    let r =
      insert_entry-Inserted e q.timer_list (Lacks-find (q.timers p).expiration p q.timer_list l) in
    rw r.is_new refl

pub insert_Armed_old :
    (t p : ℕ) (es : TimerList) (alarm : Option Timespec)
    → is_earliest t es ≡ false
    → Armed es alarm
    → Armed (insert_entry (t, p) es).0 alarm
unfolding insert_entry
insert_Armed_old t p [] alarm e h = absurd (false≢true (sym e))
insert_Armed_old t p ((s, q) ∷ es) alarm e (u, now, h, a) =
    elim (Bool-cases (before (s, q) (t, p))) [
      | inl k ↦ rw k (u, now, h, a)
      | inr k ↦ elim (Bool-cases (before (t, p) (s, q))) [
        | inl k' ↦ rw (k, k') (u, now, ground (arith, h, e), a)
        | inr k' ↦ rw (k, k') (u, now, h, a)
      ]
    ]

pub insert_Armed_new :
    (t p now : ℕ) (es : TimerList)
    → is_earliest t es ≡ true
    → Armed (insert_entry (t, p) es).0 (some (how_much_time_from_now t now))
unfolding insert_entry
insert_Armed_new t p now [] e = (t, now, omega arith, refl)
insert_Armed_new t p now ((s, q) ∷ es) e =
    let above = not_after t p s q e in rw (above.0, above.1) (t, now, omega arith, refl)
  where
    not_after :
        (t p s q : ℕ)
        → ltb t s ≡ true
        → (before (s, q) (t, p) ≡ false) × (before (t, p) (s, q) ≡ true)
    not_after t p s q e = ground arith
