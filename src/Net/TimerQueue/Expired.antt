-- ===== src/Net/TimerQueue/Expired.antt =====
-- Which timers expire.
use native.Mathlib.Decide.{dec_lt}
use mathlib.Core.List.{append_assoc}
use ham.Net.TimerQueue.Entries.{IsSorted}
use ham.Net.TimerQueue.{
  starts_after, TimerQueue, before, TimerList, get_expired, split_at, take_now,
}
use ham.Base.{
  le→ltb_false, assert_failed, lt→ltb, Bool-cases, ℕ, suc, ◌≤◌, ◌<◌, ◌≡◌, refl, ap, ◌∙◌, inl, inr,
  true, false, [], ◌∷◌, ◌++◌, arith, ◌==◌, if◌then◌else◌, err, Returns,
}

-- Every entry expires by `now`.
abbrev pub AllBy : ℕ → TimerList → Type 0
AllBy now [] = Unit
AllBy now ((t, p) ∷ es) = (t ≤ now) × AllBy now es

abbrev pub AllAfter : ℕ → TimerList → Type 0
AllAfter now [] = Unit
AllAfter now ((t, p) ∷ es) = (now < t) × AllAfter now es

pub split_at-append :
    (helper : ℕ × ℕ) (es : TimerList) → (split_at helper es).0 ++ (split_at helper es).1 ≡ es
unfolding split_at
split_at-append helper [] = refl
split_at-append helper (x ∷ xs) = elim (Bool-cases (before x helper)) [
  | inl h ↦ rw h (ap (λ ys. x ∷ ys) (split_at-append helper xs))
  | inr h ↦ rw h refl
]

pub take_now-append :
    (now : ℕ) (early late : TimerList)
    → let parts = take_now now (early, late) in parts.0 ++ parts.1 ≡ early ++ late
unfolding take_now
take_now-append now early [] = refl
take_now-append now early ((t, p) ∷ es) = elim (Bool-cases (t == now)) [
  | inl h ↦ rw h (append_assoc early ((t, p) ∷ []) es)
  | inr h ↦ rw h refl
]

before-now : (now t p : ℕ) → before (t, p) (now, 0) ≡ true → t < now
before-now now t p h = grind arith

lt→le : (now t : ℕ) → t < now → t ≤ now
lt→le now t h = omega arith

split_at-early : (now : ℕ) (es : TimerList) → AllBy now (split_at (now, 0) es).0
unfolding split_at
split_at-early now [] = tt
split_at-early now ((t, p) ∷ xs) = elim (Bool-cases (before (t, p) (now, 0))) [
  | inl h ↦ rw h (lt→le now t (before-now now t p h), split_at-early now xs)
  | inr h ↦ rw h tt
]

above-late :
    (now t p : ℕ) (es : TimerList) → IsSorted ((t, p) ∷ es) → now < t → AllAfter now ((t, p) ∷ es)
above-late now t p [] s h = (h, tt)
above-late now t p ((u, q) ∷ es) s h = (h, above-late now u q es s.1 (grind (arith, s.0)))

-- What `getExpired` yields and leaves.
pub record Splits (now : ℕ) (es : TimerList) (r : TimerList × TimerQueue) : Type 0 where
  pub joined : r.0 ++ r.1.timer_list ≡ es
  pub all_expired : AllBy now r.0
  pub none_expired : AllAfter now r.1.timer_list

-- How many entries expire exactly at `now`.
abbrev pub count_at : ℕ → TimerList → ℕ
count_at now [] = 0
count_at now ((t, p) ∷ es) = let n = count_at now es in if t == now then suc n else n

-- What `lower_bound` leaves: sorted, from `now` on, and with no more entries at `now`.
abbrev From : ℕ → TimerList → Type 0
From now [] = Unit
From now ((t, p) ∷ es) = now ≤ t

record Late (now : ℕ) (bound : ℕ) (es : TimerList) : Type 0 where
  sorted : IsSorted es
  from : From now es
  few : count_at now es ≤ bound

not_before-now : (now t p : ℕ) → before (t, p) (now, 0) ≡ false → now ≤ t
not_before-now now t p h = grind arith

split_at-Late :
    (now bound : ℕ) (es : TimerList)
    → IsSorted es
    → count_at now es ≤ bound
    → Late now bound (split_at (now, 0) es).1
unfolding split_at
split_at-Late now bound [] s few = record { sorted = tt; from = tt; few = few }
split_at-Late now bound ((t, p) ∷ es) s few = elim (Bool-cases (before (t, p) (now, 0))) [
  | inl h ↦ rw h (split_at-Late now bound es s.1 (ground (arith, few)))
  | inr h ↦ rw h (record { sorted = s; from = not_before-now now t p h; few = few })
]

none_left :
    (now : ℕ) (t p : ℕ) (es : TimerList)
    → IsSorted ((t, p) ∷ es)
    → now ≤ t
    → count_at now es ≤ 0
    → AllAfter now es
none_left now t p [] s h few = tt
none_left now t p ((u, q) ∷ es) s h few = above-late now u q es s.1 (grind (arith, s.0))

AllBy-append :
    (now t p : ℕ) (es : TimerList) → AllBy now es → t ≤ now → AllBy now (es ++ ((t, p) ∷ []))
AllBy-append now t p [] h k = (k, tt)
AllBy-append now t p (e ∷ es) h k = (h.0, AllBy-append now t p es h.1 k)

take_now-parts :
    (now : ℕ) (early late : TimerList)
    → AllBy now early
    → Late now 1 late
    → let parts = take_now now (early, late) in AllBy now parts.0 × AllAfter now parts.1
unfolding take_now
take_now-parts now early [] h l = (h, tt)
take_now-parts now early ((t, p) ∷ es) h l = elim (Bool-cases (t == now)) [
  | inl e ↦ rw e (
    AllBy-append now t p early h (ground arith),
    none_left now t p es l.sorted l.from (ground (arith, l.few)),
  )
  | inr e ↦ rw e (h, above-late now t p es l.sorted (ground (arith, l.from)))
]

AllAfter-starts : (now : ℕ) (es : TimerList) → AllAfter now es → starts_after now es ≡ true
AllAfter-starts now [] h = refl
AllAfter-starts now ((t, p) ∷ es) h = lt→ltb now t h.0

-- `getExpired` takes exactly the timers whose time has come, in order, and leaves the others; at most
-- one timer may expire at this very microsecond.
pub get_expired-Splits :
    (now : ℕ) (q : TimerQueue)
    → IsSorted q.timer_list
    → count_at now q.timer_list ≤ 1
    → Returns (get_expired now q) (Splits now q.timer_list)
unfolding get_expired
get_expired-Splits now q s few =
    let es = q.timer_list in
    let parts = split_at (now, 0) es in
    let (by, after) =
      take_now-parts now parts.0 parts.1 (split_at-early now es) (split_at-Late now 1 es s few) in
    rw (AllAfter-starts now (take_now now parts).1 after) (record {
      joined = take_now-append now parts.0 parts.1 ∙ split_at-append (now, 0) es;
      all_expired = by;
      none_expired = after;
    })

count_at-AllAfter : (now : ℕ) (es : TimerList) → AllAfter now es → count_at now es ≡ 0
count_at-AllAfter now [] h = refl
count_at-AllAfter now ((t, p) ∷ es) h = rw (later now t h.0, count_at-AllAfter now es h.1) refl
  where
    later : (now t : ℕ) → now < t → (t == now) ≡ false
    later now t h = ground arith

count_at-split :
    (now : ℕ) (es : TimerList) → count_at now (split_at (now, 0) es).1 ≡ count_at now es
unfolding split_at
count_at-split now [] = refl
count_at-split now ((t, p) ∷ es) = elim (Bool-cases (before (t, p) (now, 0))) [
  | inl h ↦ rw (h, earlier now t (before-now now t p h)) (count_at-split now es)
  | inr h ↦ rw h refl
]
  where
    earlier : (now t : ℕ) → t < now → (t == now) ≡ false
    earlier now t h = ground arith

second_at :
    (now : ℕ) (es : TimerList) → IsSorted es → 1 ≤ count_at now es → starts_after now es ≡ false
second_at now [] s few = absurd (omega arith)
second_at now ((u, q) ∷ es) s few = elim (dec_lt now u) [
  | Dec.yes h ↦
      absurd (omega (arith, few, count_at-AllAfter now ((u, q) ∷ es) (above-late now u q es s h)))
  | Dec.no h ↦ le→ltb_false now u (omega arith)
]

twice :
    (now : ℕ) (early late : TimerList)
    → IsSorted late
    → From now late
    → 2 ≤ count_at now late
    → starts_after now (take_now now (early, late)).1 ≡ false
unfolding take_now
twice now early [] s h few = absurd (omega arith)
twice now early ((t, p) ∷ es) s h few = elim (Bool-cases (t == now)) [
  | inl e ↦ rw e (second_at now es s.1 (ground (arith, few)))
  | inr e ↦ absurd (
      omega (
        arith,
        few,
        count_at-AllAfter now ((t, p) ∷ es) (above-late now t p es s (ground (arith, h))),
      ))
]

-- When two timers or more expire at this very microsecond, `getExpired` takes one of them, and its
-- assertion fails.
pub get_expired-twice :
    (now : ℕ) (q : TimerQueue)
    → IsSorted q.timer_list
    → 2 ≤ count_at now q.timer_list
    → get_expired now q ≡ err assert_failed
unfolding get_expired
get_expired-twice now q s few =
    let es = q.timer_list in
    let late = split_at-Late now (count_at now es) es s (omega arith) in
    rw
      (twice now (split_at (now, 0) es).0 (split_at (now, 0) es).1 late.sorted late.from
        (omega (arith, few, count_at-split now es)))
      refl
