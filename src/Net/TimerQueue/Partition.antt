-- ===== src/Net/TimerQueue/Partition.antt =====
-- A sorted queue that is cut in two: no timer stands on both sides.
use ham.Net.TimerQueue.Sound.{is_above-tail, Armed-tail}
use ham.Net.TimerQueue.Agreement.{Armed, Apart, Agree, Lacks, Distinct}
use ham.Net.TimerQueue.{before, Timespec, TimerList}
use ham.Net.Timer.{Timer}
use ham.Net.TimerQueue.Entries.{IsSorted}
use ham.Base.{ℕ, ◌≡◌, true, false, Option, [], ◌∷◌, ◌++◌, arith, ◌==◌}

one_time :
    (timers : ℕ → Timer) (t p s q : ℕ)
    → before (t, p) (s, q) ≡ true
    → (timers p).expiration ≡ t
    → (timers q).expiration ≡ s
    → (q == p) ≡ false
one_time timers t p s q b e e' = ground arith

above-Lacks :
    (timers : ℕ → Timer) (t p : ℕ) (es : TimerList)
    → (timers p).expiration ≡ t
    → IsSorted ((t, p) ∷ es)
    → Agree timers es
    → Lacks p es
above-Lacks timers t p [] e s a = tt
above-Lacks timers t p ((u, q) ∷ es) e s a = (
  one_time timers t p u q s.0 e a.0,
  above-Lacks timers t p es e (is_above-tail (t, p) (u, q) es s.0 s.1.0, s.1.1) a.1,
)

-- In a sorted queue that agrees with its timers, no timer stands twice.
pub sorted-Distinct :
    (timers : ℕ → Timer) (es : TimerList) → IsSorted es → Agree timers es → Distinct es
sorted-Distinct timers [] s a = tt
sorted-Distinct timers ((t, p) ∷ es) s a =
    (above-Lacks timers t p es a.0 s a.1, sorted-Distinct timers es s.1 a.1)

Lacks-append : (r : ℕ) (ds es : TimerList) → Lacks r (ds ++ es) → Lacks r ds × Lacks r es
Lacks-append r [] es l = (tt, l)
Lacks-append r ((t, p) ∷ ds) es l = let (m, n) = Lacks-append r ds es l.1 in ((l.0, m), n)

pub Distinct-append : (ds es : TimerList) → Distinct (ds ++ es) → Distinct ds × Apart ds es
Distinct-append [] es d = (tt, tt)
Distinct-append ((t, p) ∷ ds) es d =
    let (l, l') = Lacks-append p ds es d.0 in
    let (m, n) = Distinct-append ds es d.1 in ((l, m), (l', n))

-- What holds of the entries that are left when the first ones are taken.
pub record Rest (timers : ℕ → Timer) (alarm : Option Timespec) (es : TimerList) : Type 0 where
  pub sorted : IsSorted es
  pub agree : Agree timers es
  pub armed : Armed es alarm

pub append-Rest :
    (timers : ℕ → Timer) (alarm : Option Timespec) (ds es : TimerList)
    → Rest timers alarm (ds ++ es)
    → Rest timers alarm es
append-Rest timers alarm [] es h = h
append-Rest timers alarm ((t, p) ∷ ds) es h = append-Rest timers alarm ds es (record {
  sorted = h.sorted.1;
  agree = h.agree.1;
  armed = Armed-tail (t, p) (ds ++ es) alarm h.sorted.0 h.armed;
})
