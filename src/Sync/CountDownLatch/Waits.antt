-- ===== src/Sync/CountDownLatch/Waits.antt =====
-- ham/base/CountDownLatch.cc: when `wait` returns, and who wakes it.
use ham.Sync.CountDownLatch.{
  ℤ, pos, predℤ, is_positive, is_zero, CountDownLatch, Step, call_wait, wait_sleeps, wait_returns,
  count_down, test_zero, test_other, notify_all, Wakes, wait_wakes, Reachable, start, later, awake,
  Steps, here, onward,
}
use native.Mathlib.Decide.{dec_lt}
use ham.Base.{ℕ, zero, suc, ◌+◌, ◌-◌, ◌≤◌, ◌<◌, ◌≡◌, refl, ap, ◌∙◌, true, false, arith}

-- What the count is after some countdowns.
abbrev counted : ℕ → ℕ → ℤ
counted count zero = pos count
counted count (suc n) = predℤ (counted count n)

predℤ-pos : (m : ℕ) → 0 < m → predℤ (pos m) ≡ pos (m - 1)
predℤ-pos zero h = absurd (omega arith)
predℤ-pos (suc m) h = ap pos (omega arith)

is_positive-pos : (m : ℕ) → 0 < m → is_positive (pos m) ≡ true
is_positive-pos zero h = absurd (omega arith)
is_positive-pos (suc m) h = refl

counted-pos : (count n : ℕ) → n ≤ count → counted count n ≡ pos (count - n)
counted-pos count zero h = ap pos (omega arith)
counted-pos count (suc n) h =
    rw (counted-pos count n (omega arith), predℤ-pos (count - n) (omega arith))
      (ap pos (omega arith))

not_positive-counted : (count n : ℕ) → is_positive (counted count n) ≡ false → count ≤ n
not_positive-counted count n e = elim (dec_lt n count) [
  | Dec.yes h ↦ absurd (ground (arith, counted-pos count n, is_positive-pos (count - n)))
  | Dec.no h ↦ omega arith
]

is_zero-counted : (count : ℕ) → counted count count ≡ pos 0
is_zero-counted count = rw (counted-pos count count (omega arith)) (ap pos (omega arith))

record Inv (count : ℕ) (s : CountDownLatch) : Type 0 where
  counts : s.count ≡ counted count s.countdowns
  returns : 0 < s.waits_returned → count ≤ s.countdowns
  wakes : s.countdowns ≡ count → 0 < s.waits_asleep → 0 < s.testing + s.notifying

Step-Inv : {count : ℕ} {s t : CountDownLatch} → Step s t → Inv count s → Inv count t
Step-Inv {count} {s} call_wait h = ground arith
Step-Inv {count} {s} (wait_sleeps n e up) h = ground (arith, is_zero-counted count)
Step-Inv {count} {s} (wait_returns n e down) h =
    ground (arith, not_positive-counted count s.countdowns)
Step-Inv {count} {s} count_down h = ground arith
Step-Inv {count} {s} (test_zero k e is_nil) h = ground arith
Step-Inv {count} {s} (test_other k e other) h = ground (arith, is_zero-counted count)
Step-Inv {count} {s} (notify_all k e) h = ground arith

Wakes-Inv : {count : ℕ} {s t : CountDownLatch} → Wakes s t → Inv count s → Inv count t
Wakes-Inv {count} {s} (wait_wakes n e) h = ground arith

Reachable-Inv : {count : ℕ} {s : CountDownLatch} → Reachable count s → Inv count s
Reachable-Inv start = record {
  counts = refl;
  returns = λ h. absurd (omega arith);
  wakes = λ e h. absurd (omega arith);
}
Reachable-Inv (later r st) = Step-Inv st (Reachable-Inv r)
Reachable-Inv (awake r w) = Wakes-Inv w (Reachable-Inv r)

-- A `wait` on a latch of a count returns only after that many countdowns.
pub returned-countdowns :
    (count : ℕ) {s : CountDownLatch}
    → Reachable count s
    → 0 < s.waits_returned
    → count ≤ s.countdowns
returned-countdowns count r h = (Reachable-Inv r).returns h

-- Steps after which nobody sleeps and everybody who did is at the mutex, where the count lets them
-- return.
pub record Opens (s : CountDownLatch) : Type 0 where
  pub after : CountDownLatch
  pub path : Steps s after
  pub all_up : after.waits_asleep ≡ 0
  pub at_mutex : after.waits_at ≡ s.waits_at + s.waits_asleep
  pub open_now : is_positive after.count ≡ false

open_by :
    (s : CountDownLatch) (n k : ℕ)
    → s.count ≡ pos 0
    → s.testing ≡ n
    → s.notifying ≡ k
    → 0 < n + k
    → Opens s
open_by s n (suc k) e testing notifying h = record {
  after = record s { notifying = k; waits_at = s.waits_at + s.waits_asleep; waits_asleep = 0 };
  path = onward here (notify_all k notifying) refl;
  all_up = refl;
  at_mutex = refl;
  open_now = ap is_positive e;
}
open_by s (suc n) zero e testing notifying h = record {
  after = record s {
    testing = n;
    notifying = s.notifying;
    waits_at = s.waits_at + s.waits_asleep;
    waits_asleep = 0;
  };
  path =
      onward (onward here (test_zero n testing (ap is_zero e)) refl) (notify_all s.notifying refl)
        refl;
  all_up = refl;
  at_mutex = refl;
  open_now = ap is_positive e;
}
open_by s zero zero e testing notifying h = absurd (omega arith)

-- After exactly as many countdowns as the latch was made for, with threads asleep in `wait`, the threads
-- that are still inside `countdown` wake all of them up, with no further countdown and nobody coming in,
-- and the count lets them return.
pub countdowns-Opens :
    (count : ℕ) {s : CountDownLatch}
    → Reachable count s
    → s.countdowns ≡ count
    → 0 < s.waits_asleep
    → Opens s
countdowns-Opens count {s} r e sleeps =
    let h = Reachable-Inv r in
    open_by s s.testing s.notifying (h.counts ∙ (ap (counted count) e ∙ is_zero-counted count)) refl
      refl (h.wakes e sleeps)
