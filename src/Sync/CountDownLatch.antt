-- ===== src/Sync/CountDownLatch.antt =====
-- ham/base/CountDownLatch.cc: threads that wait for a count of events. What a thread does while it
-- holds the mutex is one step, and so is its test of the count after it has let go of the mutex.
pub mod Waits
use ham.Base.{
  ℕ, zero, suc, ◌+◌, ◌-◌, ◌*◌, ◌/◌, ◌%◌, ◌^◌, ◌≤◌, ◌<◌, min, String, ◌≡◌, refl, sym, ap, ◌∙◌, ◌≢◌,
  ◌⊎◌, inl, inr, Bool, true, false, not, ◌&&◌, ◌||◌, Option, none, some, List, [], ◌∷◌, ◌++◌, arith,
  ltb, leb, ◌==◌, if◌then◌else◌, add_size, sub_size, length, take, drop, bytes, Result, ok, err,
  ◌>>=◌, ◌>>◌, assert, Returns,
}

-- `int`, without its bounds: the least value is 2 ^ 31 countdowns below zero.
pub data ℤ : Type 0 where
  pos : ℕ → ℤ
  negsuc : ℕ → ℤ

abbrev pub predℤ : ℤ → ℤ
predℤ (pos zero) = negsuc zero
predℤ (pos (suc n)) = pos n
predℤ (negsuc n) = negsuc (suc n)

abbrev pub is_positive : ℤ → Bool
is_positive (pos (suc n)) = true
is_positive _ = false

abbrev pub is_zero : ℤ → Bool
is_zero (pos zero) = true
is_zero _ = false

-- Threads inside `wait` are at the mutex or asleep, or have returned; threads inside `countdown` have
-- counted and are to test the count (`testing`) or to notify.
pub record CountDownLatch : Type 0 where
  pub count : ℤ
  pub waits_at : ℕ
  pub waits_asleep : ℕ
  pub waits_returned : ℕ
  pub testing : ℕ
  pub notifying : ℕ
  pub countdowns : ℕ

abbrev pub new_latch : ℕ → CountDownLatch
new_latch count = record {
  count = pos count;
  waits_at = 0;
  waits_asleep = 0;
  waits_returned = 0;
  testing = 0;
  notifying = 0;
  countdowns = 0;
}

pub data Step (s : CountDownLatch) : CountDownLatch → Type 0 where
  call_wait : Step s (record s { waits_at = suc s.waits_at })
  wait_sleeps :
      (n : ℕ)
      → s.waits_at ≡ suc n
      → is_positive s.count ≡ true
      → Step s (record s { waits_at = n; waits_asleep = suc s.waits_asleep })
  wait_returns :
      (n : ℕ)
      → s.waits_at ≡ suc n
      → is_positive s.count ≡ false
      → Step s (record s { waits_at = n; waits_returned = suc s.waits_returned })
  count_down :
      Step s
        (record s { count = predℤ s.count; testing = suc s.testing; countdowns = suc s.countdowns })
  test_zero :
      (k : ℕ)
      → s.testing ≡ suc k
      → is_zero s.count ≡ true
      → Step s (record s { testing = k; notifying = suc s.notifying })
  test_other :
      (k : ℕ) → s.testing ≡ suc k → is_zero s.count ≡ false → Step s (record s { testing = k })
  notify_all :
      (k : ℕ)
      → s.notifying ≡ suc k
      → Step s
          (record s { notifying = k; waits_at = s.waits_at + s.waits_asleep; waits_asleep = 0 })

-- A wait may also end by itself.
pub data Wakes (s : CountDownLatch) : CountDownLatch → Type 0 where
  wait_wakes :
      (n : ℕ)
      → s.waits_asleep ≡ suc n
      → Wakes s (record s { waits_asleep = n; waits_at = suc s.waits_at })

pub data Reachable (count : ℕ) : CountDownLatch → Type 0 where
  start : Reachable count (new_latch count)
  later : {s t : CountDownLatch} → Reachable count s → Step s t → Reachable count t
  awake : {s t : CountDownLatch} → Reachable count s → Wakes s t → Reachable count t

-- A thread comes in.
abbrev pub is_call : {s t : CountDownLatch} → Step s t → Bool
is_call call_wait = true
is_call count_down = true
is_call _ = false

-- Some steps of the threads that are inside, one after the other; no thread comes in, and no wait ends by
-- itself.
pub data Steps (s : CountDownLatch) : CountDownLatch → Type 0 where
  here : Steps s s
  onward : {t u : CountDownLatch} → Steps s t → (st : Step t u) → is_call st ≡ false → Steps s u
