-- ===== src/Sync/Monitor.antt =====
-- A queue under a mutex with a condition for `put` and one for `take`, used by any number of threads.
-- What a thread does while it holds the mutex is one step.
pub mod Inv
pub mod Progress
use ham.Base.{
  ℕ, suc, zero, ◌+◌, Bool, true, false, Option, none, some, List, [], ◌∷◌, ◌++◌, ◌≡◌, if◌then◌else◌,
}

-- The queue: `full` and `pop` are what the loops around the two waits test, and `bounded` is whether
-- `take` notifies the condition of `put`.
pub record Operations (A Q : Type 0) : Type 0 where
  pub bounded : Bool
  pub full : Q → Bool
  pub push : A → Q → Q
  pub pop : Q → Option (A × Q)

-- Threads inside `put` and `take` are at the mutex (`at`) or sleep on their condition (`asleep`); a
-- thread inside `put` is named by what it puts. `owed` counts the notifications that are still to come
-- after a change of the queue. `pushed` and `taken` are all elements so far, in order.
pub record System (A Q : Type 0) : Type 0 where
  pub queue : Q
  pub puts_at : List A
  pub puts_asleep : List A
  pub takes_at : ℕ
  pub takes_asleep : ℕ
  pub owed_not_empty : ℕ
  pub owed_not_full : ℕ
  pub pushed : List A
  pub taken : List A

abbrev pub init : {A Q : Type 0} → Q → System A Q
init q = record {
  queue = q;
  puts_at = [];
  puts_asleep = [];
  takes_at = 0;
  takes_asleep = 0;
  owed_not_empty = 0;
  owed_not_full = 0;
  pushed = [];
  taken = [];
}

module _ {A Q : Type 0} (ops : Operations A Q) where
  open ops use {bounded, full, push, pop}

  pub data Step (s : System A Q) : System A Q → Type 0 where
    call_put : (x : A) → Step s (record s { puts_at = x ∷ s.puts_at })
    call_take : Step s (record s { takes_at = suc s.takes_at })
    put_sleeps :
        (x : A) (xs ys : List A)
        → s.puts_at ≡ xs ++ (x ∷ ys)
        → full s.queue ≡ true
        → Step s (record s { puts_at = xs ++ ys; puts_asleep = x ∷ s.puts_asleep })
    put_pushes :
        (x : A) (xs ys : List A)
        → s.puts_at ≡ xs ++ (x ∷ ys)
        → full s.queue ≡ false
        → Step s (record s {
          queue = push x s.queue;
          puts_at = xs ++ ys;
          owed_not_empty = suc s.owed_not_empty;
          pushed = s.pushed ++ (x ∷ []);
        })
    take_sleeps :
        (n : ℕ)
        → s.takes_at ≡ suc n
        → pop s.queue ≡ none
        → Step s (record s { takes_at = n; takes_asleep = suc s.takes_asleep })
    take_pops :
        (n : ℕ) (x : A) (q : Q)
        → s.takes_at ≡ suc n
        → pop s.queue ≡ some (x, q)
        → Step s (record s {
          queue = q;
          takes_at = n;
          owed_not_full = if bounded then suc s.owed_not_full else s.owed_not_full;
          taken = s.taken ++ (x ∷ []);
        })
    -- `notify_one` wakes one thread, if one sleeps.
    notify_take :
        (k n : ℕ)
        → s.owed_not_empty ≡ suc k
        → s.takes_asleep ≡ suc n
        → Step s (record s { owed_not_empty = k; takes_asleep = n; takes_at = suc s.takes_at })
    notify_no_take :
        (k : ℕ)
        → s.owed_not_empty ≡ suc k
        → s.takes_asleep ≡ 0
        → Step s (record s { owed_not_empty = k })
    notify_put :
        (k : ℕ) (x : A) (xs ys : List A)
        → s.owed_not_full ≡ suc k
        → s.puts_asleep ≡ xs ++ (x ∷ ys)
        → Step s (record s { owed_not_full = k; puts_asleep = xs ++ ys; puts_at = x ∷ s.puts_at })
    notify_no_put :
        (k : ℕ)
        → s.owed_not_full ≡ suc k
        → s.puts_asleep ≡ []
        → Step s (record s { owed_not_full = k })

  -- A wait may also end by itself.
  pub data Wakes (s : System A Q) : System A Q → Type 0 where
    take_wakes :
        (n : ℕ)
        → s.takes_asleep ≡ suc n
        → Wakes s (record s { takes_asleep = n; takes_at = suc s.takes_at })
    put_wakes :
        (x : A) (xs ys : List A)
        → s.puts_asleep ≡ xs ++ (x ∷ ys)
        → Wakes s (record s { puts_asleep = xs ++ ys; puts_at = x ∷ s.puts_at })

  pub data Reachable (q : Q) : System A Q → Type 0 where
    start : Reachable q (init q)
    later : {s t : System A Q} → Reachable q s → Step s t → Reachable q t
    awake : {s t : System A Q} → Reachable q s → Wakes s t → Reachable q t

  -- A thread comes in.
  abbrev pub is_call : {s t : System A Q} → Step s t → Bool
  is_call (call_put x) = true
  is_call call_take = true
  is_call _ = false

  -- Some steps of the threads that are inside, one after the other; no thread comes in, and no wait ends
  -- by itself.
  pub data Steps (s : System A Q) : System A Q → Type 0 where
    here : Steps s s
    onward : {t u : System A Q} → Steps s t → (st : Step t u) → is_call st ≡ false → Steps s u
