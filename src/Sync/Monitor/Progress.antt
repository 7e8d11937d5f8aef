-- ===== src/Sync/Monitor/Progress.antt =====
-- How the threads of a queue get on when no wait ends by itself.
use Prim.Native.Nat.{suc}
use ham.Sync.Monitor.{
  Operations, System, Steps, here, onward, put_pushes, take_pops, notify_take, notify_put,
}
use ham.Sync.Monitor.Inv.{Laws, Inv}
use ham.Base.{
  ℕ-cases, Bool-cases, Option-cases, ℕ, zero, suc, ◌+◌, ◌≤◌, ◌<◌, ◌≡◌, refl, ap, inl, inr, List, [],
  ◌∷◌, ◌++◌, arith, if◌then◌else◌, length,
}

module _ {A Q : Type 0} (ops : Operations A Q) where
  -- Steps from `s` after which an element has left the queue, and the same for one that has entered.
  pub record Takes (s : System A Q) : Type 0 where
    pub after : System A Q
    pub path : Steps ops s after
    pub element : A
    pub took : after.taken ≡ s.taken ++ (element ∷ [])

  pub record Puts (s : System A Q) : Type 0 where
    pub after : System A Q
    pub path : Steps ops s after
    pub element : A
    pub put : after.pushed ≡ s.pushed ++ (element ∷ [])

module _ {A Q : Type 0} (ops : Operations A Q) (laws : Laws ops) where
  open laws use {items, room, room-full, pop-none, items-pop}

  take_now :
      (s t : System A Q) (n : ℕ)
      → Steps ops s t
      → t.taken ≡ s.taken
      → t.takes_at ≡ suc n
      → 0 < length (items t.queue)
      → Takes ops s
  take_now s t n p same at work = elim (Option-cases (ops.pop t.queue)) [
    | inl no_item ↦ absurd (ground (arith, pop-none t.queue no_item))
    | inr ((x, q), an_item) ↦ record {
      after = record t {
        queue = q;
        takes_at = n;
        owed_not_full = if ops.bounded then suc t.owed_not_full else t.owed_not_full;
        taken = t.taken ++ (x ∷ []);
      };
      path = onward p (take_pops n x q at an_item) refl;
      element = x;
      took = ap (λ zs. zs ++ (x ∷ [])) same;
    }
  ]

  wake_and_take :
      (s : System A Q) (n k m : ℕ)
      → s.takes_at ≡ n
      → s.owed_not_empty ≡ k
      → s.takes_asleep ≡ suc m
      → 0 < length (items s.queue)
      → length (items s.queue) ≤ n + k
      → Takes ops s
  wake_and_take s (suc n) k m at owed sleeps work enough = take_now s s n here refl at work
  wake_and_take s zero (suc k) m at owed sleeps work enough =
      take_now s (record s { owed_not_empty = k; takes_asleep = m; takes_at = suc s.takes_at })
        s.takes_at (onward here (notify_take k m owed sleeps) refl) refl refl work
  wake_and_take s zero zero m at owed sleeps work enough = absurd (omega arith)

  -- A `take` sleeps and the queue has an element.
  pub asleep-Takes :
      (s : System A Q)
      → Inv ops laws s
      → 0 < s.takes_asleep
      → 0 < length (items s.queue)
      → Takes ops s
  asleep-Takes s h sleeps work = elim (ℕ-cases s.takes_asleep) [
    | inl none_sleeps ↦ absurd (omega arith)
    | inr (m, e) ↦
        wake_and_take s s.takes_at s.owed_not_empty m refl refl e work (h.takes_wake sleeps)
  ]

  put_now :
      (s t : System A Q) (x : A) (xs : List A)
      → Steps ops s t
      → t.pushed ≡ s.pushed
      → t.puts_at ≡ x ∷ xs
      → 0 < room t.queue
      → Puts ops s
  put_now s t x xs p same at free = elim (Bool-cases (ops.full t.queue)) [
    | inl is_full ↦ absurd (omega (arith, room-full t.queue is_full))
    | inr not_full ↦ record {
      after = record t {
        queue = ops.push x t.queue;
        puts_at = xs;
        owed_not_empty = suc t.owed_not_empty;
        pushed = t.pushed ++ (x ∷ []);
      };
      path = onward p (put_pushes x [] xs at not_full) refl;
      element = x;
      put = ap (λ zs. zs ++ (x ∷ [])) same;
    }
  ]

  wake_and_put :
      (s : System A Q) (xs : List A) (k : ℕ) (y : A) (ys : List A)
      → s.puts_at ≡ xs
      → s.owed_not_full ≡ k
      → s.puts_asleep ≡ y ∷ ys
      → 0 < room s.queue
      → room s.queue ≤ length xs + k
      → Puts ops s
  wake_and_put s (x ∷ xs) k y ys at owed sleeps free enough = put_now s s x xs here refl at free
  wake_and_put s [] (suc k) y ys at owed sleeps free enough =
      put_now s (record s { owed_not_full = k; puts_asleep = ys; puts_at = y ∷ s.puts_at }) y
        s.puts_at (onward here (notify_put k y [] ys owed sleeps) refl) refl refl free
  wake_and_put s [] zero y ys at owed sleeps free enough = absurd (omega arith)

  wake_or_put :
      (s : System A Q) (ys : List A)
      → s.puts_asleep ≡ ys
      → 0 < length s.puts_asleep
      → Inv ops laws s
      → 0 < room s.queue
      → Puts ops s
  wake_or_put s [] e sleeps h free = absurd (ground arith)
  wake_or_put s (y ∷ ys) e sleeps h free =
      wake_and_put s s.puts_at s.owed_not_full y ys refl refl e free (h.puts_wake sleeps)

  -- A `put` sleeps and the queue has room.
  pub asleep-Puts :
      (s : System A Q) → Inv ops laws s → 0 < length s.puts_asleep → 0 < room s.queue → Puts ops s
  asleep-Puts s h sleeps free = wake_or_put s s.puts_asleep refl sleeps h free
