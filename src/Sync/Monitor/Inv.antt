-- ===== src/Sync/Monitor/Inv.antt =====
-- The laws of a queue's operations, and the invariant of the threads that use it.
use ham.Sync.Monitor.{
  Wakes, awake, Operations, System, Step, Reachable, start, later, call_put, call_take, put_sleeps,
  put_pushes, take_sleeps, take_pops, notify_take, notify_no_take, notify_put, notify_no_put,
  take_wakes, put_wakes,
}
use mathlib.Core.List.{append_assoc}
use ham.Base.{
  length-middle, length-append, ℕ, suc, ◌+◌, ◌-◌, ◌≤◌, ◌<◌, ◌≡◌, true, false, none, some, List, [],
  ◌∷◌, ◌++◌, arith, if◌then◌else◌, length,
}

-- What the operations do: `items` are the elements, oldest first, and `room` is a bound on how many more
-- fit, which only a bounded queue has.
pub record Laws {A Q : Type 0} (ops : Operations A Q) : Type 0 where
  pub items : Q → List A
  pub room : Q → ℕ
  pub room-full : (q : Q) → ops.full q ≡ true → room q ≡ 0
  pub items-push : (x : A) (q : Q) → ops.full q ≡ false → items (ops.push x q) ≡ items q ++ (x ∷ [])
  pub room-push : (x : A) (q : Q) → ops.full q ≡ false → room (ops.push x q) ≤ room q - 1
  pub pop-none : (q : Q) → ops.pop q ≡ none → items q ≡ []
  pub items-pop : (q : Q) (x : A) (q' : Q) → ops.pop q ≡ some (x, q') → items q ≡ x ∷ items q'
  pub room-pop :
      (q : Q) (x : A) (q' : Q)
      → ops.pop q ≡ some (x, q')
      → room q' ≤ (if ops.bounded then suc (room q) else room q)

module _ {A Q : Type 0} (ops : Operations A Q) (laws : Laws ops) where
  open laws use {items, room, room-full, items-push, room-push, pop-none, items-pop, room-pop}

  -- Elements come out in the order in which they went in. A `take` sleeps only while each element of the
  -- queue has a `take` at the mutex or a notification that is to come, and a `put` only while each free
  -- place has.
  pub record Inv (s : System A Q) : Type 0 where
    pub in_order : s.taken ++ items s.queue ≡ s.pushed
    pub takes_wake : 0 < s.takes_asleep → length (items s.queue) ≤ s.takes_at + s.owed_not_empty
    pub puts_wake : 0 < length s.puts_asleep → room s.queue ≤ length s.puts_at + s.owed_not_full

  Step-Inv : {s t : System A Q} → Step ops s t → Inv s → Inv t
  Step-Inv {s} (call_put x) h = ground arith
  Step-Inv {s} call_take h = ground arith
  Step-Inv {s} (put_sleeps x xs ys e is_full) h = ground (arith, room-full s.queue is_full)
  Step-Inv {s} (put_pushes x xs ys e not_full) h = ground (
    arith,
    items-push x s.queue not_full,
    room-push x s.queue not_full,
    length-middle xs ys x,
    length-append (items s.queue) (x ∷ []),
    append_assoc s.taken (items s.queue) (x ∷ []),
  )
  Step-Inv {s} (take_sleeps n e no_item) h = ground (arith, pop-none s.queue no_item)
  Step-Inv {s} (take_pops n x q e an_item) h = ground (
    arith,
    items-pop s.queue x q an_item,
    room-pop s.queue x q an_item,
    append_assoc s.taken (x ∷ []) (items q),
  )
  Step-Inv {s} (notify_take k n e z) h = ground arith
  Step-Inv {s} (notify_no_take k e z) h = ground arith
  Step-Inv {s} (notify_put k x xs ys e z) h = ground (arith, length-middle xs ys x)
  Step-Inv {s} (notify_no_put k e z) h = ground arith

  Wakes-Inv : {s t : System A Q} → Wakes ops s t → Inv s → Inv t
  Wakes-Inv {s} (take_wakes n e) h = ground arith
  Wakes-Inv {s} (put_wakes x xs ys e) h = ground (arith, length-middle xs ys x)

  pub Reachable-Inv : {q : Q} {s : System A Q} → items q ≡ [] → Reachable ops q s → Inv s
  Reachable-Inv {q} e start = record {
    in_order = e;
    takes_wake = λ h. absurd (omega arith);
    puts_wake = λ h. absurd (omega arith);
  }
  Reachable-Inv e (later r st) = Step-Inv st (Reachable-Inv e r)
  Reachable-Inv e (awake r st) = Wakes-Inv st (Reachable-Inv e r)
