-- ===== src/Sync/Examples/Queues.antt =====
-- Queues of at most two elements, and without a bound: a `take` sleeps while a `put` has come.
use ham.Sync.Monitor.{
  System, Reachable, start, later, call_put, call_take, put_pushes, take_sleeps, notify_take,
}
use ham.Sync.BlockingQueue.{unbounded_queue, emplace_back, take_head}
use ham.Sync.BoundedBlockingQueue.{CircularBuffer, new_queue, bounded_queue, take_front}
use ham.Sync.BoundedBlockingQueue.Fifo.{
  CircularBufferLaws, Fifo, view, taker, NeedNotWait, GoesOn, Reachable-Fifo, NeedNotWait-GoesOn,
}
use ham.Base.{
  length-append, ℕ, zero, suc, ◌+◌, ◌≤◌, ◌<◌, ◌≡◌, refl, List, [], ◌∷◌, ◌++◌, arith, ◌==◌, length,
  drop,
}

-- The elements and how many more fit; a full buffer overwrites its front.
abbrev Buffer : Type 0
Buffer = List ℕ × ℕ

abbrev push_back : ℕ → Buffer → Buffer
push_back x (xs, suc n) = (xs ++ (x ∷ []), n)
push_back x (xs, zero) = (drop 1 (xs ++ (x ∷ [])), zero)

abbrev front : Buffer → ℕ
front (x ∷ xs, n) = x
front ([], n) = 0

abbrev pop_front : Buffer → Buffer
pop_front (x ∷ xs, n) = (xs, suc n)
pop_front ([], n) = ([], n)

abbrev list_buffer : CircularBuffer ℕ Buffer
list_buffer = record {
  with_capacity = λ n. ([], n);
  capacity = λ c. length c.0 + c.1;
  size = λ c. length c.0;
  full = λ c. length c.0 == (length c.0 + c.1);
  empty = λ c. length c.0 == 0;
  front = front;
  push_back = push_back;
  pop_front = pop_front;
}

pushed-contents :
    (x : ℕ) (c : Buffer) → length c.0 < length c.0 + c.1 → (push_back x c).0 ≡ c.0 ++ (x ∷ [])
pushed-contents x (xs, zero) h = absurd (omega arith)
pushed-contents x (xs, suc n) h = refl

length-push_back :
    (x : ℕ) (c : Buffer) → length (push_back x c).0 + (push_back x c).1 ≡ length c.0 + c.1
length-push_back x (xs, suc n) = omega (arith, length-append xs (x ∷ []))
length-push_back x ([], zero) = refl
length-push_back x (y ∷ xs, zero) = omega (arith, length-append xs (x ∷ []))

front-contents : (c : Buffer) → 0 < length c.0 → c.0 ≡ front c ∷ (pop_front c).0
front-contents (x ∷ xs, n) h = refl
front-contents ([], n) h = absurd (omega arith)

length-pop_front : (c : Buffer) → length (pop_front c).0 + (pop_front c).1 ≡ length c.0 + c.1
length-pop_front (x ∷ xs, n) = omega arith
length-pop_front ([], n) = refl

list_laws : CircularBufferLaws list_buffer
list_laws = record {
  contents = λ c. c.0;
  contents-with_capacity = λ n. refl;
  capacity-with_capacity = λ n. omega arith;
  size_lem = λ c. refl;
  size-capacity = λ c. omega arith;
  full_lem = λ c. refl;
  empty_lem = λ c. refl;
  contents-push_back = pushed-contents;
  capacity-push_back = length-push_back;
  contents-front = front-contents;
  capacity-pop_front = length-pop_front;
}

abbrev none_taken : List ℕ
none_taken = []

abbrev seven : List ℕ
seven = 7 ∷ []

-- A `take` has gone to sleep, then a `put` has pushed 7 and is to notify.
abbrev waiting : {Q : Type 0} → Q → System ℕ Q
waiting q = record {
  queue = q;
  puts_at = [];
  puts_asleep = [];
  takes_at = 0;
  takes_asleep = 1;
  owed_not_empty = 1;
  owed_not_full = 0;
  pushed = 7 ∷ [];
  taken = [];
}

bounded-Reachable :
    Reachable (bounded_queue list_buffer) (new_queue list_buffer 2) (waiting (7 ∷ [], 1))
unfolding new_queue take_front
bounded-Reachable =
    later (later (later (later start call_take) (take_sleeps 0 refl refl)) (call_put 7))
      (put_pushes 7 [] [] refl refl)

unbounded-Reachable : Reachable unbounded_queue [] (waiting (7 ∷ []))
unfolding take_head emplace_back
unbounded-Reachable =
    later (later (later (later start call_take) (take_sleeps 0 refl refl)) (call_put 7))
      (put_pushes 7 [] [] refl refl)

abbrev notified : System ℕ Buffer
notified = record (waiting (7 ∷ [], 1)) { owed_not_empty = 0; takes_asleep = 0; takes_at = 1 }

Reachable-Fifo_example :
    Fifo 2 (view list_buffer list_laws (waiting (7 ∷ [], 1))) (view list_buffer list_laws notified)
    × (1 ≤ 2)
    × (none_taken ++ seven ≡ seven)
unfolding list_laws
Reachable-Fifo_example =
    Reachable-Fifo list_buffer list_laws 2 bounded-Reachable (notify_take 0 0 refl refl)

NeedNotWait-GoesOn_example : GoesOn list_buffer list_laws taker (waiting (7 ∷ [], 1))
unfolding NeedNotWait list_laws
NeedNotWait-GoesOn_example =
    NeedNotWait-GoesOn list_buffer list_laws taker 2 bounded-Reachable (omega arith, omega arith)
