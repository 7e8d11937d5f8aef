-- ===== src/Sync/BoundedBlockingQueue/Fifo.antt =====
-- ham/base/BoundedBlockingQueue.h: the queue against an abstract one, and the threads that sleep in it.
use ham.Sync.Monitor.{
  System, Step, Reachable, start, later, awake, call_put, call_take, put_sleeps, put_pushes,
  take_sleeps, take_pops, notify_take, notify_no_take, notify_put, notify_no_put, take_wakes,
  put_wakes,
}
use ham.Sync.Monitor.Inv.{Laws, Reachable-Inv}
use ham.Sync.Monitor.Progress.{Takes, Puts, asleep-Takes, asleep-Puts}
use ham.Sync.BoundedBlockingQueue.{CircularBuffer, new_queue, take_front, bounded_queue}
use ham.Base.{
  subst, length-append, Bool-cases, ℕ, ◌-◌, ◌≤◌, ◌<◌, ◌≡◌, refl, ◌∙◌, inl, inr, true, false, none,
  some, List, [], ◌∷◌, ◌++◌, arith, ◌==◌, length,
}

-- What `boost::circular_buffer` documents; `contents` are the elements from the front to the back.
pub record CircularBufferLaws {A C : Type 0} (buffer : CircularBuffer A C) : Type 0 where
  pub contents : C → List A
  pub contents-with_capacity : (n : ℕ) → contents (buffer.with_capacity n) ≡ []
  pub capacity-with_capacity : (n : ℕ) → buffer.capacity (buffer.with_capacity n) ≡ n
  pub size_lem : (c : C) → buffer.size c ≡ length (contents c)
  pub size-capacity : (c : C) → buffer.size c ≤ buffer.capacity c
  pub full_lem : (c : C) → buffer.full c ≡ (buffer.size c == buffer.capacity c)
  pub empty_lem : (c : C) → buffer.empty c ≡ (buffer.size c == 0)
  pub contents-push_back :
      (x : A) (c : C)
      → buffer.size c < buffer.capacity c
      → contents (buffer.push_back x c) ≡ contents c ++ (x ∷ [])
  pub capacity-push_back :
      (x : A) (c : C) → buffer.capacity (buffer.push_back x c) ≡ buffer.capacity c
  pub contents-front :
      (c : C) → 0 < buffer.size c → contents c ≡ buffer.front c ∷ contents (buffer.pop_front c)
  pub capacity-pop_front : (c : C) → buffer.capacity (buffer.pop_front c) ≡ buffer.capacity c

-- The abstract queue of at most `limit` elements, with all elements that have entered or left it.
pub record Queue (A : Type 0) : Type 0 where
  pub waiting : List A
  pub entered : List A
  pub left : List A

pub data Fifo {A : Type 0} (limit : ℕ) (q : Queue A) : Queue A → Type 0 where
  enqueue :
      (x : A)
      → length q.waiting < limit
      → Fifo limit q (record q { waiting = q.waiting ++ (x ∷ []); entered = q.entered ++ (x ∷ []) })
  dequeue :
      (x : A) (xs : List A)
      → q.waiting ≡ x ∷ xs
      → Fifo limit q (record q { waiting = xs; left = q.left ++ (x ∷ []) })
  stay : Fifo limit q q

module _ {A C : Type 0} (buffer : CircularBuffer A C) (laws : CircularBufferLaws buffer) where
  open buffer use {capacity, size, full, empty, front, push_back, pop_front}
  open laws use {
    contents, contents-with_capacity, capacity-with_capacity, size_lem, size-capacity, full_lem,
    empty_lem, contents-push_back, capacity-push_back, contents-front, capacity-pop_front,
  }

  abbrev room : C → ℕ
  room c = capacity c - length (contents c)

  not_full-room : (c : C) → full c ≡ false → size c < capacity c
  not_full-room c e = ground (arith, full_lem c, size-capacity c)

  room-full : (c : C) → full c ≡ true → room c ≡ 0
  room-full c e = ground (arith, full_lem c, size_lem c)

  take_front-none : (c : C) → take_front buffer c ≡ none → contents c ≡ []
  unfolding take_front
  take_front-none c e = elim (Bool-cases (empty c)) [
    | inl is_empty ↦ ground (arith, empty_lem c, size_lem c)
    | inr not_empty ↦ ground arith
  ]

  take_front-some :
      (c : C) (x : A) (d : C)
      → take_front buffer c ≡ some (x, d)
      → (contents c ≡ x ∷ contents d) × (capacity d ≡ capacity c)
  unfolding take_front
  take_front-some c x d e = elim (Bool-cases (empty c)) [
    | inl is_empty ↦ ground arith
    | inr not_empty ↦ ground (arith, empty_lem c, contents-front c, capacity-pop_front c)
  ]

  queue_laws : Laws (bounded_queue buffer)
  queue_laws = record {
    items = contents;
    room = room;
    room-full = room-full;
    items-push = λ x c e. contents-push_back x c (not_full-room c e);
    room-push = λ x c e. ground (
      arith,
      contents-push_back x c (not_full-room c e),
      capacity-push_back x c,
      length-append (contents c) (x ∷ []),
    );
    pop-none = take_front-none;
    items-pop = λ c x d e. (take_front-some c x d e).0;
    room-pop = λ c x d e. ground (arith, take_front-some c x d e);
  }

  pub view : System A C → Queue A
  view s = record { waiting = contents s.queue; entered = s.pushed; left = s.taken }

  Step-capacity :
      {s t : System A C} → Step (bounded_queue buffer) s t → capacity t.queue ≡ capacity s.queue
  Step-capacity (put_pushes x xs ys e not_full) = capacity-push_back x _
  Step-capacity (take_pops n x q e an_item) = (take_front-some _ x q an_item).1
  Step-capacity (call_put x) = refl
  Step-capacity call_take = refl
  Step-capacity (put_sleeps x xs ys e is_full) = refl
  Step-capacity (take_sleeps n e no_item) = refl
  Step-capacity (notify_take k n e z) = refl
  Step-capacity (notify_no_take k e z) = refl
  Step-capacity (notify_put k x xs ys e z) = refl
  Step-capacity (notify_no_put k e z) = refl

  -- The capacity of the buffer stays what the constructor asked for.
  Reachable-capacity :
      {maxsize : ℕ} {s : System A C}
      → Reachable (bounded_queue buffer) (new_queue buffer maxsize) s
      → capacity s.queue ≡ maxsize
  unfolding new_queue
  Reachable-capacity {maxsize} start = capacity-with_capacity maxsize
  Reachable-capacity (later r st) = Step-capacity st ∙ Reachable-capacity r
  Reachable-capacity (awake r (take_wakes n e)) = Reachable-capacity r
  Reachable-capacity (awake r (put_wakes x xs ys e)) = Reachable-capacity r

  Step-Fifo :
      {s t : System A C}
      → Step (bounded_queue buffer) s t
      → Fifo (capacity s.queue) (view s) (view t)
  unfolding view
  Step-Fifo {s} (put_pushes x xs ys e not_full) =
      rw (contents-push_back x s.queue (not_full-room s.queue not_full))
        (enqueue x (omega (arith, size_lem s.queue, not_full-room s.queue not_full)))
  Step-Fifo {s} (take_pops n x q e an_item) =
      dequeue x (contents q) (take_front-some s.queue x q an_item).0
  Step-Fifo (call_put x) = stay
  Step-Fifo call_take = stay
  Step-Fifo (put_sleeps x xs ys e is_full) = stay
  Step-Fifo (take_sleeps n e no_item) = stay
  Step-Fifo (notify_take k n e z) = stay
  Step-Fifo (notify_no_take k e z) = stay
  Step-Fifo (notify_put k x xs ys e z) = stay
  Step-Fifo (notify_no_put k e z) = stay

  -- Seen as a queue of lists, a queue of `maxsize` elements does what the abstract queue of that limit
  -- may do in each step of its threads: it is never longer, what is put is added at the back, what is
  -- taken is the front, and everything else leaves it alone. What was put is what was taken followed by
  -- what is in the queue.
  pub Reachable-Fifo :
      (maxsize : ℕ) {s t : System A C}
      → Reachable (bounded_queue buffer) (new_queue buffer maxsize) s
      → Step (bounded_queue buffer) s t
      → Fifo maxsize (view s) (view t)
        × (length (contents t.queue) ≤ maxsize)
        × (t.taken ++ contents t.queue ≡ t.pushed)
  unfolding new_queue queue_laws
  Reachable-Fifo maxsize {s} {t} r st = (
    subst (λ n. Fifo n (view s) (view t)) (Reachable-capacity r) (Step-Fifo st),
    omega (arith, size_lem t.queue, size-capacity t.queue, Reachable-capacity (later r st)),
    (Reachable-Inv (bounded_queue buffer) queue_laws (contents-with_capacity maxsize)
        (later r st)).in_order,
  )

  pub data Waiter : Type 0 where
    taker : Waiter
    putter : Waiter

  -- A thread sleeps that need not.
  unfoldable pub NeedNotWait : Waiter → ℕ → System A C → Type 0
  NeedNotWait taker maxsize s = (0 < s.takes_asleep) × (0 < length (contents s.queue))
  NeedNotWait putter maxsize s = (0 < length s.puts_asleep) × (length (contents s.queue) < maxsize)

  unfoldable pub GoesOn : Waiter → System A C → Type 0
  GoesOn taker s = Takes (bounded_queue buffer) s
  GoesOn putter s = Puts (bounded_queue buffer) s

  -- While a `take` sleeps and the queue has an element, a `take` that is inside already can return, by
  -- steps of the threads that are inside and with no wait that ends by itself: nobody has to come in.
  -- While a `put` sleeps and the queue is not full, the same holds of a `put`.
  pub NeedNotWait-GoesOn :
      (w : Waiter) (maxsize : ℕ) {s : System A C}
      → Reachable (bounded_queue buffer) (new_queue buffer maxsize) s
      → NeedNotWait w maxsize s
      → GoesOn w s
  unfolding new_queue NeedNotWait queue_laws GoesOn
  NeedNotWait-GoesOn taker maxsize {s} r (sleeps, work) =
      asleep-Takes (bounded_queue buffer) queue_laws s
        (Reachable-Inv (bounded_queue buffer) queue_laws (contents-with_capacity maxsize) r) sleeps
        work
  NeedNotWait-GoesOn putter maxsize {s} r (sleeps, free) =
      asleep-Puts (bounded_queue buffer) queue_laws s
        (Reachable-Inv (bounded_queue buffer) queue_laws (contents-with_capacity maxsize) r) sleeps
        (omega (arith, Reachable-capacity r))
