-- ===== src/Sync/BlockingQueue.antt =====
-- ham/base/BlockingQueue.h: a queue between threads, on top of `std::deque`, which is a list here. A
-- `put` never waits, and `take` has no thread to notify.
use ham.Sync.Monitor.{Operations, System, Reachable}
use ham.Sync.Monitor.Inv.{Laws, Reachable-Inv}
use ham.Sync.Monitor.Progress.{Takes, asleep-Takes}
use ham.Base.{◌<◌, ◌≡◌, refl, false, Option, none, some, List, [], ◌∷◌, ◌++◌, arith, length}

module _ {A : Type 0} where
  -- `queue_.emplace_back`.
  unfoldable pub emplace_back : A → List A → List A
  emplace_back x queue = queue ++ (x ∷ [])

  -- `take` once the loop around its wait has ended; `none` while it goes on.
  unfoldable pub take_head : List A → Option (A × List A)
  take_head [] = none
  take_head (x ∷ queue) = some (x, queue)

  abbrev pub unbounded_queue : Operations A (List A)
  unbounded_queue = record {
    bounded = false;
    full = λ _. false;
    push = emplace_back;
    pop = take_head;
  }

  take_head-none : (queue : List A) → take_head queue ≡ none → queue ≡ []
  unfolding take_head
  take_head-none [] e = refl
  take_head-none (x ∷ queue) e = ground arith

  take_head-some :
      (queue : List A) (x : A) (rest : List A) → take_head queue ≡ some (x, rest) → queue ≡ x ∷ rest
  unfolding take_head
  take_head-some [] x rest e = ground arith
  take_head-some (y ∷ queue) x rest e = ground arith

  queue_laws : Laws unbounded_queue
  unfolding emplace_back
  queue_laws = record {
    items = λ queue. queue;
    room = λ _. 0;
    room-full = λ _ _. refl;
    items-push = λ x queue _. refl;
    room-push = λ _ _ _. omega arith;
    pop-none = take_head-none;
    items-pop = take_head-some;
    room-pop = λ _ _ _ _. omega arith;
  }

  -- From an empty queue, what was put is at any time what was taken, in order, followed by the queue.
  -- While a `take` sleeps and the queue has an element, some `take` can return without a wait that ends
  -- by itself.
  pub Reachable-Takes :
      {s : System A (List A)}
      → Reachable unbounded_queue [] s
      → 0 < s.takes_asleep
      → 0 < length s.queue
      → (s.taken ++ s.queue ≡ s.pushed) × Takes unbounded_queue s
  unfolding queue_laws
  Reachable-Takes {s} r sleeps work =
      let h = Reachable-Inv unbounded_queue queue_laws refl r in
      (h.in_order, asleep-Takes unbounded_queue queue_laws s h sleeps work)
