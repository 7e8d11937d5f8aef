-- ===== src/Sync/BoundedBlockingQueue.antt =====
-- ham/base/BoundedBlockingQueue.h: a queue of bounded length between threads, on top of
-- `boost::circular_buffer`, which is a parameter.
pub mod Fifo
use ham.Sync.Monitor.{Operations}
use ham.Base.{
  ℕ, zero, suc, ◌+◌, ◌-◌, ◌*◌, ◌/◌, ◌%◌, ◌^◌, ◌≤◌, ◌<◌, min, String, ◌≡◌, refl, sym, ap, ◌∙◌, ◌≢◌,
  ◌⊎◌, inl, inr, Bool, true, false, not, ◌&&◌, ◌||◌, Option, none, some, List, [], ◌∷◌, ◌++◌, arith,
  ltb, leb, ◌==◌, if◌then◌else◌, add_size, sub_size, length, take, drop, bytes, Result, ok, err,
  ◌>>=◌, ◌>>◌, assert, Returns,
}

-- What the queue calls of `boost::circular_buffer<A>`.
pub record CircularBuffer (A C : Type 0) : Type 0 where
  pub with_capacity : ℕ → C
  pub capacity : C → ℕ
  pub size : C → ℕ
  pub full : C → Bool
  pub empty : C → Bool
  pub front : C → A
  pub push_back : A → C → C
  pub pop_front : C → C

module _ {A C : Type 0} (buffer : CircularBuffer A C) where
  open buffer use {with_capacity, full, empty, front, push_back, pop_front}

  -- The constructor's `queue_(maxsize)`.
  unfoldable pub new_queue : ℕ → C
  new_queue maxsize = with_capacity maxsize

  -- `take` once the loop around its wait has ended; `none` while it goes on.
  unfoldable pub take_front : C → Option (A × C)
  take_front c = if empty c then none else some (front c, pop_front c)

  abbrev pub bounded_queue : Operations A C
  bounded_queue = record { bounded = true; full = full; push = push_back; pop = take_front }
