-- ===== src/Net/LoopPool.antt =====
-- ham/net/EventLoopThreadPool.cc: the loops of a server's threads, and the choice of one of them for
-- each new connection. A loop is named by its address; the loop of each thread is an argument.
pub mod Turns
use Prim.Native.Nat.{zero}
use ham.Base.{
  ◌++◌, ◌>>◌, assert, undefined, if◌then◌else◌, leb, length, get_elem?, not, ok, err, Result, ◌>>=◌,
  ℕ, suc, Bool, true, false, List, [], ◌∷◌, Option, none, some,
}

pub record EventLoopThreadPool : Type 0 where
  pub base_loop : ℕ
  pub started : Bool
  pub num_of_threads : ℕ
  pub loops : List ℕ
  pub next_loop_idx : ℕ

abbrev pub new_pool : ℕ → EventLoopThreadPool
new_pool base = record {
  base_loop = base;
  started = false;
  num_of_threads = 0;
  loops = [];
  next_loop_idx = 0;
}

-- A number below zero starts no thread, as zero does.
unfoldable pub set_num_of_threads : ℕ → EventLoopThreadPool → EventLoopThreadPool
set_num_of_threads n p = record p { num_of_threads = n }

-- The loops of `n` threads from the one with number `i` on; `start_loop` is what `startLoop` returns.
unfoldable pub start_loops : (ℕ → ℕ) → ℕ → ℕ → List ℕ
start_loops start_loop i zero = []
start_loops start_loop i (suc n) = start_loop i ∷ start_loops start_loop (suc i) n

unfoldable pub start : (ℕ → ℕ) → EventLoopThreadPool → Result EventLoopThreadPool
unfolding start_loops
start start_loop p = do
  assert (not p.started)
  ok (record p { started = true; loops = p.loops ++ start_loops start_loop 0 p.num_of_threads })

unfoldable pub loop_at : Option ℕ → Result ℕ
loop_at none = err undefined
loop_at (some l) = ok l

-- The index wraps after it was used.
unfoldable pub next_of : List ℕ → EventLoopThreadPool → Result (ℕ × EventLoopThreadPool)
unfolding loop_at
next_of [] p = ok (p.base_loop, p)
next_of (x ∷ xs) p = do
  chosen ← loop_at (get_elem? (x ∷ xs) p.next_loop_idx)
  let idx = suc p.next_loop_idx
  ok (chosen, record p { next_loop_idx = if leb (length (x ∷ xs)) idx then 0 else idx })

unfoldable pub get_next_loop : EventLoopThreadPool → Result (ℕ × EventLoopThreadPool)
get_next_loop p = next_of p.loops p
