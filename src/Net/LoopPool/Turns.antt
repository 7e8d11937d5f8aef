-- ===== src/Net/LoopPool/Turns.antt =====
-- The turns of the loops.
use native.Mathlib.Decide.{dec_le}
use ham.Net.LoopPool.{next_of, EventLoopThreadPool, get_next_loop, loop_at}
use ham.Base.{
  lt→leb_false, le→leb, get_elem?, ℕ, zero, suc, ◌<◌, ◌≡◌, refl, ◌⊎◌, inl, inr, some, List, [], ◌∷◌,
  arith, leb, if◌then◌else◌, length, Returns,
}

elem_at : (xs : List ℕ) (i : ℕ) → i < length xs → (l : ℕ) × (get_elem? xs i ≡ some l)
elem_at [] i h = absurd (omega arith)
elem_at (x ∷ xs) zero h = (x, refl)
elem_at (x ∷ xs) (suc i) h = elem_at xs i (omega arith)

-- The loop whose turn it is, and whose turn is next.
pub record Turn (loops : List ℕ) (i : ℕ) (r : ℕ × EventLoopThreadPool) : Type 0 where
  pub chosen : get_elem? loops i ≡ some r.0
  pub same_loops : r.1.loops ≡ loops
  pub next_turn :
      ((suc i < length loops) × (r.1.next_loop_idx ≡ suc i))
      ⊎ ((suc i ≡ length loops) × (r.1.next_loop_idx ≡ 0))

wrapped :
    (i n : ℕ)
    → i < n
    → let j = if leb n (suc i) then 0 else suc i in
      ((suc i < n) × (j ≡ suc i)) ⊎ ((suc i ≡ n) × (j ≡ 0))
wrapped i n h = elim (dec_le n (suc i)) [
  | Dec.yes e ↦ rw (le→leb n (suc i) e) (inr (omega arith, refl))
  | Dec.no e ↦ rw (lt→leb_false n (suc i) (omega arith)) (inl (omega arith, refl))
]

next_of-Turn :
    (loops : List ℕ) (p : EventLoopThreadPool)
    → p.loops ≡ loops
    → p.next_loop_idx < length loops
    → Returns (next_of loops p) (Turn loops p.next_loop_idx)
unfolding next_of loop_at
next_of-Turn [] p e h = absurd (omega arith)
next_of-Turn (x ∷ xs) p e h =
    let (l, at_turn) = elem_at (x ∷ xs) p.next_loop_idx h in
    rw at_turn (record {
      chosen = at_turn;
      same_loops = e;
      next_turn = wrapped p.next_loop_idx (length (x ∷ xs)) h;
    })

-- Each call takes the loop whose turn it is; then it is the turn of the one behind it, or of the first
-- one behind the last. The index is one of a loop.
pub get_next_loop-Turn :
    (p : EventLoopThreadPool)
    → p.next_loop_idx < length p.loops
    → Returns (get_next_loop p) (Turn p.loops p.next_loop_idx)
unfolding get_next_loop
get_next_loop-Turn p h = next_of-Turn p.loops p refl h
