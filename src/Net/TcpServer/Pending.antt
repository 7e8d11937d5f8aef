-- ===== src/Net/TcpServer/Pending.antt =====
-- The functors that are pending, counted.
use ham.Net.TcpServer.Loops.{Task, establish_task, remove_task, destory_task}
use ham.Net.TcpServer.Names.{one}
use ham.Base.Text.{same_text}
use ham.Base.{ℕ, ◌+◌, ◌≡◌, refl, not, List, [], ◌∷◌, ◌++◌, arith, ◌==◌}

-- What functors add up to, by a weight of each.
abbrev pub sum : (ℕ × Task → ℕ) → List (ℕ × Task) → ℕ
sum f [] = 0
sum f (p ∷ ps) = f p + sum f ps

sum-middle :
    (f : ℕ × Task → ℕ) (xs ys : List (ℕ × Task)) (p : ℕ × Task)
    → sum f (xs ++ (p ∷ ys)) ≡ f p + sum f (xs ++ ys)
sum-middle f [] ys p = refl
sum-middle f (x ∷ xs) ys p = omega (arith, sum-middle f xs ys p)

-- The functors of each kind for the connection of a name, and those in a wrong loop.
abbrev pub establishing : List ℕ → ℕ × Task → ℕ
establishing n (_, establish_task c) = one (same_text c.name n)
establishing n (_, _) = 0

abbrev pub removing : List ℕ → ℕ × Task → ℕ
removing n (_, remove_task c) = one (same_text c.name n)
removing n (_, _) = 0

abbrev pub destroying : List ℕ → ℕ × Task → ℕ
destroying n (_, destory_task c) = one (same_text c.name n)
destroying n (_, _) = 0

abbrev pub misplaced : ℕ → ℕ × Task → ℕ
misplaced base (loop, establish_task c) = one (not (loop == c.io_loop))
misplaced base (loop, remove_task c) = one (not (loop == base))
misplaced base (loop, destory_task c) = one (not (loop == c.io_loop))

-- What is pending with and without one functor.
pub record Taken (n : List ℕ) (base : ℕ) (before after : List (ℕ × Task)) (p : ℕ × Task)
    : Type 0 where
  pub less_establishing :
      sum (establishing n) before ≡ establishing n p + sum (establishing n) after
  pub less_removing : sum (removing n) before ≡ removing n p + sum (removing n) after
  pub less_destroying : sum (destroying n) before ≡ destroying n p + sum (destroying n) after
  pub less_misplaced : sum (misplaced base) before ≡ misplaced base p + sum (misplaced base) after

pub taken :
    (n : List ℕ) (base : ℕ) (xs ys before : List (ℕ × Task)) (p : ℕ × Task)
    → before ≡ xs ++ (p ∷ ys)
    → Taken n base before (xs ++ ys) p
taken n base xs ys before p e = record {
  less_establishing = rw e (sum-middle (establishing n) xs ys p);
  less_removing = rw e (sum-middle (removing n) xs ys p);
  less_destroying = rw e (sum-middle (destroying n) xs ys p);
  less_misplaced = rw e (sum-middle (misplaced base) xs ys p);
}
