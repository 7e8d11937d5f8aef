-- ===== src/Net/TcpServer/Destroying.antt =====
-- ham/net/TcpServer.cc: the destructor.
use ham.Net.TcpServer.{Connection, ConnectionMap}
use ham.Net.TcpServer.Loops.{System, destroy_all, run_task}
use ham.Base.{
  Bool-cases, assert_failed, ℕ, ◌≡◌, refl, inl, inr, Bool, true, ◌&&◌, List, [], ◌∷◌, ◌==◌,
  if◌then◌else◌, ok, err,
}

-- Every connection of the map lives in this loop.
abbrev pub all_in : ℕ → ConnectionMap → Bool
all_in loop [] = true
all_in loop ((n, c) ∷ m) = (loop == c.io_loop) && all_in loop m

-- The connections of the map, onto a list.
abbrev pub onto : ConnectionMap → List Connection → List Connection
onto [] cs = cs
onto ((n, c) ∷ m) cs = onto m (c ∷ cs)

-- The destructor, in the thread of a loop, calls `destoryConnection` of every connection of the map,
-- once, in the order of the map, and changes nothing else, when all connections live in that loop; when
-- one lives in another loop, it aborts.
pub destroy_all-outcome :
    (loop : ℕ) (m : ConnectionMap) (s : System)
    → destroy_all loop m s ≡ (
        if all_in loop m
        then ok (record s { destroyed = onto m s.destroyed })
        else err assert_failed)
unfolding destroy_all run_task
destroy_all-outcome loop [] s = refl
destroy_all-outcome loop ((n, c) ∷ m) s = elim (Bool-cases (loop == c.io_loop)) [
  | inl here ↦ rw here (destroy_all-outcome loop m (record s { destroyed = c ∷ s.destroyed }))
  | inr other ↦ rw other refl
]
