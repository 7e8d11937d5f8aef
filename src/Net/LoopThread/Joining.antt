-- ===== src/Net/LoopThread/Joining.antt =====
-- ham/net/EventLoopThread.cc: the destructor of a thread whose loop nobody else tells to quit.
use mathlib.Core.Bool.{false≢true}
use ham.Net.LoopThread.Handshake.{Reachable-Inv, Inv}
use ham.Net.LoopThread.{
  Starter, EventLoopThread, returned, looping, ended, Step, start_loop, initialise, publish,
  starter_sleeps, starter_returns, starter_sees, Steps, here, onward, loop_ends, starter_wakes,
  Reachable, at_start, later, awake, other_quits, joining, destroyed, unjoined, dangling,
  destructor_idle, destructor_sees, destructor_misses, destructor_quits, destructor_dangles,
  destructor_wakes, destructor_wakes_none, waking, destructor_joins,
}
use ham.Base.{◌⊎◌, inl, inr, ℕ, ◌≡◌, refl, ◌≢◌, Bool, true, false, Option, none, some, arith}

abbrev is_behind_quit : Starter → Bool
is_behind_quit (waking l) = true
is_behind_quit joining = true
is_behind_quit dangling = true
is_behind_quit destroyed = true
is_behind_quit _ = false

abbrev is_unjoined : Starter → Bool
is_unjoined unjoined = true
is_unjoined _ = false

abbrev is_joining : Starter → Bool
is_joining (waking l) = true
is_joining joining = true
is_joining dangling = true
is_joining _ = false

-- Only the destructor has called `quit`, and the loop ends for no other reason.
record Undisturbed (s : EventLoopThread) : Type 0 where
  by_destructor : s.quit ≡ true → is_behind_quit s.starter ≡ true
  by_quit : s.worker ≡ ended → s.quit ≡ true
  told : is_joining s.starter ≡ true → s.quit ≡ true
  not_lost : is_unjoined s.starter ≡ false

Step-Undisturbed :
    {l : ℕ} {b : Bool} {s t : EventLoopThread}
    → Step s t
    → Inv l b s
    → Undisturbed s
    → Undisturbed t
Step-Undisturbed {l} {b} {s} (start_loop e) i h = ground arith
Step-Undisturbed {l} {b} {s} (initialise e) i h = ground arith
Step-Undisturbed {l} {b} {s} (publish e) i h = ground arith
Step-Undisturbed {l} {b} {s} (starter_sleeps e k) i h = ground arith
Step-Undisturbed {l} {b} {s} (starter_sees m e k) i h = ground arith
Step-Undisturbed {l} {b} {s} (starter_returns e) i h = ground arith
Step-Undisturbed {l} {b} {s} (loop_ends e k) i h = ground arith
Step-Undisturbed {l} {b} {s} (destructor_idle e) i h = ground arith
Step-Undisturbed {l} {b} {s} (destructor_sees r m e k) i h = ground arith
Step-Undisturbed {l} {b} {s} (destructor_misses r e k) i h = ground arith
Step-Undisturbed {l} {b} {s} (destructor_quits m e k) i h = ground arith
Step-Undisturbed {l} {b} {s} (destructor_dangles m e k) i h = ground arith
Step-Undisturbed {l} {b} {s} (destructor_wakes m e k) i h = ground arith
Step-Undisturbed {l} {b} {s} (destructor_wakes_none m e k) i h = ground arith
Step-Undisturbed {l} {b} {s} (destructor_joins e k) i h = ground arith

Reachable-Undisturbed :
    {l : ℕ} {b : Bool} {s : EventLoopThread} → Reachable l b false s → Undisturbed s
Reachable-Undisturbed at_start = ground arith
Reachable-Undisturbed (later r st) = Step-Undisturbed st (Reachable-Inv r) (Reachable-Undisturbed r)
Reachable-Undisturbed (awake {s} {t} r (starter_wakes e)) =
    let h = Reachable-Undisturbed r in ground arith
Reachable-Undisturbed (other_quits r e k) = absurd (false≢true e)

up :
    (l : ℕ) (b : Bool) (s : EventLoopThread) (r : Option ℕ)
    → Inv l b s
    → Undisturbed s
    → s.starter ≡ returned r
    → s.worker ≡ looping
up l b s r i h e = ground (arith, i.past)

-- The destructor has called `quit` as far as its wake-up.
abbrev told : EventLoopThread → ℕ → EventLoopThread
told s l = record s { starter = waking l; exiting = true; quit = true }

told-path :
    (l : ℕ) (s : EventLoopThread) (r : Option ℕ)
    → s.starter ≡ returned r
    → s.worker ≡ looping
    → s.loop ≡ some l
    → Steps s (told s l)
told-path l s r e w k = onward (onward here (destructor_sees r l e k)) (destructor_quits l refl w)

-- The wake-up comes first, then the loop ends, and the join returns.
joins :
    (l : ℕ) (s : EventLoopThread)
    → s.worker ≡ looping
    → Steps s (told s l)
    → (u : EventLoopThread) × Steps s u × (u.starter ≡ destroyed) × (u.worker ≡ ended)
joins l s w path =
    let t1 = record (told s l) { starter = joining } in
    let t2 = record t1 { loop = none; worker = ended } in
    (
      record t2 { starter = destroyed },
      onward (onward (onward path (destructor_wakes l refl w)) (loop_ends w refl))
          (destructor_joins refl refl),
      refl,
      refl,
    )

-- The loop ends first.
dangles :
    (l : ℕ) (s : EventLoopThread)
    → s.worker ≡ looping
    → Steps s (told s l)
    → (v : EventLoopThread) × Steps s v × (v.starter ≡ dangling)
dangles l s w path =
    let t = record (told s l) { loop = none; worker = ended } in
    (
      record t { starter = dangling },
      onward (onward path (loop_ends w refl)) (destructor_wakes_none l refl refl),
      refl,
    )

-- The join of a loop that was told to quit returns.
join-returns :
    (s : EventLoopThread)
    → s.starter ≡ joining
    → s.quit ≡ true
    → (s.worker ≡ looping) ⊎ (s.worker ≡ ended)
    → (u : EventLoopThread) × Steps s u × (u.starter ≡ destroyed) × (u.worker ≡ ended)
join-returns s e q (inl w) =
    let t = record s { loop = none; worker = ended } in
    (
      record t { starter = destroyed },
      onward (onward here (loop_ends w q)) (destructor_joins e refl),
      refl,
      refl,
    )
join-returns s e q (inr w) =
    (record s { starter = destroyed }, onward here (destructor_joins e w), refl, w)

-- If nobody but the destructor tells the loop to quit, then no destructor leaves its thread unjoined, and
-- wherever the thread stands when the destructor joins it, both come to their end. From the return of
-- `startLoop` on, the destructor's steps and the thread's lead to the end of both with the thread joined,
-- when `quit` has made its wake-up before the loop ends; and when the loop ends between `quit_ = true`
-- and the wake-up, they lead to a wake-up of a loop that is gone.
pub returned-destroyed :
    (l : ℕ) (b : Bool) {s : EventLoopThread}
    → Reachable l b false s
    → (s.starter ≢ unjoined)
      × (s.starter ≡ joining
          → (u : EventLoopThread) × Steps s u × (u.starter ≡ destroyed) × (u.worker ≡ ended))
      × ((r : Option ℕ)
          → s.starter ≡ returned r
          → ((u : EventLoopThread) × Steps s u × (u.starter ≡ destroyed) × (u.worker ≡ ended))
            × ((v : EventLoopThread) × Steps s v × (v.starter ≡ dangling)))
returned-destroyed l b {s} r =
    let i = Reachable-Inv r in
    let h = Reachable-Undisturbed r in
    (
      (λ (e : s.starter ≡ unjoined). absurd (ground (arith, h.not_lost))),
      (λ (e : s.starter ≡ joining).
          join-returns s e (ground (arith, h.told)) (ground (arith, i.past))),
      (λ (o : Option ℕ) (e : s.starter ≡ returned o).
          let w = up l b s o i h e in
          let path = told-path l s o e w (ground (arith, i.loop_lem, w)) in
          (joins l s w path, dangles l s w path)),
    )

-- A loop that has been told to quit, and has ended, leaves its thread unjoined in the destructor.
pub ended-unjoined :
    (s : EventLoopThread) (r : Option ℕ)
    → s.starter ≡ returned r
    → s.worker ≡ looping
    → s.quit ≡ true
    → (u : EventLoopThread) × Steps s u × (u.starter ≡ unjoined)
ended-unjoined s r e w q =
    let t = record s { loop = none; worker = ended } in
    (
      record t { starter = unjoined; exiting = true },
      onward (onward here (loop_ends w q)) (destructor_misses r e refl),
      refl,
    )
