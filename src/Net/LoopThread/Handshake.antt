-- ===== src/Net/LoopThread/Handshake.antt =====
-- ham/net/EventLoopThread.cc: what `startLoop` returns, and that it does.
use ham.Net.LoopThread.{
  Starter, Worker, EventLoopThread, idle, at_mutex, asleep, returned, no_thread, initialising,
  initialised, looping, ended, notified, Step, start_loop, initialise, publish, starter_sleeps,
  starter_returns, starter_sees, behind_mutex, Steps, here, onward, loop_ends, Wakes, starter_wakes,
  Reachable, at_start, later, awake, other_quits, destroyed, destructor_idle, destructor_sees,
  destructor_misses, destructor_wakes, destructor_wakes_none, destructor_quits, destructor_dangles,
  destructor_joins,
}
use ham.Base.{
  ℕ, ◌≡◌, refl, ap, ◌⊎◌, inl, inr, Bool, true, false, Option, none, some, List, [], ◌∷◌, arith,
  if◌then◌else◌,
}

-- What `loop_` is, by the place of the worker.
abbrev published : ℕ → Worker → Option ℕ
published l looping = some l
published l _ = none

abbrev is_before : Worker → Bool
is_before no_thread = true
is_before _ = false

abbrev is_idle : Starter → Bool
is_idle idle = true
is_idle _ = false

abbrev is_asleep : Starter → Bool
is_asleep asleep = true
is_asleep _ = false

abbrev is_looping : Worker → Bool
is_looping looping = true
is_looping _ = false

-- The starter has seen a loop.
abbrev is_past : Starter → Bool
is_past idle = false
is_past at_mutex = false
is_past asleep = false
is_past destroyed = false
is_past _ = true

abbrev has_published : Worker → Bool
has_published looping = true
has_published ended = true
has_published _ = false

-- The calls of the init callback so far.
abbrev pub calls_at : Bool → ℕ → Worker → List ℕ
calls_at b l no_thread = []
calls_at b l initialising = []
calls_at b l _ = if b then l ∷ [] else []

pub record Inv (l : ℕ) (b : Bool) (s : EventLoopThread) : Type 0 where
  pub same_loop : s.own_loop ≡ l
  pub same_callback : s.has_callback ≡ b
  pub loop_lem : s.loop ≡ published l s.worker
  pub calls : s.init_calls ≡ calls_at b l s.worker
  pub idle_before : is_idle s.starter ≡ true → is_before s.worker ≡ true
  pub past : is_past s.starter ≡ true → has_published s.worker ≡ true
  pub no_sleep : is_asleep s.starter ≡ true → is_looping s.worker ≡ false
  pub result : (r : Option ℕ) → s.starter ≡ returned r → (r ≡ some l) ⊎ (s.worker ≡ ended)

Step-Inv : {l : ℕ} {b : Bool} {s t : EventLoopThread} → Step s t → Inv l b s → Inv l b t
Step-Inv {l} {b} {s} (start_loop e) h = ground arith
Step-Inv {l} {b} {s} (initialise e) h = ground arith
Step-Inv {l} {b} {s} (publish e) h = ground arith
Step-Inv {l} {b} {s} (starter_sleeps e k) h = ground arith
Step-Inv {l} {b} {s} (starter_sees m e k) h = ground arith
Step-Inv {l} {b} {s} (starter_returns e) h = ground arith
Step-Inv {l} {b} {s} (loop_ends e k) h = ground arith
Step-Inv {l} {b} {s} (destructor_idle e) h = ground arith
Step-Inv {l} {b} {s} (destructor_sees r m e k) h = ground arith
Step-Inv {l} {b} {s} (destructor_misses r e k) h = ground arith
Step-Inv {l} {b} {s} (destructor_quits m e k) h = ground arith
Step-Inv {l} {b} {s} (destructor_dangles m e k) h = ground arith
Step-Inv {l} {b} {s} (destructor_joins e k) h = ground arith
Step-Inv {l} {b} {s} (destructor_wakes m e k) h = ground arith
Step-Inv {l} {b} {s} (destructor_wakes_none m e k) h = ground arith

Wakes-Inv : {l : ℕ} {b : Bool} {s t : EventLoopThread} → Wakes s t → Inv l b s → Inv l b t
Wakes-Inv {l} {b} {s} (starter_wakes e) h = ground arith

pub Reachable-Inv :
    {l : ℕ} {b others : Bool} {s : EventLoopThread} → Reachable l b others s → Inv l b s
Reachable-Inv {l} at_start = ground arith
Reachable-Inv (later r st) = Step-Inv st (Reachable-Inv r)
Reachable-Inv (awake r w) = Wakes-Inv w (Reachable-Inv r)
Reachable-Inv {l} {b} {others} (other_quits {s} r e k) = let h = Reachable-Inv r in ground arith

Steps-Inv : {l : ℕ} {b : Bool} {s t : EventLoopThread} → Steps s t → Inv l b s → Inv l b t
Steps-Inv here h = h
Steps-Inv (onward p st) h = Step-Inv st (Steps-Inv p h)

-- The starter is still inside `startLoop`.
unfoldable pub IsInside : Starter → Type 0
IsInside w = (w ≡ at_mutex) ⊎ (w ≡ asleep) ⊎ (w ≡ behind_mutex)

from_mutex :
    (l : ℕ) (s t : EventLoopThread)
    → Steps s t
    → t.starter ≡ at_mutex
    → t.loop ≡ some l
    → (u : EventLoopThread) × Steps s u × (u.starter ≡ returned (some l))
from_mutex l s t p e k =
    let sees = record t { starter = behind_mutex } in
    (
      record sees { starter = returned t.loop },
      onward (onward p (starter_sees l e k)) (starter_returns refl),
      ap returned k,
    )

published-returns :
    (l : ℕ) (b : Bool) (s0 s : EventLoopThread) (w : Starter)
    → Steps s0 s
    → Inv l b s
    → s.starter ≡ w
    → IsInside w
    → (s.worker ≡ initialised) ⊎ (s.worker ≡ looping)
    → (u : EventLoopThread) × Steps s0 u × (u.starter ≡ returned (some l))
unfolding IsInside
published-returns l b s0 s at_mutex p h e at (inl new) =
    from_mutex l s0
      (record s { loop = some s.own_loop; starter = notified s.starter; worker = looping })
      (onward p (publish new)) (ap notified e) (ap some h.same_loop)
published-returns l b s0 s at_mutex p h e at (inr up) =
    from_mutex l s0 s p e (ground (arith, h.loop_lem))
published-returns l b s0 s asleep p h e at (inl new) =
    from_mutex l s0
      (record s { loop = some s.own_loop; starter = notified s.starter; worker = looping })
      (onward p (publish new)) (ap notified e) (ap some h.same_loop)
published-returns l b s0 s asleep p h e at (inr up) = absurd (ground (arith, h.no_sleep))
published-returns l b s0 s behind_mutex p h e at (inl new) = absurd (ground (arith, h.past))
published-returns l b s0 s behind_mutex p h e at (inr up) = (
  record s { starter = returned s.loop },
  onward p (starter_returns e),
  ap returned (ground (arith, h.loop_lem)),
)
published-returns l b s0 s w p h e at work = absurd (ground arith)

-- The thread has started, and has not ended its loop.
abbrev pub IsAtWork : Worker → Type 0
IsAtWork w = (w ≡ initialising) ⊎ ((w ≡ initialised) ⊎ (w ≡ looping))

inside-returns :
    (l : ℕ) (b : Bool) (s : EventLoopThread)
    → Inv l b s
    → IsInside s.starter
    → IsAtWork s.worker
    → (u : EventLoopThread) × Steps s u × (u.starter ≡ returned (some l))
inside-returns l b s h inside (inl e) =
    published-returns l b s _ s.starter (onward here (initialise e)) (Step-Inv (initialise e) h)
      refl inside (inl refl)
inside-returns l b s h inside (inr work) =
    published-returns l b s s s.starter here h refl inside work

calls-past :
    (l : ℕ) (b : Bool) (u : EventLoopThread)
    → Inv l b u
    → u.starter ≡ returned (some l)
    → u.init_calls ≡ (if b then l ∷ [] else [])
calls-past l b u h e = ground (arith, h.calls, h.past)

-- While the starter is inside `startLoop` and the thread has not ended its loop, steps of the two without
-- a wait that ends by itself take the starter out of `startLoop`, with the loop that the thread has made;
-- the init callback, if there is one, has then been called once, with that loop.
pub IsInside-returned :
    (l : ℕ) (b others : Bool) {s : EventLoopThread}
    → Reachable l b others s
    → IsInside s.starter
    → IsAtWork s.worker
    → (u : EventLoopThread) × Steps s u
      × (u.starter ≡ returned (some l))
      × (u.init_calls ≡ (if b then l ∷ [] else []))
IsInside-returned l b others {s} r inside work =
    let (u, p, e) = inside-returns l b s (Reachable-Inv r) inside work in
    (u, p, e, calls-past l b u (Steps-Inv p (Reachable-Inv r)) e)
