-- ===== src/Net/Examples/Handshakes.antt =====
-- A starter that sleeps until the thread has made its loop, and one that is back with it.
use ham.Net.LoopThread.{
  joining, EventLoopThread, asleep, returned, initialising, looping, unjoined, dangling, destroyed,
  ended, Reachable, Steps, at_start, later, start_loop, initialise, publish, starter_sleeps,
  starter_sees, starter_returns,
}
use ham.Net.LoopThread.Handshake.{IsInside, IsInside-returned}
use ham.Net.LoopThread.Joining.{returned-destroyed}
use ham.Base.{ℕ, ◌≡◌, ◌≢◌, refl, inl, inr, Option, none, some, true, false, [], ◌∷◌}

abbrev sleeping : EventLoopThread
sleeping = record {
  own_loop = 3;
  loop = none;
  starter = asleep;
  worker = initialising;
  exiting = false;
  has_callback = true;
  init_calls = [];
  quit = false;
}

IsInside-returned_example :
    (u : EventLoopThread) × Steps sleeping u
    × (u.starter ≡ returned (some 3))
    × (u.init_calls ≡ 3 ∷ [])
unfolding IsInside
IsInside-returned_example =
    IsInside-returned 3 true true
      (later (later at_start (start_loop refl)) (starter_sleeps refl refl)) (inr (inl refl))
      (inl refl)

abbrev up : EventLoopThread
up = record sleeping {
  loop = some 3;
  starter = returned (some 3);
  worker = looping;
  init_calls = 3 ∷ [];
}

up-Reachable : Reachable 3 true false up
up-Reachable =
    later
      (later (later (later (later at_start (start_loop refl)) (initialise refl)) (publish refl))
        (starter_sees 3 refl refl))
      (starter_returns refl)

returned-destroyed_example :
    (up.starter ≢ unjoined)
    × (up.starter ≡ joining
        → (u : EventLoopThread) × Steps up u × (u.starter ≡ destroyed) × (u.worker ≡ ended))
    × ((r : Option ℕ)
        → up.starter ≡ returned r
        → ((u : EventLoopThread) × Steps up u × (u.starter ≡ destroyed) × (u.worker ≡ ended))
          × ((v : EventLoopThread) × Steps up v × (v.starter ≡ dangling)))
returned-destroyed_example = returned-destroyed 3 true up-Reachable
