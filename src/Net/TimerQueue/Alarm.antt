-- ===== src/Net/TimerQueue/Alarm.antt =====
-- The time that is given to the kernel.
use ham.Net.TimerQueue.{how_much_time_from_now}
use ham.Base.{
  ltb→lt, Bool-cases, ℕ, ◌+◌, ◌-◌, ◌*◌, ◌≤◌, ◌<◌, ◌≡◌, refl, ◌⊎◌, inl, inr, false, arith, ltb,
}

ltb_false→le : (a b : ℕ) → ltb a b ≡ false → b ≤ a
ltb_false→le a b h = ground arith

-- The delay that is given to the kernel is a valid one, it is never shorter than the time that is left
-- or than 100 microseconds, and it is exactly the longer of the two, in nanoseconds.
pub how_much_time_from_now-exact :
    (when now : ℕ)
    → let delay = how_much_time_from_now when now in
      (delay.tv_nsec < 1000 * 1000 * 1000)
      × (100 * 1000 ≤ delay.tv_sec * (1000 * 1000 * 1000) + delay.tv_nsec)
      × (when * 1000 ≤ now * 1000 + (delay.tv_sec * (1000 * 1000 * 1000) + delay.tv_nsec))
      × ((delay.tv_sec * (1000 * 1000 * 1000) + delay.tv_nsec ≡ 100 * 1000)
          ⊎ (delay.tv_sec * (1000 * 1000 * 1000) + delay.tv_nsec ≡ (when - now) * 1000))
unfolding how_much_time_from_now
how_much_time_from_now-exact when now = elim (Bool-cases (ltb (when - now) 100)) [
  | inl e ↦
      let short = ltb→lt (when - now) 100 e in
      rw e (omega arith, omega arith, omega arith, inl refl)
  | inr e ↦
      let long = ltb_false→le (when - now) 100 e in
      rw e (omega arith, omega arith, omega arith, inr (omega arith))
]
