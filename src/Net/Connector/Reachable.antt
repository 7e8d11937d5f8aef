-- ===== src/Net/Connector/Reachable.antt =====
-- Every state that a connector can reach.
use ham.Net.Connector.{
  reset_channel, stop, restart, start, new_connector, stop_in_loop, handle_error, start_in_loop,
  handle_write, Errno, Connector,
}
use ham.Net.Connector.{max_retry_delay_ms, init_retry_delay_ms, is_connecting, Errno, Connector}
use ham.Base.{suc, ◌<◌, ℕ, ◌≤◌, ◌≡◌, Bool, false, ok}
use ham.Net.Connector.Tracked.{watching, resets_queued}

-- The poller watches the channel exactly while the connector is connecting, and the delay of the next
-- retry is within its limits.
pub record IsSound (c : Connector) : Type 0 where
  pub watches : watching c.connect_channel ≡ is_connecting c.state
  pub at_least : init_retry_delay_ms ≤ c.retry_delay_ms
  pub at_most : c.retry_delay_ms ≤ max_retry_delay_ms

-- What moves a connector, in its loop's thread or from another one. `restart` must not be called while it
-- is connecting.
pub data Step (c : Connector) : Connector → Type 0 where
  starts :
      {c' : Connector} (in_loop : Bool) (fd : ℕ) (errno : Errno)
      → start in_loop fd errno c ≡ ok c'
      → Step c c'
  runs_start :
      {c' : Connector} (fd : ℕ) (errno : Errno) → start_in_loop fd errno c ≡ ok c' → Step c c'
  restarts :
      {c' : Connector} (fd : ℕ) (errno : Errno)
      → is_connecting c.state ≡ false
      → restart fd errno c ≡ ok c'
      → Step c c'
  stops : {c' : Connector} (in_loop : Bool) → stop in_loop c ≡ ok c' → Step c c'
  runs_stop : {c' : Connector} → stop_in_loop c ≡ ok c' → Step c c'
  writes :
      {c' : Connector} (so_error self : Bool) → handle_write so_error self c ≡ ok c' → Step c c'
  fails : {c' : Connector} → handle_error c ≡ ok c' → Step c c'

-- The states after `n` runs of queued `resetChannel` functors, each at any time after it was queued.
pub data Reachable (shared : Bool) : ℕ → Connector → Type 0 where
  begin : Reachable shared 0 (new_connector shared)
  then_step : {n : ℕ} {c c' : Connector} → Reachable shared n c → Step c c' → Reachable shared n c'
  resets :
      {n : ℕ} {c : Connector}
      → Reachable shared n c
      → n < resets_queued c.effects
      → Reachable shared (suc n) (reset_channel c)
