-- ===== src/Net/Examples/Connects.antt =====
-- The theorems on the connector, at a connect that fails later.
use ham.Net.Connector.Reachable.{Reachable}
use ham.Net.Connector.{run_after, queued_reset, Connector, new_connector, connecting, closed}
use ham.Base.{true, false, some, [], ◌∷◌}

-- A connect in progress that fails once it is writable, and is tried again.
abbrev retried : Connector
retried = record (new_connector true) {
  connect_channel = some (record { fd = 7; watched = false });
  connect_flag = true;
  retry_delay_ms = 10000;
  valid_timer = true;
  effects = queued_reset ∷ closed 7 ∷ run_after 5000 ∷ [];
}

abbrev in_progress : Connector
in_progress = record (new_connector true) {
  state = connecting;
  connect_channel = some (record { fd = 7; watched = true });
  connect_flag = true;
}
