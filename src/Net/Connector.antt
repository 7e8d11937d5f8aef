-- ===== src/Net/Connector.antt =====
-- ham/net/Connector.cc, ham/net/Connector.h: a non-blocking connect with retries. The outcomes of the
-- system calls are arguments; what the code does to descriptors, timers and the loop is recorded.
pub mod Refused
pub mod Ending
pub mod Reachable
pub mod Tracked
use ham.Base.{
  require, bad_weak_ptr, undefined, ℕ, zero, suc, ◌+◌, ◌-◌, ◌*◌, ◌/◌, ◌%◌, ◌^◌, ◌≤◌, ◌<◌, min,
  String, ◌≡◌, refl, sym, ap, ◌∙◌, ◌≢◌, ◌⊎◌, inl, inr, Bool, true, false, not, ◌&&◌, ◌||◌, Option,
  none, some, List, [], ◌∷◌, ◌++◌, arith, ltb, leb, ◌==◌, if◌then◌else◌, add_size, sub_size, length,
  take, drop, bytes, Result, ok, err, ◌>>=◌, ◌>>◌, assert, Returns,
}

pub data State : Type 0 where
  disconnected : State
  connecting : State
  connected : State

-- The `errno` of `connect`, zero when it returned 0.
pub data Errno : Type 0 where
  none_0 : Errno
  eisconn : Errno
  einprogress : Errno
  eintr : Errno
  eagain : Errno
  eaddrinuse : Errno
  eaddrnotavail : Errno
  econnrefused : Errno
  enetunreach : Errno
  eacces : Errno
  eperm : Errno
  eafnosupport : Errno
  ealready : Errno
  ebadf : Errno
  efault : Errno
  enotsock : Errno
  other : Errno

pub data Effect : Type 0 where
  -- `sockets::close`.
  closed : ℕ → Effect
  -- `newConnCb_`.
  new_connection : ℕ → Effect
  -- `runAfter`, in milliseconds.
  run_after : ℕ → Effect
  cancel_timer : Effect
  -- `resetChannel` or `stopInLoop` or `startInLoop` passed to the loop by another thread.
  queued_reset : Effect
  queued_start : Effect
  queued_stop : Effect

-- `connectChannel_`: its descriptor, and whether the poller watches it.
pub record Watch : Type 0 where
  pub fd : ℕ
  pub watched : Bool

pub record Connector : Type 0 where
  pub state : State
  pub connect_channel : Option Watch
  pub connect_flag : Bool
  -- Whether a `shared_ptr` owns the object.
  pub shared : Bool
  pub retry_delay_ms : ℕ
  pub valid_timer : Bool
  pub effects : List Effect

abbrev pub max_retry_delay_ms : ℕ
max_retry_delay_ms = 30 * 1000

abbrev pub init_retry_delay_ms : ℕ
init_retry_delay_ms = 5000

abbrev pub new_connector : Bool → Connector
new_connector shared = record {
  shared = shared;
  state = disconnected;
  connect_channel = none;
  connect_flag = false;
  retry_delay_ms = init_retry_delay_ms;
  valid_timer = false;
  effects = [];
}

unfoldable pub act : Effect → Connector → Connector
act e c = record c { effects = c.effects ++ (e ∷ []) }

abbrev pub is_connecting : State → Bool
is_connecting connecting = true
is_connecting _ = false

abbrev pub is_disconnected : State → Bool
is_disconnected disconnected = true
is_disconnected _ = false

abbrev pub is_null : Option Watch → Bool
is_null none = true
is_null (some w) = false

unfoldable pub establish_connection : ℕ → Connector → Result Connector
establish_connection sockfd c = do
  assert (is_null c.connect_channel)
  ok (record c {
    state = connecting;
    connect_channel = some (record { fd = sockfd; watched = true });
  })

-- `runAfter` stores the timer, and the delay doubles up to its maximum. `shared_from_this` throws unless
-- a `shared_ptr` owns the connector.
unfoldable pub retry : ℕ → Connector → Result Connector
unfolding act
retry sockfd c = do
  assert (is_connecting c.state)
  let idle = record (act (closed sockfd) c) { state = disconnected }
  if idle.connect_flag then again idle else ok idle
  where
    again : Connector → Result Connector
    again idle = do
      require idle.shared bad_weak_ptr
      ok (record (act (run_after idle.retry_delay_ms) idle) {
        valid_timer = true;
        retry_delay_ms = min (idle.retry_delay_ms * 2) max_retry_delay_ms;
      })

unfoldable pub connect : ℕ → Errno → Connector → Result Connector
unfolding establish_connection retry act
connect fd none_0 c = establish_connection fd c
connect fd eisconn c = establish_connection fd c
connect fd einprogress c = establish_connection fd c
connect fd eintr c = establish_connection fd c
connect fd eagain c = retry fd c
connect fd eaddrinuse c = retry fd c
connect fd eaddrnotavail c = retry fd c
connect fd econnrefused c = retry fd c
connect fd enetunreach c = retry fd c
connect fd _ c = ok (act (closed fd) c)

-- `fd` is the new socket, and `errno` what `connect` does with it.
unfoldable pub start_in_loop : ℕ → Errno → Connector → Result Connector
start_in_loop fd errno c = do
  assert (is_disconnected c.state)
  if c.connect_flag then connect fd errno c else ok c

unfoldable pub start : Bool → ℕ → Errno → Connector → Result Connector
unfolding act
start in_loop fd errno c =
    let wanted = record c { connect_flag = true } in
    if in_loop then start_in_loop fd errno wanted else ok (act queued_start wanted)

unfoldable pub restart : ℕ → Errno → Connector → Result Connector
restart fd errno c =
    start_in_loop fd errno
      (record c { state = disconnected; connect_flag = true; retry_delay_ms = init_retry_delay_ms })

-- The channel leaves the poller at once, and is destroyed by a queued task; a null one is not checked.
unfoldable pub remove_and_reset_channel : Connector → Result (ℕ × Connector)
unfolding act
remove_and_reset_channel c = remove_watch c.connect_channel
  where
    remove_watch : Option Watch → Result (ℕ × Connector)
    remove_watch none = err undefined
    remove_watch (some w) = ok (
      w.fd,
      act queued_reset (record c { connect_channel = some (record w { watched = false }) }),
    )

unfoldable pub reset_channel : Connector → Connector
reset_channel c = record c { connect_channel = none }

unfoldable pub stop_in_loop : Connector → Result Connector
unfolding act
stop_in_loop c = if is_connecting c.state then stop_connecting else ok c
  where
    stop_connecting : Result Connector
    stop_connecting = do
      (fd, removed) ← remove_and_reset_channel (record c { state = disconnected })
      ok (act (closed fd) removed)

unfoldable pub stop : Bool → Connector → Result Connector
unfolding act
stop in_loop c = do
  let unwanted = record c { connect_flag = false }
  stopped ← if in_loop then stop_in_loop unwanted else ok (act queued_stop unwanted)
  ok (if stopped.valid_timer then act cancel_timer stopped else stopped)

-- `so_error` is whether the socket has an error, `self` whether it is connected to itself.
unfoldable pub connection_made : Bool → Bool → ℕ → Connector → Result Connector
unfolding act
connection_made so_error self fd c =
    if so_error || self
    then retry fd c
    else (let up = record c { state = connected } in
        ok (if up.connect_flag then act (new_connection fd) up else act (closed fd) up))

unfoldable pub handle_write : Bool → Bool → Connector → Result Connector
handle_write so_error self c =
    if is_connecting c.state then writable else (assert (is_disconnected c.state) >> ok c)
  where
    writable : Result Connector
    writable = do
      (fd, removed) ← remove_and_reset_channel c
      connection_made so_error self fd removed

unfoldable pub handle_error : Connector → Result Connector
handle_error c = do
  assert (is_connecting c.state)
  (fd, removed) ← remove_and_reset_channel c
  retry fd removed

-- The destructor: `stop` leaves the channel to a functor of the loop.
unfoldable pub destruct : Bool → Connector → Result Connector
destruct in_loop c = do
  stopped ← if is_null c.connect_channel then ok c else stop in_loop c
  assert (is_null stopped.connect_channel)
  ok stopped
