-- ===== src/Net/TcpConnection.antt =====
-- ham/net/TcpConnection.cc, ham/net/TcpConnection.h: one connection, in the thread of its loop. The
-- user's callbacks are arguments, the outcome of each system call is an argument, and what the code
-- asks of the loop is recorded: the tasks it queues and the changes of its channel.
pub mod Stream
pub mod Output
pub mod Closing
pub mod Steady
pub mod Polled
pub mod Removal
pub mod Steps
pub mod Attentive
pub mod Using
pub mod Reachable
use ham.Net.Buffer.Input.{read_fd, Readv}
use ham.Net.Channel.{
  enable_reading, enable_writing, new_channel, Channel, tie, Events, is_writing, disable_all,
  disable_writing,
}
use ham.Net.Buffer.{
  retrieve_all_as_string, retrieve_all, retrieve, append, bytes_at, Buffer, init, readable_bytes,
}
use ham.Base.{
  ℕ, zero, suc, ◌+◌, ◌-◌, ◌*◌, ◌/◌, ◌%◌, ◌^◌, ◌≤◌, ◌<◌, min, String, ◌≡◌, refl, sym, ap, ◌∙◌, ◌≢◌,
  ◌⊎◌, inl, inr, Bool, true, false, not, ◌&&◌, ◌||◌, Option, none, some, List, [], ◌∷◌, ◌++◌, arith,
  ltb, leb, ◌==◌, if◌then◌else◌, add_size, sub_size, length, take, drop, bytes, Result, ok, err,
  ◌>>=◌, ◌>>◌, assert, Returns,
}

pub data State : Type 0 where
  disconnected : State
  connecting : State
  connected : State
  disconnecting : State

-- What is bound into a functor that `queueInLoop` or `runInLoop` is given.
pub data Task : Type 0 where
  write_complete : Task
  high_water_mark_reached : ℕ → Task
  send_in_loop_task : List ℕ → Task
  shutdown_in_loop_task : Task
  force_close_in_loop_task : Task

-- What the channel asks of the loop's poller.
pub data PollerCall : Type 0 where
  update : Events → PollerCall
  remove : PollerCall

-- The socket: the bytes the kernel took, and after the writing half was shut down those that it had taken
-- before. The kernel fails a later `write` with EPIPE, which is the outcome `broken_pipe`.
pub record Socket : Type 0 where
  pub sent : List ℕ
  pub shut_after : Option (List ℕ)

pub record TcpConnection : Type 0 where
  pub state : State
  pub socket : Socket
  pub channel : Channel
  pub input_buffer : Buffer
  pub output_buffer : Buffer
  pub high_water_mark : ℕ
  pub has_write_complete : Bool
  pub has_high_water_mark : Bool
  pub queued : List Task
  pub poller_calls : List PollerCall

-- The callbacks that the connection always has; each may use the connection again.
pub record Callbacks : Type 0 where
  pub connection_callback : TcpConnection → Result TcpConnection
  pub message_callback : ℕ → TcpConnection → Result TcpConnection
  pub close_callback : TcpConnection → Result TcpConnection

-- The outcome of `::write`.
pub data Errno : Type 0 where
  would_block : Errno
  broken_pipe : Errno
  connection_reset : Errno
  other_error : Errno

pub data Write : Type 0 where
  wrote : ℕ → Write
  failed : Errno → Write

-- The constructor, when the buffers are allocated.
unfoldable pub new_connection : ℕ → Bool → Bool → Result TcpConnection
new_connection sockfd complete high = do
  in_buffer ← init
  out_buffer ← init
  ok (record {
    state = connecting;
    socket = record { sent = []; shut_after = none };
    channel = new_channel sockfd;
    input_buffer = in_buffer;
    output_buffer = out_buffer;
    high_water_mark = 64 * 1024 * 1024;
    has_write_complete = complete;
    has_high_water_mark = high;
    queued = [];
    poller_calls = [];
  })

unfoldable pub set_state : State → TcpConnection → TcpConnection
set_state s c = record c { state = s }

unfoldable pub queue_in_loop : Task → TcpConnection → TcpConnection
queue_in_loop t c = record c { queued = c.queued ++ (t ∷ []) }

-- A changed channel is passed to the poller.
unfoldable pub update_channel : Channel → TcpConnection → TcpConnection
update_channel ch c = record c {
  channel = ch;
  poller_calls = c.poller_calls ++ (update ch.event ∷ []);
}

unfoldable pub remove_channel : TcpConnection → TcpConnection
remove_channel c = record c { poller_calls = c.poller_calls ++ (remove ∷ []) }

-- The `assert` is an assignment of a constant that is not zero: it never fails.
unfoldable pub establish_connection : Callbacks → TcpConnection → Result TcpConnection
unfolding set_state update_channel tie enable_reading
establish_connection cb c =
    cb.connection_callback (
      update_channel (enable_reading (tie c.channel))
        (set_state connected (set_state connecting c)))

abbrev pub is_connected : State → Bool
is_connected connected = true
is_connected _ = false

abbrev pub is_disconnecting : State → Bool
is_disconnecting disconnecting = true
is_disconnecting _ = false

-- `kConnected` or `kDisconnecting`.
abbrev pub is_open : State → Bool
is_open connected = true
is_open disconnecting = true
is_open _ = false

unfoldable pub destory_connection : Callbacks → TcpConnection → Result TcpConnection
unfolding set_state update_channel disable_all remove_channel
destory_connection cb c = do
  closed ←
      if is_connected c.state
      then cb.connection_callback
          (update_channel (disable_all c.channel) (set_state disconnected c))
      else ok c
  ok (remove_channel closed)

unfoldable pub force_close : TcpConnection → TcpConnection
unfolding set_state queue_in_loop
force_close c =
    if is_open c.state
    then queue_in_loop force_close_in_loop_task (set_state disconnecting c)
    else c

unfoldable pub handle_close : Callbacks → TcpConnection → Result TcpConnection
unfolding set_state update_channel disable_all
handle_close cb c =
    cb.close_callback (update_channel (disable_all c.channel) (set_state disconnected c))

unfoldable pub force_close_in_loop : Callbacks → TcpConnection → Result TcpConnection
force_close_in_loop cb c = if is_open c.state then handle_close cb c else ok c

unfoldable pub shutdown_in_loop : TcpConnection → TcpConnection
unfolding is_writing set_state
shutdown_in_loop c = if is_writing c.channel then c else record (set_state disconnected c) {
  socket = record c.socket { shut_after = some c.socket.sent };
}

-- `runInLoop` calls at once in the loop's thread, and queues in the others.
unfoldable pub shutdown : Bool → TcpConnection → TcpConnection
unfolding set_state queue_in_loop
shutdown in_loop c =
    if is_connected c.state
    then (if in_loop
        then shutdown_in_loop (set_state disconnecting c)
        else queue_in_loop shutdown_in_loop_task (set_state disconnecting c))
    else c

-- The kernel took `n` bytes of `msg`.
unfoldable pub socket_write : List ℕ → ℕ → TcpConnection → TcpConnection
socket_write msg n c = record c { socket = record c.socket { sent = c.socket.sent ++ take n msg } }

abbrev pub is_fault : Errno → Bool
is_fault broken_pipe = true
is_fault connection_reset = true
is_fault _ = false

-- What is left of the data goes to the output buffer, and the channel waits for the socket.
unfoldable pub keep_rest : List ℕ → ℕ → ℕ → TcpConnection → Result TcpConnection
unfolding queue_in_loop update_channel is_writing enable_writing readable_bytes
keep_rest msg n_wrote remaining c = do
  let old_len = readable_bytes c.output_buffer
  let warned =
      if ltb old_len c.high_water_mark
        && (leb c.high_water_mark (add_size old_len remaining) && c.has_high_water_mark)
      then queue_in_loop (high_water_mark_reached (add_size old_len remaining)) c
      else c
  output ← append warned.output_buffer (take remaining (drop n_wrote msg))
  let kept = record warned { output_buffer = output }
  ok (if is_writing kept.channel then kept else update_channel (enable_writing kept.channel) kept)

-- A first write that took `n` bytes.
unfoldable pub after_write : List ℕ → ℕ → TcpConnection → Result TcpConnection
unfolding queue_in_loop socket_write
after_write msg n c = do
  let remaining = sub_size (length msg) n
  let written = socket_write msg n c
  let told =
      if (remaining == 0) && written.has_write_complete
      then queue_in_loop write_complete written
      else written
  assert (leb remaining (length msg))
  if ltb 0 remaining then keep_rest msg n remaining told else ok told

-- A first write that failed.
unfoldable pub after_failure : List ℕ → Errno → TcpConnection → Result TcpConnection
after_failure msg errno c =
    if not (is_fault errno) && ltb 0 (length msg) then keep_rest msg 0 (length msg) c else ok c

unfoldable pub first_write : List ℕ → TcpConnection → Write → Result TcpConnection
first_write msg c (wrote n) = after_write msg n c
first_write msg c (failed errno) = after_failure msg errno c

-- The data is dropped when output is pending: all of the code stands under the test.
unfoldable pub send_in_loop : List ℕ → Write → TcpConnection → Result TcpConnection
send_in_loop msg outcome c =
    if not (is_writing c.channel) && (readable_bytes c.output_buffer == 0)
    then first_write msg c outcome
    else ok c

unfoldable pub send : Bool → List ℕ → Write → TcpConnection → Result TcpConnection
unfolding queue_in_loop
send in_loop msg outcome c =
    if is_connected c.state
    then (if in_loop
        then send_in_loop msg outcome c
        else ok (queue_in_loop (send_in_loop_task msg) c))
    else ok c

-- `send(Buffer&)`: the buffer is emptied when the connection is up.
unfoldable pub send_buffer : Bool → Buffer → Write → TcpConnection → Result (TcpConnection × Buffer)
unfolding queue_in_loop readable_bytes
send_buffer in_loop buffer outcome c =
    if is_connected c.state then (if in_loop then send_here else queue_text) else ok (c, buffer)
  where
    send_here : Result (TcpConnection × Buffer)
    send_here = do
      msg ← bytes_at buffer buffer.read_index (readable_bytes buffer)
      after ← send_in_loop msg outcome c
      ok (after, retrieve_all buffer)

    queue_text : Result (TcpConnection × Buffer)
    queue_text = do
      (msg, rest) ← retrieve_all_as_string buffer
      ok (queue_in_loop (send_in_loop_task msg) c, rest)

read_result : Callbacks → ℕ → Option ℕ → TcpConnection → Result TcpConnection
read_result cb time none c = ok c
read_result cb time (some n) c = if ltb 0 n then cb.message_callback time c else handle_close cb c

-- `handleError` only logs.
unfoldable pub handle_read : Callbacks → ℕ → Readv → TcpConnection → Result TcpConnection
unfolding read_result
handle_read cb time outcome c = do
  r ← read_fd c.input_buffer 0 outcome
  read_result cb time r.count (record c { input_buffer = r.buffer_after })

-- The output buffer has been emptied.
unfoldable pub drained : TcpConnection → TcpConnection
unfolding update_channel disable_writing queue_in_loop
drained c =
    let idle = update_channel (disable_writing c.channel) c in
    let told = if idle.has_write_complete then queue_in_loop write_complete idle else idle in
    if is_disconnecting told.state then shutdown_in_loop told else told

unfoldable pub flush : ℕ → TcpConnection → Result TcpConnection
unfolding readable_bytes socket_write
flush n c = do
  msg ← bytes_at c.output_buffer c.output_buffer.read_index (readable_bytes c.output_buffer)
  rest ← retrieve c.output_buffer n
  let after = record (socket_write msg n c) { output_buffer = rest }
  ok (if readable_bytes after.output_buffer == 0 then drained after else after)

unfoldable pub handle_write : Write → TcpConnection → Result TcpConnection
unfolding is_writing
handle_write (failed errno) c = ok c
handle_write (wrote n) c = if is_writing c.channel && ltb 0 n then flush n c else ok c
