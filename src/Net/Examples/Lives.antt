-- ===== src/Net/Examples/Lives.antt =====
-- The theorem on the states of a connection, at one that is up and has sent a few bytes.
use ham.Net.TcpConnection.{
  TcpConnection, Callbacks, connecting, connected, send_in_loop_task, write_complete, update,
}
use ham.Net.TcpConnection.Steps.{Reachable}
use ham.Net.Channel.{new_channel, none_event, Events}
use ham.Net.Buffer.{fresh}
use ham.Base.{none, ℕ, ◌*◌, true, false, List, [], ◌∷◌, ok}

abbrev no_user : Callbacks
no_user = record { connection_callback = ok; message_callback = λ time. ok; close_callback = ok }

abbrev at_first : TcpConnection
at_first = record {
  state = connecting;
  socket = record { sent = []; shut_after = none };
  channel = new_channel 4;
  input_buffer = fresh;
  output_buffer = fresh;
  high_water_mark = 64 * 1024 * 1024;
  has_write_complete = true;
  has_high_water_mark = false;
  queued = [];
  poller_calls = [];
}

abbrev reads : Events
reads = record none_event { input = true; priority = true }

abbrev up : TcpConnection
up = record at_first {
  state = connected;
  channel = record (new_channel 4) { event = reads; tied = true };
  poller_calls = update reads ∷ [];
}

abbrev msg : List ℕ
msg = 1 ∷ 2 ∷ 3 ∷ []

abbrev told : TcpConnection
told = record up { queued = send_in_loop_task msg ∷ [] }

-- The kernel took all three bytes.
abbrev wrote_all : TcpConnection
wrote_all = record told {
  socket = record { sent = msg; shut_after = none };
  queued = send_in_loop_task msg ∷ write_complete ∷ [];
}
