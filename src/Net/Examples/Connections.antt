-- ===== src/Net/Examples/Connections.antt =====
-- The theorems on connections, at small states.
use ham.Net.TcpConnection.Output.{handle_write-Streams}
use ham.Net.Buffer.Contents.{contents}
use ham.Net.Channel.{none_event, is_writing, new_channel}
use ham.Net.Buffer.{Buffer}
use ham.Net.TcpConnection.{TcpConnection, connected, send_in_loop, handle_write, wrote}
use ham.Net.TcpConnection.Stream.{IsLive, Streams, send_in_loop-Streams}
use ham.Base.{none, ℕ, ◌+◌, refl, true, List, [], ◌∷◌, ◌++◌, arith, ltb, length, Returns}

abbrev buffer_of : List ℕ → Buffer
buffer_of xs = record {
  buffer = 0 ∷ 0 ∷ 0 ∷ 0 ∷ 0 ∷ 0 ∷ 0 ∷ 0 ∷ xs;
  read_index = 8;
  write_index = 8 + length xs;
}

-- A connection that is up, with the given bytes still to be sent.
abbrev pub up_with : List ℕ → TcpConnection
up_with xs = record {
  state = connected;
  socket = record { sent = 9 ∷ []; shut_after = none };
  channel = record (new_channel 4) {
    event = record none_event { input = true; priority = true; output = ltb 0 (length xs) };
  };
  input_buffer = buffer_of [];
  output_buffer = buffer_of xs;
  high_water_mark = 64;
  has_write_complete = true;
  has_high_water_mark = true;
  queued = [];
  poller_calls = [];
}

abbrev pub idle : TcpConnection
idle = up_with []

abbrev busy : TcpConnection
busy = up_with (1 ∷ 2 ∷ [])

idle-IsLive : IsLive idle
unfolding contents is_writing
idle-IsLive = record {
  input_valid = record {
    ordered = omega arith;
    within = omega arith;
    room = omega arith;
    bounded = omega arith;
  };
  output_valid = record {
    ordered = omega arith;
    within = omega arith;
    room = omega arith;
    bounded = omega arith;
  };
  waits = refl;
}

busy-IsLive : IsLive busy
unfolding contents is_writing
busy-IsLive = record {
  input_valid = record {
    ordered = omega arith;
    within = omega arith;
    room = omega arith;
    bounded = omega arith;
  };
  output_valid = record {
    ordered = omega arith;
    within = omega arith;
    room = omega arith;
    bounded = omega arith;
  };
  waits = refl;
}

send_in_loop-Streams_example :
    Returns (send_in_loop (5 ∷ 6 ∷ 7 ∷ []) (wrote 2) idle) (Streams (9 ∷ 5 ∷ 6 ∷ 7 ∷ []))
send_in_loop-Streams_example =
    send_in_loop-Streams (5 ∷ 6 ∷ 7 ∷ []) (wrote 2) idle idle-IsLive (unfold contents in refl)
      (omega arith) (omega arith)

handle_write-Streams_example :
    Returns
      (handle_write (wrote 1) busy)
      (Streams (busy.socket.sent ++ contents busy.output_buffer))
handle_write-Streams_example =
    handle_write-Streams (wrote 1) busy busy-IsLive (unfold contents in omega arith)
