-- ===== src/Net/Examples/Removals.antt =====
-- The theorem on `destoryConnection`, at a connection that was shut down and still reads.
use ham.Net.Examples.Connections.{idle}
use ham.Net.Examples.Events.{registry}
use ham.Net.Examples.Polls.{running, running-IsSynced}
use ham.Net.TcpConnection.Removal.{Removes, destory_connection-Removes}
use ham.Net.TcpConnection.Polled.{poll_calls}
use ham.Net.TcpConnection.{
  Callbacks, PollerCall, TcpConnection, destory_connection, disconnected, shutdown,
  shutdown_in_loop, set_state,
}
use ham.Net.Channel.{is_none_event, is_writing}
use ham.Net.Epoller.Synced.{added≢new}
use ham.Base.{some, true, ◌≡◌, refl, List, ◌++◌, false, ok, Returns}

abbrev no_user : Callbacks
no_user = record { connection_callback = ok; message_callback = λ time. ok; close_callback = ok }

abbrev shut : TcpConnection
shut = record idle {
  state = disconnected;
  socket = record idle.socket { shut_after = some idle.socket.sent };
}

shutdown-shut : shutdown true idle ≡ shut
unfolding shutdown shutdown_in_loop is_writing set_state
shutdown-shut = refl

destory_connection-Removes_example : Returns (destory_connection no_user shut) λ d.
    (calls : List PollerCall) × (d.poller_calls ≡ shut.poller_calls ++ calls)
    × Removes registry false 104 (poll_calls registry.epoll_ctl 4 calls running.poller)
unfolding is_none_event
destory_connection-Removes_example =
    destory_connection-Removes registry no_user shut 4 running.poller (λ d down. refl)
      running-IsSynced added≢new refl
