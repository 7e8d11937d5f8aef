-- ===== src/Net/TcpConnection/Reachable.antt =====
-- ham/net/TcpConnection.cc: what holds of a connection in every state that it can reach.
use ham.Net.TcpConnection.{TcpConnection, disconnected, set_state, update_channel}
use ham.Net.Channel.{disable_all}
use ham.Net.Buffer.{Buffer}
use ham.Base.{Bool}

-- The channel asks for nothing, and the connection is disconnected.
abbrev silenced : TcpConnection → TcpConnection
silenced c = update_channel (disable_all c.channel) (set_state disconnected c)
