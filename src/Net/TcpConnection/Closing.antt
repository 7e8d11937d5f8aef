-- ===== src/Net/TcpConnection/Closing.antt =====
-- Closing a connection: the writing half is shut down only when every byte has been sent.
use ham.Net.TcpConnection.{disconnected, TcpConnection}
use ham.Base.{some, ℕ, ◌≡◌, List}

-- The half-close was done after `xs` had been sent, which is all that was sent.
pub record IsShut (xs : List ℕ) (c : TcpConnection) : Type 0 where
  pub closed : c.state ≡ disconnected
  pub shut : c.socket.shut_after ≡ some xs
  pub all_sent : c.socket.sent ≡ xs
