-- ===== src/Net/TcpConnection/Polled.antt =====
-- ham/net/Channel.cc: the changes of a connection's channel, as they reach the poller of its loop.
use ham.Net.TcpConnection.{PollerCall, update, remove}
use ham.Net.Epoller.{Ctl, Epoller, change}
use ham.Base.{ℕ, List, [], ◌∷◌, Result, ok, ◌>>=◌}

module _ {K : Type 0} (epoll_ctl : Ctl K) where
  -- `Channel::update` after a change of the events, and `Channel::remove`.
  unfoldable pub poll_call : ℕ → PollerCall → Epoller K → Result (Epoller K)
  poll_call channel (update e) p = change epoll_ctl (λ _. e) channel p
  poll_call channel remove p = ham.Net.Epoller.remove_channel epoll_ctl channel p

  -- The calls of one connection, in order.
  unfoldable pub poll_calls : ℕ → List PollerCall → Epoller K → Result (Epoller K)
  unfolding poll_call
  poll_calls channel [] p = ok p
  poll_calls channel (call ∷ calls) p = poll_call channel call p >>= poll_calls channel calls
