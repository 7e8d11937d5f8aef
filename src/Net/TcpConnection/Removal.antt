-- ===== src/Net/TcpConnection/Removal.antt =====
-- ham/net/TcpConnection.cc: `destoryConnection`, down to the poller.
use mathlib.Core.List.{append_assoc}
use ham.Net.TcpConnection.{
  PollerCall, update, remove, Callbacks, TcpConnection, disconnected, destory_connection,
  is_connected, update_channel, set_state,
}
use ham.Net.TcpConnection.Polled.{poll_call, poll_calls}
use ham.Net.Epoller.{Epoller, remove_channel, change}
use ham.Net.Epoller.Kernel.{EpollKernel}
use ham.Net.Epoller.Synced.{IsSynced}
use ham.Net.Epoller.Registered.{change-Follows}
use ham.Net.Epoller.Removed.{remove_channel-IsSynced}
use ham.Net.Channel.{new, none_event, is_none_event, disable_all}
use ham.Base.{
  subst, Bool-cases, Returns-bind, assert_failed, ℕ, ◌≡◌, refl, ap, ◌∙◌, ◌≢◌, inl, inr, Bool, true,
  false, ◌||◌, none, List, [], ◌∷◌, ◌++◌, Result, ok, err, Returns,
}

-- The connection callback returns, and asks nothing of the poller for a connection that is disconnected.
abbrev pub LeavesPoller : Callbacks → Type 0
LeavesPoller cb =
    (d : TcpConnection)
    → d.state ≡ disconnected
    → Returns (cb.connection_callback d) λ d'. d'.poller_calls ≡ d.poller_calls

module _ {K : Type 0} (kernel : EpollKernel K) where
  -- The descriptor is gone from the map and the kernel; or else the assertion of `removeChannel` failed.
  abbrev pub Removes : Bool → ℕ → Result (Epoller K) → Type 0
  Removes true fd m =
      Returns m
        λ p. IsSynced kernel p × (p.channel_map fd ≡ none) × (kernel.registered p.kernel fd ≡ none)
  Removes false fd m = m ≡ err assert_failed

  module _ (channel : ℕ) (p : Epoller K) (h : IsSynced kernel p)
      (used : (p.channels channel).status ≢ new) where
    quiet_removed :
        is_none_event (p.channels channel) ≡ true
        → Removes true (p.channels channel).fd (poll_calls kernel.epoll_ctl channel (remove ∷ []) p)
    unfolding poll_calls poll_call
    quiet_removed quiet =
        Returns-bind (remove_channel kernel.epoll_ctl channel p) ok _ _
          (remove_channel-IsSynced kernel channel p h used quiet)
          λ p' (synced, l). (synced, l.map_at, l.kernel_at)

    busy_kept :
        is_none_event (p.channels channel) ≡ false
        → poll_calls kernel.epoll_ctl channel (remove ∷ []) p ≡ err assert_failed
    unfolding poll_calls poll_call remove_channel
    busy_kept busy = rw busy refl

  silenced_removed :
      (channel : ℕ) (p : Epoller K)
      → IsSynced kernel p
      → (p.channels channel).status ≢ new
      → Removes true
          (p.channels channel).fd
          (poll_calls kernel.epoll_ctl channel (update none_event ∷ remove ∷ []) p)
  unfolding poll_calls poll_call is_none_event
  silenced_removed channel p h used =
      Returns-bind (change kernel.epoll_ctl (λ _. none_event) channel p) _ _ _
        (change-Follows kernel (λ _. none_event) channel p h (λ e. absurd (used e)))
        λ p' k.
          subst (λ (fd : ℕ). Removes true fd (poll_calls kernel.epoll_ctl channel (remove ∷ []) p'))
            k.same_fd (quiet_removed channel p' k.synced k.was_added (rw k.event refl))

  asks_same :
      (channel : ℕ) (p : Epoller K) (c : TcpConnection)
      → (p.channels channel).event ≡ c.channel.event
      → is_none_event (p.channels channel) ≡ is_none_event c.channel
  unfolding is_none_event
  asks_same channel p c same = rw same refl

  -- `destoryConnection` returns. What it asks of the poller takes the descriptor out of the map and the
  -- kernel exactly when the connection was connected, or its channel asked for nothing, as after
  -- `handleClose`. For any other connection, such as one that was shut down and still reads, the
  -- assertion of `removeChannel` fails. The connection callback asks nothing of the poller.
  pub destory_connection-Removes :
      (cb : Callbacks) (c : TcpConnection) (channel : ℕ) (p : Epoller K)
      → LeavesPoller cb
      → IsSynced kernel p
      → (p.channels channel).status ≢ new
      → (p.channels channel).event ≡ c.channel.event
      → Returns (destory_connection cb c) λ d.
        (calls : List PollerCall) × (d.poller_calls ≡ c.poller_calls ++ calls)
        × Removes
            (is_connected c.state || is_none_event c.channel)
            (p.channels channel).fd
            (poll_calls kernel.epoll_ctl channel calls p)
  unfolding destory_connection update_channel disable_all set_state
      ham.Net.TcpConnection.remove_channel is_none_event
  destory_connection-Removes cb c channel p leaves h used same =
      elim (Bool-cases (is_connected c.state)) [
        | inl e ↦ rw e (
            Returns-bind (cb.connection_callback _) _ _ _ (leaves _ refl) λ d k. (
              update none_event ∷ remove ∷ [],
              ap (λ calls. calls ++ (remove ∷ [])) k ∙ append_assoc c.poller_calls _ _,
              silenced_removed channel p h used,
            ))
        | inr e ↦ rw e (
          remove ∷ [],
          refl,
          elim (Bool-cases (is_none_event c.channel)) [
            | inl quiet ↦
                rw quiet (quiet_removed channel p h used (asks_same channel p c same ∙ quiet))
            | inr busy ↦ rw busy (busy_kept channel p h used (asks_same channel p c same ∙ busy))
          ],
        )
      ]
