-- ===== src/Net/EventLoop/Watching.antt =====
-- ham/net/EventLoop.cc: the constructor of a loop, and what it watches.
use ham.Net.Timer.{Timer}
use ham.Net.Epoller.{Ctl, Epoller, change}
use ham.Net.EventLoop.Parts.{Parts, update_channel, remove_channel, construct, reading, raw_parts}
use ham.Net.Epoller.Synced.{wanted, IsSynced}
use ham.Net.Epoller.Registered.{Follows, change-Follows, registered_at}
use ham.Net.Epoller.Removed.{Left, remove_channel-IsSynced}
use ham.Net.Epoller.Kernel.{EpollKernel}
use ham.Net.Channel.{Channel, Events, none_event, is_none_event, new, added}
use ham.Base.{
  critical, ==-self, subst, Returns-bind, ℕ, ◌≡◌, refl, sym, ap, ◌∙◌, ◌≢◌, true, false, none, some,
  arith, ◌==◌, ok, err, Returns,
}

-- The caller is in the thread of the loop, and the channel belongs to the loop.
pub record IsHome {K : Type 0} (current channel : ℕ) (s : Parts K) : Type 0 where
  pub owned : (s.owner channel == s.address) ≡ true
  pub in_thread : (s.thread_id == current) ≡ true

loud : (c : Channel) → c.event ≡ reading none_event → is_none_event c ≡ false
unfolding is_none_event
loud c e = rw e refl

pub flip : (a b : ℕ) → (a == b) ≡ false → (b == a) ≡ false
flip a b h = ground arith

wanted-added : (c : Channel) → c.status ≡ added → wanted c ≡ some c.event
wanted-added c e = simp e

module _ {K : Type 0} (kernel : EpollKernel K) (current : ℕ) where
  pub update_channel-Follows :
      (f : Events → Events) (channel : ℕ) (s : Parts K)
      → IsHome current channel s
      → IsSynced kernel s.poller
      → ((s.poller.channels channel).status ≡ new
          → s.poller.channel_map (s.poller.channels channel).fd ≡ none)
      → Returns (update_channel kernel.epoll_ctl f channel current s) λ s'.
        (s' ≡ record s { poller = s'.poller })
        × Follows kernel s.poller channel (f (s.poller.channels channel).event) s'.poller
  unfolding update_channel
  update_channel-Follows f channel s home h fresh =
      rw (home.owned, home.in_thread)
        (Returns-bind (change kernel.epoll_ctl f channel s.poller) _ _ _
          (change-Follows kernel f channel s.poller h fresh) λ p' k. (refl, k))

  pub remove_channel-Left :
      (channel : ℕ) (s : Parts K)
      → IsHome current channel s
      → IsSynced kernel s.poller
      → (s.poller.channels channel).status ≢ new
      → is_none_event (s.poller.channels channel) ≡ true
      → Returns (remove_channel kernel.epoll_ctl channel current s) λ s'.
        (s' ≡ record s { poller = s'.poller })
        × IsSynced kernel s'.poller
        × Left kernel channel s.poller s'.poller
  unfolding remove_channel
  remove_channel-Left channel s home h used quiet =
      rw (home.owned, home.in_thread)
        (Returns-bind (ham.Net.Epoller.remove_channel kernel.epoll_ctl channel s.poller) _ _ _
          (remove_channel-IsSynced kernel channel s.poller h used quiet) λ p' k. (refl, k.0, k.1))

  -- A channel that has begun to read is registered for that.
  reads :
      (channel : ℕ) (p p' : Epoller K)
      → Follows kernel p channel (reading none_event) p'
      → kernel.registered p'.kernel (p.channels channel).fd ≡ some (reading none_event)
  reads channel p p' k =
      let c = p'.channels channel in
      subst (λ (fd : ℕ). kernel.registered p'.kernel fd ≡ some (reading none_event)) k.same_fd
        (registered_at kernel p' channel k.synced k.was_added
          ∙ (wanted-added c (k.watched (loud c k.event)) ∙ ap some k.event))

  module _ (address wakeup alarm : ℕ) (fds owner : ℕ → ℕ) (store : ℕ → Timer) (k : K)
      (owns_wakeup : (owner wakeup == address) ≡ true)
      (owns_alarm : (owner alarm == address) ≡ true) (two_channels : (alarm == wakeup) ≡ false)
      (two_fds : (fds alarm == fds wakeup) ≡ false)
      (fresh : (fd : ℕ) → kernel.registered k fd ≡ none) where
    abbrev raw : Parts K
    raw = raw_parts kernel.epoll_ctl address current wakeup alarm fds owner store k

    -- The kernel watches the event descriptor and the timer descriptor, for reading, and no other.
    pub record Watches (s : Parts K) : Type 0 where
      pub synced : IsSynced kernel s.poller
      pub at_wakeup : kernel.registered s.poller.kernel (fds wakeup) ≡ some (reading none_event)
      pub at_alarm : kernel.registered s.poller.kernel (fds alarm) ≡ some (reading none_event)
      pub no_other :
          (fd : ℕ)
          → (fds alarm == fd) ≡ false
          → (fds wakeup == fd) ≡ false
          → kernel.registered s.poller.kernel fd ≡ none

    raw_IsSynced : IsSynced kernel raw.poller
    raw_IsSynced = record { mapped = fresh; added_once = λ channel used. absurd (used refl) }

    raw-IsHome : (channel : ℕ) → (owner channel == address) ≡ true → IsHome current channel raw
    raw-IsHome channel e = record { owned = e; in_thread = ==-self current }

    -- In a thread that has no loop, the constructor returns a loop that watches its own two descriptors.
    pub construct-Watches :
        Returns
          (construct kernel.epoll_ctl current none raw)
          λ r. Watches r.0 × (r.1 ≡ some address)
    unfolding construct
    construct-Watches =
        Returns-bind (update_channel kernel.epoll_ctl reading alarm current raw) _ _ _
          (update_channel-Follows reading alarm raw (raw-IsHome alarm owns_alarm) raw_IsSynced
            (λ _. refl))
          λ s (same, f).
            let at_wakeup = f.at_others wakeup two_channels in
            let free = f.map_others (fds wakeup) two_fds in
            let home : IsHome current wakeup s =
              rw same (record { owned = owns_wakeup; in_thread = ==-self current }) in
            Returns-bind (update_channel kernel.epoll_ctl reading wakeup current s) _ _ _
              (update_channel-Follows reading wakeup s home f.synced
                (λ _. ap (λ (c : Channel). s.poller.channel_map c.fd) at_wakeup ∙ free))
              λ s' (same', g).
                let at_fd : (s.poller.channels wakeup).fd ≡ fds wakeup =
                  ap (λ (c : Channel). c.fd) at_wakeup in
                let g' : Follows kernel s.poller wakeup (reading none_event) s'.poller =
                  subst
                    (λ (c : Channel). Follows kernel s.poller wakeup (reading c.event) s'.poller)
                    at_wakeup g in
                let apart = λ (j : ℕ) (d : (fds wakeup == j) ≡ false).
                  g.kernel_others j (subst (λ (i : ℕ). (i == j) ≡ false) (sym at_fd) d) in
                (
                  record {
                    synced = g.synced;
                    at_wakeup =
                        subst
                          (λ (i : ℕ).
                            kernel.registered s'.poller.kernel i ≡ some (reading none_event))
                          at_fd (reads wakeup s.poller s'.poller g');
                    at_alarm =
                        apart (fds alarm) (flip (fds alarm) (fds wakeup) two_fds)
                        ∙ reads alarm raw.poller s.poller f;
                    no_other = λ j d d'. apart j d' ∙ (f.kernel_others j d ∙ fresh j);
                  },
                  refl,
                )

-- In a thread that has a loop, the constructor aborts.
construct-second :
    {K : Type 0} (epoll_ctl : Ctl K) (current other : ℕ) (s s' : Parts K)
    → update_channel epoll_ctl reading s.alarm_channel current s ≡ ok s'
    → construct epoll_ctl current (some other) s ≡ err critical
unfolding construct
construct-second epoll_ctl current other s s' e = rw e refl
