-- ===== src/Net/EventLoop/Retiring.antt =====
-- ham/net/EventLoop.cc: the destructor of a loop, and what it takes out of the poller.
use ham.Net.EventLoop.Watching.{remove_channel-Left, update_channel-Follows, IsHome}
use ham.Net.Epoller.{Epoller}
use ham.Net.EventLoop.Parts.{Parts, update_channel, remove_channel, retire, destruct, nothing}
use ham.Net.Epoller.Synced.{e_false, differ, IsSynced}
use ham.Net.Epoller.Kernel.{EpollKernel}
use ham.Net.Channel.{Channel, none_event, is_none_event, new}
use ham.Base.{
  Returns-assert, subst, Returns-mono, Returns-bind, ℕ, ◌≡◌, refl, sym, ap, ◌∙◌, ◌≢◌, true, false,
  none, arith, ◌==◌, Returns,
}

quiet : (c : Channel) → c.event ≡ none_event → is_none_event c ≡ true
unfolding is_none_event
quiet c e = rw e refl

module _ {K : Type 0} (kernel : EpollKernel K) (current : ℕ) where
  -- What is left when a channel has been retired.
  pub record Retired (channel : ℕ) (s s' : Parts K) : Type 0 where
    pub same_parts : s' ≡ record s { poller = s'.poller }
    pub synced : IsSynced kernel s'.poller
    pub unmapped : s'.poller.channel_map (s.poller.channels channel).fd ≡ none
    pub map_others :
        (j : ℕ)
        → ((s.poller.channels channel).fd == j) ≡ false
        → s'.poller.channel_map j ≡ s.poller.channel_map j
    pub gone : kernel.registered s'.poller.kernel (s.poller.channels channel).fd ≡ none
    pub at_others : (a : ℕ) → (channel == a) ≡ false → s'.poller.channels a ≡ s.poller.channels a
    pub kernel_others :
        (j : ℕ)
        → ((s.poller.channels channel).fd == j) ≡ false
        → kernel.registered s'.poller.kernel j ≡ kernel.registered s.poller.kernel j

  retire-Retired :
      (channel : ℕ) (s : Parts K)
      → IsHome current channel s
      → IsSynced kernel s.poller
      → (s.poller.channels channel).status ≢ new
      → Returns (retire kernel.epoll_ctl channel current s) (Retired channel s)
  unfolding retire
  retire-Retired channel s home h used =
      Returns-bind (update_channel kernel.epoll_ctl nothing channel current s) _ _ _
        (update_channel-Follows kernel current nothing channel s home h (λ e. absurd (used e)))
        λ s' (same, k).
          let home' : IsHome current channel s' =
            rw same (record { owned = home.owned; in_thread = home.in_thread }) in
          Returns-mono (remove_channel kernel.epoll_ctl channel current s') _ _
            (remove_channel-Left kernel current channel s' home' k.synced k.was_added
              (quiet (s'.poller.channels channel) k.event))
            λ s'' (same', synced, l). record {
              same_parts = same' ∙ ap (λ (u : Parts K). record u { poller = s''.poller }) same;
              synced = synced;
              unmapped = subst (λ (fd : ℕ). s''.poller.channel_map fd ≡ none) k.same_fd l.map_at;
              map_others = λ j e.
                  l.map_others j (subst (λ (fd : ℕ). (fd == j) ≡ false) (sym k.same_fd) e)
                  ∙ k.map_others j e;
              gone =
                  subst (λ (fd : ℕ). kernel.registered s''.poller.kernel fd ≡ none) k.same_fd
                    l.kernel_at;
              at_others = λ a e. l.at_others a e ∙ k.at_others a e;
              kernel_others = λ j e.
                  l.kernel_others j (subst (λ (fd : ℕ). (fd == j) ≡ false) (sym k.same_fd) e)
                  ∙ k.kernel_others j e;
            }

  -- Two added channels have two descriptors.
  two_fds_of :
      (a b : ℕ) (p : Epoller K)
      → IsSynced kernel p
      → (p.channels a).status ≢ new
      → (p.channels b).status ≢ new
      → (a == b) ≡ false
      → ((p.channels b).fd == (p.channels a).fd) ≡ false
  two_fds_of a b p h used used' two =
      let mine = h.added_once a used in
      let other = h.added_once b used' in
      differ (p.channels b).fd (p.channels a).fd
        λ at_fd. absurd (e_false a b two (ground (arith, mine, other, ap p.channel_map at_fd)))

  -- The destructor of a loop that is to quit returns, in the loop's thread, and leaves the poller in
  -- agreement: neither the map nor the kernel has one of the two descriptors of the loop, and of every
  -- other one both have what they had. No loop is left to the thread.
  pub destruct-Clears :
      (s : Parts K)
      → s.base.quit ≡ true
      → IsHome current s.wakeup_channel s
      → IsHome current s.alarm_channel s
      → IsSynced kernel s.poller
      → (s.poller.channels s.wakeup_channel).status ≢ new
      → (s.poller.channels s.alarm_channel).status ≢ new
      → (s.wakeup_channel == s.alarm_channel) ≡ false
      → Returns (destruct kernel.epoll_ctl current s) λ r.
        IsSynced kernel r.0.poller
        × (kernel.registered r.0.poller.kernel (s.poller.channels s.wakeup_channel).fd ≡ none)
        × (kernel.registered r.0.poller.kernel (s.poller.channels s.alarm_channel).fd ≡ none)
        × (r.0.poller.channel_map (s.poller.channels s.wakeup_channel).fd ≡ none)
        × (r.0.poller.channel_map (s.poller.channels s.alarm_channel).fd ≡ none)
        × ((fd : ℕ)
            → ((s.poller.channels s.wakeup_channel).fd == fd) ≡ false
            → ((s.poller.channels s.alarm_channel).fd == fd) ≡ false
            → (kernel.registered r.0.poller.kernel fd ≡ kernel.registered s.poller.kernel fd)
              × (r.0.poller.channel_map fd ≡ s.poller.channel_map fd))
        × (r.1 ≡ none)
  unfolding destruct
  destruct-Clears s quits home home' h used used' two = Returns-assert s.base.quit _ _ quits (
      Returns-bind (retire kernel.epoll_ctl s.wakeup_channel current s) _ _ _
        (retire-Retired s.wakeup_channel s home h used)
        λ t k.
          let still = k.at_others s.alarm_channel two in
          let home_t : IsHome current s.alarm_channel t =
            rw k.same_parts (record { owned = home'.owned; in_thread = home'.in_thread }) in
          Returns-bind (retire kernel.epoll_ctl s.alarm_channel current t) _ _ _
            (retire-Retired s.alarm_channel t home_t k.synced (rw still used'))
            λ u l.
              let at_fd : (t.poller.channels s.alarm_channel).fd
                  ≡ (s.poller.channels s.alarm_channel).fd =
                ap (λ (c : Channel). c.fd) still in
              let gone = λ (j : ℕ) (d : ((s.poller.channels s.alarm_channel).fd == j) ≡ false).
                l.kernel_others j (subst (λ (i : ℕ). (i == j) ≡ false) (sym at_fd) d) in
              let unmapped = λ (j : ℕ) (d : ((s.poller.channels s.alarm_channel).fd == j) ≡ false).
                l.map_others j (subst (λ (i : ℕ). (i == j) ≡ false) (sym at_fd) d) in
              let apart = two_fds_of s.wakeup_channel s.alarm_channel s.poller h used used' two in
              (
                l.synced,
                gone (s.poller.channels s.wakeup_channel).fd apart ∙ k.gone,
                subst (λ (i : ℕ). kernel.registered u.poller.kernel i ≡ none) at_fd l.gone,
                unmapped (s.poller.channels s.wakeup_channel).fd apart ∙ k.unmapped,
                subst (λ (i : ℕ). u.poller.channel_map i ≡ none) at_fd l.unmapped,
                (λ fd d d'.
                    (gone fd d' ∙ k.kernel_others fd d, unmapped fd d' ∙ k.map_others fd d)),
                refl,
              ))
