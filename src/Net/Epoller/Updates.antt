-- ===== src/Net/Epoller/Updates.antt =====
-- ham/net/Epoller.cc: `update` and the branches of `updateChannel`.
use ham.Net.Epoller.Synced.{wanted, Changed}
use ham.Net.Channel.{dismissed, is_none_event, added, Status, Events, Channel}
use ham.Net.Epoller.{
  ctl_mod, ctl_del, is_some, update_dismissed, update_added, ctl_add, set_status, put, update_new,
  Op, Epoller, update,
}
use ham.Net.Epoller.Kernel.{put-other, put-same, Succeeds, EpollKernel}
use ham.Base.{
  Returns-assert, ==-self, Bool-cases, ℕ, ◌≡◌, refl, ap, ◌∙◌, inl, inr, true, false, Option, none,
  some, ◌==◌, if◌then◌else◌, ok, Returns,
}

module _ {K : Type 0} (kernel : EpollKernel K) where
  pub update-ok :
      (op : Op) (channel : ℕ) (p : Epoller K) (now : Option Events)
      → let c = p.channels channel in
        Succeeds kernel.registered p.kernel c.fd now (kernel.epoll_ctl op c.fd c.event p.kernel)
        → (k : K) × (update kernel.epoll_ctl op channel p ≡ ok (record p { kernel = k }))
          × Succeeds kernel.registered p.kernel c.fd now (some k)
  unfolding update
  update-ok op channel p now h =
      with_result (kernel.epoll_ctl op (p.channels channel).fd (p.channels channel).event p.kernel)
        refl h
    where
      with_result :
          (r : Option K)
          → kernel.epoll_ctl op (p.channels channel).fd (p.channels channel).event p.kernel ≡ r
          → Succeeds kernel.registered p.kernel (p.channels channel).fd now r
          → (k : K) × (update kernel.epoll_ctl op channel p ≡ ok (record p { kernel = k }))
            × Succeeds kernel.registered p.kernel (p.channels channel).fd now (some k)
      with_result none e h = absurd h
      with_result (some k) e h = (k, rw e refl, h)

  module _ (channel : ℕ) (p : Epoller K) where
    abbrev pub here : Channel
    here = p.channels channel

    abbrev pub turned : Status → Channel
    turned s = record here { status = s }

    set-Changed :
        (s : Status) (m : ℕ → Option ℕ) (k : K)
        → m here.fd ≡ some channel
        → ((j : ℕ) → (here.fd == j) ≡ false → m j ≡ p.channel_map j)
        → Succeeds kernel.registered p.kernel here.fd (wanted (turned s)) (some k)
        → Changed kernel p channel
            (turned s)
            (record (set_status s channel p) { channel_map = m; kernel = k })
    unfolding set_status
    set-Changed s m k at_fd others h = record {
      at_channel = put-same channel (turned s) p.channels;
      at_others = λ a e. put-other channel a (turned s) p.channels e;
      map_at = at_fd;
      map_others = others;
      kernel_at = h.0;
      kernel_others = h.1;
    }

    -- `update` after the status was set.
    add-Changed :
        (m : ℕ → Option ℕ)
        → m here.fd ≡ some channel
        → ((j : ℕ) → (here.fd == j) ≡ false → m j ≡ p.channel_map j)
        → kernel.registered p.kernel here.fd ≡ none
        → Returns
            (update kernel.epoll_ctl ctl_add channel
              (record (set_status added channel p) { channel_map = m }))
            (Changed kernel p channel (turned added))
    unfolding set_status
    add-Changed m at_fd others unregistered =
        let q = record (set_status added channel p) { channel_map = m } in
        let same = put-same channel (turned added) p.channels in
        let (k, e, h) =
          update-ok ctl_add channel q (some here.event)
            (rw same (kernel.add p.kernel here.fd here.event unregistered)) in
        rw e (set-Changed added m k at_fd others (rw same at h))

    pub update_new-Changed :
        p.channel_map here.fd ≡ none
        → kernel.registered p.kernel here.fd ≡ none
        → Returns (update_new kernel.epoll_ctl channel p) (Changed kernel p channel (turned added))
    unfolding update_new set_status
    update_new-Changed free unregistered = rw free (
        add-Changed (put here.fd (some channel) p.channel_map)
          (put-same here.fd (some channel) p.channel_map)
          (λ j e. put-other here.fd j (some channel) p.channel_map e) unregistered)

    pub update_dismissed-Changed :
        p.channel_map here.fd ≡ some channel
        → kernel.registered p.kernel here.fd ≡ none
        → Returns
            (update_dismissed kernel.epoll_ctl channel p)
            (Changed kernel p channel (turned added))
    unfolding update_dismissed set_status
    update_dismissed-Changed mine unregistered = rw mine (
        Returns-assert (channel == channel) _ _ (==-self channel)
          (add-Changed p.channel_map mine (λ j e. refl) unregistered))

    -- An added channel stays added while it wants some event, and is dismissed otherwise.
    abbrev pub kept : Channel
    kept = if is_none_event here then turned dismissed else turned added

    pub update_added-Changed :
        p.channel_map here.fd ≡ some channel
        → here.status ≡ added
        → is_some (kernel.registered p.kernel here.fd) ≡ true
        → Returns (update_added kernel.epoll_ctl channel p) (Changed kernel p channel kept)
    unfolding update_added set_status
    update_added-Changed mine st registered =
        rw (mine, ==-self channel)
          (elim (Bool-cases (is_none_event here)) [
            | inl none_wanted ↦
                let (k, e, h) =
                  update-ok ctl_del channel p none
                    (kernel.del p.kernel here.fd here.event registered) in
                rw (none_wanted, e) (set-Changed dismissed p.channel_map k mine (λ j e. refl) h)
            | inr some_wanted ↦
                let (k, e, h) =
                  update-ok ctl_mod channel p (some here.event)
                    (kernel.mod_event p.kernel here.fd here.event registered) in
                rw (some_wanted, e)
                  (record {
                    at_channel = ap (λ s. record here { status = s }) st;
                    at_others = λ a e. refl;
                    map_at = mine;
                    map_others = λ j e. refl;
                    kernel_at = h.0;
                    kernel_others = h.1;
                  })
          ])

  -- A change of a channel's events, before the poller hears of it, is no change of its own.
  pub Changed-before :
      (p p' : Epoller K) (channel : ℕ) (c c' : Channel)
      → Changed kernel (record p { channels = put channel c p.channels }) channel c' p'
      → Changed kernel p channel c' p'
  Changed-before p p' channel c c' k = record {
    at_channel = k.at_channel;
    at_others = λ a e. k.at_others a e ∙ put-other channel a c p.channels e;
    map_at = k.map_at;
    map_others = k.map_others;
    kernel_at = k.kernel_at;
    kernel_others = k.kernel_others;
  }
