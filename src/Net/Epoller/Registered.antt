-- ===== src/Net/Epoller/Registered.antt =====
-- ham/net/Epoller.cc: a change of what a channel asks for.
use mathlib.Core.Bool.{false≢true}
use ham.Net.Epoller.Synced.{
  wanted, added≢new, dismissed≢new, Owned, IsSynced, Changed, Changed-mapped, Changed-added_once,
}
use ham.Net.Epoller.Updates.{
  here, kept, update_new-Changed, update_dismissed-Changed, update_added-Changed, Changed-before,
}
use ham.Net.Channel.{dismissed, is_none_event, added, Status, new, Events, Channel}
use ham.Net.Epoller.{
  update_by, is_some, update_dismissed, update_added, put, update_new, Epoller, change,
  update_channel,
}
use ham.Net.Epoller.Kernel.{put-same, EpollKernel}
use ham.Base.{
  Bool-cases, ◌==◌, false, if-both, Returns-mono, subst, ℕ, ◌≡◌, refl, sym, ap, ◌∙◌, ◌≢◌, inl, inr,
  true, none, Returns,
}

module _ {K : Type 0} (kernel : EpollKernel K) where
  -- What a change of the events of a channel leads to.
  pub record Follows (p : Epoller K) (channel : ℕ) (e : Events) (p' : Epoller K) : Type 0 where
    pub synced : IsSynced kernel p'
    pub event : (p'.channels channel).event ≡ e
    pub same_fd : (p'.channels channel).fd ≡ (p.channels channel).fd
    pub was_added : (p'.channels channel).status ≢ new
    pub watched : is_none_event (p'.channels channel) ≡ false → (p'.channels channel).status ≡ added
    pub at_others : (a : ℕ) → (channel == a) ≡ false → p'.channels a ≡ p.channels a
    pub map_others :
        (j : ℕ) → ((p.channels channel).fd == j) ≡ false → p'.channel_map j ≡ p.channel_map j
    pub kernel_others :
        (j : ℕ)
        → ((p.channels channel).fd == j) ≡ false
        → kernel.registered p'.kernel j ≡ kernel.registered p.kernel j

  Changed-Follows :
      (p p' : Epoller K) (channel : ℕ) (c' : Channel)
      → IsSynced kernel p
      → (p.channels channel).fd ≡ c'.fd
      → c'.status ≢ new
      → Owned (p.channel_map c'.fd) channel
      → (is_none_event c' ≡ false → c'.status ≡ added)
      → Changed kernel p channel c' p'
      → Follows p channel c'.event p'
  Changed-Follows p p' channel c' h same_fd used owned asking k = record {
    synced = record {
      mapped = Changed-mapped kernel p p' channel c' h same_fd used k;
      added_once = Changed-added_once kernel p p' channel c' h owned k;
    };
    event = ap (λ (c : Channel). c.event) k.at_channel;
    same_fd = ap (λ (c : Channel). c.fd) k.at_channel ∙ sym same_fd;
    was_added = λ e. used (sym (ap (λ (c : Channel). c.status) k.at_channel) ∙ e);
    watched =
        subst (λ (c : Channel). is_none_event c ≡ false → c.status ≡ added) (sym k.at_channel)
          asking;
    at_others = k.at_others;
    map_others = λ j e. k.map_others j (subst (λ (i : ℕ). (i == j) ≡ false) same_fd e);
    kernel_others = λ j e. k.kernel_others j (subst (λ (i : ℕ). (i == j) ≡ false) same_fd e);
  }

  pub registered_at :
      (p : Epoller K) (channel : ℕ)
      → IsSynced kernel p
      → (p.channels channel).status ≢ new
      → kernel.registered p.kernel (p.channels channel).fd ≡ wanted (p.channels channel)
  registered_at p channel h used =
      let at_fd = h.mapped (p.channels channel).fd in (rw (h.added_once channel used) at at_fd).2

  module _ (f : Events → Events) (channel : ℕ) (p : Epoller K) (h : IsSynced kernel p) where
    abbrev asks : Channel
    asks = record (p.channels channel) { event = f (p.channels channel).event }

    abbrev asked : Epoller K
    asked = record p { channels = put channel asks p.channels }

    same_asks : asked.channels channel ≡ asks
    same_asks = put-same channel asks p.channels

    by_status :
        (s : Status)
        → (p.channels channel).status ≡ s
        → (s ≡ new → p.channel_map (p.channels channel).fd ≡ none)
        → Returns
            (update_by kernel.epoll_ctl s channel asked)
            (Follows p channel (asked.channels channel).event)
    unfolding update_by is_none_event
    by_status new e fresh =
        let free = fresh refl in
        let unregistered : kernel.registered p.kernel (p.channels channel).fd ≡ none =
          rw free at (h.mapped (p.channels channel).fd) in
        Returns-mono (update_new kernel.epoll_ctl channel asked) _ _
          (update_new-Changed kernel channel asked (rw same_asks free) (rw same_asks unregistered))
          λ p' k.
            Changed-Follows p p' channel _ h (rw same_asks refl) added≢new (inl (rw same_asks free))
              (λ _. refl) (Changed-before kernel p p' channel asks _ k)
    by_status dismissed e fresh =
        let used : (p.channels channel).status ≢ new = λ e'. dismissed≢new (sym e ∙ e') in
        let mine = h.added_once channel used in
        let unregistered : kernel.registered p.kernel (p.channels channel).fd ≡ none =
          rw e at (registered_at p channel h used) in
        Returns-mono (update_dismissed kernel.epoll_ctl channel asked) _ _
          (update_dismissed-Changed kernel channel asked (rw same_asks mine)
            (rw same_asks unregistered))
          λ p' k.
            Changed-Follows p p' channel _ h (rw same_asks refl) added≢new (inr (rw same_asks mine))
              (λ _. refl) (Changed-before kernel p p' channel asks _ k)
    by_status added e fresh =
        let used : (p.channels channel).status ≢ new = λ e'. added≢new (sym e ∙ e') in
        let mine = h.added_once channel used in
        let registered : is_some (kernel.registered p.kernel (p.channels channel).fd) ≡ true =
          rw e at (ap is_some (registered_at p channel h used)) in
        let c' = kept kernel channel asked in
        let t = is_none_event (here kernel channel asked) in
        let same_fd : (here kernel channel asked).fd ≡ c'.fd =
          if-both (λ (c : Channel). (here kernel channel asked).fd ≡ c.fd) t _ _ refl refl in
        let same_event : c'.event ≡ (here kernel channel asked).event =
          if-both (λ (c : Channel). c.event ≡ (here kernel channel asked).event) t _ _ refl refl in
        let used' : c'.status ≢ new =
          if-both (λ (c : Channel). c.status ≢ new) t _ _ dismissed≢new added≢new in
        let asking : is_none_event c' ≡ false → c'.status ≡ added = elim (Bool-cases t) [
          | inl quiet ↦ rw quiet (λ some_wanted. absurd (false≢true (sym some_wanted ∙ quiet)))
          | inr some_wanted ↦ rw some_wanted (λ _. refl)
        ] in
        let at_fd : (p.channels channel).fd ≡ c'.fd =
          ap (λ (c : Channel). c.fd) (sym same_asks) ∙ same_fd in
        Returns-mono (update_added kernel.epoll_ctl channel asked) _ _
          (update_added-Changed kernel channel asked (rw same_asks mine) (rw same_asks e)
            (rw same_asks registered))
          λ p' k.
            subst (λ e'. Follows p channel e' p') same_event
              (Changed-Follows p p' channel c' h at_fd used' (inr (rw (sym at_fd) mine)) asking
                (Changed-before kernel p p' channel asks c' k))

  -- Changing what a channel asks for never fails, and afterwards the kernel watches exactly what every
  -- channel asks for, and the other channels and descriptors are as they were; a channel that was not
  -- added before has a descriptor that no channel has.
  pub change-Follows :
      (f : Events → Events) (channel : ℕ) (p : Epoller K)
      → IsSynced kernel p
      → ((p.channels channel).status ≡ new → p.channel_map (p.channels channel).fd ≡ none)
      → Returns
          (change kernel.epoll_ctl f channel p)
          (Follows p channel (f (p.channels channel).event))
  unfolding change update_channel
  change-Follows f channel p h fresh =
      let same = put-same channel (asks f channel p h) p.channels in
      rw same (rw same at (by_status f channel p h (p.channels channel).status refl fresh))
