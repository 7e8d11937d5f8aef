-- ===== src/Net/Epoller/Removed.antt =====
-- ham/net/Epoller.cc: `removeChannel`.
use ham.Net.Epoller.Synced.{SyncedAt, IsSynced, SyncedAt-other, e_false, differ, ==→≡}
use ham.Net.Epoller.Updates.{update-ok}
use ham.Net.Epoller.{
  is_new, is_added, ctl_del, is_some, set_status, put, update, remove_channel, Epoller,
}
use ham.Net.Epoller.Registered.{registered_at}
use ham.Net.Epoller.Kernel.{put-other, put-same, EpollKernel}
use ham.Net.Channel.{dismissed, is_none_event, added, Status, new, Channel}
use ham.Base.{
  Returns-mono, ==-self, subst, Bool-cases, ℕ, ◌≡◌, refl, sym, ap, ◌∙◌, ◌≢◌, inl, inr, true, false,
  none, some, arith, ◌==◌, if◌then◌else◌, ok, ◌>>=◌, Returns,
}

not_new : (s : Status) → s ≢ new → is_new s ≡ false
not_new new h = absurd (h refl)
not_new dismissed h = refl
not_new added h = refl

module _ {K : Type 0} (kernel : EpollKernel K) (channel : ℕ) (p : Epoller K) where
  -- The map, the kernel and the other channels, after the channel has left all of them.
  pub record Left (p' : Epoller K) : Type 0 where
    pub now_new : (p'.channels channel).status ≡ new
    pub at_others : (a : ℕ) → (channel == a) ≡ false → p'.channels a ≡ p.channels a
    pub map_at : p'.channel_map (p.channels channel).fd ≡ none
    pub map_others :
        (j : ℕ) → ((p.channels channel).fd == j) ≡ false → p'.channel_map j ≡ p.channel_map j
    pub kernel_at : kernel.registered p'.kernel (p.channels channel).fd ≡ none
    pub kernel_others :
        (j : ℕ)
        → ((p.channels channel).fd == j) ≡ false
        → kernel.registered p'.kernel j ≡ kernel.registered p.kernel j

  Left-mapped :
      (p' : Epoller K)
      → IsSynced kernel p
      → Left p'
      → (j : ℕ) → SyncedAt kernel p' j (p'.channel_map j)
  Left-mapped p' h k j = elim (Bool-cases ((p.channels channel).fd == j)) [
    | inl e ↦
        subst (λ i. SyncedAt kernel p' i (p'.channel_map i)) (==→≡ (p.channels channel).fd j e)
          (rw k.map_at k.kernel_at)
    | inr e ↦ rw (k.map_others j e) (
        SyncedAt-other kernel p p' j (p.channel_map j) (k.kernel_others j e)
          (λ a m_eq fd_eq. k.at_others a (
            differ channel a (λ same.
              absurd
                (e_false (p.channels channel).fd j e (ap (λ i. (p.channels i).fd) same ∙ fd_eq)))))
          (h.mapped j))
  ]

  Left-added_once :
      (p' : Epoller K)
      → IsSynced kernel p
      → (p.channels channel).status ≢ new
      → Left p'
      → (a : ℕ) → (p'.channels a).status ≢ new
      → p'.channel_map (p'.channels a).fd ≡ some a
  Left-added_once p' h used k a still = elim (Bool-cases (channel == a)) [
    | inl e ↦
        absurd (still (subst (λ i. (p'.channels i).status ≡ new) (==→≡ channel a e) k.now_new))
    | inr e ↦
        let same = k.at_others a e in
        let old = h.added_once a (rw same at still) in
        let mine = h.added_once channel used in
        rw same (
          k.map_others (p.channels a).fd (
            differ (p.channels channel).fd (p.channels a).fd λ at_fd.
              absurd (e_false channel a e (ground (arith, mine, old, ap p.channel_map at_fd))))
          ∙ old)
  ]

  -- The epoller after `channel_map.erase` and, for an added channel, the deletion in the kernel.
  erased-Left :
      (k : K)
      → kernel.registered k (p.channels channel).fd ≡ none
      → ((j : ℕ)
          → ((p.channels channel).fd == j) ≡ false
          → kernel.registered k j ≡ kernel.registered p.kernel j)
      → Left (
          set_status new channel
            (record p { channel_map = put (p.channels channel).fd none p.channel_map; kernel = k }))
  unfolding set_status
  erased-Left k gone others = record {
    now_new =
        ap (λ (c : Channel). c.status)
          (put-same channel (record (p.channels channel) { status = new }) p.channels);
    at_others =
        λ a e. put-other channel a (record (p.channels channel) { status = new }) p.channels e;
    map_at = put-same (p.channels channel).fd none p.channel_map;
    map_others = λ j e. put-other (p.channels channel).fd j none p.channel_map e;
    kernel_at = gone;
    kernel_others = others;
  }

  abbrev erased : Epoller K
  erased = record p { channel_map = put (p.channels channel).fd none p.channel_map }

  -- What is left of `removeChannel` behind its assertions.
  leaves-Left :
      (s : Status)
      → (p.channels channel).status ≡ s
      → s ≢ new
      → IsSynced kernel p
      → Returns
          ((if is_added kernel.epoll_ctl s
              then update kernel.epoll_ctl ctl_del channel erased
              else ok erased)
            >>= λ after. ok (set_status new channel after))
          Left
  leaves-Left new e used h = absurd (used refl)
  leaves-Left dismissed e used h =
      erased-Left p.kernel (rw e at (registered_at kernel p channel h (λ e'. used (sym e ∙ e'))))
        (λ j _. refl)
  leaves-Left added e used h =
      let registered : is_some (kernel.registered p.kernel (p.channels channel).fd) ≡ true =
        rw e at (ap is_some (registered_at kernel p channel h (λ e'. used (sym e ∙ e')))) in
      let (k, done, gone) =
        update-ok kernel ctl_del channel erased none
          (kernel.del p.kernel (p.channels channel).fd (p.channels channel).event registered) in
      rw done (erased-Left k gone.0 gone.1)

  -- A channel that was added and asks for nothing can be removed: no assertion fails, map, channels and
  -- kernel agree afterwards, neither the map nor the kernel has the descriptor, the channel is as new,
  -- and the other channels and descriptors are as they were.
  pub remove_channel-IsSynced :
      IsSynced kernel p
      → (p.channels channel).status ≢ new
      → is_none_event (p.channels channel) ≡ true
      → Returns (remove_channel kernel.epoll_ctl channel p) (λ p'. IsSynced kernel p' × Left p')
  unfolding remove_channel
  remove_channel-IsSynced h used none_wanted =
      rw
        (
          none_wanted,
          h.added_once channel used,
          ==-self channel,
          not_new (p.channels channel).status used,
        )
        (Returns-mono _ Left _ (leaves-Left (p.channels channel).status refl used h) λ p' k.
          (record { mapped = Left-mapped p' h k; added_once = Left-added_once p' h used k }, k))
