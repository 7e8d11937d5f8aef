-- ===== src/Net/Epoller.antt =====
-- ham/net/Epoller.cc: the descriptors that the loop watches. The kernel is a parameter of the model.
pub mod Kernel
pub mod Synced
pub mod Updates
pub mod Registered
pub mod Removed
pub mod Reported
use ham.Net.Channel.{added, new, dismissed, is_none_event, Channel, Events, Status}
use ham.Base.{
  critical, ℕ, zero, suc, ◌+◌, ◌-◌, ◌*◌, ◌/◌, ◌%◌, ◌^◌, ◌≤◌, ◌<◌, min, String, ◌≡◌, refl, sym, ap,
  ◌∙◌, ◌≢◌, ◌⊎◌, inl, inr, Bool, true, false, not, ◌&&◌, ◌||◌, Option, none, some, List, [], ◌∷◌,
  ◌++◌, arith, ltb, leb, ◌==◌, if◌then◌else◌, add_size, sub_size, length, take, drop, bytes, Result,
  ok, err, ◌>>=◌, ◌>>◌, assert, Returns,
}

-- The `op` of `epoll_ctl`.
pub data Op : Type 0 where
  ctl_add : Op
  ctl_mod : Op
  ctl_del : Op

-- `epoll_ctl` on an instance of the kernel's; `none` is a negative result.
abbrev pub Ctl : Type 0 → Type 0
Ctl K = Op → ℕ → Events → K → Option K

-- A channel is named by its address. `channelMap_` maps a descriptor to a channel.
pub record Epoller (K : Type 0) : Type 0 where
  pub channels : ℕ → Channel
  pub channel_map : ℕ → Option ℕ
  pub kernel : K
  -- `retEpoll_event_.size()`.
  pub ret_size : ℕ

abbrev pub init_event_list_size : ℕ
init_event_list_size = 16

abbrev pub new_epoller : {K : Type 0} → (ℕ → Channel) → K → Epoller K
new_epoller store k = record {
  channels = store;
  channel_map = λ fd. none;
  kernel = k;
  ret_size = init_event_list_size;
}

-- A map with one entry changed.
unfoldable pub put {ℓ} : {A : Type ℓ} → ℕ → A → (ℕ → A) → ℕ → A
put i a m j = if i == j then a else m j

abbrev pub is_some {ℓ} : {A : Type ℓ} → Option A → Bool
is_some none = false
is_some (some a) = true

abbrev pub is_mapped_to : Option ℕ → ℕ → Bool
is_mapped_to none a = false
is_mapped_to (some b) a = b == a

abbrev is_del : Op → Bool
is_del ctl_del = true
is_del _ = false

unfoldable pub set_status : {K : Type 0} → Status → ℕ → Epoller K → Epoller K
unfolding put
set_status s channel p = record p {
  channels = put channel (record (p.channels channel) { status = s }) p.channels;
}

abbrev pub is_new : Status → Bool
is_new new = true
is_new _ = false

module _ {K : Type 0} (epoll_ctl : Ctl K) where
  abbrev kernel_after : Op → Option K → Epoller K → Result (Epoller K)
  kernel_after op (some k) p = ok (record p { kernel = k })
  kernel_after op none p = if is_del op then ok p else err critical

  -- A failure to delete is only logged.
  unfoldable pub update : Op → ℕ → Epoller K → Result (Epoller K)
  update op channel p =
      let c = p.channels channel in kernel_after op (epoll_ctl op c.fd c.event p.kernel) p

  unfoldable pub update_new : ℕ → Epoller K → Result (Epoller K)
  unfolding put set_status update
  update_new channel p = do
    let fd = (p.channels channel).fd
    assert (not (is_some (p.channel_map fd)))
    update ctl_add channel
        (set_status added channel (record p { channel_map = put fd (some channel) p.channel_map }))

  unfoldable pub update_dismissed : ℕ → Epoller K → Result (Epoller K)
  unfolding set_status update
  update_dismissed channel p = do
    let fd = (p.channels channel).fd
    assert (is_some (p.channel_map fd))
    assert (is_mapped_to (p.channel_map fd) channel)
    update ctl_add channel (set_status added channel p)

  unfoldable pub update_added : ℕ → Epoller K → Result (Epoller K)
  unfolding set_status update is_none_event
  update_added channel p = do
    let fd = (p.channels channel).fd
    assert (is_some (p.channel_map fd))
    assert (is_mapped_to (p.channel_map fd) channel)
    if is_none_event (p.channels channel) then dismiss else update ctl_mod channel p
    where
      dismiss : Result (Epoller K)
      dismiss = do after ← update ctl_del channel p; ok (set_status dismissed channel after)

  unfoldable pub update_by : Status → ℕ → Epoller K → Result (Epoller K)
  update_by new channel p = update_new channel p
  update_by dismissed channel p = update_dismissed channel p
  update_by added channel p = update_added channel p

  unfoldable pub update_channel : ℕ → Epoller K → Result (Epoller K)
  update_channel channel p = update_by (p.channels channel).status channel p

  abbrev pub is_added : Status → Bool
  is_added added = true
  is_added _ = false

  unfoldable pub remove_channel : ℕ → Epoller K → Result (Epoller K)
  unfolding put set_status update is_none_event
  remove_channel channel p = do
    let c = p.channels channel
    assert (is_none_event c)
    assert (is_some (p.channel_map c.fd))
    assert (is_mapped_to (p.channel_map c.fd) channel)
    assert (not (is_new c.status))
    let erased = record p { channel_map = put c.fd none p.channel_map }
    after ← if is_added c.status then update ctl_del channel erased else ok erased
    ok (set_status new channel after)

  -- What `Channel::enableReading` and the like do: the channel's events change, and then the poller's.
  unfoldable pub change : (Events → Events) → ℕ → Epoller K → Result (Epoller K)
  unfolding put
  change f channel p =
      let c = p.channels channel in
      update_channel channel
        (record p { channels = put channel (record c { event = f c.event }) p.channels })

-- What `epoll_wait` reports: channels, by the pointer they were registered with, and their events.
pub data Wait : Type 0 where
  ready : List (ℕ × Events) → Wait
  wait_failed : Wait

module _ {K : Type 0} where
  unfoldable pub set_revent : Events → ℕ → Epoller K → Epoller K
  unfolding put
  set_revent e channel p = record p {
    channels = put channel (record (p.channels channel) { revent = e }) p.channels;
  }

  unfoldable pub fill_each : List (ℕ × Events) → Epoller K → Result (List ℕ × Epoller K)
  unfolding set_revent
  fill_each [] p = ok ([], p)
  fill_each ((channel, e) ∷ es) p = do
    assert (is_some (p.channel_map (p.channels channel).fd))
    assert (is_mapped_to (p.channel_map (p.channels channel).fd) channel)
    (active, after) ← fill_each es (set_revent e channel p)
    ok (channel ∷ active, after)

  unfoldable pub fill_active_channels : List (ℕ × Events) → Epoller K → Result (List ℕ × Epoller K)
  fill_active_channels events p = assert (leb (length events) p.ret_size) >> fill_each events p

  -- A full list of events is doubled for the next call. Errors are only logged.
  unfoldable pub wait : Wait → Epoller K → Result (List ℕ × Epoller K)
  wait wait_failed p = ok ([], p)
  wait (ready []) p = ok ([], p)
  wait (ready (e ∷ es)) p = do
    (active, after) ← fill_active_channels (e ∷ es) p
    ok (
        if length (e ∷ es) == after.ret_size
        then (active, record after { ret_size = after.ret_size * 2 })
        else (active, after))
