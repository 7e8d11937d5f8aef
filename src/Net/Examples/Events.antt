-- ===== src/Net/Examples/Events.antt =====
-- The theorems on channels and the poller, at a kernel that is a function.
use ham.Net.Channel.Dispatch.{handle_event-count, count, is_set, wants}
use ham.Net.Epoller.Kernel.{put-other, put-same, Succeeds, EpollKernel}
use ham.Net.Epoller.Registered.{change-Follows, Follows}
use ham.Net.Epoller.Synced.{IsSynced}
use ham.Net.Channel.{handle_event, none_event, Events, new_channel, Channel, Callbacks, on_read}
use ham.Net.Channel.{is_none_event}
use ham.Net.Epoller.{ctl_del, ctl_mod, ctl_add, is_some, Ctl, Epoller, change, put}
use ham.Net.Epoller.{remove_channel}
use ham.Net.Epoller.Removed.{Left, remove_channel-IsSynced}
use ham.Net.Channel.{dismissed, new}
use mathlib.Core.Bool.{true≢false}
use ham.Base.{
  inr, false, arith, inl, ap, Bool-cases, ◌≢◌, ◌==◌, ℕ, ◌+◌, ◌≡◌, refl, true, Option, none, some,
  if◌then◌else◌, Returns,
}

-- A channel with all its callbacks, on which data and a hang-up arrive.
abbrev all_set : Callbacks
all_set = record { close_cb = true; error_cb = true; read_cb = true; write_cb = true }

abbrev hung_up : Channel
hung_up = record (new_channel 4) { revent = record none_event { input = true; hangup = true } }

handle_event-count_example : count on_read (handle_event all_set true hung_up) ≡ 1
unfolding wants is_set
handle_event-count_example = handle_event-count on_read all_set true hung_up

-- A kernel that keeps the events of each descriptor, and refuses as documented.
abbrev pub Registry : Type 0
Registry = ℕ → Option Events

abbrev pub registry_ctl : Ctl Registry
registry_ctl ctl_add fd e k = if is_some (k fd) then none else some (put fd (some e) k)
registry_ctl ctl_mod fd e k = if is_some (k fd) then some (put fd (some e) k) else none
registry_ctl ctl_del fd e k = if is_some (k fd) then some (put fd none k) else none

pub put-Succeeds :
    (k : Registry) (fd : ℕ) (now : Option Events)
    → Succeeds (λ (k : Registry) fd. k fd) k fd now (some (put fd now k))
put-Succeeds k fd now = (put-same fd now k, λ other e. put-other fd other now k e)

abbrev pub registry : EpollKernel Registry
registry = record {
  registered = λ k fd. k fd;
  epoll_ctl = registry_ctl;
  add = λ k fd e free. rw free (put-Succeeds k fd (some e));
  mod_event = λ k fd e used. rw used (put-Succeeds k fd (some e));
  del = λ k fd e used. rw used (put-Succeeds k fd none);
}

-- The start: every channel is new, and nothing is registered. Channel 4 has descriptor 104.
abbrev nothing_added : Epoller Registry
nothing_added = record {
  channels = λ a. new_channel (a + 100);
  channel_map = λ fd. none;
  kernel = λ fd. none;
  ret_size = 16;
}

nothing_added-IsSynced : IsSynced registry nothing_added
nothing_added-IsSynced = record {
  mapped = λ fd. refl;
  added_once = λ channel used. absurd (used refl);
}

abbrev pub reading : Events → Events
reading e = record e { input = true; priority = true }

change-Follows_example :
    Returns
      (change registry_ctl reading 4 nothing_added)
      (Follows registry nothing_added 4 (reading none_event))
change-Follows_example =
    change-Follows registry reading 4 nothing_added nothing_added-IsSynced (λ e. refl)

-- Channel 4 was added and asks for nothing any more.
abbrev one_dismissed : Epoller Registry
one_dismissed = record nothing_added {
  channels = λ a.
      if 4 == a then record (new_channel 104) { status = dismissed } else new_channel (a + 100);
  channel_map = λ fd. if 104 == fd then some 4 else none;
}

dismissed≢new : dismissed ≢ new
dismissed≢new e = true≢false (ap (λ s. elim s [ new ↦ false | _ ↦ true ]) e)

one_dismissed-IsSynced : IsSynced registry one_dismissed
one_dismissed-IsSynced = record {
  mapped = λ fd. elim (Bool-cases (104 == fd)) [
    | inl e ↦ rw e (ground (arith, e), dismissed≢new, refl)
    | inr e ↦ rw e refl
  ];
  added_once = λ channel used. elim (Bool-cases (4 == channel)) [
    | inl e ↦ rw e (ap some (ground (arith, e)))
    | inr e ↦ absurd ((rw e at used) refl)
  ];
}

remove_channel-IsSynced_example :
    Returns
      (remove_channel registry_ctl 4 one_dismissed)
      (λ p. IsSynced registry p × Left registry 4 one_dismissed p)
unfolding is_none_event
remove_channel-IsSynced_example =
    remove_channel-IsSynced registry 4 one_dismissed one_dismissed-IsSynced dismissed≢new refl
