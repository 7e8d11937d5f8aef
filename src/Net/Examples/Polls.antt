-- ===== src/Net/Examples/Polls.antt =====
-- A loop from its constructor to its destructor, over a kernel that is a function.
use ham.Net.Examples.Events.{Registry, registry_ctl, registry}
use ham.Net.EventLoop.Parts.{Parts, construct, destruct, raw_parts, reading, poll_round}
use ham.Net.EventLoop.Watching.{Watches, construct-Watches}
use ham.Net.EventLoop.Retiring.{destruct-Clears}
use ham.Net.EventLoop.Polling.{poll_round-answers}
use ham.Net.Epoller.Reported.{Omits}
use ham.Net.Epoller.Synced.{added≢new, IsSynced}
use ham.Net.Epoller.{ready}
use ham.Net.EventLoop.{new_loop}
use ham.Net.TimerQueue.{new_timer_queue}
use ham.Net.Timer.{Timer}
use ham.Net.Channel.{
  handle_event, Channel, Callbacks, Events, new_channel, added, none_event, on_read,
}
use ham.Base.{
  Bool-cases, ℕ, ◌+◌, ◌<◌, ◌≡◌, refl, ap, inl, inr, true, false, none, some, List, [], ◌∷◌, arith,
  ◌==◌, if◌then◌else◌, Returns,
}

abbrev no_timers : ℕ → Timer
no_timers p = record { expiration = 0; interval = 0; repeat = false; serial_num = 0 }

-- Loop 1 of thread 7; its channels 4 and 5 have the descriptors 104 and 105.
abbrev descriptor : ℕ → ℕ
descriptor a = a + 100

construct-Watches_example :
    Returns
      (construct registry_ctl 7 none
        (raw_parts registry_ctl 1 7 4 5 descriptor (λ a. 1) no_timers (λ fd. none)))
      (λ r.
        Watches registry 7 1 4 5 descriptor
          (λ a. 1)
          no_timers
          (λ fd. none)
          refl
          refl
          refl
          refl
          (λ fd. refl)
          r.0
        × (r.1 ≡ some 1))
construct-Watches_example =
    construct-Watches registry 7 1 4 5 descriptor (λ a. 1) no_timers (λ fd. none) refl refl refl
      refl (λ fd. refl)

-- Both channels read.
abbrev on_duty : ℕ → Channel
on_duty a =
    if 4 == a
    then record (new_channel 104) { event = reading none_event; status = added }
    else (if 5 == a
        then record (new_channel 105) { event = reading none_event; status = added }
        else new_channel (a + 100))

abbrev pub running : Parts Registry
running = record {
  address = 1;
  thread_id = 7;
  base = record new_loop { quit = true };
  poller = record {
    channels = on_duty;
    channel_map = λ fd. if 104 == fd then some 4 else if 105 == fd then some 5 else none;
    kernel = λ fd.
        if 104 == fd
        then some (reading none_event)
        else (if 105 == fd then some (reading none_event) else none);
    ret_size = 16;
  };
  timer_queue = new_timer_queue no_timers;
  owner = λ a. 1;
  wakeup_channel = 4;
  alarm_channel = 5;
}

pub running-IsSynced : IsSynced registry running.poller
running-IsSynced = record {
  mapped = λ fd. elim (Bool-cases (104 == fd)) [
    | inl e ↦ rw e (ground (arith, e), added≢new, rw e refl)
    | inr e ↦ elim (Bool-cases (105 == fd)) [
      | inl e' ↦ rw (e, e') (ground (arith, e'), added≢new, rw (e, e') refl)
      | inr e' ↦ rw (e, e') (rw (e, e') refl)
    ]
  ];
  added_once = λ channel used. elim (Bool-cases (4 == channel)) [
    | inl e ↦ rw e (ap some (ground (arith, e)))
    | inr e ↦ elim (Bool-cases (5 == channel)) [
      | inl e' ↦ rw (e, e') (ap some (ground (arith, e')))
      | inr e' ↦ absurd ((rw (e, e') at used) refl)
    ]
  ];
}

-- Channel 5 is reported, for input.
abbrev report : List (ℕ × Events)
report = (5, reading none_event) ∷ []

abbrev reader : ℕ → Callbacks
reader a = record { close_cb = false; error_cb = false; read_cb = true; write_cb = false }

poll_round-answers_example : Returns (poll_round reader (λ a. true) (ready report) running) λ r.
    (r.0 ≡ (5, on_read ∷ []) ∷ [])
    × IsSynced registry r.1.poller
    × (1 < r.1.poller.ret_size)
    × ((a : ℕ) → Omits a report → r.1.poller.channels a ≡ running.poller.channels a)
unfolding handle_event
poll_round-answers_example =
    poll_round-answers registry reader (λ a. true) report running running-IsSynced (refl, tt)
      (tt, tt) (omega arith) (omega arith)

destruct-Clears_example : Returns (destruct registry_ctl 7 running) λ r.
    IsSynced registry r.0.poller
    × (r.0.poller.kernel 104 ≡ none)
    × (r.0.poller.kernel 105 ≡ none)
    × (r.0.poller.channel_map 104 ≡ none)
    × (r.0.poller.channel_map 105 ≡ none)
    × ((fd : ℕ)
        → (104 == fd) ≡ false
        → (105 == fd) ≡ false
        → (r.0.poller.kernel fd ≡ running.poller.kernel fd)
          × (r.0.poller.channel_map fd ≡ running.poller.channel_map fd))
    × (r.1 ≡ none)
destruct-Clears_example =
    destruct-Clears registry 7 running refl (record { owned = refl; in_thread = refl })
      (record { owned = refl; in_thread = refl }) running-IsSynced added≢new added≢new refl
