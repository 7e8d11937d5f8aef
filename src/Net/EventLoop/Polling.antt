-- ===== src/Net/EventLoop/Polling.antt =====
-- ham/net/EventLoop.cc: from the kernel's report to the callbacks of the channels.
use mathlib.Core.Path.{ap₂}
use ham.Net.EventLoop.Parts.{Parts, poll_round, handle_active}
use ham.Net.Epoller.Reported.{Omits, AllAdded, AllOnce, AllMarked, reported, wait-Reports}
use ham.Net.Epoller.Synced.{IsSynced}
use ham.Net.Epoller.Kernel.{EpollKernel}
use ham.Net.Epoller.{Epoller, wait, ready}
use ham.Net.Channel.{Channel, Events, Callback, Callbacks, handle_event}
use ham.Base.{Returns-bind, ℕ, ◌≤◌, ◌<◌, ◌≡◌, refl, ap, ◌∙◌, Bool, List, [], ◌∷◌, length, Returns}

-- What a report asks for: the callbacks of each reported channel for the reported events.
abbrev pub answers :
    (ℕ → Callbacks) → (ℕ → Bool) → (ℕ → Channel) → List (ℕ × Events) → List (ℕ × List Callback)
answers callbacks alive channels [] = []
answers callbacks alive channels ((c, e) ∷ es) =
    (c, handle_event (callbacks c) (alive c) (record (channels c) { revent = e }))
    ∷ answers callbacks alive channels es

handle_active-reported :
    {K : Type 0} (callbacks : ℕ → Callbacks) (alive : ℕ → Bool) (before : ℕ → Channel)
    (p : Epoller K) (es : List (ℕ × Events))
    → AllMarked before p.channels es
    → handle_active callbacks alive (reported es) p ≡ answers callbacks alive before es
unfolding handle_active
handle_active-reported callbacks alive before p [] h = refl
handle_active-reported callbacks alive before p ((c, e) ∷ es) h =
    ap₂ (λ (x : List Callback) (ys : List (ℕ × List Callback)). (c, x) ∷ ys)
      (ap (handle_event (callbacks c) (alive c)) h.0)
      (handle_active-reported callbacks alive before p es h.1)

-- When the poller agrees with the kernel, and the kernel reports some added channels, each once and no
-- more than the list of events holds, `wait` returns without a failed assertion, and the channels that
-- are handled are the reported ones, in order, each with the callbacks for exactly the reported events.
-- The poller still agrees with the kernel, with room for a larger report; no other channel has changed.
pub poll_round-answers :
    {K : Type 0} (kernel : EpollKernel K) (callbacks : ℕ → Callbacks) (alive : ℕ → Bool)
    (es : List (ℕ × Events)) (s : Parts K)
    → IsSynced kernel s.poller
    → AllAdded s.poller.channels es
    → AllOnce es
    → length es ≤ s.poller.ret_size
    → 0 < s.poller.ret_size
    → Returns (poll_round callbacks alive (ready es) s) λ r.
      (r.0 ≡ answers callbacks alive s.poller.channels es)
      × IsSynced kernel r.1.poller
      × (length es < r.1.poller.ret_size)
      × ((a : ℕ) → Omits a es → r.1.poller.channels a ≡ s.poller.channels a)
unfolding poll_round
poll_round-answers kernel callbacks alive es s h on once room some_room =
    Returns-bind (wait (ready es) s.poller) _ _ _
      (wait-Reports kernel es s.poller h on once room some_room)
      λ r (k, size). (
        ap (λ (cs : List ℕ). handle_active callbacks alive cs r.1) k.active
            ∙ handle_active-reported callbacks alive s.poller.channels r.1 es k.marked,
        k.synced,
        size,
        k.others,
      )
