-- ===== src/Net/EventLoop/Progress.antt =====
-- ham/net/EventLoop.cc: how the loop gets to its tasks, and who wakes it.
use mathlib.Core.Path.{ap₂}
use native.Mathlib.Decide.{dec_lt}
use mathlib.Core.List.{append_assoc, append-nil}
use ham.Net.EventLoop.{
  start_handling, start_functors, swap_functors, end_functors, handle_wakeup_fd, wakeup,
}
use ham.Net.EventLoop.Threads.{
  other_channel, Ready, wakeup_channel, testing, waiting, handling, swapping, running, System, Step,
  Reachable, handle, handled, take_over, run, run_out, other_wake, handle_channel,
}
use ham.Net.EventLoop.Wakeup.{Reachable-Inv, Inv}
use ham.Base.{
  ℕ, zero, suc, ◌+◌, ◌<◌, ◌≡◌, refl, sym, ◌∙◌, ◌⊎◌, inl, inr, true, List, [], ◌∷◌, ◌++◌, arith,
  length,
}

-- Some steps, one after the other.
pub data Steps (s : System) : System → Type 0 where
  here : Steps s s
  onward : {t u : System} → Steps s t → Step t u → Steps s u

-- The loop's thread is at the end of a round, it has run `ran`, and nothing else was queued.
pub record RoundDone (queued : List ℕ) (s : System) : Type 0 where
  pub at_test : s.pc ≡ testing
  pub all_ran : s.ran ≡ queued
  pub none_more : s.queued ≡ queued

run_all :
    (s t : System) (fs : List ℕ)
    → Steps s t
    → t.pc ≡ running fs
    → (u : System) × Steps s u × (u.pc ≡ running []) × (u.ran ≡ t.ran ++ fs) × (u.queued ≡ t.queued)
run_all s t [] p e = (t, p, e, sym (append-nil t.ran), refl)
run_all s t (f ∷ fs) p e =
    let (u, q, done, ran, queued) =
      run_all s (record t { pc = running fs; ran = t.ran ++ (f ∷ []) }) fs (onward p (run f fs e))
        refl in
    (u, q, done, ran ∙ append_assoc t.ran (f ∷ []) fs, queued)

pending-handle_channel :
    (c : Ready) (t : System) → (handle_channel c t.loop).pending_functors ≡ t.loop.pending_functors
unfolding handle_channel handle_wakeup_fd
pending-handle_channel wakeup_channel t = refl
pending-handle_channel (other_channel c) t = refl

-- What the callbacks of the channels leave, when they queue nothing.
record Handled (s t : System) : Type 0 where
  no_channel : t.pc ≡ handling []
  same_pending : t.loop.pending_functors ≡ s.loop.pending_functors
  same_ran : t.ran ≡ s.ran
  same_queued : t.queued ≡ s.queued

handle_all :
    (s t : System) (cs : List Ready)
    → Steps s t
    → t.pc ≡ handling cs
    → (u : System) × Steps s u × Handled t u
handle_all s t [] p e =
    (t, p, record { no_channel = e; same_pending = refl; same_ran = refl; same_queued = refl })
handle_all s t (c ∷ cs) p e =
    let t' = record t { pc = handling cs; loop = handle_channel c t.loop } in
    let (u, q, h) = handle_all s t' cs (onward p (handle c cs e)) refl in
    (
      u,
      q,
      record {
        no_channel = h.no_channel;
        same_pending = h.same_pending ∙ pending-handle_channel c t;
        same_ran = h.same_ran;
        same_queued = h.same_queued;
      },
    )

-- `epoll_wait` has returned with the channels that are ready.
abbrev pub woken : List Ready → System → System
woken active s = record s { pc = handling active; loop = start_handling s.loop }

order-waiting : (s : System) → s.pc ≡ waiting → Inv s → s.queued ≡ s.ran ++ s.loop.pending_functors
order-waiting s e h = ground (arith, h.in_order)

awake :
    (s : System)
    → s.pc ≡ waiting
    → Inv s
    → (s.early < length s.loop.pending_functors) ⊎ (s.loop.quit ≡ true)
    → 0 < s.loop.wakeup_count + s.owed
awake s e h (inl work) = h.task_wakes (rw e refl) work
awake s e h (inr quits) = h.quit_wakes (rw e refl) quits

owing :
    (s : System) (n : ℕ)
    → s.owed ≡ n
    → s.pc ≡ waiting
    → 0 < n
    → (t : System) × Step s t × (t.pc ≡ waiting) × (0 < t.loop.wakeup_count)
unfolding wakeup
owing s zero o e h = absurd (omega arith)
owing s (suc n) o e h =
    (record s { loop = wakeup s.loop; owed = n }, other_wake n o, e, omega arith)

-- Whatever channels are ready when a sleeping loop gets up, the steps of its own thread take it to the
-- end of the round, and by then every functor that was queued has run, in order.
pub waiting-drains :
    {s : System} (active : List Ready)
    → Reachable s
    → s.pc ≡ waiting
    → (t : System) × Steps (woken active s) t × RoundDone s.queued t
unfolding swap_functors end_functors start_functors start_handling
waiting-drains {s} active r e =
    let up = woken active s in
    let (t, p, h) = handle_all up up active here refl in
    let u = record t { pc = swapping; loop = start_functors t.loop } in
    let v = record u {
      pc = running (swap_functors u.loop).0;
      loop = (swap_functors u.loop).1;
      early = 0;
    } in
    let (w, q, done, ran, queued) =
      run_all up v t.loop.pending_functors
        (onward (onward p (handled h.no_channel)) (take_over refl)) refl in
    (
      record w { pc = testing; loop = end_functors w.loop },
      onward q (run_out done),
      record {
        at_test = refl;
        all_ran =
            ran ∙ (ap₂ ◌++◌ h.same_ran h.same_pending ∙ sym (order-waiting s e (Reachable-Inv r)));
        none_more = queued ∙ h.same_queued;
      },
    )

-- A sleeping loop with a pending functor that was not queued before `loop`, or one that is to quit, is
-- woken up: the event descriptor is readable, or a thread that is inside `queueInLoop` or `quit` makes it
-- readable by its next step.
pub waiting-wakes :
    {s : System}
    → Reachable s
    → s.pc ≡ waiting
    → (s.early < length s.loop.pending_functors) ⊎ (s.loop.quit ≡ true)
    → (0 < s.loop.wakeup_count)
      ⊎ ((t : System) × Step s t × (t.pc ≡ waiting) × (0 < t.loop.wakeup_count))
unfolding wakeup
waiting-wakes {s} r e work = elim (dec_lt 0 s.loop.wakeup_count) [
  | Dec.yes h ↦ inl h
  | Dec.no h ↦ inr (owing s s.owed refl e (omega (arith, awake s e (Reachable-Inv r) work)))
]
