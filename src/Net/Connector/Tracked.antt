-- ===== src/Net/Connector/Tracked.antt =====
-- What the operations of a connector keep of its channel, its delay and its queued `resetChannel`.
use mathlib.Core.Bool.{false≢true}
use ham.Net.Connector.{
  run_after, new_connection, other, enotsock, efault, ebadf, ealready, eafnosupport, eperm, eacces,
  enetunreach, econnrefused, eaddrnotavail, eaddrinuse, eagain, eintr, einprogress, eisconn, none_0,
  is_disconnected, stop_in_loop, handle_error, start_in_loop, queued_reset, connect, cancel_timer,
  connection_made, State, handle_write, establish_connection, closed, Errno, Connector,
  disconnected, connecting, connected,
}
use ham.Net.Connector.{
  is_null, max_retry_delay_ms, Effect, init_retry_delay_ms, act, is_connecting, retry, Watch,
  remove_and_reset_channel, Errno, Connector, disconnected, connecting, connected,
}
use ham.Base.{
  bad_weak_ptr, require, suc, ◌+◌, List, [], ◌∷◌, ◌++◌, Option-cases, if-both, Bool-cases, ℕ, ◌≤◌,
  ◌≡◌, refl, sym, ap, ◌∙◌, inl, inr, Bool, true, false, ◌||◌, Option, none, some, arith,
  if◌then◌else◌, Result, ok, err, ◌>>=◌, assert,
}

-- `m` satisfies `P` when it ends without a fault.
abbrev pub UnlessFault : Result Connector → (Connector → Type 0) → Type 0
UnlessFault (ok c) P = P c
UnlessFault (err e) P = Unit

abbrev pub watching : Option Watch → Bool
watching none = false
watching (some w) = w.watched

-- The functors of `resetChannel` that have been queued.
abbrev pub is_reset : Effect → ℕ
is_reset queued_reset = 1
is_reset _ = 0

abbrev pub resets_queued : List Effect → ℕ
resets_queued [] = 0
resets_queued (e ∷ es) = is_reset e + resets_queued es

resets_queued-append :
    (es : List Effect) (e : Effect) → resets_queued (es ++ (e ∷ [])) ≡ resets_queued es + is_reset e
resets_queued-append [] e = omega arith
resets_queued-append (d ∷ es) e = omega (arith, resets_queued-append es e)

-- A channel that has left the poller waits for its `resetChannel`.
abbrev pub is_left : Option Watch → ℕ
is_left none = 0
is_left (some w) = if w.watched then 0 else 1

-- A `resetChannel` is queued exactly while a channel that has left the poller is there; `n` have run.
abbrev pub IsBalanced : ℕ → Connector → Type 0
IsBalanced n c = resets_queued c.effects ≡ n + is_left c.connect_channel

pub record IsTracked (n : ℕ) (c : Connector) : Type 0 where
  pub watches : watching c.connect_channel ≡ is_connecting c.state
  pub at_least : init_retry_delay_ms ≤ c.retry_delay_ms
  pub at_most : c.retry_delay_ms ≤ max_retry_delay_ms
  pub balance : IsBalanced n c

null-is_left : (w : Option Watch) → is_null w ≡ true → is_left w ≡ 0
null-is_left none e = refl
null-is_left (some w) e = absurd (false≢true e)

pub unwatched-is_left : (w : Option Watch) (n : ℕ) → is_left w ≡ suc n → watching w ≡ false
unwatched-is_left none n e = refl
unwatched-is_left (some w) n e = elim (Bool-cases w.watched) [
  | inl t ↦ absurd (ground (arith, t, rw t at e))
  | inr t ↦ t
]

pub at_most_one_left : (w : Option Watch) → is_left w ≤ 1
at_most_one_left none = omega arith
at_most_one_left (some w) = if-both (λ k. k ≤ 1) w.watched 0 1 (omega arith) (omega arith)

module _ (n : ℕ) where
  pub act-IsTracked :
      (e : Effect) (c : Connector) → is_reset e ≡ 0 → IsTracked n c → IsTracked n (act e c)
  unfolding act
  act-IsTracked e c none_more h = record {
    watches = h.watches;
    at_least = h.at_least;
    at_most = h.at_most;
    balance = omega (arith, h.balance, none_more, resets_queued-append c.effects e);
  }

  retry-IsTracked :
      (fd : ℕ) (c : Connector)
      → watching c.connect_channel ≡ false
      → init_retry_delay_ms ≤ c.retry_delay_ms
      → c.retry_delay_ms ≤ max_retry_delay_ms
      → IsBalanced n c
      → UnlessFault (retry fd c) (IsTracked n)
  unfolding retry act
  retry-IsTracked fd c idle low high even = elim (Bool-cases (is_connecting c.state)) [
    | inr e ↦ simp e tt
    | inl e ↦ simp e (
        if-both (λ m. UnlessFault m (IsTracked n)) c.connect_flag _ _
          (if_shared c.shared (record {
            watches = idle;
            at_least = omega arith;
            at_most = omega arith;
            balance = omega (
              arith,
              even,
              resets_queued-append c.effects (closed fd),
              resets_queued-append (c.effects ++ (closed fd ∷ [])) (run_after c.retry_delay_ms),
            );
          }))
          (record {
            watches = idle;
            at_least = low;
            at_most = high;
            balance = omega (arith, even, resets_queued-append c.effects (closed fd));
          }))
  ]
    where
      if_shared :
          (b : Bool) {d : Connector}
          → IsTracked n d
          → UnlessFault (require b bad_weak_ptr >>= λ _. ok d) (IsTracked n)
      if_shared true h = h
      if_shared false h = tt

  establish_connection-IsTracked :
      (fd : ℕ) (c : Connector)
      → IsTracked n c
      → UnlessFault (establish_connection fd c) (IsTracked n)
  unfolding establish_connection
  establish_connection-IsTracked fd c h = elim (Bool-cases (is_null c.connect_channel)) [
    | inr e ↦ simp e tt
    | inl e ↦ simp e (record {
      watches = refl;
      at_least = h.at_least;
      at_most = h.at_most;
      balance = omega (arith, h.balance, null-is_left c.connect_channel e);
    })
  ]

  -- The channel, which is still watched, is removed first; only its own fields, and the trace, change.
  removed-IsTracked :
      (c : Connector) (k : ℕ → Connector → Result Connector)
      → watching c.connect_channel ≡ true
      → IsBalanced n c
      → ((fd : ℕ) (w : Watch)
          → let removed =
              act queued_reset
                (record c { connect_channel = some (record w { watched = false }) }) in
            IsBalanced n removed → UnlessFault (k fd removed) (IsTracked n))
      → UnlessFault (remove_and_reset_channel c >>= λ (fd, removed). k fd removed) (IsTracked n)
  unfolding remove_and_reset_channel act
  removed-IsTracked c k up even next = elim (Option-cases c.connect_channel) [
    | inl e ↦ simp e tt
    | inr (w, e) ↦
        let watched : w.watched ≡ true = sym (ap watching e) ∙ up in
        let none_left : is_left c.connect_channel ≡ 0 = ap is_left e ∙ rw watched refl in
        simp e (
          next w.fd w (omega (arith, even, none_left, resets_queued-append c.effects queued_reset)))
  ]

  connect-IsTracked :
      (fd : ℕ) (errno : Errno) (c : Connector)
      → IsTracked n c
      → c.state ≡ disconnected
      → UnlessFault (connect fd errno c) (IsTracked n)
  unfolding connect
  connect-IsTracked fd errno c h down =
      let made = establish_connection-IsTracked fd c h in
      let again =
        retry-IsTracked fd c (h.watches ∙ ap is_connecting down) h.at_least h.at_most h.balance in
      let dropped = act-IsTracked (closed fd) c refl h in by_errno errno made again dropped
    where
      by_errno :
          (errno : Errno)
          → UnlessFault (establish_connection fd c) (IsTracked n)
          → UnlessFault (retry fd c) (IsTracked n)
          → IsTracked n (act (closed fd) c)
          → UnlessFault (connect fd errno c) (IsTracked n)
      by_errno none_0 made again dropped = made
      by_errno eisconn made again dropped = made
      by_errno einprogress made again dropped = made
      by_errno eintr made again dropped = made
      by_errno eagain made again dropped = again
      by_errno eaddrinuse made again dropped = again
      by_errno eaddrnotavail made again dropped = again
      by_errno econnrefused made again dropped = again
      by_errno enetunreach made again dropped = again
      by_errno eacces made again dropped = dropped
      by_errno eperm made again dropped = dropped
      by_errno eafnosupport made again dropped = dropped
      by_errno ealready made again dropped = dropped
      by_errno ebadf made again dropped = dropped
      by_errno efault made again dropped = dropped
      by_errno enotsock made again dropped = dropped
      by_errno other made again dropped = dropped

  pub start_in_loop-IsTracked :
      (fd : ℕ) (errno : Errno) (c : Connector)
      → IsTracked n c
      → UnlessFault (start_in_loop fd errno c) (IsTracked n)
  unfolding start_in_loop
  start_in_loop-IsTracked fd errno c h = by_state c.state refl
    where
      by_state :
          (s : State)
          → c.state ≡ s
          → UnlessFault
              (assert (is_disconnected s) >>= λ _.
                if c.connect_flag then connect fd errno c else ok c)
              (IsTracked n)
      by_state connecting e = tt
      by_state connected e = tt
      by_state disconnected e =
          if-both (λ m. UnlessFault m (IsTracked n)) c.connect_flag (connect fd errno c) (ok c)
            (connect-IsTracked fd errno c h e) h

  pub stop_in_loop-IsTracked :
      (c : Connector) → IsTracked n c → UnlessFault (stop_in_loop c) (IsTracked n)
  unfolding stop_in_loop
  stop_in_loop-IsTracked c h = elim (Bool-cases (is_connecting c.state)) [
    | inr e ↦ simp e h
    | inl e ↦ simp e (
        removed-IsTracked (record c { state = disconnected })
          (λ fd removed. ok (act (closed fd) removed)) (h.watches ∙ e) h.balance
          λ fd w even. act-IsTracked (closed fd) _ refl (
            unfold act in
            record { watches = refl; at_least = h.at_least; at_most = h.at_most; balance = even }))
  ]

  guarded :
      (b : Bool) (m : Result Connector)
      → (b ≡ true → UnlessFault m (IsTracked n))
      → UnlessFault (assert b >>= λ _. m) (IsTracked n)
  guarded true m h = h refl
  guarded false m h = tt

  pub handle_write-IsTracked :
      (so_error self : Bool) (c : Connector)
      → IsTracked n c
      → UnlessFault (handle_write so_error self c) (IsTracked n)
  unfolding handle_write connection_made act
  handle_write-IsTracked so_error self c h = elim (Bool-cases (is_connecting c.state)) [
    | inr e ↦ simp e (guarded (is_disconnected c.state) (ok c) (λ _. h))
    | inl e ↦ simp e (
        removed-IsTracked c (connection_made so_error self) (h.watches ∙ e) h.balance λ fd w even.
          if-both (λ m. UnlessFault m (IsTracked n)) (so_error || self) _ _
            (retry-IsTracked fd _ refl h.at_least h.at_most even)
            (if-both (IsTracked n) c.connect_flag _ _
              (act-IsTracked (new_connection fd) _ refl (record {
                watches = refl;
                at_least = h.at_least;
                at_most = h.at_most;
                balance = even;
              }))
              (act-IsTracked (closed fd) _ refl (record {
                watches = refl;
                at_least = h.at_least;
                at_most = h.at_most;
                balance = even;
              }))))
  ]

  pub handle_error-IsTracked :
      (c : Connector) → IsTracked n c → UnlessFault (handle_error c) (IsTracked n)
  unfolding handle_error act
  handle_error-IsTracked c h = guarded (is_connecting c.state) _ λ e.
      removed-IsTracked c retry (h.watches ∙ e) h.balance
        (λ fd w even. retry-IsTracked fd _ refl h.at_least h.at_most even)

  pub ended :
      (m : Result Connector) (c : Connector)
      → m ≡ ok c
      → UnlessFault m (IsTracked n)
      → IsTracked n c
  ended m c e h = rw e at h

  pub flagged :
      (c : Connector) (wanted : Bool)
      → IsTracked n c
      → IsTracked n (record c { connect_flag = wanted })
  flagged c wanted h = record {
    watches = h.watches;
    at_least = h.at_least;
    at_most = h.at_most;
    balance = h.balance;
  }

  pub stopped-IsTracked :
      (m : Result Connector)
      → UnlessFault m (IsTracked n)
      → UnlessFault
          (m >>= λ stopped. ok (if stopped.valid_timer then act cancel_timer stopped else stopped))
          (IsTracked n)
  stopped-IsTracked (ok c) h =
      if-both (IsTracked n) c.valid_timer _ c (act-IsTracked cancel_timer c refl h) h
  stopped-IsTracked (err e) h = tt
