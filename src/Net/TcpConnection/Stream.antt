-- ===== src/Net/TcpConnection/Stream.antt =====
-- The bytes of a connection: what the kernel took, followed by what the output buffer holds, is what
-- the code was given to send.
use mathlib.Core.List.{append_assoc, append-nil}
use ham.Base.Slices.{take-append-drop, drop_all, take_all}
use ham.Net.Buffer.{append, readable_bytes, Buffer, max_size}
use ham.Net.Buffer.Ops.{append-Holds, Holds}
use ham.Net.Buffer.Contents.{length-contents, readable_bytes-eq, contents, IsValid}
use ham.Net.TcpConnection.{
  write_complete, Task, first_write, failed, is_fault, socket_write, Errno, wrote, send_in_loop,
  Write, after_failure, after_write, high_water_mark_reached, Socket, update_channel, queue_in_loop,
  TcpConnection, keep_rest,
}
use ham.Net.Channel.{enable_writing, is_writing}
use ham.Base.{
  le→leb, Returns-mono, lt→ltb, Returns-bind, length-drop, Bool-cases, ℕ, zero, suc, ◌+◌, ◌≤◌, ◌<◌,
  ◌≡◌, refl, sym, ap, ◌∙◌, inl, inr, true, false, ◌&&◌, List, [], ◌∷◌, ◌++◌, arith, ltb, leb, ◌==◌,
  if◌then◌else◌, add_size, sub_size, length, take, drop, ok, ◌>>=◌, Returns,
}

-- The buffers are sound, and the channel waits for the socket exactly while output is pending.
pub record IsLive (c : TcpConnection) : Type 0 where
  pub input_valid : IsValid c.input_buffer
  pub output_valid : IsValid c.output_buffer
  pub waits : is_writing c.channel ≡ ltb 0 (length (contents c.output_buffer))

-- The bytes sent and those still to be sent are `xs`.
pub record Streams (xs : List ℕ) (c : TcpConnection) : Type 0 where
  pub live : IsLive c
  pub stream : c.socket.sent ++ contents c.output_buffer ≡ xs

-- The output buffer holds the pending bytes `xs`; the socket and the input are as given.
pub record Kept (xs : List ℕ) (socket : Socket) (input : Buffer) (c : TcpConnection) : Type 0 where
  pub output : Holds xs c.output_buffer
  pub waiting : is_writing c.channel ≡ true
  pub same_socket : c.socket ≡ socket
  pub same_input : c.input_buffer ≡ input

wait_for_socket :
    (xs : List ℕ) (c : TcpConnection)
    → Holds xs c.output_buffer
    → Kept xs c.socket c.input_buffer
        (if is_writing c.channel then c else update_channel (enable_writing c.channel) c)
unfolding is_writing update_channel enable_writing
wait_for_socket xs c h = elim (Bool-cases c.channel.event.output) [
  | inl e ↦ rw e (record { output = h; waiting = refl; same_socket = refl; same_input = refl })
  | inr e ↦ rw e (record { output = h; waiting = refl; same_socket = refl; same_input = refl })
]

append_rest :
    (xs : List ℕ) (c : TcpConnection)
    → IsValid c.output_buffer
    → contents c.output_buffer ≡ []
    → c.output_buffer.write_index + length xs ≤ max_size
    → Returns
        (append c.output_buffer xs >>= λ output.
          let kept = record c { output_buffer = output } in
          ok (
            if is_writing kept.channel
            then kept
            else update_channel (enable_writing kept.channel) kept))
        (Kept xs c.socket c.input_buffer)
append_rest xs c v empty small =
    Returns-bind (append c.output_buffer xs) _ (Holds (contents c.output_buffer ++ xs)) _
      (append-Holds c.output_buffer xs v small)
      λ output h. wait_for_socket xs (record c { output_buffer = output }) (rw empty at h)

keep_rest-Kept :
    (msg : List ℕ) (n remaining : ℕ) (c : TcpConnection)
    → IsValid c.output_buffer
    → contents c.output_buffer ≡ []
    → n + remaining ≡ length msg
    → c.output_buffer.write_index + length msg ≤ max_size
    → Returns (keep_rest msg n remaining c) (Kept (drop n msg) c.socket c.input_buffer)
unfolding keep_rest queue_in_loop
keep_rest-Kept msg n remaining c v empty split small =
    let xs = drop n msg in
    let len = length-drop n msg in
    let rest : take remaining xs ≡ xs = take_all remaining xs (omega (arith, len)) in
    let old_len = readable_bytes c.output_buffer in
    rw rest
      (elim (Bool-cases (
        ltb old_len c.high_water_mark
        && (leb c.high_water_mark (add_size old_len remaining) && c.has_high_water_mark))) [
          | inl e ↦ rw e (
              append_rest xs
                (queue_in_loop (high_water_mark_reached (add_size old_len remaining)) c) v empty
                (omega (arith, len)))
          | inr e ↦ rw e (append_rest xs c v empty (omega (arith, len)))
        ])

pub Kept-Streams :
    (xs ys : List ℕ) (socket : Socket) (input : Buffer) (c : TcpConnection)
    → IsValid input
    → 0 < length ys
    → socket.sent ++ ys ≡ xs
    → Kept ys socket input c
    → Streams xs c
Kept-Streams xs ys socket input c v some_left e k = record {
  live = record {
    input_valid = rw k.same_input v;
    output_valid = k.output.valid;
    waits = rw (k.waiting, k.output.holds) (sym (lt→ltb 0 (length ys) some_left));
  };
  stream = rw (k.same_socket, k.output.holds) e;
}

-- Nothing is pending, and nothing is left to be sent.
pub idle-Streams :
    (xs : List ℕ) (c : TcpConnection)
    → IsLive c
    → contents c.output_buffer ≡ []
    → c.socket.sent ≡ xs
    → Streams xs c
idle-Streams xs c live empty e = record { live = live; stream = rw (empty, e) (append-nil xs) }

-- The outcome of a `::write` of `msg` that does not end the connection.
abbrev pub Accepts : List ℕ → Write → Type 0
Accepts msg (wrote n) = n ≤ length msg
Accepts msg (failed errno) = is_fault errno ≡ false

-- The socket and the queue may change: `IsLive` does not read them.
pub still-IsLive :
    (c : TcpConnection) (socket : Socket) (queued : List Task)
    → IsLive c
    → IsLive (record c { socket = socket; queued = queued })
still-IsLive c socket queued live = record {
  input_valid = live.input_valid;
  output_valid = live.output_valid;
  waits = live.waits;
}

rest-Streams :
    (xs msg : List ℕ) (n remaining : ℕ) (c : TcpConnection)
    → IsLive c
    → contents c.output_buffer ≡ []
    → n + remaining ≡ length msg
    → c.output_buffer.write_index + length msg ≤ max_size
    → c.socket.sent ++ drop n msg ≡ xs
    → Returns (if ltb 0 remaining then keep_rest msg n remaining c else ok c) (Streams xs)
rest-Streams xs msg n zero c live empty split small e = idle-Streams xs c live empty (
    sym (append-nil c.socket.sent)
    ∙ (ap (λ ys. c.socket.sent ++ ys) (sym (drop_all n msg (omega arith))) ∙ e))
rest-Streams xs msg n (suc remaining) c live empty split small e =
    rw (lt→ltb 0 (suc remaining) (omega arith)) (
      Returns-mono (keep_rest msg n (suc remaining) c) (Kept (drop n msg) c.socket c.input_buffer) _
        (keep_rest-Kept msg n (suc remaining) c live.output_valid empty split small)
        λ c' k.
          Kept-Streams xs (drop n msg) c.socket c.input_buffer c' live.input_valid
            (omega (arith, length-drop n msg)) e k)

after_write-Streams :
    (msg : List ℕ) (n : ℕ) (c : TcpConnection)
    → IsLive c
    → contents c.output_buffer ≡ []
    → n ≤ length msg
    → c.output_buffer.write_index + length msg ≤ max_size
    → Returns (after_write msg n c) (Streams (c.socket.sent ++ msg))
unfolding after_write socket_write queue_in_loop
after_write-Streams msg n c live empty h small =
    let remaining = sub_size (length msg) n in
    let split : n + remaining ≡ length msg = omega arith in
    let xs = c.socket.sent ++ msg in
    let socket = record c.socket { sent = c.socket.sent ++ take n msg } in
    let e : (c.socket.sent ++ take n msg) ++ drop n msg ≡ xs =
      append_assoc c.socket.sent (take n msg) (drop n msg)
      ∙ ap (λ ys. c.socket.sent ++ ys) (take-append-drop n msg) in
    rw (le→leb remaining (length msg) (omega arith))
      (elim (Bool-cases ((remaining == 0) && c.has_write_complete)) [
        | inl t ↦ rw t (
            rest-Streams xs msg n remaining
              (record c { socket = socket; queued = c.queued ++ (write_complete ∷ []) })
              (still-IsLive c socket _ live) empty split small e)
        | inr t ↦ rw t (
            rest-Streams xs msg n remaining (record c { socket = socket })
              (still-IsLive c socket c.queued live) empty split small e)
      ])

after_failure-Streams :
    (msg : List ℕ) (errno : Errno) (c : TcpConnection)
    → IsLive c
    → contents c.output_buffer ≡ []
    → is_fault errno ≡ false
    → c.output_buffer.write_index + length msg ≤ max_size
    → Returns (after_failure msg errno c) (Streams (c.socket.sent ++ msg))
unfolding after_failure
after_failure-Streams msg errno c live empty h small =
    rw h
      (rest-Streams (c.socket.sent ++ msg) msg 0 (length msg) c live empty (omega arith) small refl)

first_write-Streams :
    (msg : List ℕ) (outcome : Write) (c : TcpConnection)
    → IsLive c
    → contents c.output_buffer ≡ []
    → Accepts msg outcome
    → c.output_buffer.write_index + length msg ≤ max_size
    → Returns (first_write msg c outcome) (Streams (c.socket.sent ++ msg))
unfolding first_write
first_write-Streams msg (wrote n) c live empty h small =
    after_write-Streams msg n c live empty h small
first_write-Streams msg (failed errno) c live empty h small =
    after_failure-Streams msg errno c live empty h small

pub is_empty : (b : Buffer) → IsValid b → contents b ≡ [] → readable_bytes b ≡ 0
is_empty b v e = readable_bytes-eq v ∙ (sym (length-contents v) ∙ ap length e)

-- When nothing is pending, everything that is given to `sendInLoop` is sent or kept, in order and once:
-- the bytes that the kernel did not take follow the ones that it took, and the channel waits for the
-- socket exactly when some are left; the write has no fatal error and the bytes fit into the buffer.
pub send_in_loop-Streams :
    (msg : List ℕ) (outcome : Write) (c : TcpConnection)
    → IsLive c
    → contents c.output_buffer ≡ []
    → Accepts msg outcome
    → c.output_buffer.write_index + length msg ≤ max_size
    → Returns (send_in_loop msg outcome c) (Streams (c.socket.sent ++ msg))
unfolding send_in_loop
send_in_loop-Streams msg outcome c live empty h small =
    rw (live.waits, empty, is_empty c.output_buffer live.output_valid empty)
      (first_write-Streams msg outcome c live empty h small)

-- Data given to `sendInLoop` while output is pending is lost: nothing changes.
pub send_in_loop-pending :
    (msg : List ℕ) (outcome : Write) (c : TcpConnection)
    → IsLive c
    → 0 < length (contents c.output_buffer)
    → send_in_loop msg outcome c ≡ ok c
unfolding send_in_loop
send_in_loop-pending msg outcome c live h =
    rw (live.waits, lt→ltb 0 (length (contents c.output_buffer)) h) refl
