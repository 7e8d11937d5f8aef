-- ===== src/Net/TcpConnection/Output.antt =====
-- What `handleWrite` and the shutdown do to the bytes of a connection.
use ham.Net.TcpConnection.Stream.{
  IsLive, Streams, Accepts, still-IsLive, Kept-Streams, idle-Streams, is_empty,
}
use native.Mathlib.Decide.{dec_le}
use mathlib.Core.List.{append_assoc, append-nil}
use ham.Base.Slices.{take-append-drop}
use ham.Net.Buffer.{retrieve}
use ham.Net.Buffer.Ops.{retrieve-Holds, Holds}
use ham.Net.Buffer.Contents.{
  bytes_at-contents, length-contents, readable_bytes-eq, contents, IsValid,
}
use ham.Net.TcpConnection.{
  handle_write, is_disconnecting, set_state, shutdown_in_loop, drained, flush, write_complete, Task,
  failed, socket_write, wrote, Write, update_channel, queue_in_loop, TcpConnection,
}
use ham.Net.Channel.{disable_writing, is_writing}
use ham.Base.{
  if-both, Returns-bind, Bool-cases, ℕ, ◌≤◌, ◌<◌, ◌≡◌, refl, sym, ap, ◌∙◌, inl, inr, Bool, true,
  false, ◌&&◌, List, [], ◌∷◌, ◌++◌, arith, ltb, ◌==◌, if◌then◌else◌, length, take, drop, Returns,
}

queue_in_loop-Streams :
    (xs : List ℕ) (t : Task) (c : TcpConnection) → Streams xs c → Streams xs (queue_in_loop t c)
unfolding queue_in_loop
queue_in_loop-Streams xs t c h = record {
  live = still-IsLive c c.socket _ h.live;
  stream = h.stream;
}

-- A shutdown sends nothing and loses nothing.
pub shutdown_in_loop-Streams :
    (xs : List ℕ) (c : TcpConnection) → Streams xs c → Streams xs (shutdown_in_loop c)
unfolding shutdown_in_loop set_state
shutdown_in_loop-Streams xs c h = if-both (Streams xs) (is_writing c.channel) c _ h (record {
  live = record {
    input_valid = h.live.input_valid;
    output_valid = h.live.output_valid;
    waits = h.live.waits;
  };
  stream = h.stream;
})

idle-drained :
    (xs : List ℕ) (c : TcpConnection)
    → IsValid c.input_buffer
    → Holds [] c.output_buffer
    → c.socket.sent ≡ xs
    → Streams xs (update_channel (disable_writing c.channel) c)
unfolding update_channel disable_writing is_writing
idle-drained xs c v h e =
    idle-Streams xs (update_channel (disable_writing c.channel) c)
      (record { input_valid = v; output_valid = h.valid; waits = rw h.holds refl }) h.holds e

drained-Streams :
    (xs : List ℕ) (c : TcpConnection)
    → IsValid c.input_buffer
    → Holds [] c.output_buffer
    → c.socket.sent ≡ xs
    → Streams xs (drained c)
unfolding drained
drained-Streams xs c v h e =
    let idle = update_channel (disable_writing c.channel) c in
    let start = idle-drained xs c v h e in
    shut (if idle.has_write_complete then queue_in_loop write_complete idle else idle) (
      if-both (Streams xs) idle.has_write_complete (queue_in_loop write_complete idle) idle
        (queue_in_loop-Streams xs write_complete idle start) start)
  where
    shut :
        (d : TcpConnection)
        → Streams xs d
        → Streams xs (if is_disconnecting d.state then shutdown_in_loop d else d)
    shut d s =
        if-both (Streams xs) (is_disconnecting d.state) (shutdown_in_loop d) d
          (shutdown_in_loop-Streams xs d s) s

not_zero : (n : ℕ) → 0 < n → (n == 0) ≡ false
not_zero n h = ground arith

pub nothing : (xs : List ℕ) → length xs ≤ 0 → xs ≡ []
nothing [] h = refl
nothing (x ∷ xs) h = absurd (omega arith)

flush-Streams :
    (n : ℕ) (c : TcpConnection)
    → IsLive c
    → is_writing c.channel ≡ true
    → n ≤ length (contents c.output_buffer)
    → Returns (flush n c) (Streams (c.socket.sent ++ contents c.output_buffer))
unfolding flush socket_write
flush-Streams n c live writing h =
    let b = c.output_buffer in
    let v = live.output_valid in
    let xs = contents b in
    rw (bytes_at-contents b v) (
      Returns-bind (retrieve b n) _ (Holds (drop n xs)) _ (retrieve-Holds b n v h) λ rest k.
        let after = record c {
          socket = record c.socket { sent = c.socket.sent ++ take n xs };
          output_buffer = rest;
        } in
        elim (dec_le (length (drop n xs)) 0) [
          | Dec.yes e ↦ rw (is_empty rest k.valid (k.holds ∙ nothing (drop n xs) e)) (
              drained-Streams _ after live.input_valid (rw (nothing (drop n xs) e) at k) (
                ap (λ ys. c.socket.sent ++ ys)
                  (sym (append-nil (take n xs))
                    ∙ (ap (λ ds. take n xs ++ ds) (sym (nothing (drop n xs) e))
                        ∙ take-append-drop n xs))))
          | Dec.no e ↦
              rw (readable_bytes-eq k.valid, sym (length-contents k.valid), k.holds)
                (rw (not_zero (length (drop n xs)) (omega arith)) (
                  Kept-Streams _ (drop n xs) after.socket c.input_buffer after live.input_valid
                    (omega arith)
                    (append_assoc c.socket.sent (take n xs) (drop n xs)
                      ∙ ap (λ ys. c.socket.sent ++ ys) (take-append-drop n xs))
                    (record {
                      output = k;
                      waiting = writing;
                      same_socket = refl;
                      same_input = refl;
                    })))
        ])

and_left : (a b : Bool) → (a && b) ≡ true → a ≡ true
and_left true b e = refl
and_left false b e = e

-- `handleWrite` moves bytes from the output buffer to the socket, in order; none is lost or repeated,
-- and the channel stops waiting exactly when all are sent; the kernel takes no more than it is given.
pub handle_write-Streams :
    (outcome : Write) (c : TcpConnection)
    → IsLive c
    → Accepts (contents c.output_buffer) outcome
    → Returns (handle_write outcome c) (Streams (c.socket.sent ++ contents c.output_buffer))
unfolding handle_write
handle_write-Streams (failed errno) c live h = record { live = live; stream = refl }
handle_write-Streams (wrote n) c live h = elim (Bool-cases (is_writing c.channel && ltb 0 n)) [
  | inl e ↦ rw e (flush-Streams n c live (and_left (is_writing c.channel) (ltb 0 n) e) h)
  | inr e ↦ rw e (record { live = live; stream = refl })
]
