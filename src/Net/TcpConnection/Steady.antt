-- ===== src/Net/TcpConnection/Steady.antt =====
-- ham/net/TcpConnection.cc: what `sendInLoop` leaves as it is.
use ham.Net.TcpConnection.{
  TcpConnection, State, Write, wrote, failed, Errno, keep_rest, after_write, after_failure,
  first_write, send_in_loop, queue_in_loop, update_channel, socket_write, is_fault, write_complete,
  high_water_mark_reached, shutdown, shutdown_in_loop, set_state,
}
use ham.Net.Buffer.{append, readable_bytes}
use ham.Net.Channel.{is_writing}
use ham.Net.TcpConnection.Stream.{IsLive, Accepts, Streams, send_in_loop-Streams}
use ham.Net.Buffer.Contents.{contents}
use ham.Net.Buffer.{max_size}
use ham.Base.{
  subst, if-both, ℕ, ◌+◌, ◌≤◌, ◌≡◌, refl, Bool, not, ◌&&◌, List, [], ◌++◌, arith, ltb, leb, ◌==◌,
  if◌then◌else◌, add_size, sub_size, length, Result, ok, err, ◌>>=◌, assert, Returns,
}

-- `m` satisfies `P` when it ends without a fault.
abbrev pub WhenOk : Result TcpConnection → (TcpConnection → Type 0) → Type 0
WhenOk (ok c) P = P c
WhenOk (err e) P = Unit {0}

pub WhenOk-bind :
    {A : Type 0} (m : Result A) (f : A → Result TcpConnection) (P : TcpConnection → Type 0)
    → ((a : A) → WhenOk (f a) P)
    → WhenOk (m >>= f) P
WhenOk-bind (ok a) f P h = h a
WhenOk-bind (err e) f P h = tt

abbrev InState : State → TcpConnection → Type 0
InState st c = c.state ≡ st

keep_rest-InState :
    (msg : List ℕ) (n remaining : ℕ) (c : TcpConnection)
    → WhenOk (keep_rest msg n remaining c) (InState c.state)
unfolding keep_rest queue_in_loop update_channel
keep_rest-InState msg n remaining c =
    let same_state =
      if-both (InState c.state)
        (ltb (readable_bytes c.output_buffer) c.high_water_mark
          && (leb c.high_water_mark (add_size (readable_bytes c.output_buffer) remaining)
              && c.has_high_water_mark))
        (queue_in_loop
          (high_water_mark_reached (add_size (readable_bytes c.output_buffer) remaining)) c)
        c refl refl in
    WhenOk-bind (append _ _) _ (InState c.state)
      (λ output. if-both (InState c.state) _ _ _ same_state same_state)

after_write-InState :
    (msg : List ℕ) (n : ℕ) (c : TcpConnection) → WhenOk (after_write msg n c) (InState c.state)
unfolding after_write queue_in_loop socket_write
after_write-InState msg n c =
    let remaining = sub_size (length msg) n in
    let written = socket_write msg n c in
    let told =
      if (remaining == 0) && written.has_write_complete
      then queue_in_loop write_complete written
      else written in
    let same_state : InState c.state told =
      if-both (InState c.state) ((remaining == 0) && written.has_write_complete)
        (queue_in_loop write_complete written) written refl refl in
    WhenOk-bind (assert (leb remaining (length msg))) _ (InState c.state) (λ _.
      if-both (λ m. WhenOk m (InState c.state)) (ltb 0 remaining) (keep_rest msg n remaining told)
        (ok told)
        (subst (λ st. WhenOk (keep_rest msg n remaining told) (InState st)) same_state
          (keep_rest-InState msg n remaining told))
        same_state)

after_failure-InState :
    (msg : List ℕ) (errno : Errno) (c : TcpConnection)
    → WhenOk (after_failure msg errno c) (InState c.state)
unfolding after_failure
after_failure-InState msg errno c =
    if-both (λ m. WhenOk m (InState c.state)) (not (is_fault errno) && ltb 0 (length msg)) _ _
      (keep_rest-InState msg 0 (length msg) c) refl

first_write-InState :
    (msg : List ℕ) (c : TcpConnection) (outcome : Write)
    → WhenOk (first_write msg c outcome) (InState c.state)
unfolding first_write
first_write-InState msg c (wrote n) = after_write-InState msg n c
first_write-InState msg c (failed errno) = after_failure-InState msg errno c

send_in_loop-InState :
    (msg : List ℕ) (outcome : Write) (c : TcpConnection)
    → WhenOk (send_in_loop msg outcome c) (InState c.state)
unfolding send_in_loop
send_in_loop-InState msg outcome c =
    if-both (λ m. WhenOk m (InState c.state))
      (not (is_writing c.channel) && (readable_bytes c.output_buffer == 0)) _ _
      (first_write-InState msg c outcome) refl

Returns-WhenOk :
    (m : Result TcpConnection) (P Q : TcpConnection → Type 0)
    → Returns m P
    → WhenOk m Q
    → Returns m (λ c. P c × Q c)
Returns-WhenOk (ok c) P Q h k = (h, k)
Returns-WhenOk (err e) P Q h k = absurd h

-- The write of `sendInLoop`, and the state.
pub send_in_loop-Steady :
    (msg : List ℕ) (outcome : Write) (c : TcpConnection)
    → IsLive c
    → contents c.output_buffer ≡ []
    → Accepts msg outcome
    → c.output_buffer.write_index + length msg ≤ max_size
    → Returns
        (send_in_loop msg outcome c)
        (λ t. Streams (c.socket.sent ++ msg) t × (t.state ≡ c.state))
send_in_loop-Steady msg outcome c live empty h small =
    Returns-WhenOk (send_in_loop msg outcome c) (Streams (c.socket.sent ++ msg)) (InState c.state)
      (send_in_loop-Streams msg outcome c live empty h small) (send_in_loop-InState msg outcome c)

-- `shutdown` leaves the output as it is.
pub output-shutdown :
    (in_loop : Bool) (c : TcpConnection) → (shutdown in_loop c).output_buffer ≡ c.output_buffer
unfolding shutdown shutdown_in_loop set_state queue_in_loop is_writing
output-shutdown in_loop c = ground arith
