-- ===== src/Net/TcpConnection/Attentive.antt =====
-- ham/net/TcpConnection.cc: what sending and writing keep.
use mathlib.Core.Bool.{false≢true}
use ham.Net.TcpConnection.{
  TcpConnection, Write, wrote, failed, handle_write, send_in_loop, disconnected, is_fault,
  first_write, after_failure,
}
use ham.Net.TcpConnection.Steps.{Takes}
use ham.Net.TcpConnection.Steady.{WhenOk}
use ham.Net.TcpConnection.Stream.{IsLive, send_in_loop-Streams}
use ham.Net.TcpConnection.Output.{handle_write-Streams}
use ham.Net.Channel.{is_writing}
use ham.Net.Buffer.{max_size, readable_bytes}
use ham.Net.Buffer.Contents.{IsValid, contents, readable_bytes-eq, length-contents}
use ham.Base.{
  Returns-mono, Bool-cases, ℕ, ◌+◌, ◌≤◌, ◌≡◌, refl, sym, ◌∙◌, ◌≢◌, inl, inr, Bool, true, false, not,
  ◌&&◌, List, [], ◌∷◌, arith, ltb, ◌==◌, length, Result, ok, err, Returns,
}

-- The buffers are sound. The channel waits for the socket only while output is pending, and until the
-- connection is disconnected also whenever some is.
pub record IsAttentive (c : TcpConnection) : Type 0 where
  pub input_valid : IsValid c.input_buffer
  pub output_valid : IsValid c.output_buffer
  pub not_idly : is_writing c.channel ≡ true → ltb 0 (length (contents c.output_buffer)) ≡ true
  pub waits :
      c.state ≢ disconnected → is_writing c.channel ≡ ltb 0 (length (contents c.output_buffer))

live-IsAttentive : (c : TcpConnection) → IsLive c → IsAttentive c
live-IsAttentive c live = record {
  input_valid = live.input_valid;
  output_valid = live.output_valid;
  not_idly = λ e. sym live.waits ∙ e;
  waits = λ _. live.waits;
}

empty_of : (xs : List ℕ) → length xs ≡ 0 → xs ≡ []
empty_of [] e = refl
empty_of (x ∷ xs) e = absurd (omega (arith, e))

and_parts : (a b : Bool) → (a && b) ≡ true → (a ≡ true) × (b ≡ true)
and_parts true b e = (refl, e)
and_parts false b e = absurd (false≢true e)

when_returns : (m : Result TcpConnection) (P : TcpConnection → Type 0) → Returns m P → WhenOk m P
when_returns (ok c) P h = h
when_returns (err e) P h = tt

-- What `sendInLoop` needs to write at once.
nothing_pending :
    (c : TcpConnection)
    → IsAttentive c
    → is_writing c.channel ≡ false
    → (readable_bytes c.output_buffer == 0) ≡ true
    → IsLive c × (contents c.output_buffer ≡ [])
nothing_pending c h idle e =
    let zero_left : readable_bytes c.output_buffer ≡ 0 = ground arith in
    let empty : contents c.output_buffer ≡ [] =
      empty_of (contents c.output_buffer)
        (length-contents h.output_valid ∙ (sym (readable_bytes-eq h.output_valid) ∙ zero_left)) in
    (
      record {
        input_valid = h.input_valid;
        output_valid = h.output_valid;
        waits = rw (idle, empty) refl;
      },
      empty,
    )

fault_ok :
    (msg : List ℕ) (c : TcpConnection) (errno : _)
    → is_fault errno ≡ true
    → first_write msg c (failed errno) ≡ ok c
unfolding first_write after_failure
fault_ok msg c errno e = rw e refl

written_at_once :
    (msg : List ℕ) (outcome : Write) (c : TcpConnection)
    → IsAttentive c
    → IsLive c
    → contents c.output_buffer ≡ []
    → Takes msg outcome
    → c.output_buffer.write_index + length msg ≤ max_size
    → (not (is_writing c.channel) && (readable_bytes c.output_buffer == 0)) ≡ true
    → Returns (send_in_loop msg outcome c) IsAttentive
unfolding send_in_loop
written_at_once msg (wrote n) c h live empty takes small e =
    Returns-mono (send_in_loop msg (wrote n) c) _ _
      (send_in_loop-Streams msg (wrote n) c live empty takes small)
      λ c' s. live-IsAttentive c' s.live
written_at_once msg (failed errno) c h live empty takes small e =
    elim (Bool-cases (is_fault errno)) [
      | inl fault ↦ rw (e, fault_ok msg c errno fault) h
      | inr soft ↦
          Returns-mono (send_in_loop msg (failed errno) c) _ _
            (send_in_loop-Streams msg (failed errno) c live empty soft small)
            λ c' s. live-IsAttentive c' s.live
    ]

pub send_in_loop-IsAttentive :
    (msg : List ℕ) (outcome : Write) (c : TcpConnection)
    → IsAttentive c
    → Takes msg outcome
    → c.output_buffer.write_index + length msg ≤ max_size
    → Returns (send_in_loop msg outcome c) IsAttentive
unfolding send_in_loop
send_in_loop-IsAttentive msg outcome c h takes small =
    elim (Bool-cases (not (is_writing c.channel) && (readable_bytes c.output_buffer == 0))) [
      | inl e ↦
          let (idle, none_left) =
            and_parts (not (is_writing c.channel)) (readable_bytes c.output_buffer == 0) e in
          let (live, empty) = nothing_pending c h (ground (arith, idle)) none_left in
          written_at_once msg outcome c h live empty takes small e
      | inr e ↦ rw e h
    ]

pub handle_write-IsAttentive :
    (outcome : Write) (c : TcpConnection)
    → IsAttentive c
    → Takes (contents c.output_buffer) outcome
    → Returns (handle_write outcome c) IsAttentive
unfolding handle_write
handle_write-IsAttentive (failed errno) c h takes = h
handle_write-IsAttentive (wrote n) c h takes = elim (Bool-cases (is_writing c.channel && ltb 0 n)) [
  | inr t ↦ rw t h
  | inl t ↦
      let (e, some_taken) = and_parts (is_writing c.channel) (ltb 0 n) t in
      let live : IsLive c = record {
        input_valid = h.input_valid;
        output_valid = h.output_valid;
        waits = e ∙ sym (h.not_idly e);
      } in
      Returns-mono (handle_write (wrote n) c) _ _ (handle_write-Streams (wrote n) c live takes)
        λ c' s. live-IsAttentive c' s.live
]
