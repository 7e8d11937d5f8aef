-- ===== src/Net/TcpConnection/Using.antt =====
-- ham/net/TcpConnection.cc: what the uses of a connection keep.
use ham.Net.TcpConnection.Attentive.{IsAttentive, send_in_loop-IsAttentive}
use mathlib.Core.Bool.{false≢true}
use ham.Net.TcpConnection.{
  TcpConnection, State, Write, send, shutdown, force_close, shutdown_in_loop, disconnected,
  disconnecting, is_connected, is_open, set_state, queue_in_loop,
}
use ham.Net.TcpConnection.Steps.{forces, reads_input, shuts, unused, used, sends, Takes, Use, Uses}
use ham.Net.Channel.{is_writing}
use ham.Net.Buffer.{max_size}
use ham.Base.{
  Returns_at, if-both, Bool-cases, ℕ, ◌+◌, ◌≤◌, ◌≡◌, refl, sym, ap, ◌∙◌, ◌≢◌, inl, inr, Bool, true,
  List, length, ok, Returns,
}

disconnected_only :
    (c : TcpConnection) (st : State)
    → IsAttentive c
    → c.state ≢ disconnected
    → IsAttentive (record c { state = st })
disconnected_only c st h up = record {
  input_valid = h.input_valid;
  output_valid = h.output_valid;
  not_idly = h.not_idly;
  waits = λ _. h.waits up;
}

pub open_up : (c : TcpConnection) → is_open c.state ≡ true → c.state ≢ disconnected
open_up c e down = false≢true (sym (ap is_open down) ∙ e)

pub connected_up : (c : TcpConnection) → is_connected c.state ≡ true → c.state ≢ disconnected
connected_up c e down = false≢true (sym (ap is_connected down) ∙ e)

pub shutdown_in_loop-IsAttentive :
    (c : TcpConnection) → IsAttentive c → IsAttentive (shutdown_in_loop c)
unfolding shutdown_in_loop set_state
shutdown_in_loop-IsAttentive c h = if-both IsAttentive (is_writing c.channel) c _ h (record {
  input_valid = h.input_valid;
  output_valid = h.output_valid;
  not_idly = h.not_idly;
  waits = λ up. absurd (up refl);
})

shutdown-IsAttentive :
    (in_loop : Bool) (c : TcpConnection) → IsAttentive c → IsAttentive (shutdown in_loop c)
unfolding shutdown set_state queue_in_loop
shutdown-IsAttentive in_loop c h = elim (Bool-cases (is_connected c.state)) [
  | inr e ↦ simp e h
  | inl e ↦
      let told = disconnected_only c disconnecting h (connected_up c e) in
      simp e (
        if-both IsAttentive in_loop _ _ (shutdown_in_loop-IsAttentive _ told) (record {
          input_valid = told.input_valid;
          output_valid = told.output_valid;
          not_idly = told.not_idly;
          waits = told.waits;
        }))
]

force_close-IsAttentive : (c : TcpConnection) → IsAttentive c → IsAttentive (force_close c)
unfolding force_close set_state queue_in_loop
force_close-IsAttentive c h = elim (Bool-cases (is_open c.state)) [
  | inr e ↦ simp e h
  | inl e ↦ simp e (record {
    input_valid = h.input_valid;
    output_valid = h.output_valid;
    not_idly = h.not_idly;
    waits = λ _. h.waits (open_up c e);
  })
]

send-IsAttentive :
    (in_loop : Bool) (msg : List ℕ) (outcome : Write) (c : TcpConnection)
    → IsAttentive c
    → Takes msg outcome
    → c.output_buffer.write_index + length msg ≤ max_size
    → Returns (send in_loop msg outcome c) IsAttentive
unfolding send queue_in_loop
send-IsAttentive in_loop msg outcome c h takes small =
    if-both (λ m. Returns m IsAttentive) (is_connected c.state) _ (ok c)
      (if-both (λ m. Returns m IsAttentive) in_loop _ _
        (send_in_loop-IsAttentive msg outcome c h takes small)
        (record {
          input_valid = h.input_valid;
          output_valid = h.output_valid;
          not_idly = h.not_idly;
          waits = h.waits;
        }))
      h

pub Use-IsAttentive : {c c' : TcpConnection} → Use c c' → IsAttentive c → IsAttentive c'
Use-IsAttentive {c} {c'} (sends in_loop msg outcome takes small e) h =
    Returns_at (send in_loop msg outcome c) c' IsAttentive e
      (send-IsAttentive in_loop msg outcome c h takes small)
Use-IsAttentive {c} (shuts in_loop) h = shutdown-IsAttentive in_loop c h
Use-IsAttentive {c} forces h = force_close-IsAttentive c h
Use-IsAttentive {c} (reads_input b v) h = record {
  input_valid = v;
  output_valid = h.output_valid;
  not_idly = h.not_idly;
  waits = h.waits;
}

pub Uses-IsAttentive : {c c' : TcpConnection} → Uses c c' → IsAttentive c → IsAttentive c'
Uses-IsAttentive unused h = h
Uses-IsAttentive (used us u) h = Use-IsAttentive u (Uses-IsAttentive us h)
