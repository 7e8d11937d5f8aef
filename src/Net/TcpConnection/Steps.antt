-- ===== src/Net/TcpConnection/Steps.antt =====
-- ham/net/TcpConnection.cc: everything that may happen to a connection, in any order, as a step relation.
use ham.Net.TcpConnection.{
  TcpConnection, Callbacks, Write, wrote, failed, send, shutdown, force_close, connecting,
  establish_connection, handle_read, handle_write, handle_close, send_in_loop, shutdown_in_loop,
  force_close_in_loop, destory_connection, new_connection,
}
use ham.Net.TcpConnection.Steady.{WhenOk}
use ham.Net.Buffer.{Buffer, max_size}
use ham.Net.Buffer.Input.{Brings, Readv}
use ham.Net.Buffer.Contents.{IsValid, contents}
use ham.Base.{ℕ, ◌+◌, ◌≤◌, ◌≡◌, Bool, List, length, ok}

-- What the kernel's `::write` may do with the bytes that it is given.
abbrev pub Takes : List ℕ → Write → Type 0
Takes msg (wrote n) = n ≤ length msg
Takes msg (failed errno) = Unit {0}

-- What a user does with a connection, in its loop's thread or in another one.
pub data Use (c : TcpConnection) : TcpConnection → Type 0 where
  sends :
      {c' : TcpConnection} (in_loop : Bool) (msg : List ℕ) (outcome : Write)
      → Takes msg outcome
      → c.output_buffer.write_index + length msg ≤ max_size
      → send in_loop msg outcome c ≡ ok c'
      → Use c c'
  shuts : (in_loop : Bool) → Use c (shutdown in_loop c)
  forces : Use c (force_close c)
  -- The input is read, and the buffer stays a valid one.
  reads_input : (b : Buffer) → IsValid b → Use c (record c { input_buffer = b })

pub data Uses (c : TcpConnection) : TcpConnection → Type 0 where
  unused : Uses c c
  used : {d e : TcpConnection} → Uses c d → Use d e → Uses c e

-- The callbacks only use the connection.
pub record Behaves (cb : Callbacks) : Type 0 where
  pub on_connection : (c : TcpConnection) → WhenOk (cb.connection_callback c) (Uses c)
  pub on_message : (time : ℕ) (c : TcpConnection) → WhenOk (cb.message_callback time c) (Uses c)
  pub on_close : (c : TcpConnection) → WhenOk (cb.close_callback c) (Uses c)

-- A functor that was queued may run at any time, also after the end of the connection.
pub data Step (c : TcpConnection) : TcpConnection → Type 0 where
  uses : {c' : TcpConnection} → Use c c' → Step c c'
  establishes :
      {c' : TcpConnection} (cb : Callbacks)
      → Behaves cb
      → c.state ≡ connecting
      → establish_connection cb c ≡ ok c'
      → Step c c'
  reads :
      {c' : TcpConnection} (cb : Callbacks) (time : ℕ) (outcome : Readv)
      → Behaves cb
      → Brings c.input_buffer outcome
      → handle_read cb time outcome c ≡ ok c'
      → Step c c'
  writes :
      {c' : TcpConnection} (outcome : Write)
      → Takes (contents c.output_buffer) outcome
      → handle_write outcome c ≡ ok c'
      → Step c c'
  closes :
      {c' : TcpConnection} (cb : Callbacks) → Behaves cb → handle_close cb c ≡ ok c' → Step c c'
  runs_send :
      {c' : TcpConnection} (msg : List ℕ) (outcome : Write)
      → Takes msg outcome
      → c.output_buffer.write_index + length msg ≤ max_size
      → send_in_loop msg outcome c ≡ ok c'
      → Step c c'
  runs_shutdown : Step c (shutdown_in_loop c)
  runs_force :
      {c' : TcpConnection} (cb : Callbacks)
      → Behaves cb
      → force_close_in_loop cb c ≡ ok c'
      → Step c c'
  destroys :
      {c' : TcpConnection} (cb : Callbacks)
      → Behaves cb
      → destory_connection cb c ≡ ok c'
      → Step c c'

pub data Reachable : TcpConnection → Type 0 where
  made :
      {c : TcpConnection} (sockfd : ℕ) (complete high : Bool)
      → new_connection sockfd complete high ≡ ok c
      → Reachable c
  later : {c c' : TcpConnection} → Reachable c → Step c c' → Reachable c'
