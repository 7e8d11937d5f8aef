-- ===== src/Net/Http/Server/Connected.antt =====
-- ham/net/http/HttpServer.cc over ham/net/TcpConnection.cc: the calls of the handlers, made on a
-- connection in the thread of its loop.
use ham.Net.Http.Response.{new_response, HttpResponse}
use ham.Net.Http.Context.RoundTrip.{parsed, IsWellFormed}
use ham.Net.Http.Context.Headers.{Headers}
use ham.Net.Http.Request.{Version, Method}
use ham.Net.TcpConnection.Stream.{Streams}
use ham.Net.TcpConnection.Closing.{IsShut}
use ham.Net.Http.Server.{
  is_short_connection, Call, send, shutdown, HttpCallback, Handled, on_message,
}
use ham.Net.Http.Context.{new_context}
use ham.Net.TcpConnection
use ham.Net.TcpConnection.{
  connected, TcpConnection, Write, handle_write, wrote, keep_rest, after_write, after_failure,
  first_write, queue_in_loop, update_channel, socket_write, is_fault, failed, shutdown_in_loop,
  set_state,
}
use ham.Net.Buffer.Contents.{contents}
use ham.Base.{
  ℕ, ◌≡◌, Bool, true, false, Option, none, some, List, [], ◌∷◌, length, Result, ok, ◌>>=◌, Returns,
}

-- The calls, with what the kernel does to the first write.
unfoldable pub perform : Write → List Call → TcpConnection → Result TcpConnection
perform outcome [] c = ok c
perform outcome (send text ∷ calls) c =
    TcpConnection.send true text outcome c >>= perform outcome calls
perform outcome (shutdown ∷ calls) c = perform outcome calls (TcpConnection.shutdown true c)

unfoldable pub perform_handled :
    Write → TcpConnection → Option Handled → Result (Option TcpConnection)
unfolding perform
perform_handled outcome c none = ok none
perform_handled outcome c (some handled) = do
  answered ← perform outcome handled.calls (record c { input_buffer = handled.input })
  ok (some answered)

-- `onMessage` as the message callback of a connection; `none` means that the parser's fuel ran out.
unfoldable pub message_callback :
    ℕ → HttpCallback → Write → ℕ → TcpConnection → Result (Option TcpConnection)
unfolding perform_handled
message_callback fuel callback outcome time c = do
  handled ← on_message fuel callback new_context c.input_buffer time
  perform_handled outcome c handled

-- The response `xs` is on its way after all that was sent before; a connection that closes is
-- half-closed after the last byte, once the kernel has taken what is pending.
abbrev pub Answered : Bool → List ℕ → TcpConnection → Type 0
Answered true xs t =
    Returns (handle_write (wrote (length (contents t.output_buffer))) t) (IsShut xs)
Answered false xs t = Streams xs t × (t.state ≡ connected)

module _ (m : Method) (path : List ℕ) (query : Option (List ℕ)) (v : Version) (hs : Headers)
    (body : List ℕ) (good : IsWellFormed m path query v hs) (callback : HttpCallback) where
  -- The response to the request at a time.
  abbrev pub reply_at : ℕ → HttpResponse
  reply_at time =
      let request = parsed m path query v hs body good time in
      callback request (new_response (is_short_connection request))
