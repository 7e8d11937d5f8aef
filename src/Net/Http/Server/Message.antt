-- ===== src/Net/Http/Server/Message.antt =====
-- A message that holds one whole request: from the bytes received to the bytes sent.
use ham.Net.Http.Server.Reply.{on_request-calls}
use ham.Net.Http.Response.Rendering.{response_text}
use ham.Net.Buffer.Ops.{Holds}
use ham.Net.Buffer.{max_size, Buffer}
use ham.Net.Http.Response.{new_response, HttpResponse}
use ham.Net.Http.Context.{parse_request, new_context, got_all, Parsed}
use ham.Net.Http.Context.RoundTrip.{parse_request-request_text, parsed, request_text, IsWellFormed}
use ham.Net.Http.Context.Headers.{at, Ended, Headers}
use ham.Net.Http.Request.{HttpRequest, Version, Method}
use ham.Net.Http.Server.{
  closing, send, is_short_connection, on_request, on_message, Call, HttpCallback, answer,
}
use ham.Base.{
  Returns-bind, ℕ, ◌+◌, ◌≤◌, ◌≡◌, refl, true, Option, none, some, List, [], ◌∷◌, length, ok,
  Returns,
}

-- What a parser that has read the whole request makes the handler do.
answer-got_all :
    (callback : HttpCallback) (request : HttpRequest) (calls : List Call) (result : Parsed)
    → on_request callback request ≡ ok calls
    → Ended
        (λ (line_ok, c, rest). (line_ok ≡ true) × (c ≡ at got_all request) × Holds [] rest)
        result
    → Returns
        (answer callback result)
        (Ended λ handled. (handled.calls ≡ calls) × Holds [] handled.input)
unfolding answer
answer-got_all callback request calls none e h = absurd h
answer-got_all callback request calls (some (line_ok, c, rest)) e (h, k, empty) =
    rw (h, k, e) (refl, empty)

module _ (m : Method) (path : List ℕ) (query : Option (List ℕ)) (v : Version) (hs : Headers)
    (body : List ℕ) (good : IsWellFormed m path query v hs) (callback : HttpCallback) where
  abbrev asked : ℕ → HttpRequest
  asked time = parsed m path query v hs body good time

  abbrev reply : HttpRequest → HttpResponse
  reply request = callback request (new_response (is_short_connection request))

  -- A message that is exactly one well-formed request is answered by the callback's response to the
  -- request that the text stands for, then the connection is shut down exactly when the response says
  -- so, and no byte is left in the input; the fuel covers the lines, and the response fits.
  pub on_message-request_text :
      (fuel : ℕ) (input : Buffer) (time : ℕ)
      → length hs + 3 ≤ fuel
      → Holds (request_text m path query v hs body) input
      → 8 + length (response_text (reply (asked time))) ≤ max_size
      → Returns (on_message fuel callback new_context input time) (
          Ended λ handled.
            (handled.calls
              ≡ send (response_text (reply (asked time)))
                ∷ closing (reply (asked time)).close_connection)
            × Holds [] handled.input)
  unfolding on_message
  on_message-request_text fuel input time enough h small =
      Returns-bind (parse_request fuel new_context input time) (answer callback) (Ended _) (Ended _)
        (parse_request-request_text m path query v hs body good fuel input time enough h)
        λ result.
          answer-got_all callback (asked time) _ result
            (on_request-calls callback (asked time) small)
