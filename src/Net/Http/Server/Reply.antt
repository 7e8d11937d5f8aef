-- ===== src/Net/Http/Server/Reply.antt =====
-- The reply to a request that arrives in one piece.
use ham.Net.Buffer.Strings.{init-Holds}
use ham.Net.Buffer.Contents.{bytes_at-contents}
use ham.Net.Buffer.{init, max_size}
use ham.Net.Http.Response.{append_to_buffer, new_response}
use ham.Net.Http.Response.Rendering.{append_to_buffer-Holds, response_text}
use ham.Net.Http.Request.{HttpRequest}
use ham.Net.Http.Server.{closing, send, is_short_connection, HttpCallback, on_request}
use ham.Base.{Returns-eq, ◌+◌, ◌≤◌, ◌≡◌, refl, ◌∷◌, arith, length, ok}

-- The callback's response goes out in one `send`, and the connection is shut down exactly when the
-- response says so, when the response fits into a buffer.
pub on_request-calls :
    (callback : HttpCallback) (request : HttpRequest)
    → 8 + length (response_text (callback request (new_response (is_short_connection request))))
      ≤ max_size
    → let response = callback request (new_response (is_short_connection request)) in
      on_request callback request
      ≡ ok (send (response_text response) ∷ closing response.close_connection)
unfolding on_request
on_request-calls callback request small =
    let response = callback request (new_response (is_short_connection request)) in
    let (fresh, e, (h, at_start, at_end)) = Returns-eq init _ init-Holds in
    let (buf, e', h') =
      Returns-eq (append_to_buffer response fresh) _
        (append_to_buffer-Holds response fresh h.valid (omega (arith, small, at_end))) in
    rw (e, e', bytes_at-contents buf h'.valid, h'.holds, h.holds) refl
