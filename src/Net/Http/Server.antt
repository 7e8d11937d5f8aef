-- ===== src/Net/Http/Server.antt =====
-- ham/net/http/HttpServer.cc: the handlers of a connection. What they do to the connection is the
-- list of their calls, in order; the user's callback is an argument.
pub mod Reply
pub mod Message
pub mod Connected
use ham.Net.Http.Response.{append_to_buffer, HttpResponse, new_response}
use ham.Net.Buffer.{readable_bytes, bytes_at, init, Buffer}
use ham.Net.Http.Context.{parse_request, Parsed, HttpContext, is_got_all}
use ham.Net.Http.Request.{http10, get_header, Version, HttpRequest}
use ham.Net.Http.Response
use ham.Base.{
  same, ℕ, zero, suc, ◌+◌, ◌-◌, ◌*◌, ◌/◌, ◌%◌, ◌^◌, ◌≤◌, ◌<◌, min, String, ◌≡◌, refl, sym, ap, ◌∙◌,
  ◌≢◌, ◌⊎◌, inl, inr, Bool, true, false, not, ◌&&◌, ◌||◌, Option, none, some, List, [], ◌∷◌, ◌++◌,
  arith, ltb, leb, ◌==◌, if◌then◌else◌, add_size, sub_size, length, take, drop, bytes, Result, ok,
  err, ◌>>=◌, ◌>>◌, assert, Returns,
}

pub data Call : Type 0 where
  send : List ℕ → Call
  shutdown : Call

abbrev pub HttpCallback : Type 0
HttpCallback = HttpRequest → HttpResponse → HttpResponse

is_http10 : Version → Bool
is_http10 http10 = true
is_http10 _ = false

-- A short connection is closed after the response.
unfoldable pub is_short_connection : HttpRequest → Bool
unfolding is_http10
is_short_connection request =
    let conn_type = get_header request (bytes "Connection") in
    same conn_type (bytes "close")
    || (is_http10 request.version && not (same conn_type (bytes "Keep-Alive")))

abbrev pub closing : Bool → List Call
closing true = shutdown ∷ []
closing false = []

unfoldable pub on_request : HttpCallback → HttpRequest → Result (List Call)
on_request callback request = do
  let response = callback request (new_response (is_short_connection request))
  fresh ← init
  buf ← append_to_buffer response fresh
  text ← bytes_at buf buf.read_index (readable_bytes buf)
  ok (send text ∷ closing response.close_connection)

abbrev pub bad_request : List ℕ
bad_request = bytes "HTTP/1.1 400 Bad Request\r\n\r\n"

abbrev pub refusal : Bool → List Call
refusal true = []
refusal false = send bad_request ∷ shutdown ∷ []

-- What one message does. The context of the connection is copied, and the copy is dropped at the end.
pub record Handled : Type 0 where
  pub calls : List Call
  pub input : Buffer

-- `none` means that the parser's fuel ran out.
unfoldable pub answer : HttpCallback → Parsed → Result (Option Handled)
unfolding is_got_all
answer callback none = ok none
answer callback (some (parsed, context, rest)) = do
  replies ← if is_got_all context then on_request callback context.request else ok []
  ok (some (record { calls = refusal parsed ++ replies; input = rest }))

unfoldable pub on_message : ℕ → HttpCallback → HttpContext → Buffer → ℕ → Result (Option Handled)
unfolding answer
on_message fuel callback stored input time = do
  result ← parse_request fuel stored input time
  answer callback result
