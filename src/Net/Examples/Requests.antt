-- ===== src/Net/Examples/Requests.antt =====
-- The HTTP theorems at "GET /a?x HTTP/1.1", with a header and a body.
use ham.Base.Text.{decimal}
use ham.Net.Http.Response.Rendering.{append_to_buffer-Holds, response_text}
use ham.Net.Buffer.Contents.{contents}
use ham.Net.Buffer.Ops.{Holds}
use ham.Net.Http.Context.Termination.{parse_request-stops, parse_request-got_all}
use ham.Net.Buffer.{max_size, Buffer}
use ham.Net.Http.Server.{is_short_connection, HttpCallback}
use ham.Net.Buffer.Search.{search_crlf, find_byte}
use ham.Net.Http.Context.Headers.{at, Ended, AreHeaders, Headers}
use mathlib.Core.Bool.{false≢true}
use ham.Net.Http.Context.RoundTrip.{parse_request-request_text, parsed, IsWellFormed, request_text}
use ham.Net.Http.Request.{
  skip_spaces, unknown, cut_spaces, new_request, method_to_string, is_invalid, HttpRequest, get,
  http11, invalid, Version,
}
use ham.Net.Http.Response.{unknown_version, ok_200, new_response, HttpResponse, append_to_buffer}
use ham.Net.Http.Context.{got_all, ParseState, HttpContext, new_context, parse_request}
use ham.Net.TcpConnection.{TcpConnection, connected}
use ham.Net.Channel.{none_event, new_channel}
use ham.Base.{
  ℕ, ◌+◌, ◌≤◌, ◌≡◌, refl, ap, ◌≢◌, Bool, true, false, Option, none, some, List, [], ◌∷◌, ◌++◌,
  arith, length, bytes, ok, Returns,
}

abbrev path_a : List ℕ
path_a = 47 ∷ 97 ∷ []

abbrev query_x : Option (List ℕ)
query_x = some (120 ∷ [])

abbrev host : Headers
host = (bytes "Host", bytes "b") ∷ []

get≢invalid : get ≢ invalid
get≢invalid e = false≢true (ap is_invalid e)

abbrev is_known : Version → Bool
is_known unknown = true
is_known _ = false

http11≢unknown : http11 ≢ unknown
http11≢unknown e = false≢true (ap is_known e)

abbrev is_last : ParseState → Bool
is_last got_all = true
is_last _ = false

host-AreHeaders : AreHeaders host
host-AreHeaders = (
  record {
    name = unfold find_byte in refl;
    trimmed = unfold cut_spaces skip_spaces in refl;
    one_line = unfold search_crlf in refl;
  },
  tt,
)

asked-IsWellFormed : IsWellFormed get path_a query_x http11 host
asked-IsWellFormed = record {
  known_method = get≢invalid;
  known_version = http11≢unknown;
  no_blank = unfold find_byte in refl;
  no_question = unfold find_byte in refl;
  one_line = unfold search_crlf method_to_string in refl;
  headers = host-AreHeaders;
}

abbrev text : List ℕ
text = request_text get path_a query_x http11 host (104 ∷ 105 ∷ [])

-- The storage of a connection's input that holds the request and nothing else.
abbrev input_of : List ℕ → Buffer
input_of xs = record {
  buffer = 0 ∷ 0 ∷ 0 ∷ 0 ∷ 0 ∷ 0 ∷ 0 ∷ 0 ∷ xs;
  read_index = 8;
  write_index = 8 + length xs;
}

text-Holds : Holds text (input_of text)
unfolding method_to_string contents
text-Holds = record {
  valid = record {
    ordered = omega arith;
    within = omega arith;
    room = omega arith;
    bounded = omega arith;
  };
  holds = refl;
}

abbrev asked_at : ℕ → HttpRequest
asked_at time = parsed get path_a query_x http11 host (104 ∷ 105 ∷ []) asked-IsWellFormed time

parse_request-request_text_example :
    Returns
      (parse_request 4 new_context (input_of text) 5)
      (Ended λ (result, c, rest). (result ≡ true) × (c ≡ at got_all (asked_at 5)) × Holds [] rest)
parse_request-request_text_example =
    parse_request-request_text get path_a query_x http11 host (104 ∷ 105 ∷ []) asked-IsWellFormed 4
      (input_of text) 5 (omega arith) text-Holds

parse_request-stops_example : parse_request 60 new_context (input_of text) 5 ≢ ok none
unfolding method_to_string contents
parse_request-stops_example =
    parse_request-stops 60 new_context (input_of text) 5 text-Holds.valid
      (λ e. false≢true (ap is_last e)) (omega arith)

abbrev finished : HttpContext
finished = at got_all new_request

parse_request-got_all_example : parse_request 60 finished (input_of text) 5 ≡ ok none
parse_request-got_all_example = parse_request-got_all 60 finished (input_of text) 5 refl

-- A callback that answers every request with its body, and closes.
abbrev echo : HttpCallback
echo request response = record response {
  state_code = ok_200;
  state_message = bytes "OK";
  body = request.body;
  version = unknown_version;
  close_connection = true;
  headers = [];
}

abbrev echoed : HttpResponse
echoed = echo (asked_at 5) (new_response (is_short_connection (asked_at 5)))

echoed-IsSmall : 8 + length (response_text echoed) ≤ max_size
unfolding decimal
echoed-IsSmall = omega arith

append_to_buffer-Holds_example :
    Returns
      (append_to_buffer echoed (input_of []))
      (Holds (contents (input_of []) ++ response_text echoed))
append_to_buffer-Holds_example =
    append_to_buffer-Holds echoed (input_of [])
      (record {
        ordered = omega arith;
        within = omega arith;
        room = omega arith;
        bounded = omega arith;
      })
      echoed-IsSmall

-- A connection that is up, with the request in its input.
abbrev asking : TcpConnection
asking = record {
  state = connected;
  socket = record { sent = 9 ∷ []; shut_after = none };
  channel = record (new_channel 4) { event = record none_event { input = true; priority = true } };
  input_buffer = input_of text;
  output_buffer = input_of [];
  high_water_mark = 64;
  has_write_complete = true;
  has_high_water_mark = true;
  queued = [];
  poller_calls = [];
}
