-- ===== src/Net/Http/Context.antt =====
-- ham/net/http/HttpContext.h and HttpContext.cc: the request parser as a state machine over a buffer.
mod Lines
pub mod Termination
pub mod RequestLine
pub mod Headers
pub mod RoundTrip
pub mod Reset
use ham.Net.Http.Request.{http11, http10, set_method, add_header, new_request, HttpRequest}
use ham.Net.Buffer.Search.{find_crlf, find_byte}
use ham.Net.Buffer.{retrieve_all_as_string, retrieve_until, Buffer, bytes_at}
use ham.Base.{
  require, undefined, same, ℕ, zero, suc, ◌+◌, ◌-◌, ◌*◌, ◌/◌, ◌%◌, ◌^◌, ◌≤◌, ◌<◌, min, String, ◌≡◌,
  refl, sym, ap, ◌∙◌, ◌≢◌, ◌⊎◌, inl, inr, Bool, true, false, not, ◌&&◌, ◌||◌, Option, none, some,
  List, [], ◌∷◌, ◌++◌, arith, ltb, leb, ◌==◌, if◌then◌else◌, add_size, sub_size, length, take, drop,
  bytes, Result, ok, err, ◌>>=◌, ◌>>◌, assert, Returns,
}
use ham.Net.Http.Request

pub data ParseState : Type 0 where
  expect_request_line expect_headers expect_body got_all : ParseState

pub record HttpContext : Type 0 where
  pub request : HttpRequest
  pub parse_state : ParseState

abbrev pub new_context : HttpContext
new_context = record { request = new_request; parse_state = expect_request_line }

unfoldable pub is_got_all : HttpContext → Bool
is_got_all c = elim c.parse_state [ got_all ↦ true | _ ↦ false ]

-- `request_.swap(dummy)`; the parse state is not touched.
unfoldable pub reset : HttpContext → HttpContext
unfolding Request.swap
reset c = record c { request = (Request.swap c.request new_request).0 }

-- Between the first and the second blank of the line: the path, and the query behind a '?'.
unfoldable pub set_target : HttpRequest → List ℕ → HttpRequest
set_target r target = elim (find_byte b'?' target) [
  | none ↦ record r { path = target }
  | some q ↦ record r { query = drop (q + 1) target; path = take q target }
]

-- What stands behind the second blank.
unfoldable pub set_version : HttpRequest → List ℕ → Bool × HttpRequest
set_version r tail =
    if (length tail == 8) && same (take 7 tail) (bytes "HTTP/1.")
    then if same (drop 7 tail) (bytes "0")
      then (true, record r { version = http10 })
      else if same (drop 7 tail) (bytes "1")
      then (true, record r { version = http11 })
      else (false, r)
    else (false, r)

-- From the second blank on. `std::string s(start, end - 1)` wants `start` before `end - 1`: there is
-- no such range when nothing follows the second blank, or there is none.
unfoldable pub parse_target : HttpRequest → List ℕ → Result (Bool × HttpRequest)
parse_target r rest = elim (find_byte b' ' rest) [
  | none ↦ err undefined
  | some space ↦ do
    let tail = drop (space + 1) rest
    require (leb 1 (length tail)) undefined
    ok (set_version (set_target r (take space rest)) tail)
]

unfoldable pub parse_request_line : HttpRequest → List ℕ → Result (Bool × HttpRequest)
parse_request_line r line = elim (find_byte b' ' line) [
  | none ↦ ok (false, r)
  | some space ↦ do
    (done, named) ← set_method r (take space line)
    if done then parse_target named (drop (space + 1) line) else ok (false, named)
]

-- What one round of the loop does: it returns, or goes on.
pub data Round : Type 0 where
  finished : Bool → HttpContext → Buffer → Round
  continues : Bool → HttpContext → Buffer → Round

round_request_line : HttpContext → Buffer → ℕ → Bool → Option ℕ → Result Round
round_request_line c b time line_ok none = ok (finished false c b)
round_request_line c b time line_ok (some crlf) = do
  line ← bytes_at b b.read_index (crlf - b.read_index)
  (done, request) ← parse_request_line c.request line
  if done
      then (do
        rest ← retrieve_until b (crlf + 2)
        ok (
            continues true
              (record {
                request = record request { receive_time = time };
                parse_state = expect_headers;
              })
              rest))
      else ok (finished false (record c { request = request }) b)

-- A line without a colon ends the headers.
take_header : HttpContext → List ℕ → HttpContext
take_header c line = elim (find_byte b':' line) [
  | none ↦ record c { parse_state = expect_body }
  | some colon ↦ record c { request = add_header c.request line colon }
]

round_headers : HttpContext → Buffer → Bool → Option ℕ → Result Round
round_headers c b line_ok none = ok (finished line_ok c b)
round_headers c b line_ok (some crlf) = do
  line ← bytes_at b b.read_index (crlf - b.read_index)
  rest ← retrieve_until b (crlf + 2)
  ok (continues line_ok (take_header c line) rest)

round_body : HttpContext → Buffer → Bool → Result Round
round_body c b line_ok = do
  (text, rest) ← retrieve_all_as_string b
  ok (
      finished line_ok
        (record { request = record c.request { body = text }; parse_state = got_all }) rest)

round : ParseState → HttpContext → Buffer → ℕ → Bool → Result Round
unfolding round_request_line round_headers round_body
round expect_request_line c b time line_ok = do
  crlf ← find_crlf b
  round_request_line c b time line_ok crlf
round expect_headers c b time line_ok = do crlf ← find_crlf b; round_headers c b line_ok crlf
round expect_body c b time line_ok = round_body c b line_ok
round got_all c b time line_ok = ok (continues line_ok c b)

-- The outcome of the whole loop; `none` means that the fuel ran out.
abbrev pub Parsed : Type 0
Parsed = Option (Bool × HttpContext × Buffer)

pub parse_loop : ℕ → HttpContext → Buffer → ℕ → Bool → Result Parsed
unfolding round
parse_loop zero c b time line_ok = ok none
parse_loop (suc fuel) c b time line_ok = round c.parse_state c b time line_ok >>= λ s. elim s [
  | finished r c' b' ↦ ok (some (r, c', b'))
  | continues r c' b' ↦ parse_loop fuel c' b' time r
]

pub parse_request : ℕ → HttpContext → Buffer → ℕ → Result Parsed
unfolding parse_loop
parse_request fuel c b time = parse_loop fuel c b time true
