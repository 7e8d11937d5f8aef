-- ===== src/Net/Http/Context/RoundTrip.antt =====
-- A request that is written out is parsed back.
use ham.Base.Slices.{drop-append_past_two, take-append_exact}
use ham.Net.Http.Context.Lines.{drop_line, read_line, find_line}
use ham.Net.Buffer.Ops.{Holds}
use ham.Net.Buffer.Search.{search_crlf-append, search_crlf, find_byte}
use ham.Net.Buffer.{retrieve_until, Buffer}
use ham.Net.Http.Context.{got_all, new_context, parse_loop, parse_request}
use ham.Net.Http.Context.RequestLine.{
  parse_request_line-request_line, query_part, query_or, request_line,
}
use ham.Net.Http.Context.Headers.{
  parse_headers, at, Ended, AreHeaders, assign_all, header_block, Headers,
}
use ham.Net.Http.Request.{new_request, unknown, HttpRequest, invalid, Version, Method}
use ham.Base.{
  Returns-bind_twice, ℕ, zero, suc, ◌+◌, ◌≤◌, ◌≡◌, refl, ◌≢◌, true, Option, none, List, [], ◌∷◌,
  ◌++◌, arith, length, drop, Returns,
}

-- The text of a request.
abbrev pub request_text : Method → List ℕ → Option (List ℕ) → Version → Headers → List ℕ → List ℕ
request_text m path query v hs body =
    request_line m path query v ++ (13 ∷ 10 ∷ header_block hs body)

-- The conditions under which the parts can be told apart.
pub record IsWellFormed (m : Method) (path : List ℕ) (query : Option (List ℕ)) (v : Version)
    (hs : Headers) : Type 0 where
  pub known_method : m ≢ invalid
  pub known_version : v ≢ unknown
  pub no_blank : find_byte b' ' (path ++ query_part query) ≡ none
  pub no_question : find_byte b'?' path ≡ none
  pub one_line : search_crlf (request_line m path query v) ≡ none
  pub headers : AreHeaders hs

module _ (m : Method) (path : List ℕ) (query : Option (List ℕ)) (v : Version) (hs : Headers)
    (body : List ℕ) (good : IsWellFormed m path query v hs) where
  -- The request that the text stands for, received at `time`.
  abbrev pub parsed : ℕ → HttpRequest
  parsed time = record {
    method = m;
    version = v;
    receive_time = time;
    path = path;
    query = query_or query [];
    body = body;
    headers = assign_all hs [];
  }

  -- With fuel for its lines, the parser reads a whole well-formed request off the buffer, whatever the
  -- body holds, and leaves no byte.
  pub parse_request-request_text :
      (fuel : ℕ) (b : Buffer) (time : ℕ)
      → length hs + 3 ≤ fuel
      → Holds (request_text m path query v hs body) b
      → Returns (parse_request fuel new_context b time) (
          Ended
            λ (result, c, rest). (result ≡ true) × (c ≡ at got_all (parsed time)) × Holds [] rest)
  unfolding parse_request parse_loop
  parse_request-request_text zero b time enough h = absurd (omega arith)
  parse_request-request_text (suc fuel) b time enough h =
      let line = request_line m path query v in
      let rest = header_block hs body in
      let xs = line ++ (13 ∷ 10 ∷ rest) in
      let found = search_crlf-append line rest good.one_line in
      rw
        (
          find_line xs (length line) b h found,
          read_line xs (length line) b h found,
          take-append_exact (length line) line (13 ∷ 10 ∷ rest) refl,
          parse_request_line-request_line new_request m path query v refl good.known_method
              good.known_version good.no_blank good.no_question,
        )
        (Returns-bind_twice (retrieve_until b (b.read_index + length line + 2)) _ _
          (Holds (drop (length line + 2) xs)) _ (drop_line xs (length line) b h found)
          λ b' k.
            parse_headers hs body fuel
              (record new_request {
                method = m;
                path = path;
                query = query_or query [];
                version = v;
                receive_time = time;
              })
              b' time true good.headers (omega arith)
              (rw (drop-append_past_two (length line + 2) line 13 10 rest refl) at k))
