-- ===== src/Net/Http/Context/RequestLine.antt =====
-- What `parseRequestLine` makes of a line.
use ham.Base.Slices.{drop-append_past, take-append_exact}
use mathlib.Core.List.{append-nil}
use ham.Net.Buffer.Search.{find_byte-append, find_byte}
use ham.Net.Http.Request.{
  method_of-method_to_string, set_method, HttpRequest, http11, invalid, unknown, http10,
  method_to_string, Version, Method,
}
use ham.Net.Http.Context.{parse_target, set_target, set_version, parse_request_line}
use ham.Base.{
  ℕ, ◌+◌, ◌≡◌, refl, ◌≢◌, true, Option, none, some, List, [], ◌∷◌, ◌++◌, arith, leb, length, bytes,
  ok,
}

-- The query behind its '?', if there is one.
abbrev pub query_part : Option (List ℕ) → List ℕ
query_part none = []
query_part (some q) = b'?' ∷ q

abbrev pub query_or : Option (List ℕ) → List ℕ → List ℕ
query_or none old = old
query_or (some q) old = q

abbrev pub version_text : Version → List ℕ
version_text http10 = bytes "HTTP/1.0"
version_text http11 = bytes "HTTP/1.1"
version_text unknown = []

-- "METHOD path?query HTTP/1.x", with one blank between the parts.
abbrev pub request_line : Method → List ℕ → Option (List ℕ) → Version → List ℕ
request_line m path query v =
    method_to_string m ++ (b' ' ∷ ((path ++ query_part query) ++ (b' ' ∷ version_text v)))

set_target-eq :
    (r : HttpRequest) (path : List ℕ) (query : Option (List ℕ))
    → find_byte b'?' path ≡ none
    → set_target r (path ++ query_part query)
      ≡ record r { path = path; query = query_or query r.query }
unfolding set_target
set_target-eq r path none h = rw (append-nil path, h, set_target) (rw (append-nil path))
set_target-eq r path (some q) h = rw (
  find_byte-append b'?' path q h,
  set_target,
  take-append_exact (length path) path (b'?' ∷ q) refl,
  drop-append_past (length path + 1) path b'?' q refl,
)

set_version-eq :
    (r : HttpRequest) (v : Version)
    → v ≢ unknown
    → set_version r (version_text v) ≡ (true, record r { version = v })
unfolding set_version
set_version-eq r unknown h = absurd (h refl)
set_version-eq r http10 h = refl
set_version-eq r http11 h = refl

set_method-eq :
    (r : HttpRequest) (m : Method)
    → r.method ≡ invalid
    → m ≢ invalid
    → set_method r (method_to_string m) ≡ ok (true, record r { method = m })
unfolding set_method
set_method-eq r m h k = rw (h, method_of-method_to_string m) (ground arith)

blank_in_method : (m : Method) → find_byte b' ' (method_to_string m) ≡ none
unfolding find_byte method_to_string
blank_in_method invalid = refl
blank_in_method _ = refl

some_version : (v : Version) → v ≢ unknown → leb 1 (length (version_text v)) ≡ true
some_version unknown h = absurd (h refl)
some_version http10 h = refl
some_version http11 h = refl

parse_target-eq :
    (r : HttpRequest) (path : List ℕ) (query : Option (List ℕ)) (v : Version)
    → v ≢ unknown
    → find_byte b' ' (path ++ query_part query) ≡ none
    → find_byte b'?' path ≡ none
    → parse_target r ((path ++ query_part query) ++ (b' ' ∷ version_text v))
      ≡ ok (true, record r { path = path; query = query_or query r.query; version = v })
unfolding parse_target
parse_target-eq r path query v hv b q =
    let target = path ++ query_part query in
    rw (
      find_byte-append b' ' target (version_text v) b,
      parse_target,
      take-append_exact (length target) target (b' ' ∷ version_text v) refl,
      drop-append_past (length target + 1) target b' ' (version_text v) refl,
      set_target-eq r path query q,
      set_version-eq (record r { path = path; query = query_or query r.query }) v hv,
      some_version v hv,
    )

-- A request line is read into its parts: its method and version are known, there is no blank in its
-- path and query, no question mark in its path, and the request has no method yet.
pub parse_request_line-request_line :
    (r : HttpRequest) (m : Method) (path : List ℕ) (query : Option (List ℕ)) (v : Version)
    → r.method ≡ invalid
    → m ≢ invalid
    → v ≢ unknown
    → find_byte b' ' (path ++ query_part query) ≡ none
    → find_byte b'?' path ≡ none
    → parse_request_line r (request_line m path query v)
      ≡ ok (true, record r { method = m; path = path; query = query_or query r.query; version = v })
unfolding parse_request_line
parse_request_line-request_line r m path query v h hm hv b q =
    let name = method_to_string m in
    let rest = (path ++ query_part query) ++ (b' ' ∷ version_text v) in
    rw
      (
        find_byte-append b' ' name rest (blank_in_method m),
        parse_request_line,
        take-append_exact (length name) name (b' ' ∷ rest) refl,
        drop-append_past (length name + 1) name b' ' rest refl,
        set_method-eq r m h hm,
      )
      (parse_target-eq (record r { method = m }) path query v hv b q)
