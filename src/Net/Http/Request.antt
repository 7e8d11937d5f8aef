-- ===== src/Net/Http/Request.antt =====
-- ham/net/http/HttpRequest.h and HttpRequest.cc.
use ham.Net.Http.HeaderMap.{HeaderMap, find, find-assign_self, assign}
use ham.Base.{
  same, ℕ, ◌+◌, ◌≡◌, refl, Bool, true, false, not, ◌&&◌, ◌||◌, none, some, List, [], ◌∷◌, leb, ◌==◌,
  if◌then◌else◌, take, drop, bytes, Result, ok, ◌>>◌, assert,
}

pub data Method : Type 0 where
  invalid get post head put delete : Method

pub data Version : Type 0 where
  unknown http10 http11 : Version

pub record HttpRequest : Type 0 where
  pub method : Method
  pub version : Version
  pub receive_time : ℕ
  pub path : List ℕ
  pub query : List ℕ
  pub body : List ℕ
  pub headers : HeaderMap

abbrev pub new_request : HttpRequest
new_request = record {
  method = invalid;
  version = unknown;
  receive_time = 0;
  path = [];
  query = [];
  body = [];
  headers = [];
}

unfoldable pub method_to_string : Method → List ℕ
method_to_string get = bytes "GET"
method_to_string post = bytes "POST"
method_to_string head = bytes "HEAD"
method_to_string put = bytes "PUT"
method_to_string delete = bytes "DELETE"
method_to_string invalid = bytes "UNKNOWN"

unfoldable pub method_of : List ℕ → Method
method_of m =
    if same m (bytes "GET")
    then get
    else if same m (bytes "POST")
    then post
    else if same m (bytes "HEAD")
    then head
    else if same m (bytes "PUT")
    then put
    else if same m (bytes "DELETE")
    then delete
    else invalid

abbrev pub is_invalid : Method → Bool
is_invalid invalid = true
is_invalid _ = false

unfoldable pub set_method : HttpRequest → List ℕ → Result (Bool × HttpRequest)
set_method r m = do
  assert (is_invalid r.method)
  ok (not (is_invalid (method_of m)), record r { method = method_of m })

-- `isspace` of the C locale.
unfoldable pub is_space : ℕ → Bool
is_space c = (c == 32) || (leb 9 c && leb c 13)

-- `while(cur < end && isspace(*cur)) ++cur;`
unfoldable pub skip_spaces : List ℕ → List ℕ
unfolding is_space
skip_spaces [] = []
skip_spaces (x ∷ xs) = let rest = skip_spaces xs in if is_space x then rest else x ∷ xs

-- `while(!value.empty() && isspace(value[value.size()-1])) value.resize(value.size()-1);`
unfoldable pub cut_spaces : List ℕ → List ℕ
unfolding is_space
cut_spaces [] = []
cut_spaces (x ∷ xs) = elim (cut_spaces xs) [
  | [] ↦ if is_space x then [] else x ∷ []
  | y ∷ ys ↦ x ∷ y ∷ ys
]

-- `colon` is the offset of the colon in the line from `start` to `end`.
unfoldable pub add_header : HttpRequest → List ℕ → ℕ → HttpRequest
add_header r line colon = record r {
  headers = assign (take colon line) (cut_spaces (skip_spaces (drop (colon + 1) line))) r.headers;
}

unfoldable pub get_header : HttpRequest → List ℕ → List ℕ
get_header r field = elim (find field r.headers) [ none ↦ [] | some value ↦ value ]

-- The two requests after `swap`: the query and the body stay where they are.
unfoldable pub swap : HttpRequest → HttpRequest → HttpRequest × HttpRequest
swap r that = (
  record r {
    method = that.method;
    version = that.version;
    path = that.path;
    receive_time = that.receive_time;
    headers = that.headers;
  },
  record that {
    method = r.method;
    version = r.version;
    path = r.path;
    receive_time = r.receive_time;
    headers = r.headers;
  },
)

-- The name of a method is read as that method.
pub method_of-method_to_string : (m : Method) → method_of (method_to_string m) ≡ m
unfolding method_of method_to_string
method_of-method_to_string invalid = refl
method_of-method_to_string _ = refl

-- `getHeader` with the text before the colon returns the text behind it, without the blanks around
-- it, after `addHeader`.
pub get_header-add_header :
    (r : HttpRequest) (line : List ℕ) (colon : ℕ)
    → get_header (add_header r line colon) (take colon line)
      ≡ cut_spaces (skip_spaces (drop (colon + 1) line))
unfolding get_header add_header
get_header-add_header r line colon =
    let stored = cut_spaces (skip_spaces (drop (colon + 1) line)) in
    rw (find-assign_self (take colon line) stored r.headers, get_header)

pub skip_spaces-blank : (v : List ℕ) → skip_spaces (32 ∷ v) ≡ skip_spaces v
unfolding skip_spaces
skip_spaces-blank v = refl
