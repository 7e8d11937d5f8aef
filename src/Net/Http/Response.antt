-- ===== src/Net/Http/Response.antt =====
-- ham/net/http/HttpResponse.h and HttpResponse.cc.
pub mod Rendering
use mathlib.Core.Bool.{false, true}
use ham.Net.Buffer.{append, Buffer}
use ham.Net.Http.HeaderMap.{assign, HeaderMap}
use ham.Base.Text.{decimal}
use ham.Base.{
  ℕ, zero, suc, ◌+◌, ◌/◌, ◌%◌, Bool, List, [], ◌∷◌, ◌++◌, ◌==◌, if◌then◌else◌, length, take, bytes,
  Result, ok, ◌>>=◌,
}

pub data Version : Type 0 where
  unknown_version http10 http11 : Version

pub data StateCode : Type 0 where
  unknown ok_200 moved_permanently_301 bad_request_400 not_found_404 : StateCode

pub record HttpResponse : Type 0 where
  pub version : Version
  pub state_code : StateCode
  pub state_message : List ℕ
  pub body : List ℕ
  pub close_connection : Bool
  pub headers : HeaderMap

unfoldable pub new_response : Bool → HttpResponse
new_response close = record {
  version = unknown_version;
  state_code = unknown;
  state_message = [];
  body = [];
  close_connection = close;
  headers = [];
}

unfoldable pub add_header : HttpResponse → List ℕ → List ℕ → HttpResponse
add_header r field value = record r { headers = assign field value r.headers }

unfoldable pub set_content_type : HttpResponse → List ℕ → HttpResponse
unfolding add_header
set_content_type r content_type = add_header r (bytes "Content-Type") content_type

-- `std::to_string(static_cast<int>(stateCode_))`.
abbrev pub code_text : StateCode → List ℕ
code_text unknown = bytes "0"
code_text ok_200 = bytes "200"
code_text moved_permanently_301 = bytes "301"
code_text bad_request_400 = bytes "400"
code_text not_found_404 = bytes "404"

-- `for(const auto& header : headers_)`.
append_headers : Buffer → HeaderMap → Result Buffer
append_headers b [] = ok b
append_headers b ((field, value) ∷ hs) = do
  b1 ← append b field
  b2 ← append b1 (bytes ": ")
  b3 ← append b2 value
  b4 ← append b3 (bytes "\r\n")
  append_headers b4 hs

-- `snprintf` into `buf[32]` cuts the text at 31 characters.
unfoldable pub content_length : ℕ → List ℕ
unfolding decimal
content_length n = take 31 (bytes "Content-Length: " ++ (decimal n ++ bytes "\r\n"))

-- The connection header, and the length unless the connection is closed.
append_connection : Bool → ℕ → Buffer → Result Buffer
append_connection true size b = append b (bytes "Connection: close\r\n")
append_connection false size b = do
  b1 ← append b (content_length size)
  append b1 (bytes "Connection: Keep-Alive\r\n")

abbrev minor : Version → List ℕ
minor http10 = bytes "0 "
minor _ = bytes "1 "

pub append_to_buffer : HttpResponse → Buffer → Result Buffer
append_to_buffer r b = do
  b1 ← append b (bytes "Http/1.")
  b2 ← append b1 (minor r.version)
  b3 ← append b2 (code_text r.state_code)
  b4 ← append b3 r.state_message
  b5 ← append b4 (bytes "\r\n")
  b6 ← append_connection r.close_connection (length r.body) b5
  b7 ← append_headers b6 r.headers
  b8 ← append b7 (bytes "\r\n")
  append b8 r.body
