-- ===== src/Net/Http/Response/Rendering.antt =====
-- The text of a response, and that `appendToBuffer` writes it.
use ham.Base.Text.{decimal}
use ham.Net.Buffer.Contents.{contents, IsValid}
use ham.Net.Buffer.Ops.{Holds, Wrote-trans, append-Wrote, Wrote-refl, Wrote}
use ham.Net.Http.Response.{
  unknown_version, http10, http11, Version, not_found_404, bad_request_400, moved_permanently_301,
  ok_200, unknown, StateCode, append_to_buffer, append_connection, code_text, minor, append_headers,
  content_length, HttpResponse,
}
use ham.Net.Buffer.{append, max_size, Buffer}
use ham.Net.Http.HeaderMap.{HeaderMap}
use ham.Base.{
  ◌≡◌, refl, take, Returns-mono, length-append, Returns-bind, ℕ, ◌+◌, ◌≤◌, Bool, true, false, List,
  [], ◌∷◌, ◌++◌, arith, length, bytes, Result, ◌>>=◌, Returns,
}

abbrev pub header_lines : HeaderMap → List ℕ
header_lines [] = []
header_lines ((field, value) ∷ hs) =
    field ++ (bytes ": " ++ (value ++ (bytes "\r\n" ++ header_lines hs)))

-- The length line, cut at 31 characters.
abbrev pub length_line : ℕ → List ℕ
length_line size = take 31 (bytes "Content-Length: " ++ (decimal size ++ bytes "\r\n"))

abbrev pub connection_lines : Bool → ℕ → List ℕ
connection_lines true size = bytes "Connection: close\r\n"
connection_lines false size = length_line size ++ bytes "Connection: Keep-Alive\r\n"

-- The digit of the version after `1.`, and a blank.
abbrev pub version_text : Version → List ℕ
version_text http10 = bytes "0 "
version_text http11 = bytes "1 "
version_text unknown_version = bytes "1 "

abbrev pub status_number : StateCode → ℕ
status_number unknown = 0
status_number ok_200 = 200
status_number moved_permanently_301 = 301
status_number bad_request_400 = 400
status_number not_found_404 = 404

-- The status line has nothing between the code and the message.
abbrev pub response_text : HttpResponse → List ℕ
response_text r =
    bytes "Http/1."
    ++ (version_text r.version
        ++ (decimal (status_number r.state_code)
            ++ (r.state_message
                ++ (bytes "\r\n"
                    ++ (connection_lines r.close_connection (length r.body)
                        ++ (header_lines r.headers ++ (bytes "\r\n" ++ r.body)))))))

minor-version_text : (v : Version) → minor v ≡ version_text v
minor-version_text http10 = refl
minor-version_text http11 = refl
minor-version_text unknown_version = refl

code_text-decimal : (c : StateCode) → code_text c ≡ decimal (status_number c)
unfolding decimal
code_text-decimal unknown = refl
code_text-decimal ok_200 = refl
code_text-decimal moved_permanently_301 = refl
code_text-decimal bad_request_400 = refl
code_text-decimal not_found_404 = refl

-- What is written by a step and then by another one.
bind-Wrote :
    (b : Buffer) (m : Result Buffer) (d rest : List ℕ) (k : Buffer → Result Buffer)
    → Returns m (Wrote b d)
    → b.write_index + length (d ++ rest) ≤ max_size
    → ((b' : Buffer)
        → IsValid b'
        → b'.write_index + length rest ≤ max_size
        → Returns (k b') (Wrote b' rest))
    → Returns (m >>= k) (Wrote b (d ++ rest))
bind-Wrote b m d rest k first small next =
    let len = length-append d rest in
    Returns-bind m k (Wrote b d) (Wrote b (d ++ rest)) first λ b' w.
      Returns-mono (k b') (Wrote b' rest) _ (next b' w.state.valid (omega (arith, len, w.extent)))
        λ b'' w'. Wrote-trans d rest w w'

-- `append`, and then what the rest of the code writes.
append_then :
    (b : Buffer) (d rest : List ℕ) (k : Buffer → Result Buffer)
    → IsValid b
    → b.write_index + length (d ++ rest) ≤ max_size
    → ((b' : Buffer)
        → IsValid b'
        → b'.write_index + length rest ≤ max_size
        → Returns (k b') (Wrote b' rest))
    → Returns (append b d >>= k) (Wrote b (d ++ rest))
append_then b d rest k v small next =
    bind-Wrote b (append b d) d rest k (append-Wrote b d v (omega (arith, length-append d rest)))
      small next

append_headers-Wrote :
    (b : Buffer) (hs : HeaderMap)
    → IsValid b
    → b.write_index + length (header_lines hs) ≤ max_size
    → Returns (append_headers b hs) (Wrote b (header_lines hs))
unfolding append_headers
append_headers-Wrote b [] v small = Wrote-refl b v
append_headers-Wrote b ((field, value) ∷ hs) v small =
    let l4 = header_lines hs in
    let l3 = bytes "\r\n" ++ l4 in
    let l2 = value ++ l3 in
    append_then b field (bytes ": " ++ l2) _ v small λ b1 v1 s1.
      append_then b1 (bytes ": ") l2 _ v1 s1 λ b2 v2 s2. append_then b2 value l3 _ v2 s2 λ b3 v3 s3.
        append_then b3 (bytes "\r\n") l4 _ v3 s3 λ b4 v4 s4. append_headers-Wrote b4 hs v4 s4

append_connection-Wrote :
    (close : Bool) (size : ℕ) (b : Buffer)
    → IsValid b
    → b.write_index + length (connection_lines close size) ≤ max_size
    → Returns (append_connection close size b) (Wrote b (connection_lines close size))
unfolding append_connection content_length
append_connection-Wrote true size b v small = append-Wrote b (bytes "Connection: close\r\n") v small
append_connection-Wrote false size b v small =
    append_then b (length_line size) (bytes "Connection: Keep-Alive\r\n") _ v small
      λ b1 v1 s1. append-Wrote b1 (bytes "Connection: Keep-Alive\r\n") v1 s1

-- `appendToBuffer` puts the text of the response behind the unread bytes of a valid buffer, if it can
-- be stored.
pub append_to_buffer-Holds :
    (r : HttpResponse) (b : Buffer)
    → IsValid b
    → b.write_index + length (response_text r) ≤ max_size
    → Returns (append_to_buffer r b) (Holds (contents b ++ response_text r))
unfolding append_to_buffer
append_to_buffer-Holds r b v small =
    let l8 = bytes "\r\n" ++ r.body in
    let l7 = header_lines r.headers ++ l8 in
    let l6 = connection_lines r.close_connection (length r.body) ++ l7 in
    let l5 = bytes "\r\n" ++ l6 in
    let l4 = r.state_message ++ l5 in
    let code = decimal (status_number r.state_code) in
    let l3 = code ++ l4 in
    let l2 = version_text r.version ++ l3 in
    rw (minor-version_text r.version, code_text-decimal r.state_code)
      (Returns-mono _ (Wrote b (response_text r)) _
        (append_then b (bytes "Http/1.") l2 _ v small λ b1 v1 s1.
          append_then b1 (version_text r.version) l3 _ v1 s1 λ b2 v2 s2.
            append_then b2 code l4 _ v2 s2 λ b3 v3 s3.
              append_then b3 r.state_message l5 _ v3 s3 λ b4 v4 s4.
                append_then b4 (bytes "\r\n") l6 _ v4 s4 λ b5 v5 s5.
                  bind-Wrote b5 _ (connection_lines r.close_connection (length r.body)) l7 _
                    (append_connection-Wrote r.close_connection (length r.body) b5 v5 (
                      omega (
                        arith,
                        s5,
                        length-append (connection_lines r.close_connection (length r.body)) l7,
                      )))
                    s5
                    λ b6 v6 s6.
                      bind-Wrote b6 _ (header_lines r.headers) l8 _
                        (append_headers-Wrote b6 r.headers v6
                          (omega (arith, s6, length-append (header_lines r.headers) l8)))
                        s6
                        λ b7 v7 s7.
                          append_then b7 (bytes "\r\n") r.body _ v7 s7
                            λ b8 v8 s8. append-Wrote b8 r.body v8 s8)
        λ b' w. w.state)
