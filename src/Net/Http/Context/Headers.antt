-- ===== src/Net/Http/Context/Headers.antt =====
-- The rounds of the loop that read the header lines, the blank line and the body.
use ham.Net.Buffer.Strings.{retrieve_all_as_string-Holds}
use ham.Net.Buffer.Contents.{contents}
use ham.Base.Slices.{drop-append_past, drop-append_past_two, take-append_exact}
use ham.Net.Http.Context.Lines.{drop_line, read_line, find_line}
use ham.Net.Buffer.Ops.{Holds}
use ham.Net.Buffer.{retrieve_all_as_string, retrieve_until, Buffer}
use ham.Net.Http.Request.{skip_spaces-blank, add_header, skip_spaces, HttpRequest, cut_spaces}
use ham.Net.Http.HeaderMap.{assign, HeaderMap}
use ham.Net.Buffer.Search.{search_crlf-append, search_crlf, find_byte-append, find_byte}
use ham.Net.Http.Context.{
  expect_body, got_all, expect_headers, Parsed, take_header, parse_loop, ParseState, HttpContext,
}
use ham.Base.{
  Option, Returns-bind_twice, ℕ, zero, suc, ◌+◌, ◌≤◌, ◌≡◌, refl, ap, ◌∙◌, Bool, none, some, List,
  [], ◌∷◌, ◌++◌, arith, length, drop, Returns,
}

abbrev pub at : ParseState → HttpRequest → HttpContext
at s r = record { request = r; parse_state = s }

-- A header: no colon in its name, no blank at either end of its value, and no "\r\n" in its line.
pub record IsHeader (field value : List ℕ) : Type 0 where
  pub name : find_byte b':' field ≡ none
  pub trimmed : cut_spaces (skip_spaces value) ≡ value
  pub one_line : search_crlf (field ++ (b':' ∷ b' ' ∷ value)) ≡ none

abbrev pub Headers : Type 0
Headers = List (List ℕ × List ℕ)

abbrev pub AreHeaders : Headers → Type 0
AreHeaders [] = Unit {0}
AreHeaders ((field, value) ∷ hs) = IsHeader field value × AreHeaders hs

-- "field: value\r\n", one after the other.
abbrev pub header_block : Headers → List ℕ → List ℕ
header_block [] after = 13 ∷ 10 ∷ after
header_block ((field, value) ∷ hs) after =
    (field ++ (b':' ∷ b' ' ∷ value)) ++ (13 ∷ 10 ∷ header_block hs after)

abbrev pub assign_all : Headers → HeaderMap → HeaderMap
assign_all [] m = m
assign_all ((field, value) ∷ hs) m = assign_all hs (assign field value m)

-- The loop returned a value that satisfies `P`.
abbrev pub Ended {ℓ} : {A : Type ℓ} → (A → Type 0) → Option A → Type 0
Ended P none = ⊥
Ended P (some x) = P x

take_header-eq :
    (r : HttpRequest) (field value : List ℕ)
    → IsHeader field value
    → take_header (at expect_headers r) (field ++ (b':' ∷ b' ' ∷ value))
      ≡ at expect_headers (record r { headers = assign field value r.headers })
unfolding take_header add_header
take_header-eq r field value h = rw (
  find_byte-append b':' field (b' ' ∷ value) h.name,
  take_header,
  take-append_exact (length field) field (b':' ∷ b' ' ∷ value) refl,
  drop-append_past (length field + 1) field b':' (b' ' ∷ value) refl,
  skip_spaces-blank value,
  h.trimmed,
)

-- One round with a line before it.
headers_step :
    (line rest : List ℕ) (fuel : ℕ) (r : HttpRequest) (b : Buffer) (time : ℕ) (line_ok : Bool)
    (P : Parsed → Type 0)
    → search_crlf line ≡ none
    → Holds (line ++ (13 ∷ 10 ∷ rest)) b
    → ((b' : Buffer)
        → Holds rest b'
        → Returns (parse_loop fuel (take_header (at expect_headers r) line) b' time line_ok) P)
    → Returns (parse_loop (suc fuel) (at expect_headers r) b time line_ok) P
unfolding parse_loop
headers_step line rest fuel r b time line_ok P one_line h next =
    let xs = line ++ (13 ∷ 10 ∷ rest) in
    let found = search_crlf-append line rest one_line in
    rw
      (
        find_line xs (length line) b h found,
        read_line xs (length line) b h found,
        take-append_exact (length line) line (13 ∷ 10 ∷ rest) refl,
      )
      (Returns-bind_twice (retrieve_until b (b.read_index + length line + 2)) _ _
        (Holds (drop (length line + 2) xs)) P (drop_line xs (length line) b h found)
        λ b' k. next b' (rw (drop-append_past_two (length line + 2) line 13 10 rest refl) at k))

body_step :
    (body : List ℕ) (fuel : ℕ) (r : HttpRequest) (b : Buffer) (time : ℕ) (line_ok : Bool)
    → Holds body b
    → Returns (parse_loop (suc fuel) (at expect_body r) b time line_ok) (
        Ended λ (result, c, rest).
          (result ≡ line_ok) × (c ≡ at got_all (record r { body = body })) × Holds [] rest)
unfolding parse_loop
body_step body fuel r b time line_ok h =
    Returns-bind_twice (retrieve_all_as_string b) _ _
      (λ (text, rest). (text ≡ contents b) × Holds [] rest) _
      (retrieve_all_as_string-Holds b h.valid)
      λ (text, rest) (read, empty).
        (refl, ap (λ t. at got_all (record r { body = t })) (read ∙ h.holds), empty)

blank_line : (r : HttpRequest) → take_header (at expect_headers r) [] ≡ at expect_body r
unfolding take_header find_byte
blank_line r = refl

-- From the headers on, with fuel for their lines, every well-formed header is assigned, and what
-- follows the blank line is the body.
pub parse_headers :
    (hs : Headers) (body : List ℕ) (fuel : ℕ) (r : HttpRequest) (b : Buffer) (time : ℕ)
    (line_ok : Bool)
    → AreHeaders hs
    → length hs + 2 ≤ fuel
    → Holds (header_block hs body) b
    → Returns (parse_loop fuel (at expect_headers r) b time line_ok) (
        Ended λ (result, c, rest).
          (result ≡ line_ok)
          × (c ≡ at got_all (record r { headers = assign_all hs r.headers; body = body }))
          × Holds [] rest)
parse_headers hs body zero r b time line_ok good enough h = absurd (omega arith)
parse_headers [] body (suc zero) r b time line_ok good enough h = absurd (omega arith)
parse_headers [] body (suc (suc fuel)) r b time line_ok good enough h =
    headers_step [] body (suc fuel) r b time line_ok _ (unfold search_crlf in refl) h
      λ b' k. rw (blank_line r) (body_step body fuel r b' time line_ok k)
parse_headers ((field, value) ∷ hs) body (suc fuel) r b time line_ok (here, good) enough h =
    headers_step (field ++ (b':' ∷ b' ' ∷ value)) (header_block hs body) fuel r b time line_ok _
      here.one_line h
      λ b' k. rw (take_header-eq r field value here) (
        parse_headers hs body fuel (record r { headers = assign field value r.headers }) b' time
          line_ok good (omega arith) k)
