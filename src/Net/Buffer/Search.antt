-- ===== src/Net/Buffer/Search.antt =====
-- ham/net/Buffer.cc: `findCRLF` and `findEOL`, over `std::search`, `std::find` and `memchr`.
use ham.Net.Buffer.Contents.{bytes_at-ok, IsValid, contents}
use ham.Base.{
  ℕ, zero, suc, ◌+◌, ◌-◌, ◌≡◌, refl, ◌&&◌, Option, none, some, List, [], ◌∷◌, ◌++◌, arith, leb,
  ◌==◌, if◌then◌else◌, length, take, drop, Result, ok, ◌>>=◌, ◌>>◌, assert,
}
use ham.Net.Buffer.{Buffer, bytes_at}

abbrev pub shift : ℕ → Option ℕ → Option ℕ
shift n none = none
shift n (some i) = some (n + i)

-- `std::find` (and `memchr`) in a range: the offset of the first byte that equals `c`.
unfoldable pub find_byte : ℕ → List ℕ → Option ℕ
find_byte c [] = none
find_byte c (x ∷ xs) = if x == c then some 0 else shift 1 (find_byte c xs)

-- `std::search` for "\r\n" in a range.
unfoldable pub search_crlf : List ℕ → Option ℕ
search_crlf [] = none
search_crlf (x ∷ []) = none
search_crlf (x ∷ y ∷ r) = if (x == 13) && (y == 10) then some 0 else shift 1 (search_crlf (y ∷ r))

pub find_crlf_from : Buffer → ℕ → Result (Option ℕ)
unfolding bytes_at search_crlf
find_crlf_from b start = do
  assert (leb b.read_index start)
  assert (leb start b.write_index)
  range ← bytes_at b start (b.write_index - start)
  ok (shift start (search_crlf range))

pub find_crlf : Buffer → Result (Option ℕ)
unfolding find_crlf_from
find_crlf b = find_crlf_from b b.read_index

pub find_eol_from : Buffer → ℕ → Result (Option ℕ)
unfolding bytes_at find_byte
find_eol_from b start = do
  assert (leb b.read_index start)
  assert (leb start b.write_index)
  range ← bytes_at b start (b.write_index - start)
  ok (shift start (find_byte 10 range))

pub find_eol : Buffer → Result (Option ℕ)
unfolding find_eol_from
find_eol b = find_eol_from b b.read_index

pub find_crlf-eq :
    {b : Buffer} → IsValid b → find_crlf b ≡ ok (shift b.read_index (search_crlf (contents b)))
unfolding find_crlf contents
find_crlf-eq {b} v =
    rw (bytes_at-ok b b.read_index (b.write_index - b.read_index) (omega arith)) (ground arith)

-- A first occurrence of "\r\n" is found, whatever follows it.
pub search_crlf-append :
    (xs ys : List ℕ) → search_crlf xs ≡ none → search_crlf (xs ++ 13 ∷ 10 ∷ ys) ≡ some (length xs)
unfolding search_crlf
search_crlf-append [] ys h = refl
search_crlf-append (x ∷ []) ys h = ground arith
search_crlf-append (x ∷ y ∷ r) ys h = ground (arith, search_crlf-append (y ∷ r) ys)

-- What is found is a "\r\n", and none stands before it.
pub search_crlf-first :
    (xs : List ℕ) (i : ℕ)
    → search_crlf xs ≡ some i
    → (xs ≡ take i xs ++ 13 ∷ 10 ∷ drop (suc (suc i)) xs) × (search_crlf (take i xs) ≡ none)
unfolding search_crlf
search_crlf-first [] i h = ground arith
search_crlf-first (x ∷ []) i h = ground arith
search_crlf-first (x ∷ y ∷ r) zero h = ground arith
search_crlf-first (x ∷ y ∷ r) (suc zero) h =
    let ih = search_crlf-first (y ∷ r) 0 (ground arith) in ground (arith, ih)
search_crlf-first (x ∷ y ∷ r) (suc (suc i)) h =
    let ih = search_crlf-first (y ∷ r) (suc i) (ground arith) in ground (arith, ih)

-- `std::find` stops at the first `c`.
pub find_byte-append :
    (c : ℕ) (xs ys : List ℕ) → find_byte c xs ≡ none → find_byte c (xs ++ c ∷ ys) ≡ some (length xs)
unfolding find_byte
find_byte-append c [] ys h = ground arith
find_byte-append c (x ∷ xs) ys h = ground (arith, find_byte-append c xs ys)

pub find_byte-append_none :
    (c : ℕ) (xs ys : List ℕ)
    → find_byte c xs ≡ none
    → find_byte c ys ≡ none
    → find_byte c (xs ++ ys) ≡ none
unfolding find_byte
find_byte-append_none c [] ys h k = k
find_byte-append_none c (x ∷ xs) ys h k = ground (arith, find_byte-append_none c xs ys)
