-- ===== src/Net/Buffer/Sequence.antt =====
-- ham/net/Buffer.cc: any sequence of calls on a buffer, against a plain list of bytes.
pub mod Matching
use mathlib.Core.Path.{ap₂}
use ham.Base.Slices.{drop_all, take_all}
use Prim.Native.Nat.{max}
use ham.Net.Buffer.Ops.{Holds, append-Wrote, retrieve-Holds}
use ham.Net.Buffer.Strings.{retrieve_as_string-Holds}
use ham.Net.Buffer.Contents.{bytes_at-ok, contents, IsValid, length-contents, readable_bytes-eq}
use ham.Net.Buffer.{
  Buffer, append, retrieve, retrieve_as_string, retrieve_all_as_string, readable_bytes, max_size,
}
use ham.Base.{
  Returns-both, le→leb, Bool-cases, Returns-mono, if-both, subst, leb→le, Returns-assert,
  Returns-bind, assert_failed, ℕ, ◌+◌, ◌≤◌, ◌≡◌, refl, sym, ap, ◌∙◌, inl, inr, true, false, Option,
  none, some, List, [], ◌∷◌, ◌++◌, arith, ltb, leb, if◌then◌else◌, length, take, drop, Result, ok,
  err, ◌>>=◌, Returns,
}

pub data Call : Type 0 where
  appends : List ℕ → Call
  retrieves : ℕ → Call
  reads : ℕ → Call
  reads_all : Call

-- A call on a buffer, with the text that it returns, if any.
unfoldable pub call_buffer : Call → Buffer → Result (List ℕ × Buffer)
call_buffer (appends d) b = do b' ← append b d; ok ([], b')
call_buffer (retrieves n) b = do b' ← retrieve b n; ok ([], b')
call_buffer (reads n) b = retrieve_as_string b n
call_buffer reads_all b = retrieve_all_as_string b

unfoldable pub call_all : List Call → Buffer → Result (List (List ℕ) × Buffer)
call_all [] b = ok ([], b)
call_all (c ∷ cs) b = do
  (text, b') ← call_buffer c b
  (texts, b'') ← call_all cs b'
  ok (text ∷ texts, b'')

-- The same on the unread bytes alone; `none` if a call wants more of them than there are.
abbrev pub call_bytes : Call → List ℕ → Option (List ℕ × List ℕ)
call_bytes (appends d) xs = some ([], xs ++ d)
call_bytes (retrieves n) xs = if leb n (length xs) then some ([], drop n xs) else none
call_bytes (reads n) xs = if leb n (length xs) then some (take n xs, drop n xs) else none
call_bytes reads_all xs = some (xs, [])

abbrev pub next_calls :
    Option (List ℕ × List ℕ)
    → (List ℕ → Option (List (List ℕ) × List ℕ))
    → Option (List (List ℕ) × List ℕ)
next_calls none rest = none
next_calls (some (text, xs)) rest = elim (rest xs) [ none ↦ none | some r ↦ some (text ∷ r.0, r.1) ]

unfoldable pub calls_bytes : List Call → List ℕ → Option (List (List ℕ) × List ℕ)
calls_bytes [] xs = some ([], xs)
calls_bytes (c ∷ cs) xs = next_calls (call_bytes c xs) (calls_bytes cs)

-- How many bytes a call appends, and some calls.
abbrev pub appended : Call → ℕ
appended (appends d) = length d
appended _ = 0

abbrev pub all_appended : List Call → ℕ
all_appended [] = 0
all_appended (c ∷ cs) = appended c + all_appended cs

-- The unread bytes are `xs`, and there is room for `k` more in the largest vector.
pub record IsReady (k : ℕ) (xs : List ℕ) (b : Buffer) : Type 0 where
  pub state : Holds xs b
  pub room : max b.write_index 8 + k ≤ max_size

-- The buffer does what the bytes do: it fails its assertion where they run out.
abbrev pub Matches : {T : Type 0} → ℕ → Option (T × List ℕ) → Result (T × Buffer) → Type 0
Matches k none m = m ≡ err assert_failed
Matches k (some (t, xs)) m = Returns m λ r. (r.0 ≡ t) × IsReady k xs r.1
