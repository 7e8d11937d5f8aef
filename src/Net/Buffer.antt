-- ===== src/Net/Buffer.antt =====
-- ham/net/Buffer.h and Buffer.cc: the state and the operations that move bytes.
-- A byte is a number below 256, a pointer into the storage is its index, and a call that may not
-- return gives a `Result`.
pub mod Contents
pub mod Ops
pub mod Search
pub mod Strings
pub mod Sequence
pub mod Ints
pub mod Input
use ham.Base.{
  ℕ, ◌+◌, ◌-◌, ◌^◌, ◌≤◌, Bool, List, ◌++◌, ltb, leb, ◌==◌, if◌then◌else◌, add_size, sub_size,
  length, take, drop, replicate, Result, ok, err, length_error, undefined, ◌>>=◌, ◌>>◌, assert,
}

pub record Buffer : Type 0 where
  pub buffer : List ℕ
  pub read_index : ℕ
  pub write_index : ℕ

abbrev pub initial_size : ℕ
initial_size = 1024

abbrev pub cheap_prepend : ℕ
cheap_prepend = 8

-- `std::vector<char>::max_size()`.
abbrev pub max_size : ℕ
max_size = 2 ^ 63 - 1

unfoldable pub readable_bytes : Buffer → ℕ
readable_bytes b = sub_size b.write_index b.read_index

unfoldable pub writable_bytes : Buffer → ℕ
writable_bytes b = sub_size (length b.buffer) b.write_index

unfoldable pub prependable_bytes : Buffer → ℕ
prependable_bytes b = b.read_index

-- The members that the constructor sets, before its assertions.
unfoldable pub fresh : Buffer
fresh = record {
  buffer = replicate (initial_size + cheap_prepend) 0;
  read_index = cheap_prepend;
  write_index = cheap_prepend;
}

unfoldable pub init : Result Buffer
unfolding fresh readable_bytes writable_bytes prependable_bytes
init = do
  assert (readable_bytes fresh == 0)
  assert (writable_bytes fresh == initial_size)
  assert (prependable_bytes fresh == cheap_prepend)
  ok fresh

-- `std::copy` of `src` to index `i` of the storage.
unfoldable pub copy_to : List ℕ → ℕ → List ℕ → Result (List ℕ)
copy_to storage i src =
    if leb (i + length src) (length storage)
    then ok (take i storage ++ (src ++ drop (i + length src) storage))
    else err undefined

-- `std::vector<char>::resize`.
unfoldable pub resize : List ℕ → ℕ → Result (List ℕ)
resize storage n =
    if ltb max_size n
    then err length_error
    else ok (take n storage ++ replicate (n - length storage) 0)

-- The `n` bytes from index `i` on, as a range of pointers reads them.
unfoldable pub bytes_at : Buffer → ℕ → ℕ → Result (List ℕ)
bytes_at b i n =
    if leb (i + n) (length b.buffer) then ok (take n (drop i b.buffer)) else err undefined

make_space : Buffer → ℕ → Result Buffer
unfolding readable_bytes writable_bytes prependable_bytes resize copy_to bytes_at
make_space b len =
    let grow : Result Buffer = (do
      storage ← resize b.buffer (add_size b.write_index len)
      ok (record b { buffer = storage })) in
    let move : Result Buffer = (do
      assert (ltb cheap_prepend b.read_index)
      unread ← bytes_at b b.read_index (readable_bytes b)
      storage ← copy_to b.buffer cheap_prepend unread
      let moved = record b {
        buffer = storage;
        read_index = cheap_prepend;
        write_index = add_size cheap_prepend (readable_bytes b);
      }
      assert (readable_bytes b == readable_bytes moved)
      ok moved) in
    if ltb (add_size (writable_bytes b) (prependable_bytes b)) (add_size len cheap_prepend)
    then grow
    else move

pub ensure_writable_bytes : Buffer → ℕ → Result Buffer
unfolding writable_bytes
ensure_writable_bytes b len = do
  roomy ← if ltb (writable_bytes b) len then make_space b len else ok b
  assert (leb len (writable_bytes roomy))
  ok roomy

unfoldable pub has_written : Buffer → ℕ → Buffer
has_written b len = record b { write_index = add_size b.write_index len }

pub append : Buffer → List ℕ → Result Buffer
unfolding copy_to has_written
append b data_in = do
  roomy ← ensure_writable_bytes b (length data_in)
  storage ← copy_to roomy.buffer roomy.write_index data_in
  ok (has_written (record roomy { buffer = storage }) (length data_in))

unfoldable pub retrieve_all : Buffer → Buffer
retrieve_all b = record b { read_index = cheap_prepend; write_index = cheap_prepend }

pub retrieve : Buffer → ℕ → Result Buffer
unfolding readable_bytes retrieve_all
retrieve b len = do
  assert (leb len (readable_bytes b))
  ok (
      if ltb len (readable_bytes b)
      then record b { read_index = add_size b.read_index len }
      else retrieve_all b)

-- `end` is an index into the storage; `peek()` is the index `read_index`.
pub retrieve_until : Buffer → ℕ → Result Buffer
retrieve_until b end = do
  assert (leb b.read_index end)
  assert (leb end b.write_index)
  retrieve b (end - b.read_index)

pub retrieve_as_string : Buffer → ℕ → Result (List ℕ × Buffer)
unfolding readable_bytes bytes_at
retrieve_as_string b len = do
  assert (leb len (readable_bytes b))
  res ← bytes_at b b.read_index len
  rest ← retrieve b len
  ok (res, rest)

pub retrieve_all_as_string : Buffer → Result (List ℕ × Buffer)
unfolding readable_bytes
retrieve_all_as_string b = retrieve_as_string b (readable_bytes b)

pub prepend : Buffer → List ℕ → Result Buffer
unfolding prependable_bytes copy_to
prepend b data_in = do
  assert (leb (length data_in) (prependable_bytes b))
  let index = sub_size b.read_index (length data_in)
  storage ← copy_to b.buffer index data_in
  ok (record b { buffer = storage; read_index = index })

-- The two buffers after `swap`.
unfoldable pub swap : Buffer → Buffer → Buffer × Buffer
swap b rhs = (
  record { buffer = rhs.buffer; read_index = rhs.read_index; write_index = rhs.write_index },
  record { buffer = b.buffer; read_index = b.read_index; write_index = b.write_index },
)

pub shrink : Buffer → ℕ → Result Buffer
unfolding readable_bytes bytes_at swap
shrink b reserve = do
  other ← init
  roomy ← ensure_writable_bytes other (add_size (readable_bytes b) reserve)
  unread ← bytes_at b b.read_index (readable_bytes b)
  filled ← append roomy unread
  ok (swap b filled).0
