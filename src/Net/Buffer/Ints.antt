-- ===== src/Net/Buffer/Ints.antt =====
-- ham/net/Buffer.cc and Endian.h: integers in network byte order.
-- An integer of w bytes is its bit pattern, below 256 ^ w, on a little-endian host.
pub mod NetworkOrder
use ham.Net.Buffer.{append, retrieve, bytes_at, Buffer, readable_bytes}
use ham.Base.{
  reverse, ℕ, zero, suc, ◌+◌, ◌*◌, ◌/◌, ◌%◌, List, [], ◌∷◌, leb, Result, ok, ◌>>=◌, ◌>>◌, assert,
}

-- The bytes of an integer in the host's memory, lowest first (what `memcpy` and `&x` see).
unfoldable pub memory_image : ℕ → ℕ → List ℕ
memory_image zero x = []
memory_image (suc w) x = x % 256 ∷ memory_image w (x / 256)

unfoldable pub from_memory : List ℕ → ℕ
from_memory [] = 0
from_memory (b ∷ bs) = b + 256 * from_memory bs

-- `htobe64`, `htobe32` and `htobe16`: the bytes swapped.
unfoldable pub host_to_network : ℕ → ℕ → ℕ
unfolding memory_image from_memory
host_to_network w x = from_memory (reverse (memory_image w x))

unfoldable pub network_to_host : ℕ → ℕ → ℕ
unfolding memory_image from_memory
network_to_host w x = from_memory (reverse (memory_image w x))

pub append_int64 : Buffer → ℕ → Result Buffer
append_int64 b x = append b (memory_image 8 (host_to_network 8 x))

pub append_int32 : Buffer → ℕ → Result Buffer
append_int32 b x = append b (memory_image 4 (host_to_network 4 x))

pub append_int16 : Buffer → ℕ → Result Buffer
append_int16 b x = append b (memory_image 2 (host_to_network 2 x))

pub append_int8 : Buffer → ℕ → Result Buffer
append_int8 b x = append b (memory_image 1 x)

-- The bytes that a peek at an integer copies out of the storage.
unfoldable pub peek_raw : ℕ → Buffer → Result ℕ
unfolding readable_bytes bytes_at from_memory
peek_raw w b = do
  assert (leb w (readable_bytes b))
  raw ← bytes_at b b.read_index w
  ok (from_memory raw)

pub peek_int64 : Buffer → Result ℕ
unfolding peek_raw
peek_int64 b = do be64 ← peek_raw 8 b; ok (network_to_host 8 be64)

pub peek_int32 : Buffer → Result ℕ
unfolding peek_raw
peek_int32 b = do be32 ← peek_raw 4 b; ok (network_to_host 4 be32)

pub peek_int16 : Buffer → Result ℕ
unfolding peek_raw
peek_int16 b = do be16 ← peek_raw 2 b; ok (network_to_host 2 be16)

pub peek_int8 : Buffer → Result ℕ
unfolding peek_raw
peek_int8 b = peek_raw 1 b

pub read_int64 : Buffer → Result (ℕ × Buffer)
read_int64 b = do res ← peek_int64 b; rest ← retrieve b 8; ok (res, rest)

pub read_int32 : Buffer → Result (ℕ × Buffer)
read_int32 b = do res ← peek_int32 b; rest ← retrieve b 4; ok (res, rest)

pub read_int16 : Buffer → Result (ℕ × Buffer)
read_int16 b = do res ← peek_int16 b; rest ← retrieve b 2; ok (res, rest)

pub read_int8 : Buffer → Result (ℕ × Buffer)
read_int8 b = do res ← peek_int8 b; rest ← retrieve b 1; ok (res, rest)

unfoldable pub retrieve_int8 : Buffer → Result Buffer
retrieve_int8 b = retrieve b 1

unfoldable pub retrieve_int16 : Buffer → Result Buffer
retrieve_int16 b = retrieve b 2

unfoldable pub retrieve_int32 : Buffer → Result Buffer
retrieve_int32 b = retrieve b 4

unfoldable pub retrieve_int64 : Buffer → Result Buffer
retrieve_int64 b = retrieve b 8
