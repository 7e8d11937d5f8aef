-- ===== src/Net/Buffer/Input.antt =====
-- ham/net/Buffer.cc: `readFd`. What the kernel's `readv` returned is an argument.
use mathlib.Core.List.{append_assoc}
use ham.Base.Windows.{length-splice, splice}
use ham.Base.Slices.{take-append-drop, take_all}
use native.Mathlib.Decide.{dec_le}
use ham.Net.Buffer.Ops.{append-Holds, written-Holds, Holds}
use ham.Net.Buffer.Contents.{copy_to-ok, writable_bytes-eq, contents, IsValid}
use ham.Net.Buffer.{has_written, append, max_size, copy_to, writable_bytes, Buffer}
use ham.Base.{
  Returns-mono, length-drop, Returns-bind, lt→leb_false, length-take, le→leb, undefined, require, ℕ,
  ◌+◌, ◌≤◌, ◌<◌, ◌≡◌, refl, Option, none, some, List, ◌++◌, arith, leb, if◌then◌else◌, add_size,
  length, take, drop, Result, ok, ◌>>=◌, ◌>>◌, Returns,
}

-- The outcome of `::readv`: an error with its errno, or the bytes that it stored.
pub data Readv : Type 0 where
  failed : ℕ → Readv
  received : List ℕ → Readv

-- `sizeof(extraBuf)`.
abbrev pub extra_size : ℕ
extra_size = 65536

pub record ReadFd : Type 0 where
  -- The count that is returned; `none` is a negative one.
  pub count : Option ℕ
  pub saved_errno : ℕ
  pub buffer_after : Buffer

-- The bytes go to the free space of the storage first, and then to the array on the stack.
store_input : Buffer → List ℕ → Result Buffer
unfolding writable_bytes copy_to
store_input b input = do
  let writable = writable_bytes b
  storage ← copy_to b.buffer b.write_index (take writable input)
  if leb (length input) writable
      then ok (record b { buffer = storage; write_index = add_size b.write_index (length input) })
      else append (record b { buffer = storage; write_index = length storage })
          (drop writable input)

-- `readv` stores no more than the two places hold.
pub read_fd : Buffer → ℕ → Readv → Result ReadFd
unfolding writable_bytes
read_fd b saved (failed errno) = ok (record { count = none; saved_errno = errno; buffer_after = b })
read_fd b saved (received input) = do
  require (leb (length input) (writable_bytes b + extra_size)) undefined
  after ← store_input b input
  ok (record { count = some (length input); saved_errno = saved; buffer_after = after })

-- The two parts, when the free space is filled up and the rest comes from the stack.
store_over :
    (b : Buffer) (input : List ℕ)
    → IsValid b
    → writable_bytes b < length input
    → b.write_index + length input ≤ max_size
    → Returns (store_input b input) (Holds (contents b ++ input))
unfolding store_input has_written
store_over b input v over small =
    let writable = writable_bytes b in
    let first = take writable input in
    let len : length first ≡ writable = omega (arith, length-take writable input) in
    let room : b.write_index + length first ≤ length b.buffer =
      omega (arith, writable_bytes-eq v, len) in
    let full : length (splice b.buffer b.write_index first)
        ≡ add_size b.write_index (length first) =
      omega (arith, length-splice b.buffer b.write_index first room, writable_bytes-eq v, len) in
    let filled =
      has_written (record b { buffer = splice b.buffer b.write_index first }) (length first) in
    let w : Holds (contents b ++ first) filled = written-Holds b first v room in
    rw
      (
        copy_to-ok b.buffer b.write_index first room,
        lt→leb_false (length input) writable over,
        full,
      )
      (Returns-mono (append filled (drop writable input)) _ _
        (append-Holds filled (drop writable input) w.valid
          (omega (arith, length-drop writable input, writable_bytes-eq v, len)))
        λ after f. rw (w.holds, append_assoc, take-append-drop writable input) at f)

store_within :
    (b : Buffer) (input : List ℕ)
    → IsValid b
    → length input ≤ writable_bytes b
    → Returns (store_input b input) (Holds (contents b ++ input))
unfolding store_input has_written
store_within b input v fits =
    rw
      (
        take_all (writable_bytes b) input fits,
        copy_to-ok b.buffer b.write_index input (omega (arith, writable_bytes-eq v)),
        le→leb (length input) (writable_bytes b) fits,
      )
      (written-Holds b input v (omega (arith, writable_bytes-eq v)))

-- Whatever `readv` brings, up to the room that it has and the bytes that can be stored, stands behind
-- the unread bytes of a valid buffer, and its count is returned.
pub read_fd-Holds :
    (b : Buffer) (saved : ℕ) (input : List ℕ)
    → IsValid b
    → length input ≤ writable_bytes b + extra_size
    → b.write_index + length input ≤ max_size
    → Returns
        (read_fd b saved (received input))
        (λ r. (r.count ≡ some (length input)) × Holds (contents b ++ input) r.buffer_after)
unfolding read_fd
read_fd-Holds b saved input v h small =
    rw (le→leb (length input) (writable_bytes b + extra_size) h) (
      Returns-bind (store_input b input) _ (Holds (contents b ++ input)) _ stored
        λ after f. (refl, f))
  where
    stored : Returns (store_input b input) (Holds (contents b ++ input))
    stored = elim (dec_le (length input) (writable_bytes b)) [
      | yes fits ↦ store_within b input v fits
      | no over ↦ store_over b input v (omega arith) small
    ]

-- What `readv` may bring into a buffer.
abbrev pub Brings : Buffer → Readv → Type 0
Brings b (failed errno) = Unit {0}
Brings b (received input) =
    (length input ≤ writable_bytes b + extra_size) × (b.write_index + length input ≤ max_size)

pub read_fd-IsValid :
    (b : Buffer) (saved : ℕ) (outcome : Readv)
    → IsValid b
    → Brings b outcome
    → Returns (read_fd b saved outcome) λ r. IsValid r.buffer_after
unfolding read_fd
read_fd-IsValid b saved (failed errno) v brings = v
read_fd-IsValid b saved (received input) v (room, small) =
    Returns-mono (read_fd b saved (received input)) _ _ (read_fd-Holds b saved input v room small)
      λ r k. k.1.valid
