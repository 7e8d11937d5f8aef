-- ===== src/Net/Buffer/Ints/NetworkOrder.antt =====
-- Integers go out highest byte first, and come back as they were.
use ham.Net.Buffer.Strings.{take-contents}
use ham.Base.Slices.{drop-append_exact, take_all, take-append_le}
use ham.Net.Buffer.Contents.{bytes_at-ok, length-contents, readable_bytes-eq, IsValid, contents}
use ham.Net.Buffer.Ops.{retrieve-Holds, append-Holds, Holds}
use ham.Net.Buffer.{retrieve, append, readable_bytes, max_size, Buffer}
use native.Mathlib.Nat.{pow-suc}
use mathlib.Core.List.{reverse-reverse, reverse-cons}
use ham.Net.Buffer.Ints.{
  peek_int8, peek_int16, peek_int32, peek_int64, read_int8, read_int16, read_int32, read_int64,
  append_int8, append_int16, append_int32, peek_raw, append_int64, network_to_host, from_memory,
  host_to_network, memory_image,
}
use ham.Base.{
  Returns-bind, le→leb, length-append, reverse, length-reverse, ℕ, zero, suc, ◌+◌, ◌*◌, ◌/◌, ◌%◌,
  ◌^◌, ◌≤◌, ◌<◌, ◌≡◌, refl, sym, ap, ◌∙◌, List, [], ◌∷◌, ◌++◌, arith, length, take, drop, ok,
  Returns,
}

-- The bytes of `x` highest first: the order of the network.
unfoldable pub big_endian : ℕ → ℕ → List ℕ
big_endian zero x = []
big_endian (suc w) x = big_endian w (x / 256) ++ x % 256 ∷ []

big_endian-eq-reverse : (w x : ℕ) → big_endian w x ≡ reverse (memory_image w x)
unfolding big_endian memory_image
big_endian-eq-reverse zero x = refl
big_endian-eq-reverse (suc w) x =
    rw (big_endian-eq-reverse w (x / 256), reverse-cons (x % 256) (memory_image w (x / 256)))

length-memory_image : (w x : ℕ) → length (memory_image w x) ≡ w
unfolding memory_image
length-memory_image zero x = refl
length-memory_image (suc w) x = ap suc (length-memory_image w (x / 256))

-- Every entry is a byte.
abbrev AreBytes : List ℕ → Type 0
AreBytes [] = Unit {0}
AreBytes (b ∷ bs) = (b < 256) × AreBytes bs

AreBytes-append : (xs ys : List ℕ) → AreBytes xs → AreBytes ys → AreBytes (xs ++ ys)
AreBytes-append [] ys h k = k
AreBytes-append (x ∷ xs) ys h k = (h.0, AreBytes-append xs ys h.1 k)

big_endian-AreBytes : (w x : ℕ) → AreBytes (big_endian w x)
unfolding big_endian
big_endian-AreBytes zero x = tt
big_endian-AreBytes (suc w) x =
    AreBytes-append (big_endian w (x / 256)) (x % 256 ∷ []) (big_endian-AreBytes w (x / 256))
      (omega arith, tt)

memory_image-from_memory :
    (bs : List ℕ) → AreBytes bs → memory_image (length bs) (from_memory bs) ≡ bs
unfolding memory_image from_memory
memory_image-from_memory [] h = refl
memory_image-from_memory (b ∷ bs) h =
    let low : (b + 256 * from_memory bs) % 256 ≡ b = omega arith in
    let high : (b + 256 * from_memory bs) / 256 ≡ from_memory bs = omega arith in
    rw (low, high, memory_image-from_memory bs h.1)

length-big_endian : (w x : ℕ) → length (big_endian w x) ≡ w
length-big_endian w x =
    rw (big_endian-eq-reverse w x, length-reverse (memory_image w x)) (length-memory_image w x)

-- The swapped integer lies in memory in network order.
pub memory_image-host_to_network : (w x : ℕ) → memory_image w (host_to_network w x) ≡ big_endian w x
unfolding host_to_network
memory_image-host_to_network w x =
    let image = memory_image-from_memory (big_endian w x) (big_endian-AreBytes w x) in
    rw (← big_endian-eq-reverse w x) (rw (length-big_endian w x) at image)

from_memory-memory_image : (w x : ℕ) → x < 256 ^ w → from_memory (memory_image w x) ≡ x
unfolding memory_image from_memory
from_memory-memory_image zero x h = omega arith
from_memory-memory_image (suc w) x h =
    omega (arith, from_memory-memory_image w (x / 256) (omega (arith, pow-suc 256 w)))

network_to_host-from_memory :
    (w x : ℕ) → x < 256 ^ w → network_to_host w (from_memory (big_endian w x)) ≡ x
unfolding network_to_host
network_to_host-from_memory w x h =
    let image = memory_image-from_memory (big_endian w x) (big_endian-AreBytes w x) in
    let image' = rw (length-big_endian w x) at image in
    rw (image', big_endian-eq-reverse w x, reverse-reverse) (from_memory-memory_image w x h)

-- Swapping twice gives the integer back.
pub network_to_host-host_to_network :
    (w x : ℕ) → x < 256 ^ w → network_to_host w (host_to_network w x) ≡ x
unfolding network_to_host
network_to_host-host_to_network w x h =
    rw (memory_image-host_to_network w x, big_endian-eq-reverse w x, reverse-reverse)
      (from_memory-memory_image w x h)

peek_raw-eq :
    (w x : ℕ) (rest : List ℕ) (b : Buffer)
    → Holds (big_endian w x ++ rest) b
    → peek_raw w b ≡ ok (from_memory (big_endian w x))
unfolding peek_raw
peek_raw-eq w x rest b h =
    let long : length (contents b) ≡ w + length rest =
      ap length h.holds
      ∙ (length-append (big_endian w x) rest ∙ ap (λ k. k + length rest) (length-big_endian w x)) in
    let front : take w (contents b) ≡ big_endian w x =
      ap (take w) h.holds
      ∙ (take-append_le w (big_endian w x) rest (omega (arith, length-big_endian w x))
          ∙ take_all w (big_endian w x) (omega (arith, length-big_endian w x))) in
    rw (
      le→leb w (readable_bytes b)
          (omega (arith, readable_bytes-eq h.valid, length-contents h.valid, long)),
      bytes_at-ok b b.read_index w (omega (arith, h.valid, length-contents h.valid, long)),
      ← take-contents b w h.valid (omega (arith, long)),
      front,
    )

-- `appendInt64`, `appendInt32`, `appendInt16` and `appendInt8` add the bytes of the integer behind
-- the unread ones of a valid buffer, highest first, if eight more bytes can be stored.
pub append_int-Holds :
    (b : Buffer) (x : ℕ)
    → IsValid b
    → b.write_index + 8 ≤ max_size
    → Returns (append_int64 b x) (Holds (contents b ++ big_endian 8 x))
      × Returns (append_int32 b x) (Holds (contents b ++ big_endian 4 x))
      × Returns (append_int16 b x) (Holds (contents b ++ big_endian 2 x))
      × Returns (append_int8 b x) (Holds (contents b ++ big_endian 1 x))
unfolding append_int64 append_int32 append_int16 append_int8
append_int-Holds b x v h = (
  sent 8 (memory_image-host_to_network 8 x) (omega arith),
  sent 4 (memory_image-host_to_network 4 x) (omega arith),
  sent 2 (memory_image-host_to_network 2 x) (omega arith),
  sent 1 (unfold memory_image big_endian in refl) (omega arith),
)
  where
    sent :
        (w : ℕ) {d : List ℕ}
        → d ≡ big_endian w x
        → w ≤ 8
        → Returns (append b d) (Holds (contents b ++ big_endian w x))
    sent w e k = rw e (append-Holds b (big_endian w x) v (omega (arith, length-big_endian w x, h)))

module _ (b : Buffer) (x : ℕ) (rest : List ℕ) where
  -- What `peek` and `retrieve` give for an integer of `w` bytes.
  taken : (w : ℕ) → Holds (big_endian w x ++ rest) b → Returns (retrieve b w) (Holds rest)
  taken w h =
      let len = length-big_endian w x in
      let after : drop w (contents b) ≡ rest =
        ap (drop w) h.holds ∙ drop-append_exact w (big_endian w x) rest (sym len) in
      let room : w ≤ length (contents b) =
        omega (arith, ap length h.holds, length-append (big_endian w x) rest, len) in
      rw after at (retrieve-Holds b w h.valid room)

  -- A 64-bit integer in network order is read as it was, and what follows it stays.
  pub read_int64-Holds :
      Holds (big_endian 8 x ++ rest) b
      → x < 2 ^ 64
      → Returns (read_int64 b) (λ r. (r.0 ≡ x) × Holds rest r.1)
  unfolding read_int64 peek_int64
  read_int64-Holds h small =
      rw (peek_raw-eq 8 x rest b h, network_to_host-from_memory 8 x small)
        (Returns-bind (retrieve b 8) _ (Holds rest) _ (taken 8 h) λ after k. (refl, k))

  -- The same for 32 bits.
  pub read_int32-Holds :
      Holds (big_endian 4 x ++ rest) b
      → x < 2 ^ 32
      → Returns (read_int32 b) (λ r. (r.0 ≡ x) × Holds rest r.1)
  unfolding read_int32 peek_int32
  read_int32-Holds h small =
      rw (peek_raw-eq 4 x rest b h, network_to_host-from_memory 4 x small)
        (Returns-bind (retrieve b 4) _ (Holds rest) _ (taken 4 h) λ after k. (refl, k))

  -- The same for 16 bits.
  pub read_int16-Holds :
      Holds (big_endian 2 x ++ rest) b
      → x < 2 ^ 16
      → Returns (read_int16 b) (λ r. (r.0 ≡ x) × Holds rest r.1)
  unfolding read_int16 peek_int16
  read_int16-Holds h small =
      rw (peek_raw-eq 2 x rest b h, network_to_host-from_memory 2 x small)
        (Returns-bind (retrieve b 2) _ (Holds rest) _ (taken 2 h) λ after k. (refl, k))

  -- A byte is read with no swap.
  pub read_int8-Holds :
      Holds (big_endian 1 x ++ rest) b
      → x < 2 ^ 8
      → Returns (read_int8 b) (λ r. (r.0 ≡ x) × Holds rest r.1)
  unfolding read_int8 peek_int8
  read_int8-Holds h small = rw (peek_raw-eq 1 x rest b h) (
      Returns-bind (retrieve b 1) _ (Holds rest) _ (taken 1 h)
        λ after k. (unfold big_endian from_memory in omega arith, k))
