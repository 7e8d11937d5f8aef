-- ===== src/Net/Buffer/Contents.antt =====
-- The unread bytes of a buffer, and how making room keeps them (`makeSpace`, `ensureWritableBytes`).
use ham.Base.{
  le→leb, Returns-bind, lt→ltb, Returns_of_eq, ℕ, ◌+◌, ◌-◌, ◌≤◌, ◌<◌, ◌≡◌, refl, ◌∙◌, List, ◌++◌,
  length, take, replicate, arith, Returns, ok, length-append, length-take, length-replicate,
}
use mathlib.Core.List.{append-nil}
use native.Mathlib.Decide.{dec_le}
use ham.Base.Windows.{
  window, splice, length-splice, length-window, window-splice_before, window-resize,
}
use ham.Net.Buffer.{
  Buffer, max_size, cheap_prepend, readable_bytes, writable_bytes, copy_to, resize, bytes_at,
  make_space, ensure_writable_bytes,
}

pub record IsValid (b : Buffer) : Type 0 where
  pub ordered : b.read_index ≤ b.write_index
  pub within : b.write_index ≤ length b.buffer
  pub room : cheap_prepend ≤ length b.buffer
  pub bounded : length b.buffer ≤ max_size

-- The bytes from `peek()` up to `beginWrite()`.
unfoldable pub contents : Buffer → List ℕ
contents b = window b.buffer b.read_index (b.write_index - b.read_index)

module _ {b : Buffer} (v : IsValid b) where
  pub readable_bytes-eq : readable_bytes b ≡ b.write_index - b.read_index
  unfolding readable_bytes
  readable_bytes-eq = omega arith

  pub writable_bytes-eq : writable_bytes b ≡ length b.buffer - b.write_index
  unfolding writable_bytes
  writable_bytes-eq = omega arith

  pub length-contents : length (contents b) ≡ b.write_index - b.read_index
  unfolding contents
  length-contents = length-window b.buffer b.read_index (b.write_index - b.read_index) (omega arith)

pub resize-ok :
    (s : List ℕ) (n : ℕ) → n ≤ max_size → resize s n ≡ ok (take n s ++ replicate (n - length s) 0)
unfolding resize
resize-ok s n h = ground arith

pub copy_to-ok :
    (s : List ℕ) (i : ℕ) (d : List ℕ) → i + length d ≤ length s → copy_to s i d ≡ ok (splice s i d)
unfolding copy_to
copy_to-ok s i d h = ground arith

pub bytes_at-ok :
    (b : Buffer) (i n : ℕ) → i + n ≤ length b.buffer → bytes_at b i n ≡ ok (window b.buffer i n)
unfolding bytes_at
bytes_at-ok b i n h = ground arith

pub bytes_at-contents :
    (b : Buffer) → IsValid b → bytes_at b b.read_index (readable_bytes b) ≡ ok (contents b)
unfolding contents
bytes_at-contents b v =
    rw (readable_bytes-eq v) (
      bytes_at-ok b b.read_index (b.write_index - b.read_index)
        (omega (arith, v.ordered, v.within)))

-- The same unread bytes, and `len` bytes of room behind them.
pub record HasRoom (b : Buffer) (len : ℕ) (b' : Buffer) : Type 0 where
  pub valid : IsValid b'
  pub kept : contents b' ≡ contents b
  pub fits : b'.write_index + len ≤ length b'.buffer
  pub earlier : b'.write_index ≤ b.write_index

module _ (b : Buffer) (len : ℕ) (v : IsValid b) (small : b.write_index + len ≤ max_size) where
  abbrev grown : Buffer
  grown =
      let n = b.write_index + len in
      record b { buffer = take n b.buffer ++ replicate (n - length b.buffer) 0 }

  length-grown : length b.buffer < b.write_index + len → length grown.buffer ≡ b.write_index + len
  length-grown h =
      let n = b.write_index + len in
      omega (
        arith,
        length-append (take n b.buffer) (replicate (n - length b.buffer) 0),
        length-take n b.buffer,
        length-replicate {A = ℕ} (n - length b.buffer) 0,
      )

  grown-HasRoom : length b.buffer < b.write_index + len → HasRoom b len grown
  unfolding contents
  grown-HasRoom h = record {
    valid = omega (arith, length-grown h);
    kept =
        window-resize b.buffer (replicate (b.write_index + len - length b.buffer) 0) b.read_index
          (b.write_index - b.read_index) (b.write_index + len) (omega arith) (omega arith);
    fits = omega (arith, length-grown h);
    earlier = omega arith;
  }

  abbrev moved : Buffer
  moved = record b {
    buffer = splice b.buffer cheap_prepend (contents b);
    read_index = cheap_prepend;
    write_index = cheap_prepend + (b.write_index - b.read_index);
  }

  moved-HasRoom :
      cheap_prepend < b.read_index
      → b.write_index + len ≤ length b.buffer + b.read_index - cheap_prepend
      → HasRoom b len moved
  unfolding contents
  moved-HasRoom h k =
      let keeps = length-splice b.buffer cheap_prepend (contents b) (omega (arith, unread)) in
      record {
        valid = omega (arith, keeps);
        kept =
            window-splice_before b.buffer (cheap_prepend + length (contents b)) cheap_prepend 0
              (cheap_prepend + (b.write_index - b.read_index) - cheap_prepend) (contents b) refl
              (omega (arith, unread)) (omega (arith, unread))
            ∙ append-nil (contents b);
        fits = omega (arith, keeps);
        earlier = omega arith;
      }
    where
      unread : length (contents b) ≡ b.write_index - b.read_index
      unread = length-contents v

  make_space-grow :
      length b.buffer + b.read_index < b.write_index + len + cheap_prepend
      → make_space b len ≡ ok grown
  unfolding make_space
  make_space-grow h = ground (arith, resize-ok b.buffer (b.write_index + len))

  make_space-move :
      cheap_prepend < b.read_index
      → b.write_index + len + cheap_prepend ≤ length b.buffer + b.read_index
      → make_space b len ≡ ok moved
  unfolding make_space contents
  make_space-move h k =
      let unread = length-contents v in
      ground (
        arith,
        unread,
        bytes_at-ok b b.read_index (b.write_index - b.read_index),
        copy_to-ok b.buffer cheap_prepend (contents b),
      )

  make_space-HasRoom :
      length b.buffer < b.write_index + len → Returns (make_space b len) (HasRoom b len)
  make_space-HasRoom h =
      elim (dec_le (b.write_index + len + cheap_prepend) (length b.buffer + b.read_index)) [
        | yes k ↦ rw (make_space-move (omega arith) k) (moved-HasRoom (omega arith) (omega arith))
        | no k ↦ rw (make_space-grow (omega arith)) (grown-HasRoom h)
      ]

  -- Making room never fails an assertion and keeps the unread bytes.
  pub ensure_writable_bytes-HasRoom : Returns (ensure_writable_bytes b len) (HasRoom b len)
  unfolding ensure_writable_bytes
  ensure_writable_bytes-HasRoom = elim (dec_le (b.write_index + len) (length b.buffer)) [
    | yes k ↦
        Returns_of_eq (ensure_writable_bytes b len) b (HasRoom b len)
          (ground (arith, writable_bytes-eq v))
          (record { valid = v; kept = refl; fits = k; earlier = omega arith })
    | no k ↦ rw (lt→ltb (writable_bytes b) len (omega (arith, writable_bytes-eq v))) (
        Returns-bind (make_space b len) _ (HasRoom b len) (HasRoom b len)
          (make_space-HasRoom (omega arith))
          λ b' r.
            rw (le→leb len (writable_bytes b') (omega (arith, writable_bytes-eq r.valid, r.fits)))
              r)
  ]
