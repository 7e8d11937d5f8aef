-- ===== src/Net/Http/Context/Lines.antt =====
-- Taking the first line off the unread bytes, as `parseRequest` does in two of its states.
use ham.Net.Buffer.Strings.{take-contents, retrieve_until-Holds}
use ham.Net.Buffer.Contents.{bytes_at-ok, length-contents}
use ham.Net.Buffer.Search.{find_crlf-eq, search_crlf-first, find_crlf, search_crlf}
use ham.Net.Buffer.Ops.{Holds}
use ham.Net.Buffer.{bytes_at, retrieve_until, Buffer}
use ham.Base.{
  length-drop, length-take, length-append, ℕ, suc, ◌+◌, ◌-◌, ◌≤◌, ◌≡◌, ap, some, List, ◌∷◌, arith,
  length, take, drop, ok, Returns,
}

module _ (xs : List ℕ) (i : ℕ) (b : Buffer) (h : Holds xs b) (found : search_crlf xs ≡ some i) where
  pub line_fits : i + 2 ≤ length xs
  line_fits = omega (
    arith,
    ap length (search_crlf-first xs i found).0,
    length-append (take i xs) (13 ∷ 10 ∷ drop (suc (suc i)) xs),
    length-take i xs,
    length-drop (suc (suc i)) xs,
  )

  fits : i + 2 ≤ b.write_index - b.read_index
  fits = omega (arith, line_fits, ap length h.holds, length-contents h.valid)

  pub find_line : find_crlf b ≡ ok (some (b.read_index + i))
  find_line = rw (find_crlf-eq h.valid, h.holds, found)

  pub read_line : bytes_at b b.read_index (b.read_index + i - b.read_index) ≡ ok (take i xs)
  read_line =
      let e : b.read_index + i - b.read_index ≡ i = omega arith in
      let room : b.read_index + i ≤ length b.buffer = omega (arith, h.valid, fits) in
      rw
        (
          e,
          bytes_at-ok b b.read_index i room,
          ← take-contents b i h.valid (omega (arith, fits, length-contents h.valid)),
        )
        (ap (λ l. ok (take i l)) h.holds)

  pub drop_line : Returns (retrieve_until b (b.read_index + i + 2)) (Holds (drop (i + 2) xs))
  drop_line =
      let e : b.read_index + i + 2 ≡ b.read_index + (i + 2) = omega arith in
      rw (e, ← h.holds)
        (retrieve_until-Holds b (i + 2) h.valid (omega (arith, fits, length-contents h.valid)))
