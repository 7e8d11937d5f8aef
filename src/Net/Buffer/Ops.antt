-- ===== src/Net/Buffer/Ops.antt =====
-- What `append`, `retrieve`, `prepend`, `shrink` and the reads do to the unread bytes.
use mathlib.Core.List.{append_assoc, append-nil}
use ham.Base.Slices.{drop_all, drop-take, drop-drop}
use native.Mathlib.Decide.{dec_lt}
use ham.Base.{
  length-append, ap, Returns-mono, ◌∙◌, sym, Returns_of_eq, le→leb, add_size, sub_size, [],
  Returns-bind, drop, ℕ, ◌+◌, ◌-◌, ◌≤◌, ◌≡◌, refl, List, ◌++◌, length, arith, Returns,
}
use ham.Base.Windows.{splice, length-splice, window-splice_after, window-splice_before}
use ham.Net.Buffer.{
  has_written, ensure_writable_bytes, prepend, retrieve_all, max_size, Buffer, append, retrieve,
}
use ham.Net.Buffer.Contents.{
  length-contents, copy_to-ok, IsValid, contents, HasRoom, ensure_writable_bytes-HasRoom,
}

-- A valid buffer whose unread bytes are `xs`.
pub record Holds (xs : List ℕ) (b : Buffer) : Type 0 where
  pub valid : IsValid b
  pub holds : contents b ≡ xs

pub written-Holds :
    (b : Buffer) (d : List ℕ)
    → IsValid b
    → b.write_index + length d ≤ length b.buffer
    → Holds
        (contents b ++ d)
        (has_written (record b { buffer = splice b.buffer b.write_index d }) (length d))
unfolding contents has_written
written-Holds b d v h = record {
  valid = omega (arith, length-splice b.buffer b.write_index d h);
  holds = window-splice_after b.buffer b.read_index b.write_index _ d v.ordered v.within (e v h);
}
  where
    e :
        IsValid b
        → b.write_index + length d ≤ length b.buffer
        → add_size b.write_index (length d) - b.read_index ≡ b.write_index - b.read_index + length d
    e v h = omega arith

-- The bytes `d` were written behind the unread bytes of `b`.
pub record Wrote (b : Buffer) (d : List ℕ) (b' : Buffer) : Type 0 where
  pub state : Holds (contents b ++ d) b'
  pub extent : b'.write_index ≤ b.write_index + length d

pub append-Wrote :
    (b : Buffer) (d : List ℕ)
    → IsValid b
    → b.write_index + length d ≤ max_size
    → Returns (append b d) (Wrote b d)
unfolding append has_written
append-Wrote b d v small =
    Returns-bind (ensure_writable_bytes b (length d)) _ (HasRoom b (length d)) (Wrote b d)
      (ensure_writable_bytes-HasRoom b (length d) v small)
      λ r h. rw (copy_to-ok r.buffer r.write_index d h.fits) (record {
        state = rw (← h.kept) (written-Holds r d h.valid h.fits);
        extent = omega (arith, h.earlier, h.fits, h.valid);
      })

-- `append` to a valid buffer never fails while the bytes can be stored, and adds them behind the
-- unread ones.
pub append-Holds :
    (b : Buffer) (d : List ℕ)
    → IsValid b
    → b.write_index + length d ≤ max_size
    → Returns (append b d) (Holds (contents b ++ d))
append-Holds b d v small =
    Returns-mono (append b d) (Wrote b d) _ (append-Wrote b d v small) λ b' w. w.state

pub Wrote-refl : (b : Buffer) → IsValid b → Wrote b [] b
Wrote-refl b v = record {
  state = record { valid = v; holds = sym (append-nil (contents b)) };
  extent = omega arith;
}

pub Wrote-trans :
    {b b' b'' : Buffer} (xs ys : List ℕ) → Wrote b xs b' → Wrote b' ys b'' → Wrote b (xs ++ ys) b''
Wrote-trans {b} {b'} xs ys w w' = record {
  state = record {
    valid = w'.state.valid;
    holds = w'.state.holds ∙ (ap (λ l. l ++ ys) w.state.holds ∙ append_assoc (contents b) xs ys);
  };
  extent = omega (arith, w.extent, w'.extent, length-append xs ys);
}

retrieve_all-Holds : (b : Buffer) → IsValid b → Holds [] (retrieve_all b)
unfolding retrieve_all contents
retrieve_all-Holds b v = record { valid = omega arith; holds = refl }

skipped-Holds :
    (b : Buffer) (n : ℕ)
    → IsValid b
    → n ≤ b.write_index - b.read_index
    → Holds (drop n (contents b)) (record b { read_index = b.read_index + n })
unfolding contents
skipped-Holds b n v h =
    let e : b.write_index - (b.read_index + n) ≡ b.write_index - b.read_index - n = omega arith in
    record {
      valid = omega arith;
      holds =
          rw (e, ← drop-drop n b.read_index b.buffer)
            (sym (drop-take n (b.write_index - b.read_index) (drop b.read_index b.buffer)));
    }

-- `retrieve` of no more than the unread bytes of a valid buffer drops that many from the front.
pub retrieve-Holds :
    (b : Buffer) (n : ℕ)
    → IsValid b
    → n ≤ length (contents b)
    → Returns (retrieve b n) (Holds (drop n (contents b)))
unfolding retrieve
retrieve-Holds b n v h = elim (dec_lt n (b.write_index - b.read_index)) [
  | yes k ↦
      Returns_of_eq (retrieve b n) (record b { read_index = b.read_index + n }) _
        (ground (arith, length-contents v)) (skipped-Holds b n v (omega arith))
  | no k ↦
      Returns_of_eq (retrieve b n) (retrieve_all b) _ (ground (arith, length-contents v))
        (rw (drop_all n (contents b) (omega (arith, length-contents v))) (retrieve_all-Holds b v))
]

-- `prepend` puts bytes in front of the unread ones of a valid buffer, if they fit before the read index.
pub prepend-Holds :
    (b : Buffer) (d : List ℕ)
    → IsValid b
    → length d ≤ b.read_index
    → Returns (prepend b d) (Holds (d ++ contents b))
unfolding prepend contents
prepend-Holds b d v h =
    let e : sub_size b.read_index (length d) ≡ b.read_index - length d = omega arith in
    rw
      (
        le→leb (length d) b.read_index h,
        e,
        copy_to-ok b.buffer (b.read_index - length d) d (omega arith),
      )
      (record {
        valid = omega (arith, length-splice b.buffer (b.read_index - length d) d (omega arith));
        holds =
            window-splice_before b.buffer b.read_index (b.read_index - length d)
              (b.write_index - b.read_index) (b.write_index - (b.read_index - length d)) d
              (omega arith) (omega arith) (omega arith);
      })
